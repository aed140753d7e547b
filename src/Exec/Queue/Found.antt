-- ===== src/Exec/Queue/Found.antt =====
-- What is found under an identifier after the queue's writes (v2/src/execution-core).
use text.Mathlib.Text.{◌==◌}
use text.Mathlib.TextEquality.{eq_iff}
use hashi_bot.Base.{
  String, ◌≡◌, refl, Option, none, some, List, [], ◌∷◌, find, update_first, remove_first, arith,
  if◌then◌else◌,
}
use hashi_bot.Base.Number.{Number}
use hashi_bot.Exec.Types.{ExecutionCommand}
use hashi_bot.Exec.Commands.{has_id}

abbrev pub map_option : {A B : Type 0} → (A → B) → Option A → Option B
map_option f none = none
map_option f (some a) = some (f a)

module _ {N : Type 0} ⦃num : Number N⦄ where
  -- A write under one identifier is seen under it, and not under another.
  pub find-update_first :
      (id other : String) (f : ExecutionCommand N → ExecutionCommand N)
      (cs : List (ExecutionCommand N))
      → ((c : ExecutionCommand N) → (f c).command_id ≡ c.command_id)
      → find (has_id id) (update_first (has_id other) f cs)
        ≡ (if id == other then map_option f (find (has_id id) cs) else find (has_id id) cs)
  find-update_first id other f [] k = ground arith
  find-update_first id other f (c ∷ cs) k = ground (
    arith,
    k c,
    eq_iff id other,
    eq_iff c.command_id id,
    eq_iff c.command_id other,
    eq_iff (f c).command_id id,
    find-update_first id other f cs k,
  )

  -- What is found under an identifier has it.
  pub find-id :
      (id : String) (cs : List (ExecutionCommand N)) (c : ExecutionCommand N)
      → find (has_id id) cs ≡ some c
      → c.command_id ≡ id
  find-id id [] c e = cc e
  find-id id (d ∷ cs) c e = ground (arith, eq_iff d.command_id id, find-id id cs c)

  -- A removal under an identifier forgets a write under it.
  pub remove-update :
      (id : String) (f : ExecutionCommand N → ExecutionCommand N) (cs : List (ExecutionCommand N))
      → ((c : ExecutionCommand N) → (f c).command_id ≡ c.command_id)
      → remove_first (has_id id) (update_first (has_id id) f cs) ≡ remove_first (has_id id) cs
  remove-update id f [] k = refl
  remove-update id f (c ∷ cs) k = ground (arith, k c, remove-update id f cs k)
