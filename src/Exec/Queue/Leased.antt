-- ===== src/Exec/Queue/Leased.antt =====
-- The lease of one command (v2/src/execution-core/queue.ts).
use text.Mathlib.TextEquality.{eq_iff}
use text.Mathlib.TextPositions.{eq_refl}
use hashi_bot.Base.{
  ◌&&◌, Option-cases, String, ◌≡◌, refl, ap, ◌∙◌, Bool, true, false, some, List, [], ◌∷◌, find, All,
  arith, inl, inr,
}
use hashi_bot.Base.Number.{Number}
use hashi_bot.Exec.Types.{ExecutionCommand, CommandStatus, Store, Clock}
use hashi_bot.Exec.Status.{is_waiting, same_status, same_status-is_waiting}
use hashi_bot.Exec.Commands.{has_id, expected_command}
use hashi_bot.Exec.Repository.{assigned, compare_and_set_command}
use hashi_bot.Exec.Queue.{QueueConfig, is_worker, lease_to, push_found, try_lease, lease_each}
use hashi_bot.Exec.Queue.Found.{find-update_first, find-id}

module _ {N : Type 0} ⦃num : Number N⦄ where
  -- The command waits.
  abbrev pub waits : ExecutionCommand N → Bool
  waits c = is_waiting c.status

  -- What is found under the identifier passes the test.
  abbrev pub live : (ExecutionCommand N → Bool) → String → Store N → Bool
  live test id s = expected_command test (find (has_id id) s.commands)

  -- Leased, to the worker.
  abbrev pub is_leased_by : String → ExecutionCommand N → Bool
  is_leased_by worker_id c =
      same_status c.status CommandStatus.leased && is_worker worker_id c.leased_by

  -- A command of the answer: it waited before, and now it is the one that is found, held by the worker.
  abbrev pub Granted : String → Store N → Store N → ExecutionCommand N → Type 0
  Granted worker_id s next c =
      (live waits c.command_id s ≡ true)
      × (find (has_id c.command_id) next.commands ≡ some c)
      × (is_leased_by worker_id c ≡ true)

  pub leased-waits :
      (worker_id : String) (c : ExecutionCommand N)
      → is_leased_by worker_id c ≡ true
      → waits c ≡ false
  leased-waits worker_id c e = ground (arith, same_status-is_waiting c.status CommandStatus.leased)

module _ {N : Type 0} ⦃num : Number N⦄ (clock : Clock N) (config : QueueConfig N) where
  -- A command that does not wait is left as it is.
  try_lease-kept :
      (now : N) (worker_id id : String) (c d : ExecutionCommand N) (s : Store N)
      → waits c ≡ true
      → waits d ≡ false
      → find (has_id id) s.commands ≡ some d
      → find (has_id id) (try_lease clock config now worker_id c s).1.commands ≡ some d
  unfolding compare_and_set_command
  try_lease-kept now worker_id id c d s w v e = ground (
    arith,
    eq_iff id c.command_id,
    same_status-is_waiting d.status c.status,
    find-update_first id c.command_id (assigned clock now (lease_to clock config now worker_id))
        s.commands (λ c. refl),
  )

  pub lease_each-kept :
      (now : N) (worker_id id : String) (d : ExecutionCommand N) (cs : List (ExecutionCommand N))
      (s : Store N)
      → All (λ c. waits c ≡ true) cs
      → waits d ≡ false
      → find (has_id id) s.commands ≡ some d
      → find (has_id id) (lease_each clock config now worker_id cs s).1.commands ≡ some d
  unfolding lease_each
  lease_each-kept now worker_id id d [] s ws v e = e
  lease_each-kept now worker_id id d (c ∷ cs) s (w, ws) v e =
      lease_each-kept now worker_id id d cs (try_lease clock config now worker_id c s).1 ws v
        (try_lease-kept now worker_id id c d s w v e)

  -- A command that waits after a compare-and-set waited before.
  pub try_lease-waits :
      (now : N) (worker_id id : String) (c : ExecutionCommand N) (s : Store N)
      → live waits id (try_lease clock config now worker_id c s).1 ≡ true
      → live waits id s ≡ true
  unfolding compare_and_set_command
  try_lease-waits now worker_id id c s e = ground (
    arith,
    eq_iff id c.command_id,
    find-update_first id c.command_id (assigned clock now (lease_to clock config now worker_id))
        s.commands (λ c. refl),
  )

  pub try_lease-grants :
      (now : N) (worker_id : String) (c : ExecutionCommand N) (s : Store N)
      → waits c ≡ true
      → (try_lease clock config now worker_id c s).0 ≡ true
      → (live waits c.command_id s ≡ true)
        × (live (is_leased_by worker_id) c.command_id (try_lease clock config now worker_id c s).1
            ≡ true)
  unfolding compare_and_set_command
  try_lease-grants now worker_id c s w e =
      elim (Option-cases (find (has_id c.command_id) s.commands)) [
        | inl n ↦ cc (rw n at e)
        | inr (d, f) ↦ ground (
          arith,
          eq_refl c.command_id,
          eq_refl worker_id,
          same_status-is_waiting d.status c.status,
          find-update_first c.command_id c.command_id
              (assigned clock now (lease_to clock config now worker_id)) s.commands (λ c. refl),
        )
      ]

  pub Granted-push :
      (now : N) (worker_id : String) (c : ExecutionCommand N) (s mid last : Store N)
      (rest : List (ExecutionCommand N))
      → live waits c.command_id s ≡ true
      → live (is_leased_by worker_id) c.command_id mid ≡ true
      → ((d : ExecutionCommand N)
          → waits d ≡ false
          → find (has_id c.command_id) mid.commands ≡ some d
          → find (has_id c.command_id) last.commands ≡ some d)
      → All (Granted worker_id s last) rest
      → All (Granted worker_id s last) (push_found (find (has_id c.command_id) mid.commands) rest)
  Granted-push now worker_id c s mid last rest w l k hs =
      elim (Option-cases (find (has_id c.command_id) mid.commands)) [
        | inl n ↦ cc (rw n at l)
        | inr (d, f) ↦
            let held : is_leased_by worker_id d ≡ true = rw f at l in
            let same : d.command_id ≡ c.command_id = find-id c.command_id mid.commands d f in
            let found : find (has_id d.command_id) last.commands ≡ some d =
              ap (λ id. find (has_id id) last.commands) same
              ∙ k d (leased-waits worker_id d held) f in
            rw f ((rw same w, found, held), hs)
      ]
