-- ===== src/Exec/Accepted.antt =====
-- The queue as a set of keys: which commands of a sequence it accepts (v2/src/execution-core/queue.ts).
use text.Mathlib.Text.{◌==◌}
use text.Mathlib.TextEquality.{eq_iff}
use hashi_bot.Base.{
  ◌||◌, not, includes, exists, exists-append, is_some, String, ◌≡◌, refl, ◌∙◌, Bool, true, false,
  Option-cases, none, List, [], ◌∷◌, map, All, arith, Bool-cases, inl, inr,
}
use hashi_bot.Base.Number.{Number}
use hashi_bot.Base.Dict.{lookup, is_some-set, All-set, All-lookup}
use hashi_bot.Exec.Types.{ExecutionCommand, IdempotencyRecord, Store, Clock}
use hashi_bot.Exec.Commands.{has_id, insert_command}
use hashi_bot.Exec.Repository.{is_reserved, reserve_idempotency}
use hashi_bot.Exec.Queue.{enqueue}
use hashi_bot.Exec.Reserved.{empty}

-- The specification: of a sequence of keys, those that have not been seen before are accepted.
abbrev pub accept : List String → List String → List Bool
accept seen [] = []
accept seen (k ∷ ks) = not (includes seen k) ∷ accept (k ∷ seen) ks

module _ {N : Type 0} ⦃num : Number N⦄ (clock : Clock N) where
  -- Commands enqueued one after the other, each at its time: what `enqueue` answers, and the store.
  abbrev pub enqueue_all : List (N × ExecutionCommand N) → Store N → List Bool × Store N
  enqueue_all [] s = ([], s)
  enqueue_all ((now, c) ∷ cs) s =
      let (result, next) = enqueue clock now c s in
      let (answers, last) = enqueue_all cs next in (result.enqueued ∷ answers, last)

  abbrev pub key_of : N × ExecutionCommand N → String
  key_of (now, c) = c.idempotency_key

  -- No two commands of the sequence have the same identifier.
  abbrev pub Distinct : List (N × ExecutionCommand N) → Type 0
  Distinct [] = Unit
  Distinct ((now, c) ∷ cs) = All (λ d. (c.command_id == d.1.command_id) ≡ false) cs × Distinct cs

  -- No live command has the identifier of one of the sequence.
  abbrev Unused : Store N → List (N × ExecutionCommand N) → Type 0
  Unused s = All (λ d. exists (has_id d.1.command_id) s.commands ≡ false)

  abbrev Endless : Store N → Type 0
  Endless s = All (λ entry. entry.1.expires_at ≡ none) s.idempotency_records

  -- The keys seen are those with a record, and those of the live commands are among them.
  record Seen (seen : List String) (s : Store N) : Type 0 where
    endless : Endless s
    recorded : (k : String) → includes seen k ≡ is_some (lookup k s.idempotency_records)
    held :
        (k : String)
        → exists (λ c. c.idempotency_key == k) s.commands ≡ true
        → includes seen k ≡ true

  is_reserved-Endless :
      (now : N) (k : String) (s : Store N)
      → Endless s
      → is_reserved clock now (lookup k s.idempotency_records)
        ≡ is_some (lookup k s.idempotency_records)
  is_reserved-Endless now k s h = elim (Option-cases (lookup k s.idempotency_records)) [
    | inl n ↦ rw n refl
    | inr (r, e) ↦ rw (e, All-lookup (λ r. r.expires_at ≡ none) k s.idempotency_records r h e) refl
  ]

  abbrev record_of : N → ExecutionCommand N → IdempotencyRecord
  record_of now c = record {
    command_id = c.command_id;
    created_at = clock.iso now;
    expires_at = none;
  }

  enqueue-answer :
      (now : N) (c : ExecutionCommand N) (seen : List String) (s : Store N)
      → Seen seen s
      → exists (has_id c.command_id) s.commands ≡ false
      → (enqueue clock now c s).0.enqueued ≡ not (includes seen c.idempotency_key)
  unfolding enqueue reserve_idempotency insert_command
  enqueue-answer now c seen s h u =
      let k = c.idempotency_key in
      let fresh = exists_either c.command_id k s.commands u in
      ground (arith, is_reserved-Endless now k s h.endless, h.recorded k, h.held k, fresh)
    where
      exists_either :
          (id k : String) (cs : List (ExecutionCommand N))
          → exists (has_id id) cs ≡ false
          → exists (λ d. d.command_id == id || d.idempotency_key == k) cs
            ≡ exists (λ d. d.idempotency_key == k) cs
      exists_either id k [] u = refl
      exists_either id k (d ∷ cs) u = ground (arith, exists_either id k cs)

  enqueue-Seen :
      (now : N) (c : ExecutionCommand N) (seen : List String) (s : Store N)
      → Seen seen s
      → Seen (c.idempotency_key ∷ seen) (enqueue clock now c s).1
  unfolding enqueue reserve_idempotency insert_command
  enqueue-Seen now c seen s h =
      elim (Bool-cases (is_some (lookup c.idempotency_key s.idempotency_records))) [
        | inl t ↦
            let refused = is_reserved-Endless now c.idempotency_key s h.endless ∙ t in
            rw refused (record {
              endless = h.endless;
              recorded = λ k. ground (arith, t, h.recorded k, eq_iff c.idempotency_key k);
              held = λ k e. ground (arith, h.held k e);
            })
        | inr t ↦
            let granted = is_reserved-Endless now c.idempotency_key s h.endless ∙ t in
            let added =
              All-set (λ r. r.expires_at ≡ none) c.idempotency_key (record_of now c)
                s.idempotency_records refl h.endless in
            rw granted
              (elim (Bool-cases (
                exists (λ d. d.command_id == c.command_id || d.idempotency_key == c.idempotency_key)
                  s.commands)) [
                    | inl e ↦ rw e (record {
                      endless = added;
                      recorded = λ k. ground (
                        arith,
                        h.recorded k,
                        is_some-set k c.idempotency_key (record_of now c) s.idempotency_records,
                      );
                      held = λ k e. ground (arith, h.held k e);
                    })
                    | inr e ↦ rw e (record {
                      endless = added;
                      recorded = λ k. ground (
                        arith,
                        h.recorded k,
                        is_some-set k c.idempotency_key (record_of now c) s.idempotency_records,
                      );
                      held = λ k e. ground (
                        arith,
                        e,
                        h.held k,
                        exists-append (λ d. d.idempotency_key == k) s.commands (c ∷ []),
                      );
                    })
                  ])
      ]

  enqueue-Unused :
      (now : N) (c : ExecutionCommand N) (s : Store N) (cs : List (N × ExecutionCommand N))
      → All (λ d. (c.command_id == d.1.command_id) ≡ false) cs
      → Unused s cs
      → Unused (enqueue clock now c s).1 cs
  unfolding enqueue reserve_idempotency insert_command
  enqueue-Unused now c s [] ds us = tt
  enqueue-Unused now c s (d ∷ cs) (e, ds) (u, us) = (
    ground (arith, e, u, exists-append (has_id d.1.command_id) s.commands (c ∷ [])),
    enqueue-Unused now c s cs ds us,
  )

  enqueue_all-accept :
      (cs : List (N × ExecutionCommand N)) (seen : List String) (s : Store N)
      → Seen seen s
      → Unused s cs
      → Distinct cs
      → (enqueue_all cs s).0 ≡ accept seen (map key_of cs)
  enqueue_all-accept [] seen s h us ds = refl
  enqueue_all-accept ((now, c) ∷ cs) seen s h (u, us) (d, ds) =
      let next = (enqueue clock now c s).1 in
      cc (
        enqueue-answer now c seen s h u,
        enqueue_all-accept cs (c.idempotency_key ∷ seen) next (enqueue-Seen now c seen s h)
            (enqueue-Unused now c s cs d us) ds,
      )

  all-Unused : (cs : List (N × ExecutionCommand N)) → Unused empty cs
  all-Unused [] = tt
  all-Unused (c ∷ cs) = (refl, all-Unused cs)

  -- Commands with distinct identifiers, enqueued in an empty store one after the other, are accepted as the
  -- specification says: exactly those whose idempotency key no earlier one has.
  pub enqueue_all-first :
      (cs : List (N × ExecutionCommand N))
      → Distinct cs
      → (enqueue_all cs empty).0 ≡ accept [] (map key_of cs)
  enqueue_all-first cs ds =
      enqueue_all-accept cs [] empty
        (record { endless = tt; recorded = λ k. refl; held = λ k e. cc e }) (all-Unused cs) ds
