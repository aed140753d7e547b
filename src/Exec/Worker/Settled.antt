-- ===== src/Exec/Worker/Settled.antt =====
-- What becomes of a command that a worker processes (v2/src/execution-core/worker.ts).
use text.Mathlib.TextEquality.{eq_iff}
use text.Mathlib.TextPositions.{eq_refl}
use hashi_bot.Base.{
  ◌⊎◌, ℕ, suc, ltb, ◌||◌, exists, exists-append, String, ◌≡◌, refl, ◌∙◌, Bool, true, Option,
  Option-cases, is_some, none, some, [], ◌∷◌, find, arith, Bool-cases, inl, inr, or_else,
}
use hashi_bot.Base.Number.{Number, int, ◌+◌, ◌*◌}
use hashi_bot.Exec.Types.{
  ExecutionCommand, CommandStatus, FailureCategory, ExecutionEventType, AdapterResult, Store, Clock,
}
use hashi_bot.Exec.Status.{same_status}
use hashi_bot.Exec.Commands.{
  has_id, expected_command, move_to_dead_letter, save_worker_state, record_verification,
}
use hashi_bot.Exec.Repository.{assigned, update_command, publish}
use hashi_bot.Exec.Queue.{
  QueueConfig, is_fatal, mark, mark_as, give_up, retry_later, schedule_retry,
}
use hashi_bot.Exec.Queue.Found.{find-update_first, find-id}
use hashi_bot.Exec.Key.{platform_text}
use hashi_bot.Exec.Worker.{
  Outcome, Ending, ended, erred, erred_without_value, ExecutionAdapter, rejects, classify_failure,
  not_false, heartbeat, advance, acknowledge, conclude, find_adapter, call_adapter, caught, begin,
  process,
}

module _ {N : Type 0} ⦃num : Number N⦄ where
  abbrev pub is_live : String → Store N → Bool
  is_live id s = is_some (find (has_id id) s.commands)

  -- Completed, or waiting for its next try.
  abbrev pub is_settled : ExecutionCommand N → Bool
  is_settled c =
      same_status c.status CommandStatus.completed
      || same_status c.status CommandStatus.retry_scheduled

  -- The command is live and settled, or it is among the dead letters.
  abbrev pub settled : String → Store N → Bool
  settled id s =
      expected_command is_settled (find (has_id id) s.commands) || exists (has_id id) s.dead_letters

  -- The adapter that is found throws null or undefined for the command, in some store.
  abbrev pub ThrewNothing : Option (ExecutionAdapter N) → ExecutionCommand N → Type 0
  ThrewNothing none c = ⊥
  ThrewNothing (some a) c = (s : Store N) × ((a.execute c s).0 ≡ Outcome.threw_nothing)

module _ {N : Type 0} ⦃num : Number N⦄ (clock : Clock N) where
  mark_as-live :
      (now : N) (id : String) (status : CommandStatus) (s : Store N)
      → is_live id s ≡ true
      → is_live id (mark_as clock now id status s) ≡ true
  unfolding mark update_command
  mark_as-live now id status s l = ground (
    arith,
    eq_refl id,
    find-update_first id id (assigned clock now (λ c. record c { status = status })) s.commands
        (λ c. refl),
  )

  mark_as-completed :
      (now : N) (id : String) (s : Store N)
      → is_live id s ≡ true
      → settled id (mark_as clock now id CommandStatus.completed s) ≡ true
  unfolding mark update_command
  mark_as-completed now id s l = ground (
    arith,
    eq_refl id,
    find-update_first id id
        (assigned clock now (λ c. record c { status = CommandStatus.completed })) s.commands
        (λ c. refl),
  )

  give_up-settled :
      (now : N) (id : String) (count : ℕ) (reason : Option String) (category : FailureCategory)
      (s : Store N)
      → is_live id s ≡ true
      → settled id (give_up clock now id count reason category s) ≡ true
  unfolding mark update_command move_to_dead_letter
  give_up-settled now id count reason category s l =
      let f : ExecutionCommand N → ExecutionCommand N = assigned clock now (λ c. record c {
        status = CommandStatus.dead_lettered;
        retry_count = count;
        failure_reason = reason;
        failure_category = some category;
      }) in
      elim (Option-cases (find (has_id id) s.commands)) [
        | inl n ↦ cc (rw n at l)
        | inr (c, e) ↦ ground (
          arith,
          e,
          eq_refl id,
          eq_iff c.command_id id,
          find-id id s.commands c e,
          find-update_first id id f s.commands (λ c. refl),
          exists-append (has_id id) s.dead_letters (f c ∷ []),
        )
      ]

  retry_later-settled :
      (now : N) (id : String) (count : ℕ) (retry_at reason : Option String)
      (category : FailureCategory) (s : Store N)
      → is_live id s ≡ true
      → settled id (retry_later clock now id count retry_at reason category s).1 ≡ true
  unfolding mark update_command
  retry_later-settled now id count retry_at reason category s l =
      let f : ExecutionCommand N → ExecutionCommand N = assigned clock now (λ c. record c {
        status = CommandStatus.retry_scheduled;
        retry_count = count;
        retry_at = some (or_else retry_at (clock.iso (now + int count * int 1000)));
        failure_reason = reason;
        failure_category = some category;
        leased_by = none;
        lease_expiration = none;
      }) in
      ground (arith, eq_refl id, find-update_first id id f s.commands (λ c. refl))

  schedule_retry-settled :
      (config : QueueConfig N) (now : N) (id : String) (retry_at reason : Option String)
      (category : FailureCategory) (s : Store N)
      → is_live id s ≡ true
      → settled id (schedule_retry clock config now id retry_at reason category s).1 ≡ true
  unfolding schedule_retry
  schedule_retry-settled config now id retry_at reason category s l =
      elim (Option-cases (find (has_id id) s.commands)) [
        | inl n ↦ cc (rw n at l)
        | inr (c, e) ↦
            elim (Bool-cases (ltb config.max_retries (suc c.retry_count) || is_fatal category)) [
              | inl t ↦ rw (e, t) (give_up-settled now id (suc c.retry_count) reason category s l)
              | inr t ↦
                  rw (e, t)
                    (retry_later-settled now id (suc c.retry_count) retry_at reason category s l)
            ]
      ]

  acknowledge-live :
      (time : ℕ → N) (id : String) (result : AdapterResult) (s : Store N)
      → is_live id s ≡ true
      → is_live id (acknowledge clock time id result s) ≡ true
  unfolding publish
  acknowledge-live time id result s l = elim (Bool-cases (not_false result.acknowledged)) [
    | inl t ↦ rw t (mark_as-live (time 7) id CommandStatus.acknowledged s l)
    | inr t ↦ rw t l
  ]

  -- What is known when `process` has heard from the adapter: without an error the command is settled, with one
  -- it is live.
  abbrev Concluded : String → Ending × Store N → Type 0
  Concluded id (ended, s) = settled id s ≡ true
  Concluded id (erred e, s) = is_live id s ≡ true
  Concluded id (erred_without_value, s) = is_live id s ≡ true

  conclude-Concluded :
      (time : ℕ → N) (id : String) (outcome : Outcome) (s : Store N)
      → is_live id s ≡ true
      → Concluded id (conclude clock time id outcome s)
  unfolding publish record_verification mark update_command
  conclude-Concluded time id (Outcome.threw e) s l = l
  conclude-Concluded time id Outcome.threw_nothing s l = l
  conclude-Concluded time id (Outcome.returned result) s l =
      let l' = acknowledge-live time id result s l in
      elim (Bool-cases (not_false result.verified)) [
        | inl t ↦
            let after = acknowledge clock time id result s in
            rw t (
              mark_as-completed (time 12) id
                (mark_as clock (time 9) id CommandStatus.verified after)
                (mark_as-live (time 9) id CommandStatus.verified after l'))
        | inr t ↦ rw t l'
      ]

module _ {N : Type 0} ⦃num : Number N⦄ (clock : Clock N) (config : QueueConfig N)
    (lower : String → String) (adapters : String → Option (ExecutionAdapter N)) (worker_id : String)
    (keeps : (name : String) (a : ExecutionAdapter N)
      → adapters name ≡ some a
      → (c : ExecutionCommand N) (s : Store N) → is_live c.command_id s ≡ true
      → is_live c.command_id (a.execute c s).1 ≡ true) where
  caught-settled :
      (time : ℕ → N) (id : String) (ending : Ending) (s : Store N)
      → Concluded clock id (ending, s)
      → (rejects clock config lower adapters worker_id ending ≡ true)
        ⊎ (settled id (caught clock config lower adapters worker_id time id ending s) ≡ true)
  unfolding publish
  caught-settled time id ended s h = inr h
  caught-settled time id erred_without_value s h = inl refl
  caught-settled time id (erred e) s h = inr (
      schedule_retry-settled clock config (time 16) id none e.message
        (or_else e.category (classify_failure lower e)) _ h)

  call_adapter-Concluded :
      (time : ℕ → N) (c : ExecutionCommand N) (found : Option (ExecutionAdapter N)) (s : Store N)
      → ((a : ExecutionAdapter N) → found ≡ some a → (name : String) × (adapters name ≡ some a))
      → is_live c.command_id s ≡ true
      → Concluded clock c.command_id
          (call_adapter clock config lower adapters worker_id time c found s)
  unfolding publish
  call_adapter-Concluded time c none s named l = l
  call_adapter-Concluded time c (some a) s named l =
      let (name, e) = named a refl in
      let sent =
        advance clock time 5 CommandStatus.sent ExecutionEventType.command_sent c.command_id s in
      conclude-Concluded clock time c.command_id (a.execute c sent).0 (a.execute c sent).1
        (keeps name a e c sent (mark_as-live clock (time 5) c.command_id CommandStatus.sent s l))

  find_adapter-named :
      (c : ExecutionCommand N) (a : ExecutionAdapter N)
      → find_adapter clock config lower adapters worker_id c ≡ some a
      → (name : String) × (adapters name ≡ some a)
  find_adapter-named c a e = elim (Option-cases (adapters c.adapter_id)) [
    | inl n ↦ (platform_text c.adapter_type, rw (find_adapter, n) at e)
    | inr (b, f) ↦ (c.adapter_id, f ∙ rw (find_adapter, f) at e)
  ]

  begin-live :
      (time : ℕ → N) (id : String) (s : Store N)
      → is_live id s ≡ true
      → is_live id (begin clock worker_id time id s) ≡ true
  unfolding publish heartbeat save_worker_state mark update_command
  begin-live time id s l = mark_as-live clock (time 2) id CommandStatus.started s l

  -- Only a throw of null or undefined by the adapter makes a call rejected.
  conclude-rejects :
      (time : ℕ → N) (id : String) (outcome : Outcome) (s : Store N)
      → rejects clock config lower adapters worker_id (conclude clock time id outcome s).0 ≡ true
      → outcome ≡ Outcome.threw_nothing
  conclude-rejects time id Outcome.threw_nothing s h = refl
  conclude-rejects time id (Outcome.threw e) s h = ground (arith, h)
  conclude-rejects time id (Outcome.returned result) s h = ground (arith, h)

  call_adapter-rejects :
      (time : ℕ → N) (c : ExecutionCommand N) (found : Option (ExecutionAdapter N)) (s : Store N)
      → rejects clock config lower adapters worker_id
          (call_adapter clock config lower adapters worker_id time c found s).0
        ≡ true
      → ThrewNothing found c
  call_adapter-rejects time c none s h = ground (arith, h)
  call_adapter-rejects time c (some a) s h =
      let sent =
        advance clock time 5 CommandStatus.sent ExecutionEventType.command_sent c.command_id s in
      (sent, conclude-rejects time c.command_id (a.execute c sent).0 (a.execute c sent).1 h)

  -- A worker that processes a live command, with adapters that leave it live, ends: after it, the command is
  -- completed, or scheduled for another try, or among the dead letters, whatever the adapter answers or
  -- throws. The one exception is an adapter that throws null or undefined.
  pub process-settles :
      (time : ℕ → N) (stopping : Bool) (c : ExecutionCommand N) (s : Store N)
      → is_live c.command_id s ≡ true
      → let (rejected, after) = process clock config lower adapters worker_id time stopping c s in
        (settled c.command_id after ≡ true)
        ⊎ ((rejected ≡ true)
            × ThrewNothing (find_adapter clock config lower adapters worker_id c) c)
  unfolding process heartbeat save_worker_state
  process-settles time stopping c s l =
      let found = find_adapter clock config lower adapters worker_id c in
      let started = begin clock worker_id time c.command_id s in
      let result = call_adapter clock config lower adapters worker_id time c found started in
      let known =
        call_adapter-Concluded time c found started (find_adapter-named c)
          (begin-live time c.command_id s l) in
      elim (caught-settled time c.command_id result.0 result.1 known) [
        | inl t ↦ inr (t, call_adapter-rejects time c found started t)
        | inr done ↦ inl done
      ]
