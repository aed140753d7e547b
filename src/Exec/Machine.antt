-- ===== src/Exec/Machine.antt =====
-- What the worker, the manager and a scheduler call of the queue, the events and the repository, as steps
-- of a state machine (v2/src/execution-core). No steps of their own are the operations that the source
-- reaches only through those: insertCommand, reserveIdempotency, updateCommand, compareAndSetCommand and
-- moveToDeadLetter of the repository, and mark of the queue with other fields than the status. `clear`
-- leads to the empty store.
use Prim.Native.Nat.{◌+◌ as ◌+ℕ◌}
use text.Mathlib.TextPositions.{eq_refl}
use hashi_bot.Base.{
  ℕ, suc, ltb, ◌||◌, String, ◌≡◌, refl, ap, Option, Option-cases, some, [], ◌∷◌, find, arith,
  Bool-cases, inl, inr,
}
use hashi_bot.Base.Number.{Number}
use hashi_bot.Exec.Types.{
  CustomerExecutionProfile, CustomerRuntimeState, ExecutionCommand, CommandStatus, FailureCategory,
  ExecutionEventType, EventPayload, WorkerState, VerificationEntry, Store, Clock,
}
use hashi_bot.Exec.Commands.{
  has_id, move_to_dead_letter, save_profile, upsert_runtime, record_dispatch, save_worker_state,
  record_verification, clear_events,
}
use hashi_bot.Exec.Repository.{assigned, update_command, recover, cleanup, publish}
use hashi_bot.Exec.Queue.{
  QueueConfig, is_fatal, enqueue, lease, renew_lease, release_lease, mark, mark_as, mark_failed,
  give_up, retry_later, schedule_retry,
}
use hashi_bot.Exec.Queue.Found.{find-update_first, remove-update}
use hashi_bot.Exec.Queue.Total.{total, total-update, total-remove, total-append}
use hashi_bot.Exec.Reserved.{empty, counts, copies}

module _ {N : Type 0} ⦃num : Number N⦄ (clock : Clock N) (config : QueueConfig N) where
  give_up-copies :
      (now : N) (id : String) (count : ℕ) (reason : Option String) (category : FailureCategory)
      (s : Store N) (c : ExecutionCommand N) (key : String)
      → find (has_id id) s.commands ≡ some c
      → copies key (give_up clock now id count reason category s) ≡ copies key s
  unfolding mark update_command move_to_dead_letter
  give_up-copies now id count reason category s c key e =
      let f : ExecutionCommand N → ExecutionCommand N = assigned clock now (λ c. record c {
        status = CommandStatus.dead_lettered;
        retry_count = count;
        failure_reason = reason;
        failure_category = some category;
      }) in
      ground (
        arith,
        e,
        find-update_first id id f s.commands (λ c. refl),
        eq_refl id,
        remove-update id f s.commands (λ c. refl),
        total-remove (counts key) id s.commands c e,
        total-append (counts key) s.dead_letters (f c ∷ []),
      )

  retry_later-copies :
      (now : N) (id : String) (count : ℕ) (retry_at reason : Option String)
      (category : FailureCategory) (s : Store N) (key : String)
      → copies key (retry_later clock now id count retry_at reason category s).1 ≡ copies key s
  unfolding mark update_command
  retry_later-copies now id count retry_at reason category s key =
      ap (λ n. n +ℕ total (counts key) s.dead_letters)
        (total-update (counts key) id _ s.commands (λ c. refl))

  pub schedule_retry-copies :
      (now : N) (id : String) (retry_at reason : Option String) (category : FailureCategory)
      (s : Store N) (key : String)
      → copies key (schedule_retry clock config now id retry_at reason category s).1 ≡ copies key s
  unfolding schedule_retry
  schedule_retry-copies now id retry_at reason category s key =
      elim (Option-cases (find (has_id id) s.commands)) [
        | inl n ↦ rw n refl
        | inr (c, e) ↦
            elim (Bool-cases (ltb config.max_retries (suc c.retry_count) || is_fatal category)) [
              | inl t ↦
                  rw (e, t) (give_up-copies now id (suc c.retry_count) reason category s c key e)
              | inr t ↦
                  rw (e, t)
                    (retry_later-copies now id (suc c.retry_count) retry_at reason category s key)
            ]
      ]

  -- The stores that calls of these operations reach from an empty one.
  pub data Reachable : Store N → Type 0 where
    start : Reachable empty
    enqueued :
        (now : N) (c : ExecutionCommand N) {s : Store N}
        → Reachable s
        → Reachable (enqueue clock now c s).1
    leased :
        (now : N) (worker_id : String) (size : ℕ) {s : Store N}
        → Reachable s
        → Reachable (lease clock config now worker_id size s).1
    renewed :
        (now : N) (id worker_id : String) {s : Store N}
        → Reachable s
        → Reachable (renew_lease clock config now id worker_id s).1
    released :
        (now : N) (id worker_id : String) {s : Store N}
        → Reachable s
        → Reachable (release_lease clock now id worker_id s).1
    marked :
        (now : N) (id : String) (status : CommandStatus) {s : Store N}
        → Reachable s
        → Reachable (mark_as clock now id status s)
    marked_failed :
        (now : N) (id reason : String) (category : FailureCategory) {s : Store N}
        → Reachable s
        → Reachable (mark_failed clock now id reason category s).1
    retried :
        (now : N) (id : String) (retry_at reason : Option String) (category : FailureCategory)
        {s : Store N}
        → Reachable s
        → Reachable (schedule_retry clock config now id retry_at reason category s).1
    recovered : (now : N) {s : Store N} → Reachable s → Reachable (recover clock now s).1
    cleaned : (now ttl_ms : N) {s : Store N} → Reachable s → Reachable (cleanup clock now ttl_ms s)
    published :
        (now : N) (type : ExecutionEventType) (payload : EventPayload N) {s : Store N}
        → Reachable s
        → Reachable (publish clock now type payload s)
    forgot_events : {s : Store N} → Reachable s → Reachable (clear_events s)
    saved_profile :
        (profile : CustomerExecutionProfile N) {s : Store N}
        → Reachable s
        → Reachable (save_profile profile s)
    saved_runtime :
        (runtime : CustomerRuntimeState) {s : Store N}
        → Reachable s
        → Reachable (upsert_runtime runtime s)
    dispatched : (key : String) {s : Store N} → Reachable s → Reachable (record_dispatch key s)
    saved_worker :
        (worker : WorkerState) {s : Store N} → Reachable s → Reachable (save_worker_state worker s)
    verified :
        (entry : VerificationEntry) {s : Store N}
        → Reachable s
        → Reachable (record_verification entry s)
