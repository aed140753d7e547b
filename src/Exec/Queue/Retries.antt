-- ===== src/Exec/Queue/Retries.antt =====
-- How often commands can fail before the queue has given them all up (v2/src/execution-core/queue.ts).
use Prim.Native.Nat.{◌+◌ as ◌+ℕ◌, ◌-◌ as ◌-ℕ◌}
use text.Mathlib.TextPositions.{eq_refl}
use hashi_bot.Base.{
  ℕ, suc, ltb, or_else, ◌≤◌, ◌||◌, String, ◌≡◌, refl, Option, none, some, find, arith, Bool-cases,
  inl, inr,
}
use hashi_bot.Base.Number.{Number, int, ◌+◌, ◌*◌}
use hashi_bot.Exec.Types.{ExecutionCommand, CommandStatus, FailureCategory, Store, Clock}
use hashi_bot.Exec.Commands.{has_id, move_to_dead_letter}
use hashi_bot.Exec.Repository.{assigned, update_command, recover}
use hashi_bot.Exec.Queue.{
  QueueConfig, is_fatal, lease, renew_lease, release_lease, mark, mark_as, give_up, retry_later,
  schedule_retry,
}
use hashi_bot.Exec.Queue.Found.{find-update_first, remove-update}
use hashi_bot.Exec.Queue.Total.{
  total, total-change, total-remove, renew-total, release-total, lease-total, mark-total,
  recover-total,
}

module _ {N : Type 0} ⦃num : Number N⦄ where
  -- The failures that a command has left: one more than its retries.
  abbrev pub allowance : QueueConfig N → ExecutionCommand N → ℕ
  allowance config c = suc (config.max_retries -ℕ c.retry_count)

  allowance-same :
      (config : QueueConfig N) (c d : ExecutionCommand N)
      → c.idempotency_key ≡ d.idempotency_key
      → c.retry_count ≡ d.retry_count
      → allowance config c ≡ allowance config d
  allowance-same config c d k r = ground (arith, r)

module _ {N : Type 0} ⦃num : Number N⦄ (clock : Clock N) (config : QueueConfig N) where
  give_up-budget :
      (now : N) (id : String) (count : ℕ) (reason : Option String) (category : FailureCategory)
      (s : Store N) (c : ExecutionCommand N)
      → find (has_id id) s.commands ≡ some c
      → total (allowance config) (give_up clock now id count reason category s).commands
          +ℕ allowance config c
        ≡ total (allowance config) s.commands
  unfolding mark update_command move_to_dead_letter
  give_up-budget now id count reason category s c e =
      let f : ExecutionCommand N → ExecutionCommand N = assigned clock now (λ c. record c {
        status = CommandStatus.dead_lettered;
        retry_count = count;
        failure_reason = reason;
        failure_category = some category;
      }) in
      ground (
        arith,
        find-update_first id id f s.commands (λ c. refl),
        eq_refl id,
        remove-update id f s.commands (λ c. refl),
        total-remove (allowance config) id s.commands c e,
      )

  retry_later-budget :
      (now : N) (id : String) (retry_at reason : Option String) (category : FailureCategory)
      (s : Store N) (c : ExecutionCommand N)
      → find (has_id id) s.commands ≡ some c
      → suc c.retry_count ≤ config.max_retries
      → suc (
          total
            (allowance config)
            (retry_later clock now id (suc c.retry_count) retry_at reason category s).1.commands)
        ≡ total (allowance config) s.commands
  unfolding mark update_command
  retry_later-budget now id retry_at reason category s c e m =
      let f : ExecutionCommand N → ExecutionCommand N = assigned clock now (λ d. record d {
        status = CommandStatus.retry_scheduled;
        retry_count = suc c.retry_count;
        retry_at = some (or_else retry_at (clock.iso (now + int (suc c.retry_count) * int 1000)));
        failure_reason = reason;
        failure_category = some category;
        leased_by = none;
        lease_expiration = none;
      }) in
      let change = total-change (allowance config) id f s.commands c e in omega (arith, change, m)

  -- A failure of a command that is live uses up some of the budget.
  schedule_retry-budget :
      (now : N) (id : String) (retry_at reason : Option String) (category : FailureCategory)
      (s : Store N) (c : ExecutionCommand N)
      → find (has_id id) s.commands ≡ some c
      → suc (
          total
            (allowance config)
            (schedule_retry clock config now id retry_at reason category s).1.commands)
        ≤ total (allowance config) s.commands
  unfolding schedule_retry
  schedule_retry-budget now id retry_at reason category s c e =
      elim (Bool-cases (ltb config.max_retries (suc c.retry_count) || is_fatal category)) [
        | inl t ↦
            let gone = give_up-budget now id (suc c.retry_count) reason category s c e in
            rw (e, t) (omega (arith, gone))
        | inr t ↦
            let room : suc c.retry_count ≤ config.max_retries = ground arith in
            rw (e, t) (omega (arith, retry_later-budget now id retry_at reason category s c e room))
      ]

  -- A run of the queue without new commands, and how many failures of live commands it has.
  pub data Run : ℕ → Store N → Store N → Type 0 where
    done : {s : Store N} → Run 0 s s
    lease_then :
        (now : N) (worker_id : String) (size : ℕ) {n : ℕ} {s t : Store N}
        → Run n (lease clock config now worker_id size s).1 t
        → Run n s t
    renew_then :
        (now : N) (id worker_id : String) {n : ℕ} {s t : Store N}
        → Run n (renew_lease clock config now id worker_id s).1 t
        → Run n s t
    release_then :
        (now : N) (id worker_id : String) {n : ℕ} {s t : Store N}
        → Run n (release_lease clock now id worker_id s).1 t
        → Run n s t
    mark_then :
        (now : N) (id : String) (status : CommandStatus) {n : ℕ} {s t : Store N}
        → Run n (mark_as clock now id status s) t
        → Run n s t
    recover_then : (now : N) {n : ℕ} {s t : Store N} → Run n (recover clock now s).1 t → Run n s t
    fail_then :
        (now : N) (id : String) (retry_at reason : Option String) (category : FailureCategory)
        {n : ℕ} {s t : Store N} (c : ExecutionCommand N)
        → find (has_id id) s.commands ≡ some c
        → Run n (schedule_retry clock config now id retry_at reason category s).1 t
        → Run (suc n) s t

  -- In a run without new commands, the failures of live commands are no more than the allowances of the
  -- commands at the start: one more than its remaining retries for each. What is left at the end bounds the
  -- failures that are still to come.
  pub Run-budget :
      (n : ℕ) (s t : Store N)
      → Run n s t
      → n +ℕ total (allowance config) t.commands ≤ total (allowance config) s.commands
  Run-budget n s t Run.done = omega arith
  Run-budget n s t (Run.lease_then now worker_id size r) = omega (
    arith,
    Run-budget n (lease clock config now worker_id size s).1 t r,
    lease-total clock config (allowance config) (allowance-same config) now worker_id size s,
  )
  Run-budget n s t (Run.renew_then now id worker_id r) = omega (
    arith,
    Run-budget n (renew_lease clock config now id worker_id s).1 t r,
    renew-total clock config (allowance config) (allowance-same config) now id worker_id s,
  )
  Run-budget n s t (Run.release_then now id worker_id r) = omega (
    arith,
    Run-budget n (release_lease clock now id worker_id s).1 t r,
    release-total clock config (allowance config) (allowance-same config) now id worker_id s,
  )
  Run-budget n s t (Run.mark_then now id status r) = omega (
    arith,
    Run-budget n (mark_as clock now id status s) t r,
    mark-total clock config (allowance config) (allowance-same config) now id status (λ c. c) s
        (λ c. refl),
  )
  Run-budget n s t (Run.recover_then now r) = omega (
    arith,
    Run-budget n (recover clock now s).1 t r,
    recover-total clock config (allowance config) (allowance-same config) now s,
  )
  Run-budget (suc n) s t (Run.fail_then now id retry_at reason category c e r) = omega (
    arith,
    Run-budget n (schedule_retry clock config now id retry_at reason category s).1 t r,
    schedule_retry-budget now id retry_at reason category s c e,
  )
