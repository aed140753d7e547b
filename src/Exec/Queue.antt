-- ===== src/Exec/Queue.antt =====
-- v2/src/execution-core/queue.ts: the durable queue of commands. `Date.now()` is an argument.
pub mod Found
pub mod Leased
pub mod Leases
pub mod Total
pub mod Retries
use text.Mathlib.Text.{◌==◌}
use hashi_bot.Base.{
  ℕ, suc, ltb, nat_eq, String, Bool, true, false, not, ◌&&◌, ◌||◌, Option, none, some, List, [],
  ◌∷◌, find, keep, take, if◌then◌else◌, or_else,
}
use hashi_bot.Base.Number.{Number, int, truthy, ◌+◌, ◌-◌, ◌*◌}
use hashi_bot.Base.Sort.{sort}
use hashi_bot.Exec.Types.{
  ExecutionCommand, CommandStatus, FailureCategory, transient, permanent, authentication,
  rate_limit, network, exchange_rejected, duplicate, verification_failed, protection_failed,
  manual_intervention_required, Store, Clock,
}
use hashi_bot.Exec.Status.{is_waiting, same_status}
use hashi_bot.Exec.Commands.{has_id, insert_command, list_commands, move_to_dead_letter}
use hashi_bot.Exec.Repository.{
  reserve_idempotency, update_command, compare_and_set_command, recover,
}

pub record QueueConfig (N : Type 0) : Type 0 where
  pub visibility_timeout_ms : N
  pub max_retries : ℕ

pub record EnqueueResult (N : Type 0) : Type 0 where
  pub enqueued : Bool
  pub command : ExecutionCommand N
  pub duplicate_prevented : Bool

-- The categories that `scheduleRetry` does not retry.
abbrev pub is_fatal : FailureCategory → Bool
is_fatal transient = false
is_fatal permanent = true
is_fatal authentication = true
is_fatal rate_limit = false
is_fatal network = false
is_fatal exchange_rejected = false
is_fatal duplicate = true
is_fatal verification_failed = false
is_fatal protection_failed = false
is_fatal manual_intervention_required = true

abbrev pub is_worker : String → Option String → Bool
is_worker worker_id none = false
is_worker worker_id (some by) = by == worker_id

module _ {N : Type 0} ⦃num : Number N⦄ where
  unfoldable pub find_by_idempotency_key : String → Store N → Option (ExecutionCommand N)
  find_by_idempotency_key key s = find (λ c. c.idempotency_key == key) s.commands

  unfoldable pub by_customer : String → Store N → List (ExecutionCommand N)
  by_customer customer_id s = list_commands (λ c. c.customer_id == customer_id) s

  unfoldable pub by_executor : String → Store N → List (ExecutionCommand N)
  by_executor executor_id s = list_commands (λ c. c.executor_id == executor_id) s

  unfoldable pub by_account : String → Store N → List (ExecutionCommand N)
  by_account account_id s = list_commands (λ c. c.account_id == account_id) s

  abbrev pub push_found :
      Option (ExecutionCommand N) → List (ExecutionCommand N) → List (ExecutionCommand N)
  push_found none rest = rest
  push_found (some c) rest = c ∷ rest

module _ {N : Type 0} ⦃num : Number N⦄ (clock : Clock N) where
  open num use {lt, le}
  open clock use {parse, iso}

  unfoldable pub enqueue : N → ExecutionCommand N → Store N → EnqueueResult N × Store N
  enqueue now command s =
      let (reserved, s1) =
        reserve_idempotency clock now command.idempotency_key command.command_id none s in
      let (inserted, s2) = insert_command command s1 in
      if reserved
      then (
        record { enqueued = inserted; command = command; duplicate_prevented = not inserted },
        s2,
      )
      else (
        record {
          enqueued = false;
          command = or_else (find_by_idempotency_key command.idempotency_key s1) command;
          duplicate_prevented = true;
        },
        s1,
      )

  -- A command that waits, and whose retry, if it has one, is due.
  abbrev pub is_due : N → ExecutionCommand N → Bool
  is_due now c =
      is_waiting c.status
      && elim c.retry_at [ none ↦ true | some at ↦ at == "" || le (parse at) now ]

  -- The comparator of `lease`: the higher priority first, then the older.
  abbrev pub order : ExecutionCommand N → ExecutionCommand N → N
  order a b =
      if truthy (b.priority - a.priority)
      then b.priority - a.priority
      else parse a.created_at - parse b.created_at

  abbrev pub sooner : ExecutionCommand N → ExecutionCommand N → Bool
  sooner a b = lt (order a b) (int 0)

  abbrev pub lease_to : QueueConfig N → N → String → ExecutionCommand N → ExecutionCommand N
  lease_to config now worker_id c = record c {
    status = CommandStatus.leased;
    leased_by = some worker_id;
    lease_expiration = some (iso (now + config.visibility_timeout_ms));
  }

  -- The compare-and-set of one command of the batch.
  abbrev pub try_lease : QueueConfig N → N → String → ExecutionCommand N → Store N → Bool × Store N
  try_lease config now worker_id c s =
      compare_and_set_command clock now c.command_id (λ d. same_status d.status c.status)
        (lease_to config now worker_id) s

  -- The loop of `lease` over the batch.
  unfoldable pub lease_each :
      QueueConfig N
      → N
      → String
      → List (ExecutionCommand N)
      → Store N
      → List (ExecutionCommand N) × Store N
  lease_each config now worker_id [] s = ([], s)
  lease_each config now worker_id (c ∷ cs) s =
      let (taken, next) = try_lease config now worker_id c s in
      let (rest, last) = lease_each config now worker_id cs next in
      (if taken then push_found (find (has_id c.command_id) next.commands) rest else rest, last)

  unfoldable pub lease :
      QueueConfig N → N → String → ℕ → Store N → List (ExecutionCommand N) × Store N
  lease config now worker_id batch_size s =
      lease_each config now worker_id (take batch_size (sort sooner (list_commands (is_due now) s)))
        s

  -- The first command of the batch that is leased.
  unfoldable pub dequeue :
      QueueConfig N → N → String → ℕ → Store N → Option (ExecutionCommand N) × Store N
  dequeue config now worker_id batch_size s =
      let (leased, next) = lease config now worker_id batch_size s in
      (find (λ c. true) leased, next)

  unfoldable pub renew_lease :
      QueueConfig N → N → (command_id worker_id : String) → Store N → Bool × Store N
  renew_lease config now command_id worker_id s =
      compare_and_set_command clock now command_id (λ c. is_worker worker_id c.leased_by)
        (λ c. record c { lease_expiration = some (iso (now + config.visibility_timeout_ms)) }) s

  unfoldable pub release_lease : N → (command_id worker_id : String) → Store N → Bool × Store N
  release_lease now command_id worker_id s =
      compare_and_set_command clock now command_id (λ c. is_worker worker_id c.leased_by)
        (λ c. record c { status = CommandStatus.queued; leased_by = none; lease_expiration = none })
        s

  unfoldable pub mark :
      N
      → String
      → CommandStatus
      → (ExecutionCommand N → ExecutionCommand N)
      → Store N
      → Option (ExecutionCommand N) × Store N
  mark now command_id status extra s =
      update_command clock now command_id (λ c. record (extra c) { status = status }) s

  -- `mark` with no extra fields: `markSent`, `markAcknowledged`, `markCompleted`, `markVerified`, `ack`.
  abbrev pub mark_as : N → String → CommandStatus → Store N → Store N
  mark_as now command_id status s = (mark now command_id status (λ c. c) s).1

  unfoldable pub mark_failed :
      N → String → String → FailureCategory → Store N → Option (ExecutionCommand N) × Store N
  mark_failed now id reason category s =
      mark now id CommandStatus.failed
        (λ c. record c { failure_reason = some reason; failure_category = some category }) s

  abbrev pub give_up : N → String → ℕ → Option String → FailureCategory → Store N → Store N
  give_up now id retry_count reason category s =
      move_to_dead_letter id
        (mark now id CommandStatus.dead_lettered
          (λ c. record c {
            retry_count = retry_count;
            failure_reason = reason;
            failure_category = some category;
          })
          s).1

  abbrev pub retry_later :
      N
      → String
      → ℕ
      → Option String
      → Option String
      → FailureCategory
      → Store N
      → Option (ExecutionCommand N) × Store N
  retry_later now id retry_count retry_at reason category s =
      mark now id CommandStatus.retry_scheduled
        (λ c. record c {
          retry_count = retry_count;
          retry_at = some (or_else retry_at (iso (now + int retry_count * int 1000)));
          failure_reason = reason;
          failure_category = some category;
          leased_by = none;
          lease_expiration = none;
        })
        s

  -- What `scheduleRetry` does with the command that it has found.
  abbrev pub retry_found :
      QueueConfig N
      → N
      → String
      → Option String
      → Option String
      → FailureCategory
      → Option (ExecutionCommand N)
      → Store N
      → Option (ExecutionCommand N) × Store N
  retry_found config now id retry_at reason category none s = (none, s)
  retry_found config now id retry_at reason category (some c) s =
      if ltb config.max_retries (suc c.retry_count) || is_fatal category
      then (none, give_up now id (suc c.retry_count) reason category s)
      else retry_later now id (suc c.retry_count) retry_at reason category s

  unfoldable pub schedule_retry :
      QueueConfig N
      → N
      → String
      → Option String
      → Option String
      → FailureCategory
      → Store N
      → Option (ExecutionCommand N) × Store N
  schedule_retry config now id retry_at reason category s =
      retry_found config now id retry_at reason category (find (has_id id) s.commands) s
