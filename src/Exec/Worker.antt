-- ===== src/Exec/Worker.antt =====
-- v2/src/execution-core/worker.ts: the worker that executes leased commands. `lower` is JavaScript's
-- toLowerCase, an adapter is a parameter: it answers or throws, and the store is what it is when the wait
-- is over. `time k` is the clock at the k-th place of a call where it is read.
pub mod Settled
use text.Mathlib.Text.{find?}
use Prim.Native.Nat.{◌+◌ as ◌+ℕ◌}
use Prim.Native.String.{◌++◌}
use hashi_bot.Base.{
  ℕ, suc, String, Bool, true, false, ◌||◌, Option, none, some, is_some, List, [], ◌∷◌, length,
  if◌then◌else◌, or_else,
}
use hashi_bot.Base.Number.{Number}
use hashi_bot.Exec.Types.{
  ExecutionCommand, CommandStatus, FailureCategory, ExecutionEventType, EventPayload, WorkerStatus,
  AdapterResult, Store, Clock,
}
use hashi_bot.Exec.Commands.{save_worker_state, record_verification}
use hashi_bot.Exec.Repository.{publish}
use hashi_bot.Exec.Queue.{QueueConfig, lease, mark_as, schedule_retry}
use hashi_bot.Exec.Key.{platform_text}

-- A thrown value other than null and undefined: its category and its message, if it has them, and the
-- text `String(e)`.
pub record Thrown : Type 0 where
  pub category : Option FailureCategory
  pub message : Option String
  pub text : String

-- What an adapter does: it answers, or throws a value, or throws null or undefined.
pub data Outcome : Type 0 where
  returned : AdapterResult → Outcome
  threw : Thrown → Outcome
  threw_nothing : Outcome

-- How the `try` block ends: without an error, with one, or with a throw of null or undefined.
pub data Ending : Type 0 where
  ended : Ending
  erred : Thrown → Ending
  erred_without_value : Ending

pub record ExecutionAdapter (N : Type 0) : Type 0 where
  pub execute : ExecutionCommand N → Store N → Outcome × Store N

abbrev pub contains : String → String → Bool
contains text part = is_some (find? text part)

unfoldable pub classify_failure : (String → String) → Thrown → FailureCategory
classify_failure lower e =
    let m = lower (or_else e.message e.text) in
    if contains m "auth"
    then FailureCategory.authentication
    else if contains m "rate"
    then FailureCategory.rate_limit
    else if contains m "network" || contains m "timeout"
    then FailureCategory.network
    else if contains m "duplicate"
    then FailureCategory.duplicate
    else if contains m "reject"
    then FailureCategory.exchange_rejected
    else if contains m "protect"
    then FailureCategory.protection_failed
    else if contains m "verification"
    then FailureCategory.verification_failed
    else FailureCategory.transient

-- `flag !== false`
abbrev pub not_false : Option Bool → Bool
not_false none = true
not_false (some b) = b

module _ {N : Type 0} ⦃num : Number N⦄ (clock : Clock N) where
  -- Up to the call of the adapter, and after it: the status is set, and an event says so.
  abbrev pub advance : (ℕ → N) → ℕ → CommandStatus → ExecutionEventType → String → Store N → Store N
  advance time k status type id s =
      publish clock (time (suc k)) type (EventPayload.of_command id)
        (mark_as clock (time k) id status s)

  abbrev pub acknowledge : (ℕ → N) → String → AdapterResult → Store N → Store N
  acknowledge time id result s =
      if not_false result.acknowledged
      then advance time 7 CommandStatus.acknowledged ExecutionEventType.command_acknowledged id s
      else s

  -- What follows a verification that did not fail.
  abbrev pub complete : (ℕ → N) → String → AdapterResult → Store N → Store N
  complete time id result s =
      publish clock (time 14) ExecutionEventType.execution_completed (EventPayload.of_command id) (
        advance time 12 CommandStatus.completed ExecutionEventType.command_completed id (
          publish clock (time 11) ExecutionEventType.command_verified (EventPayload.of_command id) (
            record_verification
              (record { command_id = id; checked_at = clock.iso (time 10); result = result })
              (mark_as clock (time 9) id CommandStatus.verified s))))

  -- What `process` does with the adapter's answer.
  abbrev pub conclude : (ℕ → N) → String → Outcome → Store N → Ending × Store N
  conclude time id (threw e) s = (erred e, s)
  conclude time id threw_nothing s = (erred_without_value, s)
  conclude time id (returned result) s =
      let acknowledged = acknowledge time id result s in
      let reason = or_else result.reason "verification_failed" in
      if not_false result.verified then (ended, complete time id result acknowledged) else (
        erred (record {
          category = some FailureCategory.verification_failed;
          message = some reason;
          text = "Error: " ++ reason;
        }),
        acknowledged,
      )

module _ {N : Type 0} ⦃num : Number N⦄ (clock : Clock N) (worker_id : String) where
  unfoldable pub heartbeat : N → WorkerStatus → List String → Store N → Store N
  heartbeat now status active s =
      save_worker_state
        (record {
          worker_id = worker_id;
          status = status;
          last_heartbeat_at = clock.iso now;
          active_command_ids = active;
        })
        s

  -- `shutdown`: the worker is stopping, and says so.
  unfoldable pub shutdown : N → Store N → Bool × Store N
  shutdown now s = (true, heartbeat now WorkerStatus.stopped [] s)

  -- From the lease to the start of the execution.
  abbrev pub begin : (ℕ → N) → String → Store N → Store N
  begin time id s =
      publish clock (time 4) ExecutionEventType.execution_started (EventPayload.of_command id) (
        advance clock time 2 CommandStatus.started ExecutionEventType.command_started id (
          heartbeat (time 1) WorkerStatus.healthy (id ∷ []) (
            publish clock (time 0) ExecutionEventType.command_leased
              (EventPayload.leased id worker_id) s)))

module _ {N : Type 0} ⦃num : Number N⦄ (clock : Clock N) (config : QueueConfig N)
    (lower : String → String) (adapters : String → Option (ExecutionAdapter N))
    (worker_id : String) where
  abbrev pub find_adapter : ExecutionCommand N → Option (ExecutionAdapter N)
  find_adapter command = elim (adapters command.adapter_id) [
    | some a ↦ some a
    | none ↦ adapters (platform_text command.adapter_type)
  ]

  abbrev pub call_adapter :
      (ℕ → N) → ExecutionCommand N → Option (ExecutionAdapter N) → Store N → Ending × Store N
  call_adapter time command none s = (
    erred (record {
      category = some FailureCategory.transient;
      message = some "adapter_unavailable";
      text = "Error: adapter_unavailable";
    }),
    s,
  )
  call_adapter time command (some adapter) s =
      let sent =
        advance clock time 5 CommandStatus.sent ExecutionEventType.command_sent command.command_id
          s in
      let (outcome, after) = adapter.execute command sent in
      conclude clock time command.command_id outcome after

  -- The `catch` block. It reads a field of what was thrown, so it throws for null and undefined.
  abbrev pub caught : (ℕ → N) → String → Ending → Store N → Store N
  caught time id ended s = s
  caught time id erred_without_value s = s
  caught time id (erred e) s =
      let category = or_else e.category (classify_failure lower e) in
      publish clock (time 17) ExecutionEventType.command_retried (EventPayload.retried id category)
        (schedule_retry clock config (time 16) id none e.message category (
          publish clock (time 15) ExecutionEventType.command_failed
            (EventPayload.failed id category e.message) s)).1

  -- The promise is rejected: the `catch` block has thrown.
  abbrev pub rejects : Ending → Bool
  rejects ended = false
  rejects (erred e) = false
  rejects erred_without_value = true

  -- Whether the promise is rejected, and the store; `finally` runs in any case.
  unfoldable pub process : (ℕ → N) → Bool → ExecutionCommand N → Store N → Bool × Store N
  process time stopping command s =
      let (ending, tried) =
        call_adapter time command (find_adapter command)
          (begin clock worker_id time command.command_id s) in
      (
        rejects ending,
        heartbeat clock worker_id (time 18)
            (if stopping then WorkerStatus.draining else WorkerStatus.healthy) []
            (caught time command.command_id ending tried),
      )

  -- A rejected call ends the loop, and the rejection is passed on.
  unfoldable pub process_each :
      (ℕ → N) → Bool → List (ExecutionCommand N) → Store N → Bool × Store N
  process_each time stopping [] s = (false, s)
  process_each time stopping (c ∷ cs) s =
      let (rejected, next) = process time stopping c s in
      let rest = process_each (λ k. time (19 +ℕ k)) stopping cs next in
      if rejected then (true, next) else rest

  -- The number of leased commands, or nothing if the promise is rejected.
  unfoldable pub run_once : (ℕ → N) → Bool → ℕ → Store N → Option ℕ × Store N
  run_once time stopping batch_size s =
      let (leased, next) =
        lease clock config (time 1) worker_id batch_size
          (heartbeat clock worker_id (time 0) WorkerStatus.healthy [] s) in
      let (rejected, last) = process_each (λ k. time (2 +ℕ k)) stopping leased next in
      (if rejected then none else some (length leased), last)
