-- ===== src/Exec/Tests.antt =====
-- The queue, the worker and the event log on decimals, and the theorems at them.
use Prim.Native.Nat.{◌+◌ as ◌+ℕ◌}
use mathlib.Core.Path.{subst}
use hashi_bot.Base.{
  ◌⊎◌, ◌≤◌, ◌≢◌, String, ◌≡◌, refl, ap, or_else, true, false, none, some, List, [], ◌∷◌, drop, All,
}
use hashi_bot.Base.Decimal.{Decimal, decimal_number}
use hashi_bot.Policy.Tests.{dec}
use hashi_bot.Exec.Types.{
  Platform, CommandAction, CommandStatus, FailureCategory, ExecutionEventType, EventPayload,
  ExecutionCommand, Store, Clock,
}
use hashi_bot.Exec.Commands.{insert_command, replay, clear_events, save_worker_state}
use hashi_bot.Exec.Repository.{reserve_idempotency, publish, update_command}
use hashi_bot.Exec.Queue.{QueueConfig, enqueue, lease, mark, schedule_retry}
use hashi_bot.Exec.Queue.Total.{total}
use hashi_bot.Exec.Queue.Leases.{lease-exclusive}
use hashi_bot.Exec.Queue.Retries.{allowance, Run, Run-budget}
use hashi_bot.Exec.Reserved.{empty, copies, reserved}
use hashi_bot.Exec.Machine.{Reachable}
use hashi_bot.Exec.AtMostOnce.{Reachable-AtMostOnce}
use hashi_bot.Exec.Accepted.{accept, enqueue_all, enqueue_all-first}
use hashi_bot.Exec.Replay.{Logged, replay-drop}
use hashi_bot.Exec.Key.{KeyInput, build_idempotency_key, read_key, read_key-build}
use hashi_bot.Exec.Worker.{Outcome, ExecutionAdapter, process, heartbeat}
use hashi_bot.Exec.Worker.Settled.{is_live, settled, ThrewNothing, process-settles}

abbrev pub clock : Clock Decimal
clock = record { parse = λ text. dec 50; iso = λ n. "2024-01-01T00:00:00.000Z" }

abbrev config : QueueConfig Decimal
config = record { visibility_timeout_ms = dec 30000; max_retries = 5 }

abbrev command : String → String → ExecutionCommand Decimal
command id key = record {
  command_id = id;
  correlation_id = "s1";
  idempotency_key = key;
  signal_id = "s1";
  customer_id = "c1";
  executor_id = "e1";
  account_id = "a1";
  adapter_id = "Mock";
  adapter_type = Platform.mock;
  action = CommandAction.open_position;
  purpose = "initial_signal_entry";
  status = CommandStatus.queued;
  payload = [];
  created_at = "2024-01-01T00:00:00.000Z";
  updated_at = "2024-01-01T00:00:00.000Z";
  retry_count = 0;
  priority = dec 100;
  lease_expiration = none;
  leased_by = none;
  retry_at = none;
  failure_reason = none;
  failure_category = none;
}

abbrev one_queued : Store Decimal
one_queued = (enqueue clock (dec 1) (command "cmd_1" "k1") empty).1

abbrev two_queued : Store Decimal
two_queued = (enqueue clock (dec 2) (command "cmd_2" "k2") one_queued).1

-- The first lease takes one of the two commands, the second the other.
lease-exclusive_example :
    All
      (λ c.
        All
          (λ d. c.command_id ≢ d.command_id)
          (lease clock config (dec 4) "w2" 2 (lease clock config (dec 3) "w1" 1 two_queued).1).0)
      (lease clock config (dec 3) "w1" 1 two_queued).0
lease-exclusive_example = lease-exclusive clock config (dec 3) (dec 4) "w1" "w2" 1 2 two_queued

abbrev failed_once : Store Decimal
failed_once =
    (schedule_retry clock config (dec 5) "cmd_1" none none FailureCategory.network one_queued).1

Run-budget_example :
    1 +ℕ total (allowance config) failed_once.commands
    ≤ total (allowance config) one_queued.commands
unfolding enqueue reserve_idempotency insert_command
Run-budget_example = Run-budget clock config 1 one_queued failed_once (
    Run.fail_then (dec 5) "cmd_1" none none FailureCategory.network (command "cmd_1" "k1") refl
      Run.done)

-- The second command with the key is not queued.
Reachable-AtMostOnce_example :
    copies "k1" (enqueue clock (dec 2) (command "cmd_2" "k1") one_queued).1
    ≤ reserved "k1" (enqueue clock (dec 2) (command "cmd_2" "k1") one_queued).1
Reachable-AtMostOnce_example =
    Reachable-AtMostOnce clock config (enqueue clock (dec 2) (command "cmd_2" "k1") one_queued).1
      (Reachable.enqueued (dec 2) (command "cmd_2" "k1")
        (Reachable.enqueued (dec 1) (command "cmd_1" "k1") Reachable.start))
      "k1"

abbrev batch : List (Decimal × ExecutionCommand Decimal)
batch =
    (dec 1, command "cmd_1" "k1")
    ∷ (dec 2, command "cmd_2" "k2")
    ∷ (dec 3, command "cmd_3" "k1")
    ∷ []

enqueue_all-first_example : (enqueue_all clock batch empty).0 ≡ accept [] ("k1" ∷ "k2" ∷ "k1" ∷ [])
enqueue_all-first_example =
    enqueue_all-first clock batch ((refl, (refl, tt)), ((refl, tt), (tt, tt)))

abbrev logged : Store Decimal
logged = publish clock (dec 2) ExecutionEventType.command_sent (EventPayload.of_command "cmd_1") (
    publish clock (dec 1) ExecutionEventType.command_started (EventPayload.of_command "cmd_1")
      (clear_events one_queued))

replay-drop_example : replay 1 logged ≡ drop 1 logged.events
replay-drop_example =
    replay-drop clock logged
      (Logged.published (dec 2) ExecutionEventType.command_sent (EventPayload.of_command "cmd_1") (
        Logged.published (dec 1) ExecutionEventType.command_started
          (EventPayload.of_command "cmd_1") (Logged.cleared one_queued)))
      1

abbrev key_input : KeyInput
key_input = record {
  signal_id = "s1";
  customer_id = "c1";
  executor_id = "e1";
  account_id = "a1";
  adapter_type = Platform.bybit;
  action = CommandAction.open_position;
  purpose = "initial_signal_entry";
}

read_key-build_example : read_key (build_idempotency_key key_input) ≡ some key_input
read_key-build_example = read_key-build key_input (refl, (refl, (refl, (refl, (refl, tt)))))

-- An adapter whose verification fails, and which leaves the store as it is.
abbrev failing : ExecutionAdapter Decimal
failing = record {
  execute = λ c s. (
    Outcome.returned
        (record { acknowledged = none; verified = some false; completed = none; reason = none }),
    s,
  );
}

failing-live :
    (name : String) (a : ExecutionAdapter Decimal)
    → some failing ≡ some a
    → (c : ExecutionCommand Decimal) (s : Store Decimal) → is_live c.command_id s ≡ true
    → is_live c.command_id (a.execute c s).1 ≡ true
failing-live name a e c s l =
    subst (λ a. is_live c.command_id (a.execute c s).1 ≡ true) (ap (λ o. or_else o failing) e) l

process-settles_example :
    let (rejected, after) =
      process clock config
        (λ t. t)
        (λ name. some failing)
        "w1"
        (λ k. dec k)
        false
        (command "cmd_1" "k1")
        one_queued in
    (settled "cmd_1" after ≡ true)
    ⊎ ((rejected ≡ true) × ThrewNothing (some failing) (command "cmd_1" "k1"))
unfolding enqueue reserve_idempotency insert_command
process-settles_example =
    process-settles clock config (λ t. t) (λ name. some failing) "w1" failing-live (λ k. dec k)
      false (command "cmd_1" "k1") one_queued refl

-- It does settle the command.
after_failure :
    settled "cmd_1"
      (process clock config
        (λ t. t)
        (λ name. some failing)
        "w1"
        (λ k. dec k)
        false
        (command "cmd_1" "k1")
        one_queued).1
    ≡ true
unfolding enqueue reserve_idempotency insert_command process mark update_command schedule_retry
    publish heartbeat save_worker_state
after_failure = refl

-- An adapter that throws null leaves the command sent, and the call is rejected.
abbrev throws_null : ExecutionAdapter Decimal
throws_null = record { execute = λ c s. (Outcome.threw_nothing, s) }

after_null :
    let out =
      process clock config
        (λ t. t)
        (λ name. some throws_null)
        "w1"
        (λ k. dec k)
        false
        (command "cmd_1" "k1")
        one_queued in
    (out.0 ≡ true) × (settled "cmd_1" out.1 ≡ false)
unfolding enqueue reserve_idempotency insert_command process mark update_command publish heartbeat
    save_worker_state
after_null = (refl, refl)
