-- ===== src/Exec/Commands.antt =====
-- v2/src/execution-core/repositories.ts and events.ts: the functions that do not read the clock. The
-- JSON file behind the store is the state that every function takes and returns: `locked` reads it,
-- applies a function and writes it back. Cloning is the identity on values.
use text.Mathlib.Text.{◌==◌}
use Prim.Native.Nat.{◌+◌ as ◌+ℕ◌}
use hashi_bot.Base.{
  ℕ, zero, suc, ltb, String, Bool, true, false, not, ◌||◌, Option, none, some, List, [], ◌∷◌, ◌++◌,
  map, find, exists, keep, take, remove_first, count_of, includes, length, drop, is_some,
  if◌then◌else◌,
}
use hashi_bot.Base.Number.{Number, int, ◌/◌}
use hashi_bot.Exec.Status.{is_waiting, is_done}
use hashi_bot.Base.Dict.{lookup}
use hashi_bot.Exec.Types.{
  CustomerExecutionProfile, CustomerRuntimeState, ExecutionCommand, ExecutionEvent, WorkerState,
  VerificationEntry, Store, ExecutionTelemetry,
}

abbrev pub or_one : ℕ → ℕ
or_one zero = 1
or_one (suc n) = suc n

module _ {N : Type 0} ⦃num : Number N⦄ where
  abbrev pub has_id : String → ExecutionCommand N → Bool
  has_id id c = c.command_id == id

  unfoldable pub insert_command : ExecutionCommand N → Store N → Bool × Store N
  insert_command command s =
      if exists
        (λ c. c.command_id == command.command_id || c.idempotency_key == command.idempotency_key)
        s.commands
      then (false, s)
      else (true, record s { commands = s.commands ++ (command ∷ []) })

  -- The command with the id, if it is as expected.
  abbrev pub expected_command : (ExecutionCommand N → Bool) → Option (ExecutionCommand N) → Bool
  expected_command expected none = false
  expected_command expected (some c) = expected c

  unfoldable pub list_commands : (ExecutionCommand N → Bool) → Store N → List (ExecutionCommand N)
  list_commands predicate s = keep predicate s.commands

  unfoldable pub move_to_dead_letter : String → Store N → Store N
  move_to_dead_letter id s = elim (find (has_id id) s.commands) [
    | none ↦ s
    | some c ↦ record s {
      commands = remove_first (has_id id) s.commands;
      dead_letters = s.dead_letters ++ (c ∷ []);
    }
  ]

  unfoldable pub save_profile : CustomerExecutionProfile N → Store N → Store N
  save_profile profile s = record s {
    profiles = keep (λ p. not (p.customer_id == profile.customer_id)) s.profiles ++ (profile ∷ []);
  }

  unfoldable pub list_profiles : (offset limit : ℕ) → Store N → List (CustomerExecutionProfile N)
  list_profiles offset limit s = take limit (drop offset s.profiles)

  unfoldable pub get_runtime : String → Store N → Option CustomerRuntimeState
  get_runtime customer_id s = find (λ r. r.customer_id == customer_id) s.runtime

  unfoldable pub upsert_runtime : CustomerRuntimeState → Store N → Store N
  upsert_runtime runtime s = record s {
    runtime = keep (λ r. not (r.customer_id == runtime.customer_id)) s.runtime ++ (runtime ∷ []);
  }

  unfoldable pub record_dispatch : String → Store N → Store N
  record_dispatch key s =
      if includes s.dispatch_history key
      then s
      else record s { dispatch_history = s.dispatch_history ++ (key ∷ []) }

  unfoldable pub has_dispatched : String → Store N → Bool
  has_dispatched key s =
      includes s.dispatch_history key || is_some (lookup key s.idempotency_records)

  unfoldable pub save_worker_state : WorkerState → Store N → Store N
  save_worker_state worker s = record s {
    worker_state =
        keep (λ w. not (w.worker_id == worker.worker_id)) s.worker_state ++ (worker ∷ []);
  }

  unfoldable pub record_verification : VerificationEntry → Store N → Store N
  record_verification entry s = record s {
    verification_history = s.verification_history ++ (entry ∷ []);
  }

  unfoldable pub telemetry : Store N → ExecutionTelemetry N
  telemetry s =
      let total = int (or_one (length s.commands +ℕ length s.dead_letters)) in
      record {
        queue_depth = count_of (λ c. is_waiting c.status) s.commands;
        worker_health = map (λ w. (w.worker_id, w.status)) s.worker_state;
        average_latency_ms = int 0;
        failure_rate = int (length s.dead_letters) / total;
        retry_rate = int (count_of (λ c. ltb 0 c.retry_count) s.commands) / total;
        completion_rate = int (count_of (λ c. is_done c.status) s.commands) / total;
        verification_rate = int (length s.verification_history) / total;
        recovery_count = s.recovery_count;
        duplicate_prevention_count = s.duplicate_prevention_count;
      }

  unfoldable pub replay : ℕ → Store N → List (ExecutionEvent N)
  replay after_sequence s = keep (λ e. ltb after_sequence e.sequence) s.events

  unfoldable pub clear_events : Store N → Store N
  clear_events s = record s { events = [] }
