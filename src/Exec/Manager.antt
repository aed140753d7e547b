-- ===== src/Exec/Manager.antt =====
-- v2/src/execution-core/manager.ts: the dispatch of a signal to every account of every executor of every
-- customer. `time k` is the clock at the k-th place of a call where it is read, `uuid k` the k-th random
-- identifier. A signal is a value, so the test that it was not mutated never fails.
pub mod Kept
pub mod Once
use Prim.Native.Nat.{◌+◌ as ◌+ℕ◌}
use hashi_bot.Base.{
  ℕ, zero, suc, String, Bool, true, false, ◌||◌, Option, is_some, List, [], ◌∷◌, ◌++◌, map, length,
  count_of, if◌then◌else◌,
}
use hashi_bot.Base.Number.{Number}
use hashi_bot.Exec.Types.{
  PlanStatus, ImmutableSignal, CustomerAccountProfile, ExecutorProfile, CustomerExecutionProfile,
  ExecutionCommand, ExecutionPlan, ExecutionEventType, EventPayload, Store, Clock,
}
use hashi_bot.Exec.Commands.{has_dispatched}
use hashi_bot.Exec.Repository.{recover, publish}
use hashi_bot.Exec.Queue.{EnqueueResult, find_by_idempotency_key, enqueue}
use hashi_bot.Exec.Capabilities.{Registry}
use hashi_bot.Exec.Planner.{plan}

pub record ExecutionDispatchReport (N : Type 0) : Type 0 where
  pub signal_id : String
  pub plans : List (ExecutionPlan N)
  pub queued_commands : ℕ
  pub rejected : ℕ
  pub deferred : ℕ
  pub approved : ℕ

-- The event that says what became of a plan.
abbrev pub plan_event : PlanStatus → ExecutionEventType
plan_event PlanStatus.approved = ExecutionEventType.execution_plan_approved
plan_event PlanStatus.deferred = ExecutionEventType.execution_plan_deferred
plan_event PlanStatus.rejected = ExecutionEventType.execution_plan_rejected

abbrev pub is_approved_plan : PlanStatus → Bool
is_approved_plan PlanStatus.approved = true
is_approved_plan PlanStatus.deferred = false
is_approved_plan PlanStatus.rejected = false

abbrev pub is_deferred_plan : PlanStatus → Bool
is_deferred_plan PlanStatus.approved = false
is_deferred_plan PlanStatus.deferred = true
is_deferred_plan PlanStatus.rejected = false

abbrev pub is_rejected_plan : PlanStatus → Bool
is_rejected_plan PlanStatus.approved = false
is_rejected_plan PlanStatus.deferred = false
is_rejected_plan PlanStatus.rejected = true

-- A place of the three nested loops.
abbrev pub Slot : Type 0 → Type 0
Slot N = CustomerExecutionProfile N × ExecutorProfile N × CustomerAccountProfile N

module _ {N : Type 0} ⦃num : Number N⦄ where
  -- The manager's `isDuplicate`.
  abbrev pub is_duplicate : Store N → String → Bool
  is_duplicate s key = is_some (find_by_idempotency_key key s) || has_dispatched key s

  abbrev pub executor_slots : CustomerExecutionProfile N → List (ExecutorProfile N) → List (Slot N)
  executor_slots customer [] = []
  executor_slots customer (e ∷ es) =
      map (λ a. (customer, e, a)) e.accounts ++ executor_slots customer es

  abbrev pub slots : List (CustomerExecutionProfile N) → List (Slot N)
  slots [] = []
  slots (c ∷ cs) = executor_slots c c.executors ++ slots cs

  abbrev pub commands_in : List (ExecutionPlan N) → ℕ
  commands_in [] = 0
  commands_in (p ∷ ps) = length p.commands +ℕ commands_in ps

module _ {N : Type 0} ⦃num : Number N⦄ (clock : Clock N) where
  -- `if (recovered)`: the event that leases were ended.
  abbrev pub announce_recovered : N → ℕ → Store N → Store N
  announce_recovered now zero s = s
  announce_recovered now (suc n) s =
      publish clock now ExecutionEventType.execution_recovered (EventPayload.recovered (suc n)) s

  unfoldable pub manager_recover : (ℕ → N) → Store N → ℕ × Store N
  manager_recover time s =
      let (recovered, next) = recover clock (time 0) s in
      (recovered, announce_recovered (time 1) recovered next)

  -- The event that says whether a command was queued.
  abbrev pub announce : N → ExecutionCommand N → Bool → Store N → Store N
  announce now c true s =
      publish clock now ExecutionEventType.command_queued
        (EventPayload.queued c.command_id c.correlation_id c.customer_id) s
  announce now c false s =
      publish clock now ExecutionEventType.command_duplicate_prevented
        (EventPayload.prevented c.idempotency_key) s

  unfoldable pub queue_commands : (ℕ → N) → List (ExecutionCommand N) → Store N → Store N
  queue_commands time [] s = s
  queue_commands time (c ∷ cs) s =
      let (result, next) = enqueue clock (time 0) c s in
      queue_commands (λ k. time (2 +ℕ k)) cs (announce (time 1) c result.enqueued next)

module _ {N : Type 0} ⦃num : Number N⦄ (clock : Clock N) (caps : Registry N) where
  -- The body of the loops: one account.
  unfoldable pub dispatch_slot :
      (ℕ → N) → String → ImmutableSignal N → Slot N → Store N → ExecutionPlan N × Store N
  dispatch_slot time uuid signal slot s =
      let p = plan clock caps (is_duplicate s) (time 0) uuid signal slot.0 slot.1 slot.2 in
      (
        p,
        queue_commands clock (λ k. time (2 +ℕ k)) p.commands
            (publish clock (time 1) (plan_event p.status) (EventPayload.of_plan p) s),
      )

  unfoldable pub dispatch_slots :
      (ℕ → N)
      → (ℕ → String)
      → ImmutableSignal N
      → List (Slot N)
      → Store N
      → List (ExecutionPlan N) × Store N
  dispatch_slots time uuid signal [] s = ([], s)
  dispatch_slots time uuid signal (slot ∷ rest) s =
      let (p, next) = dispatch_slot time (uuid 0) signal slot s in
      let (ps, last) = dispatch_slots (λ k. time (4 +ℕ k)) (λ k. uuid (suc k)) signal rest next in
      (p ∷ ps, last)

  unfoldable pub dispatch :
      (ℕ → N) → (ℕ → String) → ImmutableSignal N → Store N → ExecutionDispatchReport N × Store N
  dispatch time uuid signal s =
      let started =
        publish clock (time 2) ExecutionEventType.execution_planning_started
          (EventPayload.of_signal signal.signal_id) (manager_recover clock time s).1 in
      let (plans, planned) =
        dispatch_slots (λ k. time (4 +ℕ k)) uuid signal (slots started.profiles) started in
      (
        record {
          signal_id = signal.signal_id;
          plans = plans;
          queued_commands = commands_in plans;
          rejected = count_of (λ p. is_rejected_plan p.status) plans;
          deferred = count_of (λ p. is_deferred_plan p.status) plans;
          approved = count_of (λ p. is_approved_plan p.status) plans;
        },
        publish clock (time 3) ExecutionEventType.execution_planning_completed
            (EventPayload.planned signal.signal_id (length plans)) planned,
      )
