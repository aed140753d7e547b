-- ===== src/Exec/Manager/Once.antt =====
-- No order is queued twice (v2/src/execution-core/manager.ts).
use hashi_bot.Base.{
  ℕ, suc, ◌≢◌, String, ◌≡◌, sym, ap, ◌∙◌, true, false, is_some, Option, Option-cases, none, some,
  List, [], ◌∷◌, All, All-map, arith, inl, inr,
}
use Prim.Native.Nat.{◌+◌ as ◌+ℕ◌}
use hashi_bot.Base.Number.{Number}
use hashi_bot.Exec.Types.{
  ImmutableSignal, AdapterCapabilityProfile, ExecutionPlan, ExecutionEventType, EventPayload, Store,
  Clock,
}
use hashi_bot.Exec.Commands.{has_dispatched}
use hashi_bot.Exec.Repository.{publish}
use hashi_bot.Exec.Capabilities.{Registry}
use hashi_bot.Exec.Gates.{customer_gate}
use hashi_bot.Exec.Planner.{cap_gate, plan_with, plan}
use hashi_bot.Exec.Planner.Approved.{cap_gate-clear}
use hashi_bot.Exec.Manager.{
  Slot, is_duplicate, slots, plan_event, manager_recover, dispatch_slot, dispatch_slots, dispatch,
}
use hashi_bot.Exec.Manager.Kept.{
  not_before, clash, queue_commands-keeps, queue_commands-dispatched, manager_recover-dispatched,
}

module _ {N : Type 0} ⦃num : Number N⦄ (clock : Clock N) (caps : Registry N) where
  -- The commands of plans are not dispatched in a store.
  abbrev Fresh : Store N → List (ExecutionPlan N) → Type 0
  Fresh s = All (λ p. All (λ c. has_dispatched c.idempotency_key s ≡ false) p.commands)

  abbrev Dispatched : Store N → List (ExecutionPlan N) → Type 0
  Dispatched s = All (λ p. All (λ c. has_dispatched c.idempotency_key s ≡ true) p.commands)

  plan_with-fresh :
      (now : N) (uuid : String) (signal : ImmutableSignal N) (slot : Slot N) (s : Store N)
      (found : Option (AdapterCapabilityProfile N))
      → All
          (λ c. has_dispatched c.idempotency_key s ≡ false)
          (plan_with clock caps
            (is_duplicate s)
            now
            uuid
            signal
            slot.0
            slot.1
            slot.2
            found).commands
  plan_with-fresh now uuid signal slot s none = tt
  plan_with-fresh now uuid signal slot s (some able) =
      let gate = cap_gate clock caps (is_duplicate s) now signal slot.0 slot.1 slot.2 able in
      elim (Option-cases gate) [
        | inl n ↦
            let clear =
              (cap_gate-clear clock caps (is_duplicate s) now signal slot.0 slot.1 slot.2 able).0
                (ap is_some n) in
            let unique = clear.1.1.1 in rw (plan_with, n) (ground (arith, unique), tt)
        | inr (r, e) ↦ rw (plan_with, e) tt
      ]

  plan-fresh :
      (now : N) (uuid : String) (signal : ImmutableSignal N) (slot : Slot N) (s : Store N)
      → All
          (λ c. has_dispatched c.idempotency_key s ≡ false)
          (plan clock caps (is_duplicate s) now uuid signal slot.0 slot.1 slot.2).commands
  unfolding plan
  plan-fresh now uuid signal slot s = elim (Option-cases (customer_gate slot.0 slot.1 slot.2)) [
    | inl n ↦ rw (plan, n) (plan_with-fresh now uuid signal slot s (caps slot.2.platform))
    | inr (r, e) ↦ rw (plan, e) tt
  ]

  dispatch_slot-keeps :
      (time : ℕ → N) (uuid : String) (signal : ImmutableSignal N) (slot : Slot N) (s : Store N)
      (key : String)
      → has_dispatched key s ≡ true
      → has_dispatched key (dispatch_slot clock caps time uuid signal slot s).1 ≡ true
  unfolding dispatch_slot publish has_dispatched
  dispatch_slot-keeps time uuid signal slot s key h =
      let p = plan clock caps (is_duplicate s) (time 0) uuid signal slot.0 slot.1 slot.2 in
      queue_commands-keeps clock (λ k. time (2 +ℕ k)) key p.commands
        (publish clock (time 1) (plan_event p.status) (EventPayload.of_plan p) s) h

  dispatch_slot-dispatched :
      (time : ℕ → N) (uuid : String) (signal : ImmutableSignal N) (slot : Slot N) (s : Store N)
      → All
          (λ c.
            has_dispatched c.idempotency_key (dispatch_slot clock caps time uuid signal slot s).1
            ≡ true)
          (dispatch_slot clock caps time uuid signal slot s).0.commands
  unfolding dispatch_slot
  dispatch_slot-dispatched time uuid signal slot s =
      let p = plan clock caps (is_duplicate s) (time 0) uuid signal slot.0 slot.1 slot.2 in
      queue_commands-dispatched clock (λ k. time (2 +ℕ k)) p.commands
        (publish clock (time 1) (plan_event p.status) (EventPayload.of_plan p) s)

  dispatch_slots-keeps :
      (time : ℕ → N) (uuid : ℕ → String) (signal : ImmutableSignal N) (places : List (Slot N))
      (s : Store N) (key : String)
      → has_dispatched key s ≡ true
      → has_dispatched key (dispatch_slots clock caps time uuid signal places s).1 ≡ true
  unfolding dispatch_slots
  dispatch_slots-keeps time uuid signal [] s key h = h
  dispatch_slots-keeps time uuid signal (slot ∷ places) s key h =
      dispatch_slots-keeps (λ k. time (4 +ℕ k)) (λ k. uuid (suc k)) signal places
        (dispatch_slot clock caps time (uuid 0) signal slot s).1 key
        (dispatch_slot-keeps time (uuid 0) signal slot s key h)

  dispatch_slots-Dispatched :
      (time : ℕ → N) (uuid : ℕ → String) (signal : ImmutableSignal N) (places : List (Slot N))
      (s : Store N)
      → Dispatched
          (dispatch_slots clock caps time uuid signal places s).1
          (dispatch_slots clock caps time uuid signal places s).0
  unfolding dispatch_slots
  dispatch_slots-Dispatched time uuid signal [] s = tt
  dispatch_slots-Dispatched time uuid signal (slot ∷ places) s =
      let (p, next) = dispatch_slot clock caps time (uuid 0) signal slot s in
      let last =
        (dispatch_slots clock caps (λ k. time (4 +ℕ k)) (λ k. uuid (suc k)) signal places next).1 in
      (
        All-map (λ c. has_dispatched c.idempotency_key next ≡ true)
            (λ c. has_dispatched c.idempotency_key last ≡ true) p.commands
            (λ c.
              dispatch_slots-keeps (λ k. time (4 +ℕ k)) (λ k. uuid (suc k)) signal places next
                c.idempotency_key)
            (dispatch_slot-dispatched time (uuid 0) signal slot s),
        dispatch_slots-Dispatched (λ k. time (4 +ℕ k)) (λ k. uuid (suc k)) signal places next,
      )

  dispatch_slots-Fresh :
      (time : ℕ → N) (uuid : ℕ → String) (signal : ImmutableSignal N) (places : List (Slot N))
      (s : Store N)
      → Fresh s (dispatch_slots clock caps time uuid signal places s).0
  unfolding dispatch_slots dispatch_slot
  dispatch_slots-Fresh time uuid signal [] s = tt
  dispatch_slots-Fresh time uuid signal (slot ∷ places) s =
      let next = (dispatch_slot clock caps time (uuid 0) signal slot s).1 in
      let plans =
        (dispatch_slots clock caps (λ k. time (4 +ℕ k)) (λ k. uuid (suc k)) signal places next).0 in
      (
        plan-fresh (time 0) (uuid 0) signal slot s,
        All-map (λ p. All (λ c. has_dispatched c.idempotency_key next ≡ false) p.commands)
            (λ p. All (λ c. has_dispatched c.idempotency_key s ≡ false) p.commands) plans
            (λ p.
              All-map (λ c. has_dispatched c.idempotency_key next ≡ false)
                (λ c. has_dispatched c.idempotency_key s ≡ false) p.commands
                (λ c n.
                  not_before next s c.idempotency_key
                    (dispatch_slot-keeps time (uuid 0) signal slot s c.idempotency_key) n))
            (dispatch_slots-Fresh (λ k. time (4 +ℕ k)) (λ k. uuid (suc k)) signal places next),
      )

  dispatch-Dispatched :
      (time : ℕ → N) (uuid : ℕ → String) (signal : ImmutableSignal N) (s : Store N)
      → Dispatched
          (dispatch clock caps time uuid signal s).1
          (dispatch clock caps time uuid signal s).0.plans
  unfolding dispatch publish has_dispatched
  dispatch-Dispatched time uuid signal s =
      dispatch_slots-Dispatched (λ k. time (4 +ℕ k)) uuid signal _ _

  dispatch-Fresh :
      (time : ℕ → N) (uuid : ℕ → String) (signal : ImmutableSignal N) (s : Store N)
      → Fresh s (dispatch clock caps time uuid signal s).0.plans
  unfolding dispatch manager_recover publish has_dispatched
  dispatch-Fresh time uuid signal s =
      let recovered = (manager_recover clock time s).1 in
      let started =
        publish clock (time 2) ExecutionEventType.execution_planning_started
          (EventPayload.of_signal signal.signal_id) recovered in
      All-map (λ p. All (λ c. has_dispatched c.idempotency_key started ≡ false) p.commands)
        (λ p. All (λ c. has_dispatched c.idempotency_key s ≡ false) p.commands)
        (dispatch_slots clock caps (λ k. time (4 +ℕ k)) uuid signal (slots started.profiles)
          started).0
        (λ p.
          All-map (λ c. has_dispatched c.idempotency_key started ≡ false)
            (λ c. has_dispatched c.idempotency_key s ≡ false) p.commands
            (λ c n. sym (manager_recover-dispatched clock time c.idempotency_key s) ∙ n))
        (dispatch_slots-Fresh (λ k. time (4 +ℕ k)) uuid signal (slots started.profiles) started)

  -- Two dispatches, one after the other, of one signal or of two, never plan commands with the same
  -- idempotency key, whatever the clock says and whatever identifiers are drawn.
  pub dispatch-once :
      (time time' : ℕ → N) (uuid uuid' : ℕ → String) (signal signal' : ImmutableSignal N)
      (s : Store N)
      → All
          (λ p.
            All
              (λ c.
                All
                  (λ q. All (λ d. c.idempotency_key ≢ d.idempotency_key) q.commands)
                  (dispatch clock caps time' uuid' signal'
                    (dispatch clock caps time uuid signal s).1).0.plans)
              p.commands)
          (dispatch clock caps time uuid signal s).0.plans
  dispatch-once time time' uuid uuid' signal signal' s =
      let first = dispatch clock caps time uuid signal s in
      let second = dispatch clock caps time' uuid' signal' first.1 in
      All-map (λ p. All (λ c. has_dispatched c.idempotency_key first.1 ≡ true) p.commands)
        (λ p.
          All
            (λ c.
              All (λ q. All (λ d. c.idempotency_key ≢ d.idempotency_key) q.commands) second.0.plans)
            p.commands)
        first.0.plans
        (λ p.
          All-map (λ c. has_dispatched c.idempotency_key first.1 ≡ true)
            (λ c.
              All (λ q. All (λ d. c.idempotency_key ≢ d.idempotency_key) q.commands) second.0.plans)
            p.commands
            (λ c before.
              All-map (λ q. All (λ d. has_dispatched d.idempotency_key first.1 ≡ false) q.commands)
                (λ q. All (λ d. c.idempotency_key ≢ d.idempotency_key) q.commands) second.0.plans
                (λ q.
                  All-map (λ d. has_dispatched d.idempotency_key first.1 ≡ false)
                    (λ d. c.idempotency_key ≢ d.idempotency_key) q.commands
                    (λ d fresh same.
                      clash first.1 c.idempotency_key d.idempotency_key before fresh same))
                (dispatch-Fresh time' uuid' signal' first.1)))
        (dispatch-Dispatched time uuid signal s)
