-- ===== src/Allocator/Budget.antt =====
-- The decisions of the allocator and the budget that they leave.
use mathlib.Core.Path.{subst}
use hashi_bot.Base.{
  ◌≡◌, refl, ◌∙◌, sym, ◌≢◌, ◌⊎◌, inr, not, is_some, map, Bool, true, false, Option, none, some,
  List, [], ◌∷◌, All, arith,
}
use hashi_bot.Base.Number.{Number, int}
use hashi_bot.Policy.Types.{LiveMode, live_prop, live, signal_only, ExecutionMode, ExecutionIntent}
use hashi_bot.Policy.Permission.{
  any_lock, build_execution_intent-reason, build_execution_intent-locked,
}
use hashi_bot.Allocator.{
  decide, decide_all, allocated_risk, allocation_intent, available_of, allocate_portfolio_capital,
  allocate_for, signal_only_decision, rank_candidates,
}
use hashi_bot.Allocator.Types.{AllocatorInput, RankedSetup, AllocationDecision}

module _ {N : Type 0} ⦃num : Number N⦄ where
  open num use {lit, min, max, le, is_finite}

  abbrev pub allowed_intent : Option (ExecutionIntent N) → Bool
  allowed_intent none = false
  allowed_intent (some intent) = intent.execution_allowed

  -- A decision grants a risk that is not `<= 0` and has an allowed intent, or says why not and grants 0.
  abbrev pub Settled : AllocationDecision N → Type 0
  Settled d =
      ((d.blocked_reason ≡ none)
        × (le d.allocated_risk_pct (int 0) ≡ false)
        × (allowed_intent d.intent ≡ true))
      ⊎ ((d.blocked_reason ≢ none) × (d.allocated_risk_pct ≡ int 0))

  allocation_intent-reason :
      (mode : LiveMode) (input : AllocatorInput N) (remaining risk : N) (entry : RankedSetup N)
      → let out = allocation_intent mode input remaining risk entry in
        out.execution_allowed ≡ not (is_some out.blocked_reason)
  unfolding allocation_intent
  allocation_intent-reason mode input remaining risk entry = build_execution_intent-reason _

  decide-Settled :
      (mode : LiveMode) (input : AllocatorInput N) (remaining : N) (entry : RankedSetup N)
      → Settled (decide mode input remaining entry).0
  unfolding decide
  decide-Settled mode input remaining entry =
      let risk = allocated_risk mode input remaining entry in
      ground (arith, allocation_intent-reason mode input remaining risk entry)

  decide_all-Settled :
      (mode : LiveMode) (input : AllocatorInput N) (remaining : N) (entries : List (RankedSetup N))
      → All Settled (decide_all mode input remaining entries).0
  unfolding decide_all
  decide_all-Settled mode input remaining [] = tt
  decide_all-Settled mode input remaining (entry ∷ rest) = (
    decide-Settled mode input remaining entry,
    decide_all-Settled mode input (decide mode input remaining entry).1 rest,
  )

  signal_only-Settled :
      (input : AllocatorInput N) (entries : List (RankedSetup N))
      → All Settled (map (signal_only_decision input) entries)
  signal_only-Settled input [] = tt
  signal_only-Settled input (entry ∷ rest) =
      (inr ((λ e. cc e), refl), signal_only-Settled input rest)

  allocate_for-Settled :
      (mode : ExecutionMode) (input : AllocatorInput N)
      → All Settled (allocate_for mode input).decisions
  unfolding allocate_for
  allocate_for-Settled signal_only input = signal_only-Settled input _
  allocate_for-Settled (live mode) input = decide_all-Settled mode input _ _

  -- In every mode, each decision of an allocation either has no blocked reason, a risk that is not 0 or
  -- less and an intent that may be executed, or has a blocked reason and a risk of 0.
  pub allocate_portfolio_capital-Settled :
      (input : AllocatorInput N) → All Settled (allocate_portfolio_capital input).decisions
  unfolding allocate_portfolio_capital
  allocate_portfolio_capital-Settled input = allocate_for-Settled input.mode input

  allocation_intent-locked :
      (input : AllocatorInput N) (remaining risk : N) (entry : RankedSetup N)
      → input.mode ≡ live live_prop
      → any_lock input.governance_locks ≡ true
      → (allocation_intent live_prop input remaining risk entry).execution_allowed ≡ false
  unfolding allocation_intent
  allocation_intent-locked input remaining risk entry e l = build_execution_intent-locked _ e l

  -- A decision that grants nothing.
  abbrev pub Denied : AllocationDecision N → Type 0
  Denied d = (d.blocked_reason ≢ none) × (d.allocated_risk_pct ≡ int 0)

  module _ (input : AllocatorInput N) (e : input.mode ≡ live live_prop)
      (l : any_lock input.governance_locks ≡ true) where
    decide-locked :
        (remaining : N) (entry : RankedSetup N)
        → let (d, left) = decide live_prop input remaining entry in Denied d × (left ≡ remaining)
    unfolding decide
    decide-locked remaining entry =
        let risk = allocated_risk live_prop input remaining entry in
        ground (
          arith,
          allocation_intent-locked input remaining risk entry e l,
          allocation_intent-reason live_prop input remaining risk entry,
        )

    decide_all-locked :
        (remaining : N) (entries : List (RankedSetup N))
        → let (ds, left) = decide_all live_prop input remaining entries in
          All Denied ds × (left ≡ remaining)
    unfolding decide_all
    decide_all-locked remaining [] = (tt, refl)
    decide_all-locked remaining (entry ∷ rest) =
        let this = decide-locked remaining entry in
        let others = decide_all-locked (decide live_prop input remaining entry).1 rest in
        ((this.0, others.0), others.1 ∙ this.1)

  -- While a prop account is locked, an allocation grants no candidate any risk and leaves the whole
  -- budget.
  pub allocate_portfolio_capital-locked :
      (input : AllocatorInput N)
      → input.mode ≡ live live_prop
      → any_lock input.governance_locks ≡ true
      → let out = allocate_portfolio_capital input in
        All Denied out.decisions × (out.budget.remaining_pct ≡ out.budget.available_pct)
  unfolding allocate_portfolio_capital
  allocate_portfolio_capital-locked input e l =
      subst
        (λ m.
          let out = allocate_for m input in
          All Denied out.decisions × (out.budget.remaining_pct ≡ out.budget.available_pct))
        (sym e)
        (decide_all-locked input e l (available_of live_prop input)
          (rank_candidates input.candidates))
