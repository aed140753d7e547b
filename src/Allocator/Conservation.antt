-- ===== src/Allocator/Conservation.antt =====
-- No grant is spent twice (portfolio-allocator.ts): how the budget goes down from grant to grant.
use mathlib.Core.Path.{subst}
use hashi_bot.Base.{◌≡◌, sym, refl, true, List, [], ◌∷◌, All, arith}
use hashi_bot.Base.Number.{Number, IsIeee, IsNumber, ◌≼◌, SameNumber, int, ◌-◌}
use hashi_bot.Policy.Types.{LiveMode, live}
use hashi_bot.Allocator.{
  decide, decide_all, allocated_risk, available_of, open_risk_of, allocate_portfolio_capital,
  allocate_for, rank_candidates,
}
use hashi_bot.Allocator.Types.{AllocatorInput, RankedSetup, AllocationDecision}
use hashi_bot.Allocator.Spending.{Requests, allocated_risk-bounds, decide-bounds, available-bounds}

module _ {N : Type 0} ⦃num : Number N⦄ where
  open num use {lit, max, le, is_finite}

  -- The decisions, in their order, take their grants from `budget` and leave `last`.
  pub Spends : N → List (AllocationDecision N) → N → Type 0
  Spends budget [] last = last ≡ budget
  Spends budget (d ∷ ds) last =
      (int 0 ≼ d.allocated_risk_pct)
      × (d.allocated_risk_pct ≼ budget)
      × ((left : N) × SameNumber left (budget - d.allocated_risk_pct) × Spends left ds last)

  module _ (ieee : IsIeee N) where
    open ieee use {
      numbers_of_le, finite_between, number_of_minus, minus_nonneg, minus_zero, le_max, max-le,
      zero-le-lit,
    }

    -- What is left of a finite budget after a grant within it.
    left_same :
        (budget risk : N)
        → is_finite budget ≡ true
        → int 0 ≼ risk
        → risk ≼ budget
        → SameNumber (max (budget - risk) (int 0)) (budget - risk)
    left_same budget risk f h k =
        let difference = number_of_minus budget risk f (finite_between _ _ h k f) in
        let zero = (numbers_of_le _ _ (zero-le-lit 0 0)).0 in
        (
          max-le _ _ _ difference (minus_nonneg budget risk k difference),
          (le_max _ _ difference zero).0,
        )

    untouched : (budget : N) → int 0 ≼ budget → SameNumber budget (budget - int 0)
    untouched budget h = rw minus_zero ((numbers_of_le _ _ h).1, (numbers_of_le _ _ h).1)

    decide-left :
        (mode : LiveMode) (input : AllocatorInput N) (remaining : N) (entry : RankedSetup N)
        → Requests mode input entry
        → int 0 ≼ remaining
        → is_finite remaining ≡ true
        → let (d, left) = decide mode input remaining entry in
          SameNumber left (remaining - d.allocated_risk_pct)
    unfolding decide
    decide-left mode input remaining entry asks h f =
        let risk = allocated_risk mode input remaining entry in
        let bounds = allocated_risk-bounds ieee mode input remaining entry asks h in
        ground (arith, left_same remaining risk f bounds.0 bounds.1, untouched remaining h)

    decide_all-Spends :
        (mode : LiveMode) (input : AllocatorInput N) (remaining : N)
        (entries : List (RankedSetup N))
        → All (Requests mode input) entries
        → int 0 ≼ remaining
        → is_finite remaining ≡ true
        → let (ds, left) = decide_all mode input remaining entries in Spends remaining ds left
    unfolding decide_all Spends
    decide_all-Spends mode input remaining [] asks h f = refl
    decide_all-Spends mode input remaining (entry ∷ rest) (ask, asks) h f =
        let left = (decide mode input remaining entry).1 in
        let (own, symbol, nonneg, less) = decide-bounds ieee mode input remaining entry ask h f in
        (
          own.0,
          own.1,
          (
            left,
            decide-left mode input remaining entry ask h f,
            decide_all-Spends mode input left rest asks nonneg (finite_between _ _ nonneg less f),
          ),
        )

    -- Under the laws of IEEE 754 arithmetic, and if the open risk and the budget that it leaves, the
    -- share that each entry asks for and what its symbol has left are not NaN, each decision of a live
    -- run, in the order of the ranking, grants at least 0 and at most what the grants before it have
    -- left of the budget; what it leaves is the (rounded) difference of the two, as a number; and the
    -- reported remaining budget is what the last grant leaves.
    pub allocate_portfolio_capital-Spends :
        (mode : LiveMode) (input : AllocatorInput N)
        → input.mode ≡ live mode
        → IsNumber (open_risk_of input)
        → IsNumber (available_of mode input)
        → All (Requests mode input) (rank_candidates input.candidates)
        → let out = allocate_portfolio_capital input in
          Spends out.budget.available_pct out.decisions out.budget.remaining_pct
    unfolding allocate_portfolio_capital allocate_for
    allocate_portfolio_capital-Spends mode input e n m asks =
        let (nonneg, capped, finite) = available-bounds ieee mode input n m in
        subst
          (λ k.
            let out = allocate_for k input in
            Spends out.budget.available_pct out.decisions out.budget.remaining_pct)
          (sym e) (decide_all-Spends mode input _ _ asks nonneg finite)
