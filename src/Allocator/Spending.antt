-- ===== src/Allocator/Spending.antt =====
-- What the decisions of the allocator take from the budget (portfolio-allocator.ts).
use mathlib.Core.Path.{subst}
use hashi_bot.Base.{◌≡◌, sym, true, List, [], ◌∷◌, All, arith}
use hashi_bot.Base.Number.{Number, IsIeee, IsNumber, ◌≼◌, int, ◌-◌, ◌*◌}
use hashi_bot.Policy.{clamp}
use hashi_bot.Policy.Types.{LiveMode, live_personal, live_prop, live}
use hashi_bot.Policy.Bounds.{clamp_bounds}
use hashi_bot.Allocator.{
  decide, decide_all, allocated_risk, available_of, total_cap, open_risk_of, symbol_remaining,
  allocate_portfolio_capital, allocate_for, rank_candidates, resolve_market_type_hook,
}
use hashi_bot.Allocator.Types.{AllocatorInput, RankedSetup, AllocationDecision}

module _ {N : Type 0} ⦃num : Number N⦄ where
  open num use {lit, min, max, le, is_finite}

  -- The weighted share that an entry asks for, and what its symbol has left, are not NaN.
  abbrev pub Requests : LiveMode → AllocatorInput N → RankedSetup N → Type 0
  Requests mode input entry =
      let hook = resolve_market_type_hook input entry.signal.market_type in
      IsNumber (available_of mode input * entry.weight * hook.sizing_multiplier)
      × IsNumber (symbol_remaining mode input entry)

  -- A grant between 0 and `budget`.
  abbrev pub Within : N → AllocationDecision N → Type 0
  Within budget d = (int 0 ≼ d.allocated_risk_pct) × (d.allocated_risk_pct ≼ budget)

  -- Each decision stays within what its symbol had left when the run began.
  pub WithinSymbols :
      LiveMode → AllocatorInput N → List (AllocationDecision N) → List (RankedSetup N) → Type 0
  WithinSymbols mode input [] entries = Unit
  WithinSymbols mode input (d ∷ ds) [] = Unit
  WithinSymbols mode input (d ∷ ds) (entry ∷ entries) =
      (d.allocated_risk_pct ≼ symbol_remaining mode input entry)
      × WithinSymbols mode input ds entries

  module _ (ieee : IsIeee N) where
    open ieee use {
      numbers_of_le, le_trans, zero-le-lit, finite_number, finite_between, lit_finite, min_le,
      le-min, le_max, max-le, number_of_minus, minus_nonneg, minus_le, numbers_of_max,
    }

    zero-IsNumber : IsNumber (lit 0 0)
    zero-IsNumber = (numbers_of_le _ _ (zero-le-lit 0 0)).0

    nonneg_of_max : (x : N) → IsNumber (max x (int 0)) → int 0 ≼ max x (int 0)
    nonneg_of_max x n = (le_max x (int 0) (numbers_of_max x (int 0) n).0 zero-IsNumber).1

    min-IsNumber : (x y : N) → IsNumber x → IsNumber y → IsNumber (min x y)
    min-IsNumber x y m n = (numbers_of_le _ _ (min_le x y m n).0).0

    -- A request, cut to `symbol` and to the budget.
    cut_bounds :
        (request symbol budget : N)
        → IsNumber request
        → int 0 ≼ symbol
        → int 0 ≼ budget
        → let cut = clamp (min (min request symbol) budget) (int 0) budget in
          (int 0 ≼ cut) × (cut ≼ budget) × (cut ≼ symbol)
    cut_bounds request symbol budget r s b =
        let symbol_number = (numbers_of_le _ _ s).1 in
        let budget_number = (numbers_of_le _ _ b).1 in
        let inner = min-IsNumber request symbol r symbol_number in
        let both = min-IsNumber _ budget inner budget_number in
        let bounds = clamp_bounds ieee _ (int 0) budget both b in
        let below = le_trans _ _ _ (min_le budget _ budget_number both).1 (
          le_trans _ _ _ (min_le _ budget inner budget_number).0
            (min_le request symbol r symbol_number).1) in
        (bounds.0, bounds.1, max-le _ _ _ s below)

    pub allocated_risk-bounds :
        (mode : LiveMode) (input : AllocatorInput N) (remaining : N) (entry : RankedSetup N)
        → Requests mode input entry
        → int 0 ≼ remaining
        → let risk = allocated_risk mode input remaining entry in
          (int 0 ≼ risk) × (risk ≼ remaining) × (risk ≼ symbol_remaining mode input entry)
    unfolding allocated_risk
    allocated_risk-bounds mode input remaining entry (r, s) h =
        cut_bounds _ _ remaining r (nonneg_of_max _ s) h

    -- What is left of a finite budget after a grant within it.
    left_bounds :
        (budget risk : N)
        → is_finite budget ≡ true
        → int 0 ≼ risk
        → risk ≼ budget
        → let left = max (budget - risk) (int 0) in (int 0 ≼ left) × (left ≼ budget)
    left_bounds budget risk f h k =
        let difference = number_of_minus budget risk f (finite_between _ _ h k f) in
        let total = le_trans _ _ _ h k in
        ((le_max _ _ difference zero-IsNumber).1, max-le _ _ _ (minus_le _ _ h difference) total)

    pub decide-bounds :
        (mode : LiveMode) (input : AllocatorInput N) (remaining : N) (entry : RankedSetup N)
        → Requests mode input entry
        → int 0 ≼ remaining
        → is_finite remaining ≡ true
        → let (d, left) = decide mode input remaining entry in
          Within remaining d
          × (d.allocated_risk_pct ≼ symbol_remaining mode input entry)
          × (int 0 ≼ left)
          × (left ≼ remaining)
    unfolding decide
    decide-bounds mode input remaining entry asks h f =
        let risk = allocated_risk mode input remaining entry in
        let bounds = allocated_risk-bounds mode input remaining entry asks h in
        ground (
          arith,
          bounds,
          left_bounds remaining risk f bounds.0 bounds.1,
          nonneg_of_max _ asks.1,
          zero-IsNumber,
          (numbers_of_le _ _ h).1,
        )

    widen :
        (low high : N) (ds : List (AllocationDecision N))
        → low ≼ high
        → All (Within low) ds
        → All (Within high) ds
    widen low high [] h a = tt
    widen low high (d ∷ ds) h ((n, l), rest) = ((n, le_trans _ _ _ l h), widen low high ds h rest)

    decide_all-bounds :
        (mode : LiveMode) (input : AllocatorInput N) (remaining : N)
        (entries : List (RankedSetup N))
        → All (Requests mode input) entries
        → int 0 ≼ remaining
        → is_finite remaining ≡ true
        → let (ds, left) = decide_all mode input remaining entries in
          All (Within remaining) ds
          × WithinSymbols mode input ds entries
          × (int 0 ≼ left)
          × (left ≼ remaining)
    unfolding decide_all WithinSymbols
    decide_all-bounds mode input remaining [] asks h f = (tt, tt, h, (numbers_of_le _ _ h).1)
    decide_all-bounds mode input remaining (entry ∷ rest) (ask, asks) h f =
        let (own, own_symbol, nonneg, less) = decide-bounds mode input remaining entry ask h f in
        let left = (decide mode input remaining entry).1 in
        let (others, symbols, last, lower) =
          decide_all-bounds mode input left rest asks nonneg (finite_between _ _ nonneg less f) in
        (
          (own, widen left remaining _ less others),
          (own_symbol, symbols),
          last,
          le_trans _ _ _ lower less,
        )

    total_cap-finite :
        (mode : LiveMode) → (is_finite (total_cap mode) ≡ true) × (lit 0 0 ≼ total_cap mode)
    total_cap-finite live_personal = (lit_finite _ _ (omega arith), zero-le-lit _ _)
    total_cap-finite live_prop = (lit_finite _ _ (omega arith), zero-le-lit _ _)

    -- The budget of a run lies between 0 and the cap of the mode.
    pub available-bounds :
        (mode : LiveMode) (input : AllocatorInput N)
        → IsNumber (open_risk_of input)
        → IsNumber (available_of mode input)
        → (int 0 ≼ available_of mode input)
          × (available_of mode input ≼ total_cap mode)
          × (is_finite (available_of mode input) ≡ true)
    available-bounds mode input n m =
        let (cap_finite, cap_nonneg) = total_cap-finite mode in
        let cap_number = (numbers_of_le _ _ cap_nonneg).1 in
        let nonneg = nonneg_of_max _ n in
        let difference = (numbers_of_max _ _ m).0 in
        let below = max-le _ _ _ (minus_le (total_cap mode) _ nonneg difference) cap_nonneg in
        (nonneg_of_max _ m, below, finite_between _ _ (nonneg_of_max _ m) below cap_finite)

    -- If the open risk and the budget that it leaves, the share that each entry asks for and what its
    -- symbol has left are not NaN, then a live run leaves a budget between 0 and the one it began with,
    -- which is at most the cap of the mode; and each decision grants at least 0, at most the whole
    -- budget, and at most what its symbol had left when the run began.
    pub allocate_portfolio_capital-Within :
        (mode : LiveMode) (input : AllocatorInput N)
        → input.mode ≡ live mode
        → IsNumber (open_risk_of input)
        → IsNumber (available_of mode input)
        → All (Requests mode input) (rank_candidates input.candidates)
        → let out = allocate_portfolio_capital input in
          (int 0 ≼ out.budget.remaining_pct)
          × (out.budget.remaining_pct ≼ out.budget.available_pct)
          × (out.budget.available_pct ≼ total_cap mode)
          × All (Within out.budget.available_pct) out.decisions
          × WithinSymbols mode input out.decisions out.ranked_setups
    unfolding allocate_portfolio_capital allocate_for
    allocate_portfolio_capital-Within mode input e n m asks =
        let (nonneg, capped, finite) = available-bounds mode input n m in
        let (own, symbols, last, lower) = decide_all-bounds mode input _ _ asks nonneg finite in
        subst
          (λ k.
            let out = allocate_for k input in
            (int 0 ≼ out.budget.remaining_pct)
            × (out.budget.remaining_pct ≼ out.budget.available_pct)
            × (out.budget.available_pct ≼ total_cap mode)
            × All (Within out.budget.available_pct) out.decisions
            × WithinSymbols mode input out.decisions out.ranked_setups)
          (sym e) (last, lower, capped, own, symbols)
