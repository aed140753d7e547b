-- ===== src/Paper/Admission.antt =====
-- What an accepted and a rejected candidate of the paper execution means.
use hashi_bot.Base.{◌≡◌, ◌≢◌, true, false, none, or_else, arith, ◌⊎◌, ◌↔◌}
use hashi_bot.Base.Number.{Number, IsIeee, IsNumber, ◌≼◌, int}
use hashi_bot.Paper.Types.{PaperExecutionDecision, DecisionParams}
use hashi_bot.Paper.Gate.{
  compute_paper_execution_decision, sized_decision, accepted_decision, rejected_decision, unusable,
  margin_of, final_qty, stop_distance_of, capital_basis_of, target_notional_of, qty_from_notional,
  qty_from_risk,
}

module _ {N : Type 0} ⦃num : Number N⦄ where
  open num use {lit, abs, min, max, lt, le, is_finite}

  -- The checks of the input: no block, a free place, and prices and amounts that are finite and not 0 or less.
  abbrev pub Admissible : DecisionParams N → Type 0
  Admissible p =
      (or_else p.policy_blocked false ≡ false)
      × (or_else p.active_symbol_blocked false ≡ false)
      × (or_else p.symbol_cooldown_blocked false ≡ false)
      × (le p.account.max_concurrent_positions p.account.open_positions_count ≡ false)
      × (unusable p.candidate.entry_price ≡ false)
      × (unusable p.risk_pct ≡ false)
      × (unusable p.account.equity ≡ false)
      × (unusable (stop_distance_of p) ≡ false)

  -- The checks of the size: the notional, the quantity and the margin that the account can pay.
  abbrev pub Affordable : DecisionParams N → Type 0
  Affordable p =
      (unusable (qty_from_notional p) ≡ false)
      × (le (target_notional_of p) (int 0) ≡ false)
      × (le (capital_basis_of p) (int 0) ≡ false)
      × (unusable (final_qty p) ≡ false)
      × (unusable (margin_of p) ≡ false)
      × (lt p.account.free_margin (margin_of p) ≡ false)

  -- A candidate is accepted exactly if it passes every check.
  pub compute_paper_execution_decision-accepted :
      (p : DecisionParams N)
      → (compute_paper_execution_decision p).accepted ≡ true ↔ Admissible p × Affordable p
  unfolding compute_paper_execution_decision sized_decision accepted_decision rejected_decision
  compute_paper_execution_decision-accepted p = ground arith

  -- A decision is accepted and gives no reason, or is rejected with a reason and only zeros.
  abbrev pub Explained : PaperExecutionDecision N → Type 0
  Explained d =
      ((d.accepted ≡ true) × (d.rejection_reason ≡ none))
      ⊎ ((d.accepted ≡ false)
          × (d.rejection_reason ≢ none)
          × (d.computed_qty ≡ int 0)
          × (d.computed_notional ≡ int 0)
          × (d.computed_margin ≡ int 0)
          × (d.computed_risk_amount ≡ int 0))

  -- Every decision is accepted without a reason, or rejected with a reason, and then its quantity,
  -- notional, margin and risk amount are 0.
  pub compute_paper_execution_decision-Explained :
      (p : DecisionParams N) → Explained (compute_paper_execution_decision p)
  unfolding compute_paper_execution_decision sized_decision accepted_decision rejected_decision
  compute_paper_execution_decision-Explained p = ground arith

  -- The size that an accepted decision reports.
  abbrev pub Funded : DecisionParams N → PaperExecutionDecision N → Type 0
  Funded p d =
      (lt (int 0) d.computed_qty ≡ true)
      × (d.computed_qty ≼ qty_from_notional p)
      × (d.computed_qty ≼ qty_from_risk p)
      × (is_finite d.computed_margin ≡ true)
      × (lt (int 0) d.computed_margin ≡ true)
      × (d.computed_margin ≼ p.account.free_margin)

  module _ (ieee : IsIeee N) where
    open ieee use {
      numbers_of_le, lt-eq-not-le, finite_number, zero-le-lit, min_le, numbers_of_min,
      numbers_of_times, numbers_of_over, le_total,
    }

    zero-IsNumber : IsNumber (lit 0 0)
    zero-IsNumber = (numbers_of_le _ _ (zero-le-lit 0 0)).0

    positive_of_usable :
        (x : N) → unusable x ≡ false → (is_finite x ≡ true) × (lt (int 0) x ≡ true) × IsNumber x
    positive_of_usable x h =
        let finite : is_finite x ≡ true = ground arith in
        let number = finite_number x finite in
        let positive = lt-eq-not-le (int 0) x zero-IsNumber number in
        (finite, ground (arith, positive), number)

    free_margin-IsNumber :
        (p : DecisionParams N)
        → unusable (qty_from_notional p) ≡ false
        → IsNumber p.account.free_margin
    free_margin-IsNumber p h =
        let (finite, positive, number) = positive_of_usable _ h in
        let target = (numbers_of_over _ _ number).0 in
        let by_margin = (numbers_of_min _ _ (numbers_of_min _ _ target).0).1 in
        (numbers_of_times _ _ by_margin).0

    accepted_decision-Funded :
        (p : DecisionParams N) → Affordable p → Funded p (accepted_decision p)
    unfolding accepted_decision
    accepted_decision-Funded p (notional, target, basis, qty, margin, enough) =
        let (qty_finite, qty_positive, qty_number) = positive_of_usable _ qty in
        let (margin_finite, margin_positive, margin_number) = positive_of_usable _ margin in
        let parts = numbers_of_min _ _ qty_number in
        let least = min_le (qty_from_notional p) (qty_from_risk p) parts.0 parts.1 in
        let free =
          lt-eq-not-le p.account.free_margin _ (free_margin-IsNumber p notional) margin_number in
        (
          qty_positive,
          least.0,
          least.1,
          margin_finite,
          margin_positive,
          ground (arith, free, enough),
        )

    accepted-eq-accepted_decision :
        (p : DecisionParams N)
        → (compute_paper_execution_decision p).accepted ≡ true
        → compute_paper_execution_decision p ≡ accepted_decision p
    unfolding compute_paper_execution_decision sized_decision rejected_decision
    accepted-eq-accepted_decision p h = ground arith

    -- Under the laws of IEEE 754 arithmetic, and whatever NaN the input holds, an accepted decision has
    -- a positive quantity, at most the one that the notional and the one that the risk allows, and a
    -- finite positive margin that the free margin covers.
    pub compute_paper_execution_decision-Funded :
        (p : DecisionParams N)
        → (compute_paper_execution_decision p).accepted ≡ true
        → Funded p (compute_paper_execution_decision p)
    compute_paper_execution_decision-Funded p h =
        rw (accepted-eq-accepted_decision p h)
          (accepted_decision-Funded p ((compute_paper_execution_decision-accepted p).0 h).1)
