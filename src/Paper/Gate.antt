-- ===== src/Paper/Gate.antt =====
-- packages/core/src/execution/paper-account.ts, computePaperExecutionDecision: whether a candidate is
-- executed, and in what size.
use hashi_bot.Base.{Bool, true, false, not, ◌||◌, none, some, if◌then◌else◌, or_else}
use hashi_bot.Base.Number.{Number, int, ◌-◌, ◌*◌, ◌/◌}
use hashi_bot.Paper.Types.{PaperExecutionRejectionReason, PaperExecutionDecision, DecisionParams}

module _ {N : Type 0} ⦃num : Number N⦄ where
  open num use {lit, infinity, abs, min, max, lt, le, is_finite}

  unfoldable pub rejected_decision : PaperExecutionRejectionReason → PaperExecutionDecision N
  rejected_decision reason = record {
    accepted = false;
    rejection_reason = some reason;
    computed_qty = int 0;
    computed_notional = int 0;
    computed_margin = int 0;
    computed_risk_amount = int 0;
    capital_basis_used = none;
    target_notional = none;
    risk_clamp_applied = none;
    free_margin_after = none;
    effective_leverage = none;
  }

  abbrev pub stop_distance_of : DecisionParams N → N
  stop_distance_of p = abs (p.candidate.entry_price - p.candidate.stop_price)

  abbrev pub capital_basis_of : DecisionParams N → N
  capital_basis_of p =
      let basis = p.account.equity * or_else p.capital_allocation_pct (lit 1 1) in
      max (int 0) (min (min basis (or_else p.max_capital_basis infinity)) p.account.free_margin)

  abbrev pub target_notional_of : DecisionParams N → N
  target_notional_of p =
      let unclamped =
        capital_basis_of p * or_else p.effective_leverage_target p.configured_leverage in
      min (min unclamped (p.account.free_margin * p.configured_leverage))
        (or_else p.max_notional_allowed infinity)

  abbrev pub qty_from_notional : DecisionParams N → N
  qty_from_notional p = target_notional_of p / p.candidate.entry_price

  abbrev pub qty_from_risk : DecisionParams N → N
  qty_from_risk p =
      or_else p.allowed_open_risk_amount (p.account.equity * p.risk_pct) / stop_distance_of p

  abbrev pub final_qty : DecisionParams N → N
  final_qty p = min (qty_from_notional p) (qty_from_risk p)

  abbrev pub margin_of : DecisionParams N → N
  margin_of p = final_qty p * p.candidate.entry_price / p.configured_leverage

  -- `!Number.isFinite(x) || x <= 0`
  abbrev pub unusable : N → Bool
  unusable x = not (is_finite x) || le x (int 0)

  unfoldable pub accepted_decision : DecisionParams N → PaperExecutionDecision N
  accepted_decision p =
      let notional = final_qty p * p.candidate.entry_price in
      let margin = margin_of p in
      record {
        accepted = true;
        rejection_reason = none;
        computed_qty = final_qty p;
        computed_notional = notional;
        computed_margin = margin;
        computed_risk_amount = final_qty p * stop_distance_of p;
        capital_basis_used = some margin;
        target_notional = some (target_notional_of p);
        risk_clamp_applied = some (lt (qty_from_risk p) (qty_from_notional p));
        free_margin_after = some (p.account.free_margin - margin);
        effective_leverage =
            some (if lt (int 0) margin then notional / margin else p.configured_leverage);
      }

  -- The checks on the size and on the margin, after those on the input.
  unfoldable pub sized_decision : DecisionParams N → PaperExecutionDecision N
  sized_decision p =
      if unusable (qty_from_notional p)
        || le (target_notional_of p) (int 0)
        || le (capital_basis_of p) (int 0)
      then rejected_decision PaperExecutionRejectionReason.blocked_notional_cap
      else if unusable (final_qty p)
      then rejected_decision (
          if le (qty_from_risk p) (int 0)
          then PaperExecutionRejectionReason.blocked_risk_clamped_to_zero
          else PaperExecutionRejectionReason.blocked_zero_or_negative_qty)
      else if unusable (margin_of p) || lt p.account.free_margin (margin_of p)
      then rejected_decision PaperExecutionRejectionReason.blocked_margin_unavailable
      else accepted_decision p

  unfoldable pub compute_paper_execution_decision : DecisionParams N → PaperExecutionDecision N
  compute_paper_execution_decision p =
      if or_else p.policy_blocked false
      then rejected_decision PaperExecutionRejectionReason.blocked_policy_gate
      else if or_else p.active_symbol_blocked false
      then rejected_decision PaperExecutionRejectionReason.blocked_active_symbol_open_position
      else if or_else p.symbol_cooldown_blocked false
      then rejected_decision PaperExecutionRejectionReason.blocked_symbol_cooldown
      else if le p.account.max_concurrent_positions p.account.open_positions_count
      then rejected_decision PaperExecutionRejectionReason.blocked_max_concurrent_positions
      else if unusable p.candidate.entry_price
      then rejected_decision PaperExecutionRejectionReason.blocked_invalid_entry_price
      else if unusable p.risk_pct || unusable p.account.equity
      then rejected_decision PaperExecutionRejectionReason.blocked_risk_invalid
      else if unusable (stop_distance_of p)
      then rejected_decision PaperExecutionRejectionReason.blocked_invalid_stop_distance
      else sized_decision p
