-- ===== src/Paper/Tests.antt =====
-- Paper positions and candidates on decimals, and the theorems at them.
use hashi_bot.Base.{String, ◌≡◌, refl, ◌↔◌, Option, true, none, some, [], ◌∷◌}
use hashi_bot.Base.Decimal.{Decimal, decimal_number, decimal-IsIeee}
use hashi_bot.Domain.{TradeSide}
use hashi_bot.Policy.Tests.{dec}
use hashi_bot.Paper.{partially_close_paper_position, mark_open_paper_positions}
use hashi_bot.Paper.Types.{
  PaperPositionStatus, PaperCloseReason, PaperPosition, PaperAccountSnapshot, PaperTradeCandidate,
  DecisionParams, SnapshotParams,
}
use hashi_bot.Paper.Gate.{
  compute_paper_execution_decision, sized_decision, accepted_decision, rejected_decision,
}
use hashi_bot.Paper.Admission.{
  Admissible, Affordable, Explained, Funded, compute_paper_execution_decision-accepted,
  compute_paper_execution_decision-Explained, compute_paper_execution_decision-Funded,
}
use hashi_bot.Paper.Positions.{
  PartlyClosed, partially_close_paper_position-PartlyClosed, mark_open_paper_positions_lem,
}

abbrev position : PaperPosition Decimal
position = record {
  id = "p1";
  symbol = "ETHUSDT";
  side = TradeSide.short;
  entry_price = dec 100;
  mark_price = dec 90;
  stop_price = dec 110;
  tp1_price = dec 90;
  tp2_price = dec 70;
  qty = dec 4;
  notional = dec 400;
  leverage = dec 2;
  margin_used = dec 200;
  risk_amount_at_entry = dec 40;
  status = PaperPositionStatus.partially_closed;
  opened_at = some "2024-01-01T00:00:00.000Z";
  closed_at = none;
  source_signal_id = none;
  source_candidate_id = none;
  selected_reason = none;
  rejected_reason = none;
  close_reason = none;
  unrealized_pnl = dec 40;
  realized_pnl = dec 25;
}

abbrev now : String
now = "2024-01-02T00:00:00.000Z"

partially_close_paper_position-PartlyClosed_example :
    PartlyClosed position
      (dec 90)
      (dec 3)
      (partially_close_paper_position position (dec 90) (dec 3) PaperCloseReason.tp1_hit now)
partially_close_paper_position-PartlyClosed_example =
    partially_close_paper_position-PartlyClosed decimal-IsIeee position (dec 90) (dec 3)
      PaperCloseReason.tp1_hit now refl refl refl

abbrev marks : String → Option Decimal
marks symbol = some (dec 80)

mark_open_paper_positions_lem_example :
    let marked = mark_open_paper_positions marks (position ∷ []) in
    (marked ≡ record position { mark_price = dec 80; unrealized_pnl = dec 80 } ∷ [])
    × (mark_open_paper_positions marks marked ≡ marked)
mark_open_paper_positions_lem_example = mark_open_paper_positions_lem marks (position ∷ [])

abbrev account_params : SnapshotParams Decimal
account_params = record {
  starting_balance = dec 1000;
  configured_leverage = dec 2;
  max_concurrent_positions = dec 3;
  open_positions = [];
  closed_positions = [];
}

abbrev candidate : PaperTradeCandidate Decimal
candidate = record {
  id = "c1";
  symbol = "ETHUSDT";
  side = TradeSide.long;
  entry_price = dec 100;
  stop_price = dec 90;
  tp1_price = dec 110;
  tp2_price = dec 120;
  selected_reason = none;
  source_signal_id = none;
  source_candidate_id = none;
}

abbrev account : PaperAccountSnapshot Decimal
account = record {
  balance = dec 1000;
  equity = dec 1000;
  unrealized_pnl = dec 0;
  realized_pnl = dec 0;
  used_margin = dec 0;
  free_margin = dec 1000;
  configured_leverage = dec 2;
  max_concurrent_positions = dec 3;
  open_positions_count = dec 0;
  closed_positions_count = dec 0;
}

abbrev params : DecisionParams Decimal
params = record {
  account = account;
  candidate = candidate;
  configured_leverage = dec 2;
  risk_pct = dec 1;
  capital_allocation_pct = none;
  effective_leverage_target = none;
  max_capital_basis = none;
  max_notional_allowed = none;
  active_symbol_blocked = none;
  allowed_open_risk_amount = none;
  policy_blocked = none;
  symbol_cooldown_blocked = none;
}

compute_paper_execution_decision-accepted_example :
    (compute_paper_execution_decision params).accepted ≡ true
    ↔ Admissible params × Affordable params
compute_paper_execution_decision-accepted_example = compute_paper_execution_decision-accepted params

compute_paper_execution_decision-Explained_example :
    Explained (compute_paper_execution_decision params)
compute_paper_execution_decision-Explained_example =
    compute_paper_execution_decision-Explained params

compute_paper_execution_decision-Funded_example :
    Funded params (compute_paper_execution_decision params)
unfolding compute_paper_execution_decision sized_decision accepted_decision rejected_decision
compute_paper_execution_decision-Funded_example =
    compute_paper_execution_decision-Funded decimal-IsIeee params refl
