-- ===== src/Paper/Types.antt =====
-- The types of packages/core/src/execution/paper-account.ts. `side` is "LONG" or "SHORT"; times are
-- ISO strings. Where the code takes a `Pick` of a record's fields, the model takes the record.
use hashi_bot.Base.{String, Bool, Option, List}
use hashi_bot.Domain.{TradeSide}

pub data PaperPositionStatus : Type 0 where
  pending_open opened partially_closed closed rejected : PaperPositionStatus

pub data PaperExecutionRejectionReason : Type 0 where
  blocked_max_concurrent_positions : PaperExecutionRejectionReason
  blocked_active_symbol_open_position : PaperExecutionRejectionReason
  blocked_invalid_stop_distance : PaperExecutionRejectionReason
  blocked_zero_or_negative_qty : PaperExecutionRejectionReason
  blocked_notional_cap : PaperExecutionRejectionReason
  blocked_margin_unavailable : PaperExecutionRejectionReason
  blocked_risk_invalid : PaperExecutionRejectionReason
  blocked_risk_clamped_to_zero : PaperExecutionRejectionReason
  blocked_unsupported_sizing_model : PaperExecutionRejectionReason
  blocked_leverage_or_open_risk_cap : PaperExecutionRejectionReason
  blocked_symbol_cooldown : PaperExecutionRejectionReason
  blocked_policy_gate : PaperExecutionRejectionReason
  blocked_invalid_entry_price : PaperExecutionRejectionReason

pub data PaperCloseReason : Type 0 where
  stop_hit tp1_hit tp2_hit manual_close time_stop : PaperCloseReason
  liquidation_guard_close policy_close : PaperCloseReason

pub record PaperAccountSnapshot (N : Type 0) : Type 0 where
  pub balance : N
  pub equity : N
  pub unrealized_pnl : N
  pub realized_pnl : N
  pub used_margin : N
  pub free_margin : N
  pub configured_leverage : N
  pub max_concurrent_positions : N
  pub open_positions_count : N
  pub closed_positions_count : N

pub record PaperTradeCandidate (N : Type 0) : Type 0 where
  pub id : String
  pub symbol : String
  pub side : TradeSide
  pub entry_price : N
  pub stop_price : N
  pub tp1_price : N
  pub tp2_price : N
  pub selected_reason : Option String
  pub source_signal_id : Option String
  pub source_candidate_id : Option String

pub record PaperExecutionDecision (N : Type 0) : Type 0 where
  pub accepted : Bool
  pub rejection_reason : Option PaperExecutionRejectionReason
  pub computed_qty : N
  pub computed_notional : N
  pub computed_margin : N
  pub computed_risk_amount : N
  pub capital_basis_used : Option N
  pub target_notional : Option N
  pub risk_clamp_applied : Option Bool
  pub free_margin_after : Option N
  pub effective_leverage : Option N

pub record PaperPosition (N : Type 0) : Type 0 where
  pub id : String
  pub symbol : String
  pub side : TradeSide
  pub entry_price : N
  pub mark_price : N
  pub stop_price : N
  pub tp1_price : N
  pub tp2_price : N
  pub qty : N
  pub notional : N
  pub leverage : N
  pub margin_used : N
  pub risk_amount_at_entry : N
  pub status : PaperPositionStatus
  pub opened_at : Option String
  pub closed_at : Option String
  pub source_signal_id : Option String
  pub source_candidate_id : Option String
  pub selected_reason : Option String
  pub rejected_reason : Option String
  pub close_reason : Option PaperCloseReason
  pub unrealized_pnl : N
  pub realized_pnl : N

-- `tp1ProtectMode`: "offset_r" or any other string, which acts as "break_even".
pub data Tp1ProtectMode : Type 0 where
  break_even offset_r : Tp1ProtectMode
  other : String → Tp1ProtectMode

pub record ProtectedStop (N : Type 0) : Type 0 where
  pub side : TradeSide
  pub entry_price : N
  pub initial_stop_price : N
  pub tp1_protect_mode : Tp1ProtectMode
  pub tp1_protect_offset_r : N
  pub breakeven_buffer_r : N

pub record PartialClose (N : Type 0) : Type 0 where
  pub position : PaperPosition N
  pub newly_realized_pnl : N
  pub closed_qty : N
  pub remaining_qty : N

pub record SnapshotParams (N : Type 0) : Type 0 where
  pub starting_balance : N
  pub configured_leverage : N
  pub max_concurrent_positions : N
  pub open_positions : List (PaperPosition N)
  pub closed_positions : List (PaperPosition N)

pub record DecisionParams (N : Type 0) : Type 0 where
  pub account : PaperAccountSnapshot N
  pub candidate : PaperTradeCandidate N
  pub configured_leverage : N
  pub risk_pct : N
  pub capital_allocation_pct : Option N
  pub effective_leverage_target : Option N
  pub max_capital_basis : Option N
  pub max_notional_allowed : Option N
  pub active_symbol_blocked : Option Bool
  pub allowed_open_risk_amount : Option N
  pub policy_blocked : Option Bool
  pub symbol_cooldown_blocked : Option Bool
