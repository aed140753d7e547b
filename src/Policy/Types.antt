-- ===== src/Policy/Types.antt =====
-- The types of packages/core/src/execution/breakout-execution-policy.ts.
use hashi_bot.Base.{String, Bool, Option}
use hashi_bot.Domain.{MarketType, TradeSide, Timeframe, Metadata}

-- `Exclude<ExecutionMode, "signal_only">`
pub data LiveMode : Type 0 where
  live_personal live_prop : LiveMode

pub data ExecutionMode : Type 0 where
  signal_only : ExecutionMode
  live : LiveMode → ExecutionMode

pub data SetupGrade : Type 0 where
  a_plus a b : SetupGrade

pub record BreakoutSignal (N : Type 0) : Type 0 where
  pub strategy_id : String
  pub symbol : String
  pub market_type : MarketType
  pub timeframe : Timeframe
  pub side : TradeSide
  pub entry_price : N
  pub stop_price : N
  pub tp1 : N
  pub tp2 : N
  pub score : N
  pub confidence : N
  pub setup_grade : SetupGrade
  pub metadata : Metadata N

-- A `readonly [number, number]`.
pub record LeverageRange (N : Type 0) : Type 0 where
  pub from : N
  pub to : N

pub record CapitalProgressionTier (N : Type 0) : Type 0 where
  pub min_inclusive : N
  pub max_inclusive : Option N
  pub normal_leverage_range : LeverageRange N
  pub a_plus_leverage_range : LeverageRange N

pub record ModeGovernanceDefaults (N : Type 0) : Type 0 where
  pub leverage_normal_range : LeverageRange N
  pub leverage_a_plus_range : LeverageRange N
  pub leverage_hard_cap : N
  pub risk_per_trade_base_pct : N
  pub risk_per_trade_a_plus_pct : N
  pub risk_per_trade_absolute_max_pct : Option N
  pub max_simultaneous_open_risk_pct : N

pub record GovernanceLocks : Type 0 where
  pub daily_loss_lock_active : Option Bool
  pub trailing_drawdown_lock_active : Option Bool
  pub max_consecutive_loss_lock_active : Option Bool

pub record ExecutionIntentInput (N : Type 0) : Type 0 where
  pub mode : ExecutionMode
  pub signal : BreakoutSignal N
  pub account_equity_usd : N
  pub current_open_risk_pct : Option N
  pub risk_percent_override : Option N
  pub max_simultaneous_open_risk_pct_override : Option N
  pub governance_locks : Option GovernanceLocks

-- The texts that the policy and the allocator put into `blockedReason`.
pub data BlockedReason : Type 0 where
  signal_only_mode max_open_risk_exceeded daily_loss_lock_active : BlockedReason
  trailing_drawdown_lock_active max_consecutive_loss_lock_active : BlockedReason
  per_symbol_risk_cap_exceeded portfolio_risk_budget_exhausted : BlockedReason

pub record SizingIntent (N : Type 0) : Type 0 where
  pub quantity : N
  pub position_notional : N
  pub risk_amount : N

pub record GovernanceHooks : Type 0 where
  pub daily_loss_lock : Bool
  pub trailing_drawdown_lock : Bool
  pub max_consecutive_loss_lock : Bool

pub record Governance (N : Type 0) : Type 0 where
  pub max_simultaneous_open_risk_pct : N
  pub hooks : GovernanceHooks

pub record ExecutionIntent (N : Type 0) : Type 0 where
  pub mode : ExecutionMode
  pub execution_allowed : Bool
  pub blocked_reason : Option BlockedReason
  pub effective_leverage : N
  pub risk_percent : N
  pub provisional_sizing_intent : Option (SizingIntent N)
  pub signal : BreakoutSignal N
  pub governance : Governance N
