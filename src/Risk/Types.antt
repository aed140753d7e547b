-- ===== src/Risk/Types.antt =====
-- The types of packages/core/src/execution/risk-engines.ts.
use hashi_bot.Base.{String, Bool, Option, List}

pub data RiskReason : Type 0 where
  kill_switch_active cooldown_active leverage_cap_exceeded max_exposure_exceeded : RiskReason
  max_simultaneous_risk_exceeded prop_lock_active daily_drawdown_breached : RiskReason
  consecutive_loss_lock max_drawdown_risk_exceeded : RiskReason

pub record RiskDecision (N : Type 0) : Type 0 where
  pub allowed : Bool
  pub reasons : List RiskReason
  pub recommended_size : Option N

pub record PersonalRiskState (N : Type 0) : Type 0 where
  pub leverage_cap : N
  pub max_exposure : N
  pub max_simultaneous_risk : N
  pub cooldown_until : Option String
  pub daily_loss_limit : N
  pub kill_switch : Bool
  pub active_exposure : N

pub record PropRiskState (N : Type 0) : Type 0 where
  pub daily_drawdown_limit : N
  pub trailing_drawdown_limit : N
  pub max_drawdown_limit : N
  pub max_consecutive_losses : N
  pub cooldown_until : Option String
  pub lock_active : Bool
  pub consecutive_losses : N
  pub realized_daily_loss : N

pub record RiskCheckInput (N : Type 0) : Type 0 where
  pub notional : N
  pub leverage : Option N
  pub risk_percent : N
  pub now_iso : Option String
