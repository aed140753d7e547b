-- ===== src/Trade/Types.antt =====
-- packages/core/src/backtest/types.ts: open and closed trades. The field `state` of a closed trade, which
-- is always "closed", is left out.
use hashi_bot.Base.{String, Bool, List, Option}
use hashi_bot.Domain.{Timeframe, RegimeClass, SignalSide}

pub data TradeOutcomeType : Type 0 where
  stop tp1_only tp2 partial_then_stop time_exit : TradeOutcomeType

pub data ExitReason : Type 0 where
  tp2 stop time_exit : ExitReason

pub data TradeState : Type 0 where
  opened partial : TradeState

pub data StrategyProfileType : Type 0 where
  strict balanced : StrategyProfileType

pub data GradeBucket : Type 0 where
  a_plus a b : GradeBucket

pub record ShadowPlan (N : Type 0) : Type 0 where
  pub side : SignalSide
  pub entry : N
  pub stop : N
  pub tp1 : N
  pub tp2 : N

pub record ShadowComparison (N : Type 0) : Type 0 where
  pub loser_strategy_id : String
  pub loser_plan : ShadowPlan N
  pub arbitration_reason : String
  pub winner_quality : Option N
  pub loser_quality : Option N

pub record EarlyExitPolicy (N : Type 0) : Type 0 where
  pub enabled : Bool
  pub evaluation_bars : N
  pub min_progress_atr : N
  pub max_adverse_atr : N
  pub min_continuation_quality : N
  pub strong_bypass_threshold : N
  pub continuation_strength : N

pub record OpenTrade (N : Type 0) : Type 0 where
  pub id : String
  pub strategy_id : Option String
  pub profile_type : Option StrategyProfileType
  pub module_family : Option String
  pub strategy_module : String
  pub symbol : String
  pub timeframe : Timeframe
  pub regime : RegimeClass
  pub side : SignalSide
  pub score : N
  pub confidence : N
  pub source : String
  pub reasons : List String
  pub entry : N
  pub stop : N
  pub tp1 : N
  pub tp2 : N
  pub quantity : N
  pub risk_amount : N
  pub opened_at_index : N
  pub entry_time : N
  pub state : TradeState
  pub remaining_qty : N
  pub realized_pnl : N
  pub fees_paid : N
  pub mfe : N
  pub mae : N
  pub had_partial_exit : Bool
  pub root_signal_id : Option String
  pub parent_trade_id : Option String
  pub continuation_spawned : Option Bool
  pub setup_grade_bucket : Option GradeBucket
  pub setup_risk_scale : Option N
  pub setup_leverage_scale : Option N
  pub entry_atr : Option N
  pub shadow_comparison : Option (ShadowComparison N)
  pub early_exit_policy : Option (EarlyExitPolicy N)

pub record ClosedTrade (N : Type 0) : Type 0 where
  pub id : String
  pub strategy_id : Option String
  pub profile_type : Option StrategyProfileType
  pub module_family : Option String
  pub strategy_module : String
  pub symbol : String
  pub timeframe : Timeframe
  pub regime : RegimeClass
  pub side : SignalSide
  pub score : N
  pub confidence : N
  pub reasons : List String
  pub source : String
  pub entry : N
  pub stop : N
  pub tp1 : N
  pub tp2 : N
  pub quantity : N
  pub risk_amount : N
  pub entry_time : N
  pub exit_time : N
  pub duration_candles : N
  pub duration_ms : N
  pub exit_reason : ExitReason
  pub outcome_type : TradeOutcomeType
  pub pnl : N
  pub fees_paid : N
  pub r_multiple : N
  pub mfe : N
  pub mae : N

-- The result of a candle, and the trade object as it stands afterwards: `stillOpen` holds that object,
-- and is null when `closed` is there.
pub data TradeResult (N : Type 0) : Type 0 where
  still_open : OpenTrade N → TradeResult N
  closed : OpenTrade N → ClosedTrade N → TradeResult N
