-- ===== src/Policy/Tests.antt =====
-- Intents on decimals, and the theorems at them.
use hashi_bot.Base.{ℕ, ◌≡◌, refl, ◌↔◌, true, false, none, some}
use hashi_bot.Base.Number.{◌≼◌, SameNumber, int, ◌*◌, ◌/◌}
use hashi_bot.Base.Decimal.{Decimal, decimal_number, decimal-IsIeee}
use hashi_bot.Domain.{MarketType, TradeSide, Timeframe}
use hashi_bot.Policy.{build_execution_intent, build_live_intent, blocked_reason_of, sizing_of}
use hashi_bot.Policy.Types.{
  LiveMode, live_personal, live_prop, live, SetupGrade, BreakoutSignal, ExecutionIntentInput,
  SizingIntent,
}
use hashi_bot.Policy.Permission.{MayExecute, build_execution_intent-allowed}
use hashi_bot.Policy.Bounds.{build_execution_intent-leverage, build_execution_intent-personal_risk}

abbrev pub dec : ℕ → Decimal
dec n = int n

abbrev pub signal : BreakoutSignal Decimal
signal = record {
  strategy_id = "compression_breakout_strict";
  symbol = "ETHUSDT";
  market_type = MarketType.crypto;
  timeframe = Timeframe.m15;
  side = TradeSide.long;
  entry_price = dec 100;
  stop_price = dec 90;
  tp1 = dec 110;
  tp2 = dec 130;
  score = dec 80;
  confidence = dec 1;
  setup_grade = SetupGrade.a_plus;
  metadata = none;
}

-- An override of 3 percent of 1000 dollars.
abbrev pub input : LiveMode → ExecutionIntentInput Decimal
input mode = record {
  mode = live mode;
  signal = signal;
  account_equity_usd = dec 1000;
  current_open_risk_pct = none;
  risk_percent_override = some (dec 3);
  max_simultaneous_open_risk_pct_override = none;
  governance_locks = some (record {
    daily_loss_lock_active = some true;
    trailing_drawdown_lock_active = none;
    max_consecutive_loss_lock_active = none;
  });
}

-- The same lock blocks a prop intent, and no personal one.
daily_loss_lock :
    ((build_execution_intent (input live_prop)).execution_allowed ≡ false)
    × ((build_execution_intent (input live_personal)).execution_allowed ≡ true)
unfolding build_execution_intent build_live_intent blocked_reason_of
daily_loss_lock = (refl, refl)

build_execution_intent-allowed_example :
    ((build_execution_intent (input live_prop)).execution_allowed ≡ true)
    ↔ ((mode : LiveMode) × (live live_prop ≡ live mode) × MayExecute mode (input live_prop))
build_execution_intent-allowed_example = build_execution_intent-allowed (input live_prop)

build_execution_intent-leverage_example :
    let out = build_execution_intent (input live_prop) in
    (dec 1 ≼ out.effective_leverage)
    × (out.effective_leverage ≼ dec 4)
    × SameNumber out.effective_leverage (decimal_number.lit 25 1)
build_execution_intent-leverage_example =
    build_execution_intent-leverage decimal-IsIeee live_prop (input live_prop) refl

-- 30 dollars at risk, of an intent that reports 1 percent of 1000.
abbrev sized : SizingIntent Decimal
sized = record { quantity = dec 3; position_notional = dec 300; risk_amount = dec 30 }

build_execution_intent-personal_risk_example :
    let out = build_execution_intent (input live_personal) in
    (out.risk_percent ≼ dec 1)
    × (dec 0 ≼ out.risk_percent)
    × (dec 30 ≡ dec 1000 * (dec 3 / dec 100))
unfolding build_execution_intent build_live_intent sizing_of
build_execution_intent-personal_risk_example =
    build_execution_intent-personal_risk decimal-IsIeee (input live_personal) (dec 3) sized refl
      refl refl refl
