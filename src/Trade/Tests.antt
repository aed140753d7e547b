-- ===== src/Trade/Tests.antt =====
-- Runs of the trade lifecycle on decimals, and its theorems at concrete trades.
use hashi_bot.Base.{◌≡◌, refl, ℕ, false, none, [], List, ◌∷◌}
use hashi_bot.Base.Number.{int}
use hashi_bot.Base.Decimal.{Decimal, decimal_number}
use hashi_bot.Domain.{Candle, Timeframe, RegimeClass, SignalSide, MarketDataSource}
use hashi_bot.Trade.{
  process_trade_on_candle, exit_trade, close_trade, update_mfe_mae, on_open, on_partial, take_tp1,
  pnl_for, taker_fee,
}
use hashi_bot.Trade.Types.{OpenTrade, opened, closed, TradeOutcomeType, TradeResult, still_open}
use hashi_bot.Trade.Invariant.{Keeps, process_trade_on_candle-Keeps}
use hashi_bot.Trade.Outcome.{Ends, process_trade_on_candle-Ends}
use hashi_bot.Trade.Range.{ZeroRange, process_trade_on_candle-ZeroRange}
use hashi_bot.Trade.Accounts.{Books, process_trade_on_candle-Books}

-- Whole dollars.
abbrev usd : ℕ → Decimal
usd n = int n

-- Two units, long from 100 with the stop at 90 and targets at 110 and 130.
abbrev long_trade : OpenTrade Decimal
long_trade = record {
  id = "T1";
  strategy_id = none;
  profile_type = none;
  module_family = none;
  strategy_module = "breakout";
  symbol = "ETHUSDT";
  timeframe = Timeframe.m15;
  regime = RegimeClass.neutral;
  side = SignalSide.long;
  score = usd 80;
  confidence = usd 1;
  source = "test";
  reasons = [];
  entry = usd 100;
  stop = usd 90;
  tp1 = usd 110;
  tp2 = usd 130;
  quantity = usd 2;
  risk_amount = usd 20;
  opened_at_index = usd 7;
  entry_time = usd 0;
  state = opened;
  remaining_qty = usd 2;
  realized_pnl = usd 0;
  fees_paid = usd 0;
  mfe = usd 0;
  mae = usd 0;
  had_partial_exit = false;
  root_signal_id = none;
  parent_trade_id = none;
  continuation_spawned = none;
  setup_grade_bucket = none;
  setup_risk_scale = none;
  setup_leverage_scale = none;
  entry_atr = none;
  shadow_comparison = none;
  early_exit_policy = none;
}

abbrev candle : ℕ → ℕ → Candle Decimal
candle low high = record {
  open_time = usd 900;
  close_time = usd 1800;
  opening = usd low;
  high = usd high;
  low = usd low;
  close = usd high;
  volume = usd 1;
  source = MarketDataSource.binance_spot;
}

abbrev outcome : TradeResult Decimal → List TradeOutcomeType
outcome (still_open u) = []
outcome (closed u z) = z.outcome_type ∷ []

abbrev pnl_of : TradeResult Decimal → List Decimal
pnl_of (still_open u) = []
pnl_of (closed u z) = z.pnl ∷ []

abbrev run : OpenTrade Decimal → Candle Decimal → TradeResult Decimal
run t c = process_trade_on_candle t c (usd 8) (usd 0)

-- A candle that reaches the stop and both targets is a loss of the whole risk.
wide_candle : pnl_of (run long_trade (candle 80 140)) ≡ decimal_number.minus (usd 0) (usd 20) ∷ []
unfolding process_trade_on_candle exit_trade close_trade update_mfe_mae on_open pnl_for taker_fee
wide_candle = refl

-- A candle that reaches the first target, and whose low is below the entry, ends the trade at once.
same_candle_breakeven :
    outcome (run long_trade (candle 95 120)) ≡ TradeOutcomeType.partial_then_stop ∷ []
unfolding process_trade_on_candle exit_trade close_trade update_mfe_mae on_open on_partial take_tp1
same_candle_breakeven = refl

process_trade_on_candle-Keeps_example : Keeps long_trade (run long_trade (candle 95 120))
process_trade_on_candle-Keeps_example =
    process_trade_on_candle-Keeps long_trade (candle 95 120) (usd 8) (usd 0) (refl, refl)

process_trade_on_candle-Ends_example :
    Ends long_trade (candle 80 140) (run long_trade (candle 80 140))
process_trade_on_candle-Ends_example =
    process_trade_on_candle-Ends long_trade (candle 80 140) (usd 8) (usd 0) (refl, refl)

process_trade_on_candle-ZeroRange_example : ZeroRange long_trade (run long_trade (candle 101 140))
process_trade_on_candle-ZeroRange_example =
    process_trade_on_candle-ZeroRange long_trade (candle 101 140) (usd 8) (usd 0) (refl, refl)

-- Half leaves at 110 and half at 130, with fees of 0.1 percent.
process_trade_on_candle-Books_example :
    let rate = decimal_number.lit 1 3 in
    Books long_trade
      (candle 101 140)
      rate
      (process_trade_on_candle long_trade (candle 101 140) (usd 8) rate)
process_trade_on_candle-Books_example =
    process_trade_on_candle-Books long_trade (candle 101 140) (usd 8) (decimal_number.lit 1 3)
      (refl, refl)
