-- ===== src/Backtest/Tests.antt =====
-- The aggregation, the sizing and the simulation on decimals, and the theorems at them.
use hashi_bot.Base.{ℕ, ◌≡◌, refl, find, drop, some, none, List, [], ◌∷◌, arith}
use hashi_bot.Base.Decimal.{Decimal, decimal_number, decimal-IsIeee}
use hashi_bot.Domain.{SignalSide, Candle, MarketDataSource, RegimeClass}
use hashi_bot.Policy.Tests.{dec}
use hashi_bot.Backtest.Aggregation.{create_aggregation_state, aggregate}
use hashi_bot.Backtest.Aggregation.Groups.{summary, aggregate-summary}
use hashi_bot.Backtest.Sizing.{SizingInputs, PositionSizing, resolve_position_sizing}
use hashi_bot.Backtest.Sizing.Bounds.{Sized, resolve_position_sizing-Sized}
use hashi_bot.Backtest.Shadow.{
  ShadowPlan, last_close, simulate_partial, simulate_whole, simulate_plan_pnl,
}
use hashi_bot.Backtest.Shadow.Replayed.{after, ends_whole, whole_result, simulate_plan_pnl-replayed}

abbrev candle : ℕ → Candle Decimal
candle n = record {
  open_time = dec n;
  close_time = dec n;
  opening = dec n;
  high = dec n;
  low = dec n;
  close = dec n;
  volume = dec 1;
  source = MarketDataSource.binance_spot;
}

aggregate-summary_example :
    (aggregate [] (create_aggregation_state 2) (candle 1 ∷ candle 2 ∷ candle 3 ∷ [])).0
    ≡ summary (candle 1, candle 2 ∷ []) ∷ []
aggregate-summary_example =
    aggregate-summary 2 ((candle 1, candle 2 ∷ []) ∷ []) (candle 3 ∷ []) (refl, tt) (omega arith)

summed : (summary (candle 1, candle 2 ∷ [])).volume ≡ dec 2
summed = refl

-- A position of 5 would risk 1 percent of 1000; the notional cap leaves 4.
abbrev inputs : SizingInputs Decimal
inputs = record {
  equity = dec 1000;
  entry = dec 100;
  stop = dec 98;
  strategy_id = some "micro_scalp";
  confidence = dec 1;
  risk_percent = dec 1;
  risk_mode = none;
  base_risk_pct = none;
  max_risk_pct_cap = none;
  size_mod_min = none;
  size_mod_max = none;
  max_position_notional = some (dec 400);
  regime = RegimeClass.neutral;
  chop = dec 1;
  risk_scale = none;
}

abbrev sizing : PositionSizing Decimal
sizing = record { quantity = dec 4; risk_amount = dec 8; size_modifier = dec 1 }

resolve_position_sizing-Sized_example : Sized inputs sizing
unfolding resolve_position_sizing
resolve_position_sizing-Sized_example =
    resolve_position_sizing-Sized ⦃ieee = decimal-IsIeee⦄ inputs sizing refl

-- The candles rise by 1, so the first target is reached at 3 and the second at 5.
abbrev shadow_plan : ShadowPlan Decimal
shadow_plan = record {
  side = SignalSide.long;
  entry = dec 2;
  stop = dec 0;
  tp1 = dec 3;
  tp2 = dec 5;
}

abbrev rising : List (Candle Decimal)
rising = candle 1 ∷ candle 2 ∷ candle 3 ∷ candle 4 ∷ candle 5 ∷ []

both_targets : simulate_plan_pnl rising 1 shadow_plan (dec 2) ≡ some (dec 4)
unfolding simulate_plan_pnl simulate_whole simulate_partial
both_targets = refl

simulate_plan_pnl-replayed_example :
    simulate_plan_pnl rising 1 shadow_plan (dec 2)
    ≡ whole_result shadow_plan
        (dec 2)
        (last_close rising)
        (find (ends_whole shadow_plan) (drop 1 rising))
        (after (ends_whole shadow_plan) (drop 1 rising))
simulate_plan_pnl-replayed_example = simulate_plan_pnl-replayed rising 1 shadow_plan (dec 2) refl
