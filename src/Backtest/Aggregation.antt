-- ===== src/Backtest/Aggregation.antt =====
-- backtest-engine.ts: the aggregation of candles to a longer timeframe. The list and the state that the
-- functions mutate are their result. The length of the candles of a group is a whole number.
pub mod Groups
use Prim.Native.Nat.{◌+◌ as ◌+ℕ◌}
use hashi_bot.Base.{ℕ, suc, nat_eq, Bool, true, false, List, [], ◌∷◌, ◌++◌, if◌then◌else◌}
use hashi_bot.Base.Number.{Number, int, ◌+◌, ◌-◌}
use hashi_bot.Domain.{Candle, MarketDataSource}

pub record AggregationState (N : Type 0) : Type 0 where
  pub factor : ℕ
  pub count : ℕ
  pub open_time : N
  pub close_time : N
  pub opening : N
  pub high : N
  pub low : N
  pub close : N
  pub volume : N
  pub source : MarketDataSource

module _ {N : Type 0} ⦃num : Number N⦄ where
  open num use {min, max, infinity}

  unfoldable pub create_aggregation_state : ℕ → AggregationState N
  create_aggregation_state factor = record {
    factor = factor;
    count = 0;
    open_time = int 0;
    close_time = int 0;
    opening = int 0;
    high = int 0 - infinity;
    low = infinity;
    close = int 0;
    volume = int 0;
    source = MarketDataSource.binance_spot;
  }

  -- The candle that is pushed.
  abbrev pub candle_of : AggregationState N → Candle N
  candle_of state = record {
    open_time = state.open_time;
    close_time = state.close_time;
    opening = state.opening;
    high = state.high;
    low = state.low;
    close = state.close;
    volume = state.volume;
    source = state.source;
  }

  abbrev pub push_aggregated_candle :
      List (Candle N) → AggregationState N → List (Candle N) × AggregationState N
  push_aggregated_candle target state = (
    target ++ (candle_of state ∷ []),
    record state {
      count = 0;
      open_time = int 0;
      close_time = int 0;
      opening = int 0;
      high = int 0 - infinity;
      low = infinity;
      close = int 0;
      volume = int 0;
    },
  )

  -- The first branch of `updateAggregation`: a new group, or one more candle of it.
  abbrev pub opened : AggregationState N → Candle N → AggregationState N
  opened state candle =
      if nat_eq state.count 0
      then record state {
        open_time = candle.open_time;
        opening = candle.opening;
        high = candle.high;
        low = candle.low;
        source = candle.source;
        volume = int 0;
      }
      else record state { high = max state.high candle.high; low = min state.low candle.low }

  abbrev pub merged : AggregationState N → Candle N → AggregationState N
  merged state candle = record (opened state candle) {
    count = suc state.count;
    close_time = candle.close_time;
    close = candle.close;
    volume = (opened state candle).volume + candle.volume;
  }

  unfoldable pub update_aggregation :
      List (Candle N) → AggregationState N → Candle N → List (Candle N) × AggregationState N
  update_aggregation target state candle =
      let next = merged state candle in
      if nat_eq next.count next.factor then push_aggregated_candle target next else (target, next)

  -- The calls of the engine, one for each candle.
  unfoldable pub aggregate :
      List (Candle N) → AggregationState N → List (Candle N) → List (Candle N) × AggregationState N
  aggregate target state [] = (target, state)
  aggregate target state (candle ∷ candles) =
      let (target', next) = update_aggregation target state candle in aggregate target' next candles
