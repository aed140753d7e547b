-- ===== src/Trade.antt =====
-- packages/core/src/backtest/trade-lifecycle.ts: what one candle does to an open trade of a backtest.
-- The source changes the trade object in place; here each step returns the changed object.
pub mod Types
pub mod Invariant
pub mod Outcome
pub mod Accounts
pub mod Range
mod Tests
use hashi_bot.Base.{Bool, true, false, not, ◌&&◌, ◌||◌, Option, none, some, if◌then◌else◌}
use hashi_bot.Base.Number.{Number, int, truthy, ◌+◌, ◌-◌, ◌*◌, ◌/◌}
use hashi_bot.Domain.{SignalSide, Candle, long, short, none_side}
use hashi_bot.Trade.Types.{
  OpenTrade, ClosedTrade, TradeState, opened, partial, TradeResult, still_open, closed, ExitReason,
  TradeOutcomeType, EarlyExitPolicy,
}

-- `side === "LONG"`
abbrev pub is_long : SignalSide → Bool
is_long long = true
is_long _ = false

-- The first test of `closeTrade`.
abbrev pub outcome_of : ExitReason → Bool → TradeOutcomeType
outcome_of ExitReason.tp2 partial_exit = TradeOutcomeType.tp2
outcome_of ExitReason.time_exit partial_exit = TradeOutcomeType.time_exit
outcome_of ExitReason.stop partial_exit =
    if partial_exit then TradeOutcomeType.partial_then_stop else TradeOutcomeType.stop

module _ {N : Type 0} ⦃num : Number N⦄ where
  open num use {lit, abs, min, max, lt, le}

  unfoldable pub pnl_for : SignalSide → N → N → N → N
  pnl_for side entry exit qty = if is_long side then (exit - entry) * qty else (entry - exit) * qty

  unfoldable pub taker_fee : N → N → N → N
  taker_fee price qty rate = abs (price * qty) * max rate (int 0)

  excursions : SignalSide → OpenTrade N → Candle N → OpenTrade N
  excursions long t c = record t {
    mfe = max t.mfe (c.high - t.entry);
    mae = min t.mae (c.low - t.entry);
  }
  excursions short t c = record t {
    mfe = max t.mfe (t.entry - c.low);
    mae = min t.mae (t.entry - c.high);
  }
  excursions none_side t c = t

  unfoldable pub update_mfe_mae : OpenTrade N → Candle N → OpenTrade N
  unfolding excursions
  update_mfe_mae t c = excursions t.side t c

  -- The candle has reached a price against the trade, or in its favour.
  abbrev pub adverse_hit : SignalSide → Candle N → N → Bool
  adverse_hit side c price = if is_long side then le c.low price else le price c.high

  abbrev pub target_hit : SignalSide → Candle N → N → Bool
  target_hit side c price = if is_long side then le price c.high else le c.low price

  unfoldable pub close_trade : OpenTrade N → N → N → ExitReason → N → ClosedTrade N
  close_trade t exit_time index reason pnl = record {
    id = t.id;
    strategy_id = t.strategy_id;
    profile_type = t.profile_type;
    module_family = t.module_family;
    strategy_module = t.strategy_module;
    symbol = t.symbol;
    timeframe = t.timeframe;
    regime = t.regime;
    side = t.side;
    score = t.score;
    confidence = t.confidence;
    reasons = t.reasons;
    source = t.source;
    entry = t.entry;
    stop = t.stop;
    tp1 = t.tp1;
    tp2 = t.tp2;
    quantity = t.quantity;
    risk_amount = t.risk_amount;
    entry_time = t.entry_time;
    exit_time = exit_time;
    duration_candles = index - t.opened_at_index;
    duration_ms = exit_time - t.entry_time;
    exit_reason = reason;
    outcome_type = outcome_of reason t.had_partial_exit;
    pnl = pnl;
    fees_paid = t.fees_paid;
    r_multiple = if truthy t.risk_amount then pnl / t.risk_amount else int 0;
    mfe = if truthy t.risk_amount then t.mfe / abs (t.entry - t.stop) else int 0;
    mae = if truthy t.risk_amount then t.mae / abs (t.entry - t.stop) else int 0;
  }

  -- The exit that the source writes out four times: the rest of the trade leaves at `price`.
  unfoldable pub exit_trade : OpenTrade N → Candle N → N → N → ExitReason → N → TradeResult N
  exit_trade t c index rate reason price =
      let fee = taker_fee price t.remaining_qty rate in
      let t' : OpenTrade N = record t { fees_paid = t.fees_paid + fee } in
      closed t' (
        close_trade t' c.open_time index reason
          (t.realized_pnl + pnl_for t.side t.entry price t.remaining_qty - fee))

  -- The first target: half of the quantity leaves, and the stop moves to the entry.
  unfoldable pub take_tp1 : OpenTrade N → N → OpenTrade N
  take_tp1 t rate =
      let qty = t.quantity * lit 5 1 in
      let fee = taker_fee t.tp1 qty rate in
      record t {
        fees_paid = t.fees_paid + fee;
        realized_pnl = t.realized_pnl + (pnl_for t.side t.entry t.tp1 qty - fee);
        remaining_qty = t.remaining_qty - qty;
        state = partial;
        had_partial_exit = true;
        stop = t.entry;
      }

  -- The exit price, if the policy gives the trade up.
  early_exit_by : EarlyExitPolicy N → OpenTrade N → Candle N → N → Option N
  early_exit_by policy t c index = elim t.entry_atr [
    | none ↦ none
    | some atr ↦
        let progress = if is_long t.side then c.high - t.entry else t.entry - c.low in
        let adverse = if is_long t.side then t.entry - c.low else c.high - t.entry in
        let progress_atr = progress / atr in
        let adverse_atr = adverse / atr in
        let quality =
          max (int 0)
            (min (int 1) (progress_atr * lit 6 1 + (int 1 - max (int 0) adverse_atr) * lit 4 1)) in
        let gives_up =
          lt progress_atr policy.min_progress_atr
          || lt policy.max_adverse_atr adverse_atr
          || lt quality policy.min_continuation_quality in
        if not policy.enabled
        then none
        else if le policy.strong_bypass_threshold policy.continuation_strength
        then none
        else if lt (index - t.opened_at_index) policy.evaluation_bars
        then none
        else if not (truthy atr) || le atr (int 0)
        then none
        else if gives_up
        then some c.close
        else none
  ]

  unfoldable pub evaluate_early_exit : OpenTrade N → Candle N → N → Option N
  unfolding early_exit_by
  evaluate_early_exit t c index = elim t.early_exit_policy [
    | none ↦ none
    | some policy ↦ early_exit_by policy t c index
  ]

  -- The end of `processTradeOnCandle`: the early exit.
  unfoldable pub after_levels : OpenTrade N → Candle N → N → N → TradeResult N
  after_levels t c index rate = elim (evaluate_early_exit t c index) [
    | none ↦ still_open t
    | some price ↦ exit_trade t c index rate ExitReason.time_exit price
  ]

  -- The branch `trade.state === "partial"`, which a trade that has just taken TP1 enters too.
  unfoldable pub on_partial : Bool → OpenTrade N → Candle N → N → N → TradeResult N
  on_partial tp2_hit t c index rate =
      if adverse_hit t.side c t.stop
      then exit_trade t c index rate ExitReason.stop t.stop
      else if tp2_hit
      then exit_trade t c index rate ExitReason.tp2 t.tp2
      else after_levels t c index rate

  -- The branch `trade.state === "open"`.
  unfoldable pub on_open : Bool → OpenTrade N → Candle N → N → N → TradeResult N
  on_open tp2_hit t c index rate =
      if adverse_hit t.side c t.stop
      then exit_trade t c index rate ExitReason.stop t.stop
      else if target_hit t.side c t.tp1
      then if tp2_hit
        then exit_trade (take_tp1 t rate) c index rate ExitReason.tp2 t.tp2
        else on_partial tp2_hit (take_tp1 t rate) c index rate
      else after_levels t c index rate

  abbrev pub by_state : TradeState → Bool → OpenTrade N → Candle N → N → N → TradeResult N
  by_state opened = on_open
  by_state partial = on_partial

  unfoldable pub process_trade_on_candle : OpenTrade N → Candle N → N → N → TradeResult N
  process_trade_on_candle trade c index rate =
      let t = update_mfe_mae trade c in by_state t.state (target_hit t.side c t.tp2) t c index rate
