-- ===== src/Trade/Invariant.antt =====
-- What `processTradeOnCandle` keeps of a trade, and how a trade ends.
use mathlib.Core.Path.{subst}
use hashi_bot.Base.{◌≡◌, refl, sym, ◌≢◌, ◌⊎◌, Bool, true, false, arith, Option-cases, inl, inr}
use hashi_bot.Base.Number.{Number, ◌-◌, ◌*◌}
use hashi_bot.Domain.{Candle}
use hashi_bot.Trade.{
  process_trade_on_candle, update_mfe_mae, on_open, on_partial, after_levels, exit_trade, take_tp1,
  by_state, close_trade, evaluate_early_exit,
}
use hashi_bot.Trade.Types.{
  OpenTrade, TradeState, opened, partial, TradeResult, still_open, closed, TradeOutcomeType,
  ExitReason,
}

module _ {N : Type 0} ⦃num : Number N⦄ where
  open num use {lit}

  -- An open trade is whole; after the first target half of it is left, with the stop at the entry.
  abbrev pub Tracked : TradeState → OpenTrade N → Type 0
  Tracked opened t = (t.had_partial_exit ≡ false) × (t.remaining_qty ≡ t.quantity)
  Tracked partial t =
      (t.had_partial_exit ≡ true)
      × (t.remaining_qty ≡ t.quantity - t.quantity * lit 5 1)
      × (t.stop ≡ t.entry)

  abbrev pub IsTracked : OpenTrade N → Type 0
  IsTracked t = Tracked t.state t

  -- The plan of a trade, which no candle changes.
  abbrev pub SamePlan : OpenTrade N → OpenTrade N → Type 0
  SamePlan t u =
      (u.id ≡ t.id)
      × (u.side ≡ t.side)
      × (u.entry ≡ t.entry)
      × (u.tp1 ≡ t.tp1)
      × (u.tp2 ≡ t.tp2)
      × (u.quantity ≡ t.quantity)
      × (u.risk_amount ≡ t.risk_amount)

  abbrev pub Keeps : OpenTrade N → TradeResult N → Type 0
  Keeps t (still_open u) = IsTracked u × SamePlan t u × ((t.state ≡ opened) ⊎ (u.state ≡ partial))
  Keeps t (closed u z) = IsTracked u × SamePlan t u × (z.outcome_type ≢ TradeOutcomeType.tp1_only)

  exit_trade-Keeps :
      (t u : OpenTrade N) (c : Candle N) (index rate : N) (reason : ExitReason) (price : N)
      → IsTracked u
      → SamePlan t u
      → Keeps t (exit_trade u c index rate reason price)
  unfolding exit_trade close_trade
  exit_trade-Keeps t u c index rate reason price h s = ground arith

  after_levels-Keeps :
      (t u : OpenTrade N) (c : Candle N) (index rate : N)
      → IsTracked u
      → SamePlan t u
      → (t.state ≡ opened) ⊎ (u.state ≡ partial)
      → Keeps t (after_levels u c index rate)
  unfolding after_levels
  after_levels-Keeps t u c index rate h s k = elim (Option-cases (evaluate_early_exit u c index)) [
    | inl e ↦ rw (e, Keeps) (h, s, k)
    | inr (price, e) ↦
        rw (e, Keeps) (exit_trade-Keeps t u c index rate ExitReason.time_exit price h s)
  ]

  on_partial-Keeps :
      (t u : OpenTrade N) (hit : Bool) (c : Candle N) (index rate : N)
      → IsTracked u
      → SamePlan t u
      → u.state ≡ partial
      → Keeps t (on_partial hit u c index rate)
  unfolding on_partial
  on_partial-Keeps t u hit c index rate h s e = ground (
    arith,
    exit_trade-Keeps t u c index rate ExitReason.stop u.stop h s,
    exit_trade-Keeps t u c index rate ExitReason.tp2 u.tp2 h s,
    after_levels-Keeps t u c index rate h s (inr e),
  )

  take_tp1-Tracked :
      (t u : OpenTrade N) (rate : N)
      → Tracked opened u
      → SamePlan t u
      → let v = take_tp1 u rate in IsTracked v × SamePlan t v × (v.state ≡ partial)
  unfolding take_tp1
  take_tp1-Tracked t u rate h s = ground arith

  pub update_mfe_mae-Keeps :
      (t : OpenTrade N) (c : Candle N)
      → let u = update_mfe_mae t c in
        SamePlan t u
        × (u.state ≡ t.state)
        × (u.stop ≡ t.stop)
        × (u.had_partial_exit ≡ t.had_partial_exit)
        × (u.remaining_qty ≡ t.remaining_qty)
  unfolding update_mfe_mae
  update_mfe_mae-Keeps t c = ground arith

  on_open-Keeps :
      (t u : OpenTrade N) (hit : Bool) (c : Candle N) (index rate : N)
      → Tracked opened u
      → SamePlan t u
      → u.state ≡ opened
      → t.state ≡ opened
      → Keeps t (on_open hit u c index rate)
  unfolding on_open
  on_open-Keeps t u hit c index rate h s e d =
      let whole : IsTracked u = subst (λ q. Tracked q u) (sym e) h in
      let next = take_tp1 u rate in
      let half = take_tp1-Tracked t u rate h s in
      ground (
        arith,
        exit_trade-Keeps t u c index rate ExitReason.stop u.stop whole s,
        exit_trade-Keeps t next c index rate ExitReason.tp2 u.tp2 half.0 half.1,
        on_partial-Keeps t next hit c index rate half.0 half.1 half.2,
        after_levels-Keeps t u c index rate whole s (inl d),
      )

  by_state-Keeps :
      (s : TradeState) (t u : OpenTrade N) (hit : Bool) (c : Candle N) (index rate : N)
      → Tracked s u
      → SamePlan t u
      → u.state ≡ s
      → t.state ≡ s
      → Keeps t (by_state s hit u c index rate)
  by_state-Keeps opened t u hit c index rate h s e d = on_open-Keeps t u hit c index rate h s e d
  by_state-Keeps partial t u hit c index rate h s e d =
      on_partial-Keeps t u hit c index rate (subst (λ q. Tracked q u) (sym e) h) s e

  -- A candle keeps the invariant and the plan of a trade, never takes a trade back from "partial" to
  -- "open", and never closes a trade with the outcome "tp1_only".
  pub process_trade_on_candle-Keeps :
      (t : OpenTrade N) (c : Candle N) (index rate : N)
      → IsTracked t
      → Keeps t (process_trade_on_candle t c index rate)
  unfolding process_trade_on_candle
  process_trade_on_candle-Keeps t c index rate h =
      let same = update_mfe_mae-Keeps t c in
      by_state-Keeps (update_mfe_mae t c).state t (update_mfe_mae t c) _ c index rate (ground arith)
        same.0 refl (ground arith)
