-- ===== src/Trade/Accounts/Legs.antt =====
-- The money of a trade (trade-lifecycle.ts): what one exit adds to the result and to the fees. The sums
-- stand in the order in which the source adds them, so that they hold with rounding.
use hashi_bot.Base.{◌≡◌, refl, Bool, true, arith, Option-cases, inl, inr, some}
use hashi_bot.Base.Number.{Number, int, ◌+◌, ◌-◌, ◌*◌}
use hashi_bot.Domain.{Candle, SignalSide, long, short, none_side}
use hashi_bot.Trade.{
  on_partial, after_levels, exit_trade, take_tp1, close_trade, outcome_of, pnl_for, taker_fee,
  evaluate_early_exit,
}
use hashi_bot.Trade.Types.{
  OpenTrade, TradeState, TradeResult, still_open, closed, TradeOutcomeType, ExitReason,
}
use hashi_bot.Trade.Invariant.{SamePlan}

-- What a trade has realized, the fees it has paid, and the quantity that is left.
pub record Account (N : Type 0) : Type 0 where
  pub realized : N
  pub fees : N
  pub rest : N

module _ {N : Type 0} ⦃num : Number N⦄ where
  open num use {lit, abs, max}

  -- The result of a quantity that enters at one price and leaves at another, and the fee of an exit.
  abbrev pub leg : SignalSide → (entry exit qty : N) → N
  leg long entry exit qty = (exit - entry) * qty
  leg short entry exit qty = (entry - exit) * qty
  leg none_side entry exit qty = (entry - exit) * qty

  abbrev pub fee : (price qty rate : N) → N
  fee price qty rate = abs (price * qty) * max rate (int 0)

  abbrev pub account_of : OpenTrade N → Account N
  account_of t = record { realized = t.realized_pnl; fees = t.fees_paid; rest = t.remaining_qty }

  -- With half of the quantity gone at TP1, less its fee.
  abbrev pub after_tp1 : OpenTrade N → N → Account N
  after_tp1 t rate =
      let half = t.quantity * lit 5 1 in
      record {
        realized = t.realized_pnl + (leg t.side t.entry t.tp1 half - fee t.tp1 half rate);
        fees = t.fees_paid + fee t.tp1 half rate;
        rest = t.remaining_qty - half;
      }

  -- The price of the last exit.
  abbrev pub exit_price : TradeOutcomeType → OpenTrade N → Candle N → N
  exit_price TradeOutcomeType.stop t c = t.stop
  exit_price TradeOutcomeType.tp2 t c = t.tp2
  exit_price TradeOutcomeType.partial_then_stop t c = t.entry
  exit_price TradeOutcomeType.time_exit t c = c.close
  exit_price TradeOutcomeType.tp1_only t c = t.tp1

  -- The trade stays, in state `s`, with the account `a`, or its rest leaves that account.
  abbrev pub Settles : OpenTrade N → Candle N → N → TradeState → Account N → TradeResult N → Type 0
  Settles t c rate s a (still_open u) = (account_of u ≡ a) × (u.state ≡ s)
  Settles t c rate s a (closed u z) =
      let price = exit_price z.outcome_type t c in
      (z.pnl ≡ a.realized + leg t.side t.entry price a.rest - fee price a.rest rate)
      × (z.fees_paid ≡ a.fees + fee price a.rest rate)
      × (u.state ≡ s)

  pnl_for-leg :
      (side : SignalSide) (entry exit qty : N)
      → pnl_for side entry exit qty ≡ leg side entry exit qty
  unfolding pnl_for
  pnl_for-leg long entry exit qty = refl
  pnl_for-leg short entry exit qty = refl
  pnl_for-leg none_side entry exit qty = refl

  pub take_tp1-account :
      (t : OpenTrade N) (rate : N) → account_of (take_tp1 t rate) ≡ after_tp1 t rate
  unfolding take_tp1 taker_fee
  take_tp1-account t rate = rw pnl_for-leg refl

  pub exit_trade-Settles :
      (t u : OpenTrade N) (c : Candle N) (index rate : N) (reason : ExitReason) (price : N)
      → SamePlan t u
      → price ≡ exit_price (outcome_of reason u.had_partial_exit) t c
      → Settles t c rate u.state (account_of u) (exit_trade u c index rate reason price)
  unfolding exit_trade close_trade taker_fee
  exit_trade-Settles t u c index rate reason price s p =
      let e = pnl_for-leg u.side u.entry price u.remaining_qty in ground (arith, e)

  early_price :
      (t : OpenTrade N) (c : Candle N) (index : N) {price : N}
      → evaluate_early_exit t c index ≡ some price
      → price ≡ c.close
  unfolding evaluate_early_exit
  early_price t c index h = ground arith

  pub after_levels-Settles :
      (t u : OpenTrade N) (c : Candle N) (index rate : N)
      → SamePlan t u
      → Settles t c rate u.state (account_of u) (after_levels u c index rate)
  unfolding after_levels
  after_levels-Settles t u c index rate s = elim (Option-cases (evaluate_early_exit u c index)) [
    | inl e ↦ rw (e, Settles) (refl, refl)
    | inr (price, e) ↦
        rw (e, Settles)
          (exit_trade-Settles t u c index rate ExitReason.time_exit price s
            (early_price u c index e))
  ]

  pub on_partial-Settles :
      (t u : OpenTrade N) (hit : Bool) (c : Candle N) (index rate : N)
      → SamePlan t u
      → u.had_partial_exit ≡ true
      → u.stop ≡ t.entry
      → Settles t c rate u.state (account_of u) (on_partial hit u c index rate)
  unfolding on_partial
  on_partial-Settles t u hit c index rate s e p = ground (
    arith,
    exit_trade-Settles t u c index rate ExitReason.stop u.stop s,
    exit_trade-Settles t u c index rate ExitReason.tp2 u.tp2 s,
    after_levels-Settles t u c index rate s,
  )
