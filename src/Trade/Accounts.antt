-- ===== src/Trade/Accounts.antt =====
-- The money of a trade (trade-lifecycle.ts): the legs of a trade and their fees, over every branch.
pub mod Legs
use mathlib.Core.Path.{subst}
use hashi_bot.Base.{◌≡◌, refl, sym, ap, ◌∙◌, Bool, true, false, arith}
use hashi_bot.Base.Number.{Number, ◌+◌, ◌-◌, ◌*◌}
use hashi_bot.Domain.{Candle}
use hashi_bot.Trade.{
  process_trade_on_candle, update_mfe_mae, on_open, on_partial, after_levels, exit_trade, take_tp1,
  by_state, target_hit,
}
use hashi_bot.Trade.Types.{
  OpenTrade, TradeState, opened, partial, TradeResult, still_open, closed, ExitReason,
}
use Legs.{
  Account, account_of, after_tp1, leg, fee, exit_price, Settles, take_tp1-account,
  exit_trade-Settles, after_levels-Settles, on_partial-Settles,
}
use hashi_bot.Trade.Invariant.{Tracked, IsTracked, SamePlan, update_mfe_mae-Keeps}

module _ {N : Type 0} ⦃num : Number N⦄ where
  -- The account of a trade that goes from one state to another: half of it leaves at TP1 on the
  -- way to "partial".
  abbrev pub account : OpenTrade N → N → TradeState → TradeState → Account N
  account t rate opened partial = after_tp1 t rate
  account t rate opened opened = account_of t
  account t rate partial s = account_of t

  abbrev pub Books : OpenTrade N → Candle N → N → TradeResult N → Type 0
  Books t c rate (still_open u) =
      let a = account t rate t.state u.state in
      (u.realized_pnl ≡ a.realized) × (u.fees_paid ≡ a.fees) × (u.remaining_qty ≡ a.rest)
  Books t c rate (closed u z) =
      let a = account t rate t.state u.state in
      let price = exit_price z.outcome_type t c in
      (z.pnl ≡ a.realized + leg t.side t.entry price a.rest - fee price a.rest rate)
      × (z.fees_paid ≡ a.fees + fee price a.rest rate)

  Settles-Books :
      (s : TradeState) (t : OpenTrade N) (c : Candle N) (rate : N) (a : Account N)
      (r : TradeResult N)
      → Settles t c rate s a r
      → a ≡ account t rate t.state s
      → Books t c rate r
  Settles-Books s t c rate a (still_open u) (e, q) h =
      let k = e ∙ h in rw q (ap (λ x. x.realized) k, ap (λ x. x.fees) k, ap (λ x. x.rest) k)
  Settles-Books s t c rate a (closed u z) (e, f, q) h = rw (q, ← h) (e, f)

  module _ (t u : OpenTrade N) (c : Candle N) (index rate : N) (s : SamePlan t u)
      (g : account_of u ≡ account_of t) where
    after_tp1-account : after_tp1 u rate ≡ after_tp1 t rate
    after_tp1-account = ground arith

    plan : SamePlan t (take_tp1 u rate)
    unfolding take_tp1
    plan = s

    half_account :
        t.state ≡ opened
        → account_of (take_tp1 u rate) ≡ account t rate t.state (take_tp1 u rate).state
    unfolding take_tp1
    half_account o = rw o (take_tp1-account u rate ∙ after_tp1-account)

    half-Books :
        (hit : Bool)
        → t.state ≡ opened
        → Books t c rate (on_partial hit (take_tp1 u rate) c index rate)
    unfolding take_tp1
    half-Books hit o =
        let v = take_tp1 u rate in
        Settles-Books v.state t c rate (account_of v) _
          (on_partial-Settles t v hit c index rate plan refl s.2) (half_account o)

    both_targets-Books :
        t.state ≡ opened
        → Books t c rate (exit_trade (take_tp1 u rate) c index rate ExitReason.tp2 u.tp2)
    unfolding take_tp1
    both_targets-Books o =
        let v = take_tp1 u rate in
        Settles-Books v.state t c rate (account_of v) _
          (exit_trade-Settles t v c index rate ExitReason.tp2 u.tp2 plan s.4) (half_account o)

    on_open-Books :
        (hit : Bool)
        → t.state ≡ opened
        → u.state ≡ opened
        → u.had_partial_exit ≡ false
        → u.stop ≡ t.stop
        → Books t c rate (on_open hit u c index rate)
    unfolding on_open
    on_open-Books hit o q w p =
        let whole : account_of u ≡ account t rate t.state u.state = rw (o, q) g in
        ground (
          arith,
          Settles-Books u.state t c rate (account_of u) _
              (exit_trade-Settles t u c index rate ExitReason.stop u.stop s (rw (w, p) refl)) whole,
          Settles-Books u.state t c rate (account_of u) _ (after_levels-Settles t u c index rate s)
              whole,
          half-Books hit o,
          both_targets-Books o,
        )

    by_state-Books :
        (q : TradeState) (hit : Bool)
        → Tracked q t
        → t.state ≡ q
        → u.state ≡ q
        → u.had_partial_exit ≡ t.had_partial_exit
        → u.stop ≡ t.stop
        → Books t c rate (by_state q hit u c index rate)
    by_state-Books opened hit k o q w p = on_open-Books hit o q (w ∙ k.0) p
    by_state-Books partial hit k o q w p =
        Settles-Books u.state t c rate _ _
          (on_partial-Settles t u hit c index rate s (w ∙ k.0) (p ∙ k.2)) (rw o g)

  update_mfe_mae-account :
      (t : OpenTrade N) (c : Candle N) → account_of (update_mfe_mae t c) ≡ account_of t
  unfolding update_mfe_mae
  update_mfe_mae-account t c = ground arith

  -- For a trade that keeps the invariant, with rounding as in the source. A trade that stays open keeps
  -- its realized result, its fees and its quantity; if this candle made it partial, half of its
  -- quantity has left at the first target, the result of that half less its fee is realized, and the
  -- fee is paid. The result of a closed trade is what was realized so far, and the rest of the quantity
  -- at the price of its outcome, less the fee of that exit, which the fees paid include.
  pub process_trade_on_candle-Books :
      (t : OpenTrade N) (c : Candle N) (index rate : N)
      → IsTracked t
      → Books t c rate (process_trade_on_candle t c index rate)
  unfolding process_trade_on_candle
  process_trade_on_candle-Books t c index rate k =
      let same = update_mfe_mae-Keeps t c in
      let u = update_mfe_mae t c in
      by_state-Books t u c index rate same.0 (update_mfe_mae-account t c) u.state
        (target_hit u.side c u.tp2) (subst (λ s. Tracked s t) (sym same.1) k) (sym same.1) refl
        same.3 same.2
