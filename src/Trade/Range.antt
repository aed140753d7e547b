-- ===== src/Trade/Range.antt =====
-- The excursions that `closeTrade` reports for a trade.
use mathlib.Core.Path.{subst}
use hashi_bot.Base.{◌≡◌, true, arith}
use hashi_bot.Base.Number.{Number, truthy, ◌-◌, ◌/◌}
use hashi_bot.Domain.{Candle}
use hashi_bot.Trade.{
  process_trade_on_candle, on_open, on_partial, after_levels, exit_trade, close_trade,
}
use hashi_bot.Trade.Types.{OpenTrade, partial, TradeResult, still_open, closed}
use hashi_bot.Trade.Invariant.{Tracked, IsTracked, Keeps, process_trade_on_candle-Keeps}

module _ {N : Type 0} ⦃num : Number N⦄ where
  open num use {abs}

  -- The excursions of a trade that closes after its first target are divided by entry - entry, since
  -- that target has moved the stop to the entry.
  abbrev pub ZeroRange : OpenTrade N → TradeResult N → Type 0
  ZeroRange t (still_open u) = Unit
  ZeroRange t (closed u z) =
      u.state ≡ partial
      → truthy t.risk_amount ≡ true
      → (z.mfe ≡ u.mfe / abs (t.entry - t.entry)) × (z.mae ≡ u.mae / abs (t.entry - t.entry))

  abbrev AsClosed : TradeResult N → Type 0
  AsClosed (still_open u) = Unit
  AsClosed (closed u z) =
      truthy u.risk_amount ≡ true
      → (z.mfe ≡ u.mfe / abs (u.entry - u.stop)) × (z.mae ≡ u.mae / abs (u.entry - u.stop))

  process_trade_on_candle-AsClosed :
      (t : OpenTrade N) (c : Candle N) (index rate : N)
      → AsClosed (process_trade_on_candle t c index rate)
  unfolding process_trade_on_candle on_open on_partial after_levels exit_trade close_trade
  process_trade_on_candle-AsClosed t c index rate = ground arith

  -- A candle that closes a trade after its first target reports excursions divided by entry - entry.
  pub process_trade_on_candle-ZeroRange :
      (t : OpenTrade N) (c : Candle N) (index rate : N)
      → IsTracked t
      → ZeroRange t (process_trade_on_candle t c index rate)
  process_trade_on_candle-ZeroRange t c index rate h =
      go (process_trade_on_candle t c index rate) (process_trade_on_candle-Keeps t c index rate h)
        (process_trade_on_candle-AsClosed t c index rate)
    where
      go : (r : TradeResult N) → Keeps t r → AsClosed r → ZeroRange t r
      go (still_open u) k a = tt
      go (closed u z) k a = λ e b. let tracked = subst (λ q. Tracked q u) e k.0 in ground arith
