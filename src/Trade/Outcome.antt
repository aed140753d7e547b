-- ===== src/Trade/Outcome.antt =====
-- Which price ends a trade: what the levels that a candle reaches say of the outcome.
use mathlib.Core.Path.{subst}
use hashi_bot.Base.{◌≡◌, ◌≢◌, refl, sym, ◌∙◌, ◌⊎◌, ◌↔◌, true, false, arith}
use hashi_bot.Base.Number.{Number}
use hashi_bot.Domain.{Candle}
use hashi_bot.Trade.{
  process_trade_on_candle, update_mfe_mae, on_open, on_partial, after_levels, exit_trade, take_tp1,
  close_trade, by_state, adverse_hit, target_hit,
}
use hashi_bot.Trade.Types.{
  OpenTrade, TradeState, opened, partial, TradeResult, still_open, closed, TradeOutcomeType,
}
use hashi_bot.Trade.Invariant.{Tracked, IsTracked, SamePlan, update_mfe_mae-Keeps}

module _ {N : Type 0} ⦃num : Number N⦄ where
  abbrev pub Ends : OpenTrade N → Candle N → TradeResult N → Type 0
  Ends t c (still_open u) =
      (adverse_hit t.side c t.stop ≡ false)
      × (((u.state ≡ opened) × (t.state ≡ opened) × (target_hit t.side c t.tp1 ≡ false))
          ⊎ ((u.state ≡ partial)
              × (target_hit t.side c t.tp2 ≡ false)
              × (adverse_hit t.side c t.entry ≡ false)))
  Ends t c (closed u z) =
      ((z.outcome_type ≡ TradeOutcomeType.stop)
        ↔ ((t.state ≡ opened) × (adverse_hit t.side c t.stop ≡ true)))
      × ((z.outcome_type ≢ TradeOutcomeType.tp2)
          ⊎ ((adverse_hit t.side c t.stop ≡ false) × (target_hit t.side c t.tp2 ≡ true)))
      × ((z.outcome_type ≢ TradeOutcomeType.partial_then_stop)
          ⊎ ((adverse_hit t.side c t.entry ≡ true)
              × ((t.state ≡ partial) ⊎ (target_hit t.side c t.tp1 ≡ true))))

  on_open-Ends :
      (t u : OpenTrade N) (c : Candle N) (index rate : N)
      → SamePlan t u
      → u.state ≡ opened
      → t.state ≡ opened
      → u.had_partial_exit ≡ false
      → u.stop ≡ t.stop
      → Ends t c (on_open (target_hit u.side c u.tp2) u c index rate)
  unfolding on_open on_partial after_levels exit_trade close_trade take_tp1
  on_open-Ends t u c index rate h e d k q = ground arith

  on_partial-Ends :
      (t u : OpenTrade N) (c : Candle N) (index rate : N)
      → SamePlan t u
      → u.state ≡ partial
      → t.state ≡ partial
      → u.had_partial_exit ≡ true
      → u.stop ≡ t.stop
      → t.stop ≡ t.entry
      → Ends t c (on_partial (target_hit u.side c u.tp2) u c index rate)
  unfolding on_partial after_levels exit_trade close_trade
  on_partial-Ends t u c index rate h e d k q r = ground arith

  by_state-Ends :
      (s : TradeState) (t u : OpenTrade N) (c : Candle N) (index rate : N)
      → Tracked s t
      → SamePlan t u
      → u.state ≡ s
      → t.state ≡ s
      → u.had_partial_exit ≡ t.had_partial_exit
      → u.stop ≡ t.stop
      → Ends t c (by_state s (target_hit u.side c u.tp2) u c index rate)
  by_state-Ends opened t u c index rate h k e d p q =
      on_open-Ends t u c index rate k e d (p ∙ h.0) q
  by_state-Ends partial t u c index rate h k e d p q =
      on_partial-Ends t u c index rate k e d (p ∙ h.0) q h.2

  -- For a trade that keeps the invariant, the outcome is "stop" exactly if the trade was still whole and
  -- the candle reached its stop, whatever targets it reached too. The outcome "tp2" means that the
  -- second target was reached and the stop was not. "partial_then_stop" means that the candle came
  -- back to the entry, and that the first target was reached before or by this candle. A trade that
  -- stays open was not stopped: if whole, it was whole before and has not reached the first target; if
  -- partial, the candle reached neither the second target nor the entry.
  pub process_trade_on_candle-Ends :
      (t : OpenTrade N) (c : Candle N) (index rate : N)
      → IsTracked t
      → Ends t c (process_trade_on_candle t c index rate)
  unfolding process_trade_on_candle
  process_trade_on_candle-Ends t c index rate h =
      let same = update_mfe_mae-Keeps t c in
      let u = update_mfe_mae t c in
      by_state-Ends u.state t u c index rate (subst (λ s. Tracked s t) (sym same.1) h) same.0 refl
        (sym same.1) same.3 same.2
