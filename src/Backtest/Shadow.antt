-- ===== src/Backtest/Shadow.antt =====
-- backtest-engine.ts: what a plan that was not traded would have earned, `simulatePlanPnl`.
pub mod Replayed
use hashi_bot.Base.{ℕ, Bool, true, false, Option, none, some, List, [], ◌∷◌, drop, if◌then◌else◌}
use hashi_bot.Base.Number.{Number, int, truthy, ◌+◌, ◌-◌, ◌*◌}
use hashi_bot.Domain.{SignalSide, Candle}

abbrev pub has_side : SignalSide → Bool
has_side SignalSide.long = true
has_side SignalSide.short = true
has_side SignalSide.none_side = false

pub record ShadowPlan (N : Type 0) : Type 0 where
  pub side : SignalSide
  pub entry : N
  pub stop : N
  pub tp1 : N
  pub tp2 : N

module _ {N : Type 0} ⦃num : Number N⦄ where
  open num use {lit, le}

  abbrev pub shadow_pnl : SignalSide → N → N → N → N
  shadow_pnl SignalSide.long entry exit qty = (exit - entry) * qty
  shadow_pnl SignalSide.short entry exit qty = (entry - exit) * qty
  shadow_pnl SignalSide.none_side entry exit qty = (entry - exit) * qty

  abbrev pub stop_reached : ShadowPlan N → SignalSide → Candle N → Bool
  stop_reached plan SignalSide.long candle = le candle.low plan.stop
  stop_reached plan SignalSide.short candle = le plan.stop candle.high
  stop_reached plan SignalSide.none_side candle = le plan.stop candle.high

  -- `tp1Hit` and `tp2Hit`: the target is reached.
  abbrev pub target_reached : N → SignalSide → Candle N → Bool
  target_reached target SignalSide.long candle = le target candle.high
  target_reached target SignalSide.short candle = le candle.low target
  target_reached target SignalSide.none_side candle = le candle.low target

  -- `realized + pnlFor(side, entry, exit, remainingQty)`
  abbrev pub booked : ShadowPlan N → N → N → N → N
  booked plan realized remaining exit = realized + shadow_pnl plan.side plan.entry exit remaining

  -- The end of the function: the last close, unless it is missing or 0.
  abbrev pub at_close : ShadowPlan N → N → N → Option N → Option N
  at_close plan realized remaining none = none
  at_close plan realized remaining (some close) =
      if truthy close then some (booked plan realized remaining close) else none

  abbrev pub half_of : N → N
  half_of quantity = quantity * lit 5 1

  abbrev pub at_tp1 : ShadowPlan N → N → N
  at_tp1 plan quantity = booked plan (int 0) (half_of quantity) plan.tp1

  -- The loop once half of the quantity is closed.
  unfoldable pub simulate_partial :
      ShadowPlan N → (realized remaining : N) → Option N → List (Candle N) → Option N
  simulate_partial plan realized remaining last [] = at_close plan realized remaining last
  simulate_partial plan realized remaining last (c ∷ cs) =
      let later = simulate_partial plan realized remaining last cs in
      if stop_reached plan plan.side c
      then some (booked plan realized remaining plan.stop)
      else if target_reached plan.tp2 plan.side c
      then some (booked plan realized remaining plan.tp2)
      else later

  -- The loop before.
  unfoldable pub simulate_whole : ShadowPlan N → N → Option N → List (Candle N) → Option N
  simulate_whole plan quantity last [] = at_close plan (int 0) quantity last
  simulate_whole plan quantity last (c ∷ cs) =
      let later = simulate_whole plan quantity last cs in
      let realized = at_tp1 plan quantity in
      let remaining = quantity - half_of quantity in
      if stop_reached plan plan.side c
      then some (booked plan (int 0) quantity plan.stop)
      else if target_reached plan.tp1 plan.side c
      then (if target_reached plan.tp2 plan.side c
          then some (booked plan realized remaining plan.tp2)
          else simulate_partial plan realized remaining last cs)
      else later

  abbrev pub last_close : List (Candle N) → Option N
  last_close [] = none
  last_close (c ∷ []) = some c.close
  last_close (c ∷ d ∷ ds) = last_close (d ∷ ds)

  unfoldable pub simulate_plan_pnl : List (Candle N) → ℕ → ShadowPlan N → N → Option N
  simulate_plan_pnl candles start_index plan quantity =
      if has_side plan.side
      then simulate_whole plan quantity (last_close candles) (drop start_index candles)
      else none
