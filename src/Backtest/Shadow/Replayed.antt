-- ===== src/Backtest/Shadow/Replayed.antt =====
-- The simulation by the candles at which something happens (backtest-engine.ts).
use hashi_bot.Base.{
  ℕ, ◌≡◌, refl, Bool, true, not, ◌&&◌, ◌||◌, Option, none, some, List, [], ◌∷◌, find, drop, arith,
  if◌then◌else◌,
}
use hashi_bot.Base.Number.{Number, int, ◌+◌, ◌-◌, ◌*◌}
use hashi_bot.Domain.{Candle, SignalSide, long, short, none_side}
use hashi_bot.Backtest.Shadow.{
  ShadowPlan, shadow_pnl, stop_reached, target_reached, at_close, at_tp1, half_of, simulate_partial,
  simulate_whole, last_close, has_side, simulate_plan_pnl,
}

module _ {N : Type 0} ⦃num : Number N⦄ where
  open num use {lit, le, eq}

  -- The candles after the first with a property.
  abbrev pub after : (Candle N → Bool) → List (Candle N) → List (Candle N)
  after test [] = []
  after test (c ∷ cs) = if test c then cs else after test cs

  -- The levels that a candle reaches: those below the price for one side, above it for the other.
  abbrev pub falls_to : N → Candle N → Bool
  falls_to price c = le c.low price

  abbrev pub rises_to : N → Candle N → Bool
  rises_to price c = le price c.high

  abbrev pub hits_stop : SignalSide → ShadowPlan N → Candle N → Bool
  hits_stop long plan = falls_to plan.stop
  hits_stop short plan = rises_to plan.stop
  hits_stop none_side plan = rises_to plan.stop

  abbrev pub hits_target : SignalSide → N → Candle N → Bool
  hits_target long target = rises_to target
  hits_target short target = falls_to target
  hits_target none_side target = falls_to target

  abbrev pub ends_partial : ShadowPlan N → Candle N → Bool
  ends_partial plan c = hits_stop plan.side plan c || hits_target plan.side plan.tp2 c

  abbrev pub ends_whole : ShadowPlan N → Candle N → Bool
  ends_whole plan c = hits_stop plan.side plan c || hits_target plan.side plan.tp1 c

  -- What `qty` gains from the entry of the plan to `exit`.
  abbrev pub gain : SignalSide → ShadowPlan N → N → N → N
  gain long plan exit qty = (exit - plan.entry) * qty
  gain short plan exit qty = (plan.entry - exit) * qty
  gain none_side plan exit qty = (plan.entry - exit) * qty

  -- The whole leaves at `exit`.
  abbrev pub whole_at : ShadowPlan N → N → N → N
  whole_at plan quantity exit = int 0 + gain plan.side plan exit quantity

  -- Half leaves at the first target, and the rest at `exit`.
  abbrev pub halves_at : ShadowPlan N → N → N → N
  halves_at plan quantity exit =
      int 0
      + gain plan.side plan plan.tp1 (quantity * lit 5 1)
      + gain plan.side plan exit (quantity - quantity * lit 5 1)

  -- The result at the last close, if there is one, it is not NaN (equal to itself) and not 0.
  abbrev pub closed_at : (N → N) → Option N → Option N
  closed_at result none = none
  closed_at result (some close) =
      if eq close close && not (eq close (int 0)) then some (result close) else none

  -- With half of the quantity left: the first candle that reaches the stop or the second target decides.
  abbrev pub partial_result : ShadowPlan N → N → Option N → Option (Candle N) → Option N
  partial_result plan quantity last none = closed_at (halves_at plan quantity) last
  partial_result plan quantity last (some c) =
      some (halves_at plan quantity (if hits_stop plan.side plan c then plan.stop else plan.tp2))

  -- The first candle that reaches the stop or the first target decides, and what follows it.
  abbrev pub whole_result :
      ShadowPlan N → N → Option N → Option (Candle N) → List (Candle N) → Option N
  whole_result plan quantity last none later = closed_at (whole_at plan quantity) last
  whole_result plan quantity last (some c) later =
      if hits_stop plan.side plan c
      then some (whole_at plan quantity plan.stop)
      else if hits_target plan.side plan.tp2 c
      then some (halves_at plan quantity plan.tp2)
      else partial_result plan quantity last (find (ends_partial plan) later)

  reached-hits :
      (plan : ShadowPlan N) (side : SignalSide) (target : N) (c : Candle N)
      → (stop_reached plan side c ≡ hits_stop side plan c)
        × (target_reached target side c ≡ hits_target side target c)
  reached-hits plan long target c = (refl, refl)
  reached-hits plan short target c = (refl, refl)
  reached-hits plan none_side target c = (refl, refl)

  booked-gain :
      (plan : ShadowPlan N) (side : SignalSide) (exit qty : N)
      → shadow_pnl side plan.entry exit qty ≡ gain side plan exit qty
  booked-gain plan long exit qty = refl
  booked-gain plan short exit qty = refl
  booked-gain plan none_side exit qty = refl

  at_close-whole :
      (plan : ShadowPlan N) (quantity : N) (last : Option N)
      → at_close plan (int 0) quantity last ≡ closed_at (whole_at plan quantity) last
  at_close-whole plan quantity none = refl
  at_close-whole plan quantity (some close) =
      ground (arith, booked-gain plan plan.side close quantity)

  at_close-halves :
      (plan : ShadowPlan N) (quantity : N) (last : Option N)
      → at_close plan (at_tp1 plan quantity) (quantity - half_of quantity) last
        ≡ closed_at (halves_at plan quantity) last
  at_close-halves plan quantity none = refl
  at_close-halves plan quantity (some close) = ground (
    arith,
    booked-gain plan plan.side plan.tp1 (quantity * lit 5 1),
    booked-gain plan plan.side close (quantity - quantity * lit 5 1),
  )

  simulate_partial-find :
      (plan : ShadowPlan N) (quantity : N) (last : Option N) (cs : List (Candle N))
      → simulate_partial plan (at_tp1 plan quantity) (quantity - half_of quantity) last cs
        ≡ partial_result plan quantity last (find (ends_partial plan) cs)
  unfolding simulate_partial
  simulate_partial-find plan quantity last [] = at_close-halves plan quantity last
  simulate_partial-find plan quantity last (c ∷ cs) = ground (
    arith,
    simulate_partial-find plan quantity last cs,
    reached-hits plan plan.side plan.tp2 c,
    booked-gain plan plan.side,
  )

  simulate_whole-find :
      (plan : ShadowPlan N) (quantity : N) (last : Option N) (cs : List (Candle N))
      → simulate_whole plan quantity last cs
        ≡ whole_result plan quantity last (find (ends_whole plan) cs) (after (ends_whole plan) cs)
  unfolding simulate_whole
  simulate_whole-find plan quantity last [] = at_close-whole plan quantity last
  simulate_whole-find plan quantity last (c ∷ cs) = ground (
    arith,
    simulate_whole-find plan quantity last cs,
    simulate_partial-find plan quantity last cs,
    reached-hits plan plan.side plan.tp1 c,
    reached-hits plan plan.side plan.tp2 c,
    booked-gain plan plan.side,
  )

  -- The simulation of a plan with a side: the first candle from the start on that reaches the stop or the
  -- first target decides. The stop, if it is reached, closes the whole; else half is closed at the first
  -- target, and the rest at the second if the same candle reaches it, else at the plan's stop or second
  -- target, the stop first, at the next candle that reaches one of them. What is never closed is closed at
  -- the last close, and there is no result if that is missing, 0 or NaN.
  pub simulate_plan_pnl-replayed :
      (candles : List (Candle N)) (start_index : ℕ) (plan : ShadowPlan N) (quantity : N)
      → has_side plan.side ≡ true
      → simulate_plan_pnl candles start_index plan quantity
        ≡ whole_result plan quantity
            (last_close candles)
            (find (ends_whole plan) (drop start_index candles))
            (after (ends_whole plan) (drop start_index candles))
  unfolding simulate_plan_pnl
  simulate_plan_pnl-replayed candles start_index plan quantity h =
      rw h (simulate_whole-find plan quantity (last_close candles) (drop start_index candles))
