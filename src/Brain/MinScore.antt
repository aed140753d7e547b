-- ===== src/Brain/MinScore.antt =====
-- The minimum of the total score that runStrategyBrain asks for.
use mathlib.Core.Path.{subst}
use hashi_bot.Base.{◌≡◌, sym, Bool, true, List, ◌∷◌, or_else, arith}
use hashi_bot.Base.Number.{Number, IsIeee, IsNumber, ◌≼◌, int, ◌+◌, ◌-◌}
use hashi_bot.Brain.Types.{VolatilityRegime, StrategyBrainInput, StrategyBrainCandidate}
use hashi_bot.Brain.{dynamic_min_score, decide_among, brain_for, run_strategy_brain}

module _ {N : Type 0} ⦃num : Number N⦄ where
  open num use {lit, min, max, is_finite}

  module _ (ieee : IsIeee N) where
    open ieee use {
      numbers_of_le, finite_number, lit_finite, lit_mono, number_of_plus, number_of_minus, min_le,
      le_max, max-le,
    }

    -- `Math.max(55, Math.min(62, score))` of a score that is not NaN
    limits :
        (score : N)
        → IsNumber score
        → (lit 55 0 ≼ max (int 55) (min (int 62) score))
          × (max (int 55) (min (int 62) score) ≼ lit 62 0)
    limits score n =
        let top = finite_number _ (lit_finite 62 0 (omega arith)) in
        let low = finite_number _ (lit_finite 55 0 (omega arith)) in
        let least = min_le (int 62) score top n in
        (
          (le_max _ _ low (numbers_of_le _ _ least.0).0).0,
          max-le _ _ _ (lit_mono 55 62 0 (omega arith)) least.0,
        )

    dynamic_min_score-limits :
        (base : N) (regime : VolatilityRegime) (fast_engine : Bool)
        → is_finite base ≡ true
        → (lit 55 0 ≼ dynamic_min_score base regime fast_engine)
          × (dynamic_min_score base regime fast_engine ≼ lit 62 0)
    unfolding dynamic_min_score
    dynamic_min_score-limits base regime fast_engine f =
        let two = lit_finite 2 0 (omega arith) in
        ground (
          arith,
          limits base (finite_number _ f),
          limits (base + int 2) (number_of_plus _ _ f two),
          limits (base - int 2) (number_of_minus _ _ f two),
        )

    brain_for-limits :
        (input : StrategyBrainInput N) (c : StrategyBrainCandidate N)
        (cs : List (StrategyBrainCandidate N))
        → is_finite (or_else input.min_arbitration_score (int 58)) ≡ true
        → let used = (brain_for input (c ∷ cs)).diagnostics.min_arbitration_score_used in
          (lit 55 0 ≼ used) × (used ≼ lit 62 0)
    unfolding decide_among
    brain_for-limits input c cs f = dynamic_min_score-limits _ _ _ f

    -- Under the laws of IEEE 754 arithmetic, and if the minimum that is asked for, or its default, is
    -- finite, the minimum that a run with at least one candidate uses lies between 55 and 62.
    pub run_strategy_brain-limits :
        (input : StrategyBrainInput N) (c : StrategyBrainCandidate N)
        (cs : List (StrategyBrainCandidate N))
        → input.candidates ≡ c ∷ cs
        → is_finite (or_else input.min_arbitration_score (int 58)) ≡ true
        → let used = (run_strategy_brain input).diagnostics.min_arbitration_score_used in
          (lit 55 0 ≼ used) × (used ≼ lit 62 0)
    unfolding run_strategy_brain
    run_strategy_brain-limits input c cs e f =
        subst
          (λ xs.
            let used = (brain_for input xs).diagnostics.min_arbitration_score_used in
            (lit 55 0 ≼ used) × (used ≼ lit 62 0))
          (sym e) (brain_for-limits input c cs f)
