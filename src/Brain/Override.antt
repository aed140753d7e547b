-- ===== src/Brain/Override.antt =====
-- When a non-scalp candidate overrides the best one (runStrategyBrain).
use mathlib.Core.Path.{subst}
use hashi_bot.Base.{
  ◌≡◌, refl, ◌∙◌, ◌⊎◌, inl, inr, Bool, true, false, not, ◌&&◌, Option, none, some, List, [], ◌∷◌,
  find, All, arith, Bool-cases,
}
use hashi_bot.Base.Number.{Number, IsIeee, IsNumber, ◌≼◌, ◌-◌}
use hashi_bot.Base.Sort.{sort, Ordered, All-sort, sort-Ordered}
use hashi_bot.Brain.Types.{
  StrategyBrainInput, StrategyBrainCandidate, ScoredCandidate, RejectedCandidate,
  ScalpOverrideComparison,
}
use hashi_bot.Brain.Score.{is_engine4}
use hashi_bot.Brain.Pick.{
  higher, qualified, non_scalp_qualified, compare_scalp, better_by_total, required_delta, challenge,
  override_scalp, choose,
}
use hashi_bot.Brain.{scored_of, decide_among, brain_for, run_strategy_brain}

module _ {A : Type 0} where
  pub All-find :
      (P : A → Type 0) (test : A → Bool) (xs : List A) (o : A)
      → All P xs
      → find test xs ≡ some o
      → P o
  All-find P test [] o h e = cc e
  All-find P test (x ∷ xs) o (h, hs) e = elim (Bool-cases (test x)) [
    | inl t ↦ ground arith
    | inr t ↦ All-find P test xs o hs (rw t at e)
  ]

  -- In a sorted list, what satisfies a stronger test is not before the first that satisfies a test.
  find-Ordered :
      (before : A → A → Bool) (p q : A → Bool) (xs : List A) (s o : A)
      → Ordered before xs
      → find p xs ≡ some s
      → find (λ e. q e && p e) xs ≡ some o
      → (o ≡ s) ⊎ (before o s ≡ false)
  find-Ordered before p q [] s o ordered e f = cc e
  find-Ordered before p q (x ∷ xs) s o (below, ordered) e f = elim (Bool-cases (p x)) [
    | inl t ↦ elim (Bool-cases (q x)) [
      | inl u ↦ inl (ground arith)
      | inr u ↦
          let first : x ≡ s = ground arith in
          let later : find (λ e. q e && p e) xs ≡ some o = ground arith in
          let after = All-find (λ y. before y x ≡ false) (λ e. q e && p e) xs o below later in
          inr (ground (arith, first, after))
    ]
    | inr t ↦
        let tail : find p xs ≡ some s = ground arith in
        let tail' : find (λ e. q e && p e) xs ≡ some o = ground arith in
        find-Ordered before p q xs s o ordered tail tail'
  ]

module _ {N : Type 0} ⦃num : Number N⦄ where
  open num use {lit, lt, le, is_finite}

  abbrev pub HasFiniteTotal : ScoredCandidate N → Type 0
  HasFiniteTotal s = is_finite s.breakdown.total_score ≡ true

  module _ (ieee : IsIeee N) where
    open ieee use {
      numbers_of_le, le_trans, le_total, lt-eq-not-le, finite_number, zero-le-lit, zero-lt-lit,
      lit_finite, minus_negative, minus_nonpos, number_of_minus,
    }

    higher-eq-not-le :
        (a b : ScoredCandidate N)
        → HasFiniteTotal a
        → HasFiniteTotal b
        → higher a b ≡ not (le a.breakdown.total_score b.breakdown.total_score)
    higher-eq-not-le a b f g =
        minus_negative _ _ g f ∙ lt-eq-not-le _ _ (finite_number _ g) (finite_number _ f)

    higher_asym :
        (a b : ScoredCandidate N)
        → HasFiniteTotal a
        → HasFiniteTotal b
        → higher a b ≡ true
        → higher b a ≡ false
    higher_asym a b f g h = ground (
      arith,
      higher-eq-not-le a b f g,
      higher-eq-not-le b a g f,
      le_total a.breakdown.total_score b.breakdown.total_score (finite_number _ f)
          (finite_number _ g),
    )

    higher_trans :
        (a b c : ScoredCandidate N)
        → HasFiniteTotal a
        → HasFiniteTotal b
        → HasFiniteTotal c
        → higher b a ≡ false
        → higher c b ≡ false
        → higher c a ≡ false
    higher_trans a b c f g k h i = ground (
      arith,
      higher-eq-not-le b a g f,
      higher-eq-not-le c b k g,
      higher-eq-not-le c a k f,
      le_trans c.breakdown.total_score b.breakdown.total_score a.breakdown.total_score,
    )

    required-positive : (s : ScoredCandidate N) → lt (lit 0 0) (required_delta s) ≡ true
    required-positive s = ground (
      arith,
      zero-lt-lit 10 0 (omega arith) (omega arith),
      zero-lt-lit 5 0 (omega arith) (omega arith),
      zero-lt-lit 7 0 (omega arith) (omega arith),
    )

    required-IsNumber : (s : ScoredCandidate N) → IsNumber (required_delta s)
    required-IsNumber s = ground (
      arith,
      finite_number _ (lit_finite 10 0 (omega arith)),
      finite_number _ (lit_finite 5 0 (omega arith)),
      finite_number _ (lit_finite 7 0 (omega arith)),
    )

    -- A candidate that is not ahead does not win by the total.
    behind :
        (s o : ScoredCandidate N)
        → HasFiniteTotal s
        → HasFiniteTotal o
        → o.breakdown.total_score ≼ s.breakdown.total_score
        → le (required_delta s) (o.breakdown.total_score - s.breakdown.total_score) ≡ false
    behind s o f g h =
        let delta = minus_nonpos _ _ h (number_of_minus _ _ g f) in
        let zero = (numbers_of_le _ _ (zero-le-lit 0 0)).0 in
        ground (
          arith,
          delta,
          required-positive s,
          lt-eq-not-le (lit 0 0) (required_delta s) zero (required-IsNumber s),
          le_trans (required_delta s) (o.breakdown.total_score - s.breakdown.total_score) (lit 0 0),
        )

    challenge-comparison :
        (rejected : List (RejectedCandidate N)) (s : ScoredCandidate N)
        (other : Option (ScoredCandidate N)) (d : ScalpOverrideComparison N)
        → ((o : ScoredCandidate N)
            → other ≡ some o
            → le (required_delta s) (o.breakdown.total_score - s.breakdown.total_score) ≡ false)
        → (challenge rejected s other).comparison ≡ some d
        → better_by_total d ≡ false
    unfolding compare_scalp
    challenge-comparison rejected s none d h e = cc e
    challenge-comparison rejected s (some o) d h e =
        let made : compare_scalp s o ≡ d = ground arith in
        subst (λ d. better_by_total d ≡ false) made (ground (arith, h o refl))

    override_scalp-comparison :
        (scored : List (ScoredCandidate N)) (rejected : List (RejectedCandidate N))
        (found : Option (ScoredCandidate N)) (d : ScalpOverrideComparison N)
        → Ordered higher scored
        → All HasFiniteTotal scored
        → find (qualified rejected) scored ≡ found
        → (override_scalp scored rejected found).comparison ≡ some d
        → better_by_total d ≡ false
    override_scalp-comparison scored rejected none d ordered finite f e = cc e
    override_scalp-comparison scored rejected (some s) d ordered finite f e =
        let s_finite = All-find HasFiniteTotal (qualified rejected) scored s finite f in
        challenge-comparison rejected s _ d
          (λ o g.
            let later : find (non_scalp_qualified rejected) scored ≡ some o = ground arith in
            let o_finite =
              All-find HasFiniteTotal (non_scalp_qualified rejected) scored o finite later in
            let order =
              find-Ordered higher (qualified rejected) (λ c. not (is_engine4 c.candidate.engine_id))
                scored s o ordered f later in
            behind s o s_finite o_finite (
              ground
                (arith, order, higher-eq-not-le o s o_finite s_finite, finite_number _ s_finite)))
          e

    decide_among-comparison :
        (input : StrategyBrainInput N) (d : ScalpOverrideComparison N)
        → All HasFiniteTotal (scored_of input).0
        → (decide_among input).diagnostics.scalp_override_comparison ≡ some d
        → better_by_total d ≡ false
    unfolding decide_among choose
    decide_among-comparison input d finite e =
        let scored = (scored_of input).0 in
        override_scalp-comparison (sort higher scored) (scored_of input).1.rejected _ d
          (sort-Ordered higher HasFiniteTotal higher_asym higher_trans scored finite)
          (All-sort higher HasFiniteTotal scored finite) refl e

    brain_for-comparison :
        (input : StrategyBrainInput N) (cs : List (StrategyBrainCandidate N))
        (d : ScalpOverrideComparison N)
        → All HasFiniteTotal (scored_of input).0
        → (brain_for input cs).diagnostics.scalp_override_comparison ≡ some d
        → better_by_total d ≡ false
    brain_for-comparison input [] d finite e = cc e
    brain_for-comparison input (c ∷ cs) d finite e = decide_among-comparison input d finite e

    -- Under the laws of IEEE 754 arithmetic, and if the total scores are finite, a comparison of the
    -- best candidate, of engine 4, with the best other one never shows the other one better by the
    -- total score: only the expected R and the structure can override.
    pub run_strategy_brain-comparison :
        (input : StrategyBrainInput N) (d : ScalpOverrideComparison N)
        → All HasFiniteTotal (scored_of input).0
        → (run_strategy_brain input).diagnostics.scalp_override_comparison ≡ some d
        → better_by_total d ≡ false
    unfolding run_strategy_brain
    run_strategy_brain-comparison input d finite e =
        brain_for-comparison input input.candidates d finite e
