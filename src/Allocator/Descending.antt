-- ===== src/Allocator/Descending.antt =====
-- The ranking is by falling quality, if the numbers that it compares are finite.
use hashi_bot.Base.{
  ℕ, suc, ◌≡◌, ◌∙◌, sym, ◌⊎◌, ◌&&◌, not, if◌then◌else◌, Bool, true, false, List, [], ◌∷◌, map, All,
  arith,
}
use hashi_bot.Base.Number.{Number, IsIeee, ◌≼◌, int, ◌-◌}
use hashi_bot.Base.Sort.{sort, Ordered, sort-Ordered, All-sort}
use hashi_bot.Policy.Types.{BreakoutSignal}
use hashi_bot.Allocator.{rank_candidates, ranked_from, scored, before, total_quality}
use hashi_bot.Allocator.Types.{RankedSetup, ScoredSetup}

module _ {N : Type 0} ⦃num : Number N⦄ where
  open num use {is_finite, le}

  -- The numbers that the comparator reads.
  abbrev pub IsFinite : ScoredSetup N → Type 0
  IsFinite s =
      (is_finite s.quality_score ≡ true)
      × (is_finite s.signal.score ≡ true)
      × (is_finite s.signal.confidence ≡ true)

  -- No setup of the list is followed by one of higher quality.
  abbrev pub ByQuality : List (RankedSetup N) → Type 0
  ByQuality [] = Unit
  ByQuality (r ∷ rs) = All (λ s. s.quality_score ≼ r.quality_score) rs × ByQuality rs

  module _ (ieee : IsIeee N) where
    open ieee use {le_trans, le_total, lt-eq-not-le, eq-eq-le, minus_negative, finite_number}

    -- One level of the comparator, in terms of `<=`.
    level :
        (x y : N)
        → is_finite x ≡ true
        → is_finite y ≡ true
        → (num.eq y x ≡ le y x && le x y) × (num.lt (y - x) (int 0) ≡ not (le x y))
    level x y p q = (
      eq-eq-le y x (finite_number y q) (finite_number x p),
      minus_negative y x q p ∙ lt-eq-not-le y x (finite_number y q) (finite_number x p),
    )

    abbrev lex : ScoredSetup N → ScoredSetup N → Bool
    lex x y =
        if not (le y.quality_score x.quality_score && le x.quality_score y.quality_score)
        then not (le x.quality_score y.quality_score)
        else if not (le y.signal.score x.signal.score && le x.signal.score y.signal.score)
        then not (le x.signal.score y.signal.score)
        else not (le x.signal.confidence y.signal.confidence)

    before-eq-lex : (x y : ScoredSetup N) → IsFinite x → IsFinite y → before x y ≡ lex x y
    before-eq-lex x y p q = ground (
      arith,
      level x.quality_score y.quality_score p.0 q.0,
      level x.signal.score y.signal.score p.1 q.1,
      level x.signal.confidence y.signal.confidence p.2 q.2,
    )

    total : (x y : N) → is_finite x ≡ true → is_finite y ≡ true → (x ≼ y) ⊎ (y ≼ x)
    total x y p q = le_total x y (finite_number x p) (finite_number y q)

    before-asym :
        (x y : ScoredSetup N) → IsFinite x → IsFinite y → before x y ≡ true → before y x ≡ false
    before-asym x y p q h =
        let h' : lex x y ≡ true = sym (before-eq-lex x y p q) ∙ h in
        before-eq-lex y x q p
        ∙ ground (
          arith,
          total x.quality_score y.quality_score p.0 q.0,
          total x.signal.score y.signal.score p.1 q.1,
          total x.signal.confidence y.signal.confidence p.2 q.2,
        )

    lex_trans :
        (x y z : ScoredSetup N)
        → IsFinite x
        → IsFinite y
        → IsFinite z
        → lex y x ≡ false
        → lex z y ≡ false
        → lex z x ≡ false
    lex_trans x y z p q r h k = ground (
      arith,
      le_trans x.quality_score y.quality_score z.quality_score,
      le_trans z.quality_score y.quality_score x.quality_score,
      le_trans y.quality_score x.quality_score z.quality_score,
      le_trans x.quality_score z.quality_score y.quality_score,
      le_trans y.signal.score x.signal.score z.signal.score,
      le_trans x.signal.score z.signal.score y.signal.score,
      le_trans z.signal.score y.signal.score x.signal.score,
      le_trans x.signal.score y.signal.score z.signal.score,
      le_trans z.signal.confidence y.signal.confidence x.signal.confidence,
      total x.quality_score y.quality_score p.0 q.0,
      total y.quality_score z.quality_score q.0 r.0,
      total x.signal.score y.signal.score p.1 q.1,
      total y.signal.score z.signal.score q.1 r.1,
    )

    before_trans :
        (x y z : ScoredSetup N)
        → IsFinite x
        → IsFinite y
        → IsFinite z
        → before y x ≡ false
        → before z y ≡ false
        → before z x ≡ false
    before_trans x y z p q r h k =
        before-eq-lex z x r p
        ∙ lex_trans x y z p q r (sym (before-eq-lex y x q p) ∙ h) (sym (before-eq-lex z y r q) ∙ k)

    le_of_before :
        (x y : ScoredSetup N)
        → IsFinite x
        → IsFinite y
        → before y x ≡ false
        → y.quality_score ≼ x.quality_score
    le_of_before x y p q h =
        let h' : lex y x ≡ false = sym (before-eq-lex y x q p) ∙ h in ground arith

    below :
        (x : ScoredSetup N) (t : N) (index : ℕ) (ys : List (ScoredSetup N))
        → IsFinite x
        → All IsFinite ys
        → All (λ y. before y x ≡ false) ys
        → All (λ r. r.quality_score ≼ x.quality_score) (ranked_from t index ys)
    unfolding ranked_from
    below x t index [] p ps h = tt
    below x t index (y ∷ ys) p ps h =
        (le_of_before x y p ps.0 h.0, below x t (suc index) ys p ps.1 h.1)

    ranked_from-ByQuality :
        (t : N) (index : ℕ) (xs : List (ScoredSetup N))
        → All IsFinite xs
        → Ordered before xs
        → ByQuality (ranked_from t index xs)
    unfolding ranked_from
    ranked_from-ByQuality t index [] ps o = tt
    ranked_from-ByQuality t index (x ∷ xs) ps o =
        (below x t (suc index) xs ps.0 ps.1 o.0, ranked_from-ByQuality t (suc index) xs ps.1 o.1)

    -- If the quality, the score and the confidence of every candidate are finite, no ranked setup is
    -- followed by one of higher quality.
    pub rank_candidates-ByQuality :
        (candidates : List (BreakoutSignal N))
        → All IsFinite (map scored candidates)
        → ByQuality (rank_candidates candidates)
    unfolding rank_candidates
    rank_candidates-ByQuality candidates h =
        let setups = map scored candidates in
        ranked_from-ByQuality (total_quality (sort before setups)) 0 (sort before setups)
          (All-sort before IsFinite setups h)
          (sort-Ordered before IsFinite before-asym before_trans setups h)
