-- ===== src/Arbitration/Justified.antt =====
-- What the result of the arbitration says of the candidates (candidate-arbitration.ts).
use hashi_bot.Base.{◌≡◌, refl, Bool, true, false, Option, none, some, is_some, arith}
use hashi_bot.Base.Number.{Number, IsIeee, IsNumber}
use hashi_bot.Arbitration.{
  StrategyExecutionCandidate, ArbitrationReason, CandidateArbitrationResult,
  CandidateArbitrationOptions, normalized_quality, single, between, epsilon_of, tie_margin_of,
  floor_of, select_winner,
}

-- The reasons that come with a winner.
abbrev pub is_decided : ArbitrationReason → Bool
is_decided ArbitrationReason.no_candidates = false
is_decided ArbitrationReason.single_candidate = true
is_decided ArbitrationReason.quality_winner = true
is_decided ArbitrationReason.inconclusive_tie = false
is_decided ArbitrationReason.below_quality_floor = false

module _ {N : Type 0} ⦃num : Number N⦄ where
  open num use {lt, le, abs}

  abbrev pub quality_of : N → Option (StrategyExecutionCandidate N) → Option N
  quality_of epsilon none = none
  quality_of epsilon (some c) = some (normalized_quality epsilon c)

  abbrev pub below : N → Option N → Bool
  below floor none = false
  below floor (some q) = lt q floor

  abbrev pub beats : Option N → Option N → Bool
  beats (some q) (some r) = lt q r
  beats none r = false
  beats (some q) none = false

  -- The qualities are those of the winner and of the loser, the reason says whether there is a winner, the
  -- winner is not below the floor, and the loser not better than the winner.
  abbrev pub Justified : N → CandidateArbitrationResult N → Type 0
  Justified epsilon r =
      (r.winner_quality ≡ quality_of epsilon r.winner)
      × (r.loser_quality ≡ quality_of epsilon r.loser)
      × (is_decided r.reason ≡ is_some r.winner)
      × (below r.quality_floor r.winner_quality ≡ false)
      × (beats r.winner_quality r.loser_quality ≡ false)

  -- The candidate, if there is one, has a quality that is a number.
  abbrev pub Measured : N → Option (StrategyExecutionCandidate N) → Type 0
  Measured epsilon none = Unit
  Measured epsilon (some c) = IsNumber (normalized_quality epsilon c)

  single-Justified :
      (epsilon margin floor : N) (c : StrategyExecutionCandidate N)
      → Justified epsilon (single epsilon margin floor c)
  single-Justified epsilon margin floor c = ground arith

module _ {N : Type 0} ⦃num : Number N⦄ ⦃ieee : IsIeee N⦄ where
  open num use {lt, le, abs}

  between-Justified :
      (epsilon margin floor : N) (b s : StrategyExecutionCandidate N)
      → IsNumber (normalized_quality epsilon b)
      → IsNumber (normalized_quality epsilon s)
      → IsNumber floor
      → Justified epsilon (between epsilon margin floor b s)
  between-Justified epsilon margin floor b s hb hs hf =
      let x = normalized_quality epsilon b in
      let y = normalized_quality epsilon s in
      ground (
        arith,
        ieee.lt-eq-not-le x y hb hs,
        ieee.lt-eq-not-le y x hs hb,
        ieee.lt-eq-not-le x floor hb hf,
        ieee.lt-eq-not-le y floor hs hf,
        ieee.le_total x y hb hs,
        ieee.le_trans floor x y,
        ieee.le_trans floor y x,
      )

  -- Under the laws of IEEE 754 arithmetic, of candidates whose qualities are numbers, with a floor that is a
  -- number: the qualities in the result are
  -- those of the winner and of the loser, the reason says whether there is a winner, the winner is not below
  -- the floor, and the loser not better than the winner.
  pub select_winner-Justified :
      (breakout swing : Option (StrategyExecutionCandidate N))
      (options : CandidateArbitrationOptions N)
      → Measured (epsilon_of options) breakout
      → Measured (epsilon_of options) swing
      → IsNumber (floor_of options)
      → Justified (epsilon_of options) (select_winner breakout swing options)
  unfolding select_winner
  select_winner-Justified none none options hb hs hf = (refl, refl, refl, refl, refl)
  select_winner-Justified (some b) none options hb hs hf =
      single-Justified (epsilon_of options) (tie_margin_of options) (floor_of options) b
  select_winner-Justified none (some s) options hb hs hf =
      single-Justified (epsilon_of options) (tie_margin_of options) (floor_of options) s
  select_winner-Justified (some b) (some s) options hb hs hf =
      between-Justified (epsilon_of options) (tie_margin_of options) (floor_of options) b s hb hs hf
