-- ===== src/Arbitration.antt =====
-- packages/core/src/backtest/candidate-arbitration.ts: which of two candidates of the backtest is traded.
pub mod Justified
mod Tests
use hashi_bot.Base.{ℕ, String, Bool, true, false, ◌&&◌, Option, none, some, if◌then◌else◌, or_else}
use hashi_bot.Base.Number.{Number, ◌-◌, ◌/◌}
use hashi_bot.Domain.{TradeSide, Metadata}

-- strategy-types.ts: the candidate of a strategy.
pub record StrategyExecutionCandidate (N : Type 0) : Type 0 where
  pub strategy_id : String
  pub side : TradeSide
  pub entry_price : N
  pub stop_price : N
  pub risk_distance : N
  pub score : N
  pub timestamp : N
  pub bar_index : N
  pub metadata : Metadata N

pub data ArbitrationReason : Type 0 where
  no_candidates single_candidate quality_winner : ArbitrationReason
  inconclusive_tie below_quality_floor : ArbitrationReason

pub record CandidateArbitrationResult (N : Type 0) : Type 0 where
  pub winner : Option (StrategyExecutionCandidate N)
  pub loser : Option (StrategyExecutionCandidate N)
  pub reason : ArbitrationReason
  pub winner_quality : Option N
  pub loser_quality : Option N
  pub tie_margin : N
  pub quality_floor : N

pub record CandidateArbitrationOptions (N : Type 0) : Type 0 where
  pub epsilon : Option N
  pub tie_margin : Option N
  pub quality_floor : Option N

module _ {N : Type 0} ⦃num : Number N⦄ where
  open num use {lt, le, abs, max}

  abbrev pub normalized_quality : N → StrategyExecutionCandidate N → N
  normalized_quality epsilon candidate = candidate.score / max candidate.risk_distance epsilon

  -- A result, with the margin and the floor that it was found with.
  abbrev pub result_of :
      (tie_margin quality_floor : N)
      → ArbitrationReason
      → (winner loser : Option (StrategyExecutionCandidate N))
      → (winner_quality loser_quality : Option N) → CandidateArbitrationResult N
  result_of tie_margin quality_floor reason winner loser winner_quality loser_quality = record {
    winner = winner;
    loser = loser;
    reason = reason;
    winner_quality = winner_quality;
    loser_quality = loser_quality;
    tie_margin = tie_margin;
    quality_floor = quality_floor;
  }

  -- One candidate only.
  abbrev pub single :
      (epsilon tie_margin quality_floor : N)
      → StrategyExecutionCandidate N
      → CandidateArbitrationResult N
  single epsilon tie_margin quality_floor candidate =
      let quality = normalized_quality epsilon candidate in
      if lt quality quality_floor
      then result_of tie_margin quality_floor ArbitrationReason.below_quality_floor none
          (some candidate) none (some quality)
      else result_of tie_margin quality_floor ArbitrationReason.single_candidate (some candidate)
          none (some quality) none

  abbrev pub between :
      (epsilon tie_margin quality_floor : N)
      → (breakout swing : StrategyExecutionCandidate N) → CandidateArbitrationResult N
  between epsilon tie_margin quality_floor breakout swing =
      let breakout_quality = normalized_quality epsilon breakout in
      let swing_quality = normalized_quality epsilon swing in
      if lt breakout_quality quality_floor && lt swing_quality quality_floor
      then result_of tie_margin quality_floor ArbitrationReason.below_quality_floor none none none
          none
      else if le (abs (breakout_quality - swing_quality)) tie_margin
      then result_of tie_margin quality_floor ArbitrationReason.inconclusive_tie none none none none
      else if lt swing_quality breakout_quality
      then result_of tie_margin quality_floor ArbitrationReason.quality_winner (some breakout)
          (some swing) (some breakout_quality) (some swing_quality)
      else result_of tie_margin quality_floor ArbitrationReason.quality_winner (some swing)
          (some breakout) (some swing_quality) (some breakout_quality)

  -- The four cases of `selectWinner`.
  abbrev pub select_among :
      (epsilon tie_margin quality_floor : N)
      → (breakout swing : Option (StrategyExecutionCandidate N)) → CandidateArbitrationResult N
  select_among epsilon tie_margin quality_floor none none =
      result_of tie_margin quality_floor ArbitrationReason.no_candidates none none none none
  select_among epsilon tie_margin quality_floor (some breakout) none =
      single epsilon tie_margin quality_floor breakout
  select_among epsilon tie_margin quality_floor none (some swing) =
      single epsilon tie_margin quality_floor swing
  select_among epsilon tie_margin quality_floor (some breakout) (some swing) =
      between epsilon tie_margin quality_floor breakout swing

  -- The options, with the defaults of the file.
  abbrev pub epsilon_of : CandidateArbitrationOptions N → N
  epsilon_of options = or_else options.epsilon (num.lit 1 9)

  abbrev pub tie_margin_of : CandidateArbitrationOptions N → N
  tie_margin_of options = or_else options.tie_margin (num.lit 5 2)

  abbrev pub floor_of : CandidateArbitrationOptions N → N
  floor_of options = or_else options.quality_floor (num.lit 10 0)

  unfoldable pub select_winner :
      (breakout swing : Option (StrategyExecutionCandidate N))
      → CandidateArbitrationOptions N
      → CandidateArbitrationResult N
  select_winner breakout swing options =
      select_among (epsilon_of options) (tie_margin_of options) (floor_of options) breakout swing
