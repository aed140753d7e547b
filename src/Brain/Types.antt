-- ===== src/Brain/Types.antt =====
-- The types of packages/core/src/arbitration/strategy-brain.ts. The reasons, which are strings, are
-- the constructors of data types, a `Record<BrainEngineId, …>` is a record, and the counts and the
-- size of the window are whole.
use hashi_bot.Base.{ℕ, String, Bool, Option, List}
use hashi_bot.Domain.{TradeSide}

pub data BrainEngineId : Type 0 where
  engine1 engine2 engine3 engine4 : BrainEngineId

pub data VolatilityRegime : Type 0 where
  compressed normal expansion : VolatilityRegime

pub data ExpectedHoldProfile : Type 0 where
  scalp_fast intraday_fast intraday_balanced intraday_continuation : ExpectedHoldProfile

pub record StrategyBrainCandidate (N : Type 0) : Type 0 where
  pub id : String
  pub engine_id : BrainEngineId
  pub symbol : String
  pub side : TradeSide
  pub entry : N
  pub stop : N
  pub tp1 : N
  pub tp2 : N
  pub structure_score : Option N
  pub cleanliness_score : Option N
  pub volatility_regime : Option VolatilityRegime
  pub expected_hold_profile : Option ExpectedHoldProfile

pub record BrainAccount (N : Type 0) : Type 0 where
  pub equity : N
  pub free_margin : N
  pub open_positions : N

pub record BrainMarket (N : Type 0) : Type 0 where
  pub atr_pct : Option N
  pub volatility_regime : Option VolatilityRegime

pub record StrategyBrainInput (N : Type 0) : Type 0 where
  pub candidates : List (StrategyBrainCandidate N)
  pub account : BrainAccount N
  pub market : Option (BrainMarket N)
  pub recent_selected_engines : Option (List BrainEngineId)
  pub share_window_size : Option ℕ
  pub min_arbitration_score : Option N

pub data HoldProfile : Type 0 where
  weak_micro_scalp structured_scalp fast_intraday balanced_intraday continuation_hold : HoldProfile

pub data HoldScoreReason : Type 0 where
  weak_micro_scalp_penalized structured_scalp_neutral_to_positive : HoldScoreReason
  fast_intraday_supported continuation_hold_rewarded balanced_intraday_rewarded : HoldScoreReason

pub data ThresholdReason : Type 0 where
  default_non_scalp_min strong_expansion_structure_cleanliness : ThresholdReason
  chop_or_weak_structure_for_scalp default_scalp_min : ThresholdReason

pub record StrategyBrainScoreBreakdown (N : Type 0) : Type 0 where
  pub structure_score : N
  pub expected_r_score : N
  pub volatility_alignment : N
  pub engine_priority : N
  pub cleanliness_score : N
  pub hold_score : N
  pub inferred_hold_profile : HoldProfile
  pub hold_score_reason : HoldScoreReason
  pub expected_r_threshold_used : N
  pub expected_r_threshold_reason : ThresholdReason
  pub share_penalty : N
  pub fatigue_penalty : N
  pub total_score : N

pub record ScoredCandidate (N : Type 0) : Type 0 where
  pub candidate : StrategyBrainCandidate N
  pub breakdown : StrategyBrainScoreBreakdown N

pub data BrainRejection : Type 0 where
  below_global_min_expected_r scalp_override_material_superiority : BrainRejection
  no_trade_low_brain_score not_selected_by_total_score : BrainRejection

pub record RejectedCandidate (N : Type 0) : Type 0 where
  pub candidate : StrategyBrainCandidate N
  pub reason : BrainRejection

pub record EngineShare (N : Type 0) : Type 0 where
  pub engine1 : N
  pub engine2 : N
  pub engine3 : N
  pub engine4 : N

pub record ScalpOverrideComparison (N : Type 0) : Type 0 where
  pub expected_r_delta : N
  pub structure_delta : N
  pub cleanliness_delta : N
  pub hold_delta : N
  pub total_delta : N
  pub required_total_delta : N

pub data ScalpOverrideReason : Type 0 where
  non_scalp_clearly_better_multifactor : ScalpOverrideReason

pub data NoTradeReason : Type 0 where
  no_candidates_available no_trade_low_brain_score : NoTradeReason

-- What the scoring of the candidates adds up: the counters, the sums of the penalties, and the
-- candidates that it rejects.
pub record Tally (N : Type 0) : Type 0 where
  pub share_penalty_applications : ℕ
  pub share_penalty_magnitude : N
  pub participation_floor_relief_applied : ℕ
  pub fatigue_penalty_applications : ℕ
  pub fatigue_penalty_magnitude : N
  pub fatigue_relief_applied_for_strong_scalp : ℕ
  pub rejected : List (RejectedCandidate N)

pub record BrainDiagnostics (N : Type 0) : Type 0 where
  pub engine_share_window_size : ℕ
  pub engine_share : EngineShare N
  pub rolling_engine_share : EngineShare N
  pub share_penalty_applications : ℕ
  pub share_penalty_magnitude : N
  pub participation_floor_relief_applied : ℕ
  pub fatigue_penalty_applications : ℕ
  pub fatigue_penalty_magnitude : N
  pub fatigue_relief_applied_for_strong_scalp : ℕ
  pub consecutive_engine4_count : ℕ
  pub consecutive_engine4_blocks : ℕ
  pub scalp_override_applied : Bool
  pub scalp_override_reason : Option ScalpOverrideReason
  pub scalp_override_comparison : Option (ScalpOverrideComparison N)
  pub no_trade_selections : ℕ
  pub no_trade_reason : Option NoTradeReason
  pub min_arbitration_score_used : N
  pub min_arbitration_score : N

pub record StrategyBrainDecision (N : Type 0) : Type 0 where
  pub selected : Option (StrategyBrainCandidate N)
  pub scored_candidates : List (ScoredCandidate N)
  pub rejected : List (RejectedCandidate N)
  pub diagnostics : BrainDiagnostics N
