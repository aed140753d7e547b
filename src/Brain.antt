-- ===== src/Brain.antt =====
-- packages/core/src/arbitration/strategy-brain.ts: the choice of one candidate.
pub mod Types
pub mod Score
pub mod Rate
pub mod Pick
mod Tests
pub mod MinScore
pub mod Selected
pub mod Accounted
pub mod Override
use text.Mathlib.Text.{◌==◌}
use hashi_bot.Base.{
  ℕ, String, Bool, true, false, not, ◌&&◌, ◌||◌, Option, none, some, List, [], ◌∷◌, ◌++◌, map, find,
  exists, is_some, if◌then◌else◌, or_else,
}
use hashi_bot.Base.Number.{Number, int, ◌+◌, ◌-◌}
use hashi_bot.Base.Sort.{sort}
use hashi_bot.Brain.Types.{
  BrainEngineId, engine1, engine2, engine3, engine4, VolatilityRegime, compressed, normal,
  expansion, StrategyBrainCandidate, StrategyBrainInput, ScoredCandidate, BrainRejection,
  RejectedCandidate, EngineShare, ScalpOverrideReason, ScalpOverrideComparison, NoTradeReason,
  Tally, BrainDiagnostics, StrategyBrainDecision,
}
use hashi_bot.Brain.Score.{Target, is_engine4, is_expansion, is_compressed, reward_to_risk}
use hashi_bot.Brain.Pick.{
  Choice, better_by_parts, better_by_total, challenge, choose, compare_scalp, higher, is_marginal,
  is_strong, meaningful, non_scalp_qualified, override_scalp, qualified, rejects, required_delta,
}
use hashi_bot.Brain.Rate.{slice_last, rolling_share, trailing_engine4, market_regime, score_all}

-- `selected?.candidate.engineId === "engine4" || … === "engine2"`
abbrev pub is_engine2_or_4 : BrainEngineId → Bool
is_engine2_or_4 engine1 = false
is_engine2_or_4 engine2 = true
is_engine2_or_4 engine3 = false
is_engine2_or_4 engine4 = true

module _ {N : Type 0} ⦃num : Number N⦄ where
  open num use {lit, min, max, lt, le}

  abbrev pub empty_tally : Tally N
  empty_tally = record {
    share_penalty_applications = 0;
    share_penalty_magnitude = int 0;
    participation_floor_relief_applied = 0;
    fatigue_penalty_applications = 0;
    fatigue_penalty_magnitude = int 0;
    fatigue_relief_applied_for_strong_scalp = 0;
    rejected = [];
  }

  abbrev pub recent_of : StrategyBrainInput N → List BrainEngineId
  recent_of input =
      slice_last (or_else input.share_window_size 100) (or_else input.recent_selected_engines [])

  abbrev pub chosen_regime : Option (ScoredCandidate N) → Option VolatilityRegime
  chosen_regime none = none
  chosen_regime (some s) = s.candidate.volatility_regime

  abbrev pub chosen_fast_engine : Option (ScoredCandidate N) → Bool
  chosen_fast_engine none = false
  chosen_fast_engine (some s) = is_engine2_or_4 s.candidate.engine_id

  unfoldable pub dynamic_min_score : N → VolatilityRegime → (fast_engine : Bool) → N
  dynamic_min_score base regime fast_engine =
      let raised = if is_compressed regime then base + int 2 else base in
      let score = if is_expansion regime && fast_engine then raised - int 2 else raised in
      max (int 55) (min (int 62) score)

  abbrev pub selection_min_score : StrategyBrainInput N → Option (ScoredCandidate N) → N
  selection_min_score input selected =
      dynamic_min_score (or_else input.min_arbitration_score (int 58))
        (or_else (market_regime input) (or_else (chosen_regime selected) normal))
        (chosen_fast_engine selected)

  -- A selection whose score is too low is dropped and rejected.
  abbrev pub drop_low :
      N
      → List (RejectedCandidate N)
      → Option (ScoredCandidate N)
      → Option (ScoredCandidate N) × List (RejectedCandidate N) × Bool
  drop_low min_score rejected none = (none, rejected, false)
  drop_low min_score rejected (some s) =
      if lt s.breakdown.total_score min_score
      then (
        none,
        rejected
            ++ (record { candidate = s.candidate; reason = BrainRejection.no_trade_low_brain_score }
                ∷ []),
        true,
      )
      else (some s, rejected, false)

  -- `selected?.candidate ?? null`
  abbrev pub candidate_of : Option (ScoredCandidate N) → Option (StrategyBrainCandidate N)
  candidate_of none = none
  candidate_of (some s) = some s.candidate

  abbrev pub is_selected : Option (StrategyBrainCandidate N) → String → Bool
  is_selected none id = false
  is_selected (some s) id = id == s.id

  -- One round of the last loop: who is neither selected nor rejected is rejected.
  abbrev pub push_rest :
      Option (StrategyBrainCandidate N)
      → List (RejectedCandidate N)
      → ScoredCandidate N
      → List (RejectedCandidate N)
  push_rest selected rejected entry =
      if is_selected selected entry.candidate.id || rejects rejected entry.candidate.id
      then rejected
      else rejected
        ++ (record {
          candidate = entry.candidate;
          reason = BrainRejection.not_selected_by_total_score;
        }
            ∷ [])

  unfoldable pub reject_rest :
      Option (StrategyBrainCandidate N)
      → List (RejectedCandidate N)
      → List (ScoredCandidate N)
      → List (RejectedCandidate N)
  reject_rest selected rejected [] = rejected
  reject_rest selected rejected (entry ∷ rest) =
      reject_rest selected (push_rest selected rejected entry) rest

  abbrev pub zero_share : EngineShare N
  zero_share = record { engine1 = int 0; engine2 = int 0; engine3 = int 0; engine4 = int 0 }

  -- The answer to an empty list of candidates.
  abbrev pub no_candidates : StrategyBrainInput N → StrategyBrainDecision N
  no_candidates input = record {
    selected = none;
    scored_candidates = [];
    rejected = [];
    diagnostics = record {
      engine_share_window_size = or_else input.share_window_size 100;
      engine_share = zero_share;
      rolling_engine_share = zero_share;
      share_penalty_applications = 0;
      share_penalty_magnitude = int 0;
      participation_floor_relief_applied = 0;
      fatigue_penalty_applications = 0;
      fatigue_penalty_magnitude = int 0;
      fatigue_relief_applied_for_strong_scalp = 0;
      consecutive_engine4_count = 0;
      consecutive_engine4_blocks = 0;
      scalp_override_applied = false;
      scalp_override_reason = none;
      scalp_override_comparison = none;
      no_trade_selections = 1;
      no_trade_reason = some NoTradeReason.no_candidates_available;
      min_arbitration_score_used = or_else input.min_arbitration_score (int 58);
      min_arbitration_score = or_else input.min_arbitration_score (int 58);
    };
  }

  abbrev pub scored_of : StrategyBrainInput N → List (ScoredCandidate N) × Tally N
  scored_of input = score_all input (recent_of input) input.candidates empty_tally

  unfoldable pub decide_among : StrategyBrainInput N → StrategyBrainDecision N
  decide_among input =
      let tally = (scored_of input).1 in
      let scored = sort higher (scored_of input).0 in
      let choice = choose scored tally.rejected in
      let min_score = selection_min_score input choice.selected in
      let (selected, rejected, no_trade) = drop_low min_score choice.rejected choice.selected in
      let rolling = rolling_share (recent_of input) in
      record {
        selected = candidate_of selected;
        scored_candidates = scored;
        rejected = reject_rest (candidate_of selected) rejected scored;
        diagnostics = record {
          engine_share_window_size = or_else input.share_window_size 100;
          engine_share = rolling;
          rolling_engine_share = rolling;
          share_penalty_applications = tally.share_penalty_applications;
          share_penalty_magnitude = tally.share_penalty_magnitude;
          participation_floor_relief_applied = tally.participation_floor_relief_applied;
          fatigue_penalty_applications = tally.fatigue_penalty_applications;
          fatigue_penalty_magnitude = tally.fatigue_penalty_magnitude;
          fatigue_relief_applied_for_strong_scalp = tally.fatigue_relief_applied_for_strong_scalp;
          consecutive_engine4_count = trailing_engine4 (recent_of input);
          consecutive_engine4_blocks = 0;
          scalp_override_applied = choice.override_applied;
          scalp_override_reason =
              if choice.override_applied
              then some ScalpOverrideReason.non_scalp_clearly_better_multifactor
              else none;
          scalp_override_comparison = choice.comparison;
          no_trade_selections = if no_trade then 1 else 0;
          no_trade_reason = if no_trade then some NoTradeReason.no_trade_low_brain_score else none;
          min_arbitration_score_used = min_score;
          min_arbitration_score = or_else input.min_arbitration_score (int 58);
        };
      }

  abbrev pub brain_for :
      StrategyBrainInput N → List (StrategyBrainCandidate N) → StrategyBrainDecision N
  brain_for input [] = no_candidates input
  brain_for input (c ∷ cs) = decide_among input

  unfoldable pub run_strategy_brain : StrategyBrainInput N → StrategyBrainDecision N
  run_strategy_brain input = brain_for input input.candidates
