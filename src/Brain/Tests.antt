-- ===== src/Brain/Tests.antt =====
-- A run of the strategy brain on decimals, and the theorems at it.
use hashi_bot.Base.{◌≡◌, refl, false, none, some, [], ◌∷◌}
use hashi_bot.Base.Sort.{sort}
use hashi_bot.Base.Number.{◌≼◌}
use hashi_bot.Base.Decimal.{Decimal, decimal_number, decimal-IsIeee}
use hashi_bot.Domain.{TradeSide}
use hashi_bot.Policy.Tests.{dec}
use hashi_bot.Brain.Types.{
  BrainEngineId, StrategyBrainCandidate, StrategyBrainInput, ScalpOverrideComparison,
}
use hashi_bot.Brain.Score.{
  clamp01, reward_to_risk, compute_expected_r_score, compute_volatility_alignment,
  infer_hold_profile, compute_hold_assessment, resolve_expected_r_threshold,
}
use hashi_bot.Brain.Rate.{
  count_engines, trailing_engine4, slice_last, rolling_share, share_effect, fatigue_effect,
  score_candidate, score_all,
}
use hashi_bot.Brain.Override.{run_strategy_brain-comparison}
use hashi_bot.Brain.Selected.{
  Accounted, Passed, run_strategy_brain-Accounted, run_strategy_brain-Passed,
}
use hashi_bot.Brain.MinScore.{run_strategy_brain-limits}
use hashi_bot.Brain.Pick.{choose, compare_scalp, better_by_total}
use hashi_bot.Brain.{dynamic_min_score, decide_among, run_strategy_brain}

abbrev scalp : StrategyBrainCandidate Decimal
scalp = record {
  id = "scalp";
  engine_id = BrainEngineId.engine4;
  symbol = "ETHUSDT";
  side = TradeSide.long;
  entry = dec 1000;
  stop = dec 994;
  tp1 = dec 1006;
  tp2 = dec 1018;
  structure_score = some (dec 1);
  cleanliness_score = some (dec 1);
  volatility_regime = none;
  expected_hold_profile = none;
}

abbrev trend : StrategyBrainCandidate Decimal
trend = record scalp {
  id = "trend";
  engine_id = BrainEngineId.engine1;
  structure_score = none;
  cleanliness_score = none;
}

abbrev input : StrategyBrainInput Decimal
input = record {
  candidates = trend ∷ scalp ∷ [];
  account = record { equity = dec 1000; free_margin = dec 1000; open_positions = dec 0 };
  market = none;
  recent_selected_engines = none;
  share_window_size = none;
  min_arbitration_score = none;
}

run_strategy_brain-Accounted_example : Accounted input.candidates (run_strategy_brain input)
run_strategy_brain-Accounted_example = run_strategy_brain-Accounted input

run_strategy_brain-Passed_example : Passed (run_strategy_brain input) scalp
unfolding run_strategy_brain decide_among choose compare_scalp dynamic_min_score score_all
    score_candidate sort clamp01 reward_to_risk compute_expected_r_score
    compute_volatility_alignment infer_hold_profile compute_hold_assessment
    resolve_expected_r_threshold count_engines trailing_engine4 slice_last rolling_share
    share_effect fatigue_effect
run_strategy_brain-Passed_example = run_strategy_brain-Passed input scalp refl

run_strategy_brain-limits_example :
    let used = (run_strategy_brain input).diagnostics.min_arbitration_score_used in
    (dec 55 ≼ used) × (used ≼ dec 62)
run_strategy_brain-limits_example =
    run_strategy_brain-limits decimal-IsIeee input trend (scalp ∷ []) refl refl

-- The comparison of the scalp, which scores higher, with the trend candidate. `negative n` is
-- -(n + 1) / 10^12.
abbrev compared : ScalpOverrideComparison Decimal
compared = record {
  expected_r_delta = dec 0;
  structure_delta = Decimal.negative 299999999999;
  cleanliness_delta = Decimal.negative 299999999999;
  hold_delta = decimal_number.lit 136 3;
  total_delta = Decimal.negative 7003999999999;
  required_total_delta = dec 10;
}

run_strategy_brain-comparison_example : better_by_total compared ≡ false
unfolding run_strategy_brain decide_among choose compare_scalp dynamic_min_score score_all
    score_candidate sort clamp01 reward_to_risk compute_expected_r_score
    compute_volatility_alignment infer_hold_profile compute_hold_assessment
    resolve_expected_r_threshold count_engines trailing_engine4 slice_last rolling_share
    share_effect fatigue_effect
run_strategy_brain-comparison_example =
    run_strategy_brain-comparison decimal-IsIeee input compared (refl, (refl, tt)) refl
