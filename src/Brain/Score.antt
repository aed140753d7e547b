-- ===== src/Brain/Score.antt =====
-- packages/core/src/arbitration/strategy-brain.ts: the parts of a candidate's score.
use hashi_bot.Base.{Bool, true, false, ◌&&◌, ◌||◌, Option, none, some, if◌then◌else◌, or_else}
use hashi_bot.Base.Number.{Number, int, ◌+◌, ◌-◌, ◌*◌, ◌/◌}
use hashi_bot.Domain.{TradeSide, long, short}
use hashi_bot.Brain.Types.{
  BrainEngineId, engine1, engine2, engine3, engine4, VolatilityRegime, compressed, normal,
  expansion, ExpectedHoldProfile, StrategyBrainCandidate, HoldProfile, HoldScoreReason,
  ThresholdReason,
}

abbrev pub is_engine4 : BrainEngineId → Bool
is_engine4 engine1 = false
is_engine4 engine2 = false
is_engine4 engine3 = false
is_engine4 engine4 = true

abbrev pub is_expansion : VolatilityRegime → Bool
is_expansion compressed = false
is_expansion normal = false
is_expansion expansion = true

abbrev pub is_compressed : VolatilityRegime → Bool
is_compressed compressed = true
is_compressed normal = false
is_compressed expansion = false

pub data Target : Type 0 where
  tp1 tp2 : Target

pub record HoldAssessment (N : Type 0) : Type 0 where
  pub inferred_hold_profile : HoldProfile
  pub hold_score : N
  pub hold_score_reason : HoldScoreReason

pub record ExpectedRThreshold (N : Type 0) : Type 0 where
  pub threshold : N
  pub reason : ThresholdReason

abbrev pub named_profile : Option ExpectedHoldProfile → HoldProfile → HoldProfile
named_profile none inferred = inferred
named_profile (some ExpectedHoldProfile.scalp_fast) inferred = HoldProfile.structured_scalp
named_profile (some ExpectedHoldProfile.intraday_fast) inferred = HoldProfile.fast_intraday
named_profile (some ExpectedHoldProfile.intraday_balanced) inferred = HoldProfile.balanced_intraday
named_profile (some ExpectedHoldProfile.intraday_continuation) inferred =
    HoldProfile.continuation_hold

module _ {N : Type 0} ⦃num : Number N⦄ where
  open num use {lit, abs, min, max, lt, le}

  abbrev pub engine_priority_of : BrainEngineId → N
  engine_priority_of engine1 = lit 125 2
  engine_priority_of engine2 = lit 11 1
  engine_priority_of engine3 = int 1
  engine_priority_of engine4 = lit 85 2

  abbrev pub share_cap : BrainEngineId → N
  share_cap engine1 = lit 3 1
  share_cap engine2 = lit 3 1
  share_cap engine3 = lit 2 1
  share_cap engine4 = lit 35 2

  unfoldable pub clamp01 : N → N
  clamp01 value = max (int 0) (min (int 1) value)

  abbrev pub target_price : Target → StrategyBrainCandidate N → N
  target_price Target.tp1 c = c.tp1
  target_price Target.tp2 c = c.tp2

  abbrev pub reward : TradeSide → (entry target : N) → N
  reward long entry target = target - entry
  reward short entry target = entry - target

  unfoldable pub reward_to_risk : StrategyBrainCandidate N → Target → N
  reward_to_risk c target =
      let risk = abs (c.entry - c.stop) in
      if le risk (int 0) then int 0 else reward c.side c.entry (target_price target c) / risk

  unfoldable pub compute_expected_r_score : StrategyBrainCandidate N → N
  compute_expected_r_score c =
      let tp2_r = reward_to_risk c Target.tp2 in
      if lt tp2_r (int 1)
      then clamp01 (tp2_r * lit 2 1)
      else if lt tp2_r (lit 11 1)
      then clamp01 (lit 25 2 + (tp2_r - int 1) * lit 8 1)
      else if le (int 3) tp2_r
      then int 1
      else clamp01 (lit 6 1 + (tp2_r - lit 11 1) / lit 19 1 * lit 4 1)

  abbrev pub regime_of_atr : N → VolatilityRegime
  regime_of_atr atr_pct =
      if lt atr_pct (lit 3 3)
      then compressed
      else if lt (lit 12 3) atr_pct
      then expansion
      else normal

  -- `regime ?? candidate.volatilityRegime ?? (… atrPct …)`
  abbrev pub regime_of : Option VolatilityRegime → StrategyBrainCandidate N → N → VolatilityRegime
  regime_of regime c atr_pct = or_else regime (or_else c.volatility_regime (regime_of_atr atr_pct))

  abbrev pub stop_pct_of : StrategyBrainCandidate N → N
  stop_pct_of c = abs (c.entry - c.stop) / max c.entry (lit 1 9)

  abbrev pub alignment : VolatilityRegime → (stop_pct atr_pct : N) → N
  alignment expansion stop_pct atr_pct =
      clamp01 (if le (lit 4 3) stop_pct then int 1 else stop_pct / lit 4 3)
  alignment compressed stop_pct atr_pct =
      if lt (lit 8 3) stop_pct then clamp01 (int 1 - (stop_pct - lit 8 3) / lit 12 3) else int 1
  alignment normal stop_pct atr_pct =
      clamp01 (int 1 - abs (stop_pct - max (atr_pct * lit 11 1) (lit 22 4)) / lit 1 2)

  unfoldable pub compute_volatility_alignment :
      StrategyBrainCandidate N → N → Option VolatilityRegime → N
  compute_volatility_alignment c atr_pct regime =
      alignment (regime_of regime c atr_pct) (stop_pct_of c) atr_pct

  -- The profile of an engine's candidate that does not name one.
  abbrev pub profile_by_engine :
      BrainEngineId → (stop_pct expected_r : N) → VolatilityRegime → HoldProfile
  profile_by_engine engine4 stop_pct expected_r regime =
      if lt expected_r (int 1) then HoldProfile.weak_micro_scalp else HoldProfile.structured_scalp
  profile_by_engine engine3 stop_pct expected_r regime =
      if le (lit 15 1) expected_r then HoldProfile.balanced_intraday else HoldProfile.fast_intraday
  profile_by_engine engine2 stop_pct expected_r regime =
      if is_expansion regime && le (lit 45 4) stop_pct
      then HoldProfile.continuation_hold
      else HoldProfile.balanced_intraday
  profile_by_engine engine1 stop_pct expected_r regime =
      if is_expansion regime && le (lit 45 4) stop_pct
      then HoldProfile.continuation_hold
      else HoldProfile.balanced_intraday

  unfoldable pub infer_hold_profile :
      StrategyBrainCandidate N → (stop_pct expected_r : N) → VolatilityRegime → HoldProfile
  infer_hold_profile c stop_pct expected_r regime =
      named_profile c.expected_hold_profile
        (profile_by_engine c.engine_id stop_pct expected_r regime)

  -- The score and the reason of each profile.
  abbrev pub hold_by_profile : HoldProfile → (r_score time_stop geometry : N) → HoldAssessment N
  hold_by_profile HoldProfile.weak_micro_scalp r_score time_stop geometry = record {
    inferred_hold_profile = HoldProfile.weak_micro_scalp;
    hold_score = clamp01 ((if le (lit 6 1) r_score then lit 5 1 else lit 3 1) - time_stop);
    hold_score_reason = HoldScoreReason.weak_micro_scalp_penalized;
  }
  hold_by_profile HoldProfile.structured_scalp r_score time_stop geometry = record {
    inferred_hold_profile = HoldProfile.structured_scalp;
    hold_score = clamp01 (
        (if le (lit 7 1) r_score then lit 72 2 else lit 58 2)
        - time_stop * lit 5 1
        + geometry * lit 8 1);
    hold_score_reason = HoldScoreReason.structured_scalp_neutral_to_positive;
  }
  hold_by_profile HoldProfile.fast_intraday r_score time_stop geometry = record {
    inferred_hold_profile = HoldProfile.fast_intraday;
    hold_score =
        clamp01
          ((if le (lit 72 2) r_score then lit 74 2 else lit 6 1) - time_stop * lit 4 1 + geometry);
    hold_score_reason = HoldScoreReason.fast_intraday_supported;
  }
  hold_by_profile HoldProfile.continuation_hold r_score time_stop geometry = record {
    inferred_hold_profile = HoldProfile.continuation_hold;
    hold_score = clamp01 ((if le (lit 75 2) r_score then lit 9 1 else lit 75 2) + geometry);
    hold_score_reason = HoldScoreReason.continuation_hold_rewarded;
  }
  hold_by_profile HoldProfile.balanced_intraday r_score time_stop geometry = record {
    inferred_hold_profile = HoldProfile.balanced_intraday;
    hold_score =
        clamp01
          ((if le (lit 75 2) r_score then lit 84 2 else lit 7 1) - time_stop * lit 35 2 + geometry);
    hold_score_reason = HoldScoreReason.balanced_intraday_rewarded;
  }

  unfoldable pub compute_hold_assessment :
      StrategyBrainCandidate N
      → (expected_r_score expected_r atr_pct : N) → Option VolatilityRegime
      → HoldAssessment N
  compute_hold_assessment c expected_r_score expected_r atr_pct regime =
      let stop_pct = stop_pct_of c in
      let time_stop_penalty =
        if lt stop_pct (lit 18 4)
        then lit 8 2
        else if lt stop_pct (lit 26 4)
        then lit 4 2
        else int 0 in
      let geometry_bonus =
        if le (lit 18 1) expected_r
        then lit 8 2
        else if le (lit 145 2) expected_r
        then lit 5 2
        else int 0 in
      hold_by_profile (infer_hold_profile c stop_pct expected_r (regime_of regime c atr_pct))
        expected_r_score time_stop_penalty geometry_bonus

  unfoldable pub resolve_expected_r_threshold :
      StrategyBrainCandidate N
      → (structure cleanliness alignment : N) → VolatilityRegime
      → ExpectedRThreshold N
  resolve_expected_r_threshold c structure cleanliness alignment regime =
      let strong_scalp_context =
        is_expansion regime
        && le (lit 75 2) structure
        && le (lit 75 2) cleanliness
        && le (lit 72 2) alignment in
      if is_engine4 c.engine_id
      then if strong_scalp_context
        then record {
          threshold = lit 85 2;
          reason = ThresholdReason.strong_expansion_structure_cleanliness;
        }
        else if is_compressed regime || lt structure (lit 62 2) || lt cleanliness (lit 62 2)
        then record { threshold = int 1; reason = ThresholdReason.chop_or_weak_structure_for_scalp }
        else record { threshold = lit 9 1; reason = ThresholdReason.default_scalp_min }
      else record { threshold = lit 11 1; reason = ThresholdReason.default_non_scalp_min }
