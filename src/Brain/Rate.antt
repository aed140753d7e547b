-- ===== src/Brain/Rate.antt =====
-- packages/core/src/arbitration/strategy-brain.ts, runStrategyBrain: the score of one candidate, its
-- penalties, and what it adds to the tally.
use mathlib.Core.List.{foldl, reverse}
use Prim.Native.Nat.{◌-◌ as ◌∸◌}
use hashi_bot.Base.{
  ℕ, zero, suc, leb, ltb, drop, Bool, true, false, ◌&&◌, Option, none, some, List, [], ◌∷◌, ◌++◌,
  length, if◌then◌else◌, or_else,
}
use hashi_bot.Base.Number.{Number, int, ◌+◌, ◌-◌, ◌*◌, ◌/◌}
use hashi_bot.Brain.Types.{
  BrainEngineId, engine1, engine2, engine3, engine4, VolatilityRegime, StrategyBrainCandidate,
  StrategyBrainInput, ScoredCandidate, BrainRejection, EngineShare, Tally,
}
use hashi_bot.Brain.Score.{
  Target, is_engine4, share_cap, engine_priority_of, clamp01, reward_to_risk,
  compute_expected_r_score, compute_volatility_alignment, compute_hold_assessment,
  resolve_expected_r_threshold, regime_of,
}

abbrev pub share_of : {A : Type 0} → BrainEngineId → EngineShare A → A
share_of engine1 s = s.engine1
share_of engine2 s = s.engine2
share_of engine3 s = s.engine3
share_of engine4 s = s.engine4

-- `acc[engine] += 1`
abbrev pub add_engine : EngineShare ℕ → BrainEngineId → EngineShare ℕ
add_engine acc engine1 = record acc { engine1 = suc acc.engine1 }
add_engine acc engine2 = record acc { engine2 = suc acc.engine2 }
add_engine acc engine3 = record acc { engine3 = suc acc.engine3 }
add_engine acc engine4 = record acc { engine4 = suc acc.engine4 }

unfoldable pub count_engines : List BrainEngineId → EngineShare ℕ
count_engines = foldl add_engine (record { engine1 = 0; engine2 = 0; engine3 = 0; engine4 = 0 })

-- The loop of `trailingCount(recent, "engine4")`, over the list from its end.
abbrev pub leading_engine4 : List BrainEngineId → ℕ
leading_engine4 [] = 0
leading_engine4 (e ∷ es) = if is_engine4 e then suc (leading_engine4 es) else 0

unfoldable pub trailing_engine4 : List BrainEngineId → ℕ
trailing_engine4 recent = leading_engine4 (reverse recent)

-- `xs.slice(-n)`: the last `n` elements, and for 0 all of them.
unfoldable pub slice_last {ℓ} : {A : Type ℓ} → ℕ → List A → List A
slice_last zero xs = xs
slice_last (suc n) xs = drop (length xs ∸ suc n) xs

-- `sharePenalty`, `participationSupport`, and whether the penalty applied and was relieved.
pub record ShareEffect (N : Type 0) : Type 0 where
  pub share_penalty : N
  pub participation_support : N
  pub applied : Bool
  pub relieved : Bool

-- `fatiguePenalty`, and whether it applied and was relieved.
pub record FatigueEffect (N : Type 0) : Type 0 where
  pub fatigue_penalty : N
  pub applied : Bool
  pub relieved : Bool

abbrev pub count_if : Bool → ℕ → ℕ
count_if applied count = if applied then suc count else count

module _ {N : Type 0} ⦃num : Number N⦄ where
  open num use {lit, max, lt, le}

  abbrev share_among : List BrainEngineId → ℕ → N
  share_among recent n = if ltb 0 (length recent) then int n / int (length recent) else int 0

  unfoldable pub rolling_share : List BrainEngineId → EngineShare N
  rolling_share recent =
      let counts = count_engines recent in
      record {
        engine1 = share_among recent counts.engine1;
        engine2 = share_among recent counts.engine2;
        engine3 = share_among recent counts.engine3;
        engine4 = share_among recent counts.engine4;
      }

  -- `shareOver`
  abbrev pub share_over : List BrainEngineId → BrainEngineId → N
  share_over recent engine =
      let projected =
        (int (share_of engine (count_engines recent)) + int 1)
        / max (int (length recent) + int 1) (int 1) in
      if leb 20 (length recent) then max (projected - share_cap engine) (int 0) else int 0

  abbrev pub base_penalty : N → N
  base_penalty over =
      if le over (lit 5 2) then int 2 else if le over (lit 1 1) then int 6 else int 11

  abbrev pub support_below : N → N
  support_below below =
      if le (lit 8 2) below then lit 25 1 else if le (lit 4 2) below then lit 12 1 else int 0

  unfoldable pub share_effect : List BrainEngineId → BrainEngineId → ShareEffect N
  share_effect recent engine =
      let over = share_over recent engine in
      let rolling = rolling_share recent in
      let relief = is_engine4 engine && lt rolling.engine4 (lit 1 1) in
      if lt (int 0) over
      then record {
        share_penalty =
            if relief
            then int 0
            else if is_engine4 engine
            then base_penalty over * lit 125 2
            else base_penalty over;
        participation_support = int 0;
        applied = true;
        relieved = relief;
      }
      else record {
        share_penalty = int 0;
        participation_support =
            if leb 20 (length recent)
            then support_below (max (share_cap engine - share_of engine rolling) (int 0))
            else int 0;
        applied = false;
        relieved = false;
      }

  abbrev pub fatigue_of : ℕ → N
  fatigue_of zero = int 0
  fatigue_of (suc zero) = int 2
  fatigue_of (suc (suc zero)) = int 7
  fatigue_of (suc (suc (suc n))) = int 12

  unfoldable pub fatigue_effect : BrainEngineId → ℕ → (strong_scalp : Bool) → FatigueEffect N
  fatigue_effect engine trailing strong_scalp =
      if is_engine4 engine && leb 1 trailing
      then record {
        fatigue_penalty =
            if strong_scalp then fatigue_of trailing * lit 35 2 else fatigue_of trailing;
        applied = true;
        relieved = strong_scalp;
      }
      else record { fatigue_penalty = int 0; applied = false; relieved = false }

  abbrev pub atr_pct_of : StrategyBrainInput N → N
  atr_pct_of input = elim input.market [ none ↦ lit 6 3 | some m ↦ or_else m.atr_pct (lit 6 3) ]

  -- `input.market?.volatilityRegime`
  abbrev pub market_regime : StrategyBrainInput N → Option VolatilityRegime
  market_regime input = elim input.market [ none ↦ none | some m ↦ m.volatility_regime ]

  abbrev pub when_applied : Bool → N → N → N
  when_applied applied sum penalty = if applied then sum + penalty else sum

  unfoldable pub score_candidate :
      StrategyBrainInput N
      → List BrainEngineId
      → StrategyBrainCandidate N
      → Tally N
      → ScoredCandidate N × Tally N
  score_candidate input recent c tally =
      let expected_r = reward_to_risk c Target.tp2 in
      let structure = clamp01 (or_else c.structure_score (lit 7 1)) in
      let cleanliness = clamp01 (or_else c.cleanliness_score (lit 7 1)) in
      let atr_pct = atr_pct_of input in
      let regime = regime_of (market_regime input) c atr_pct in
      let alignment = compute_volatility_alignment c atr_pct (market_regime input) in
      let expected_r_score = compute_expected_r_score c in
      let threshold = resolve_expected_r_threshold c structure cleanliness alignment regime in
      let priority = clamp01 (engine_priority_of c.engine_id / lit 125 2) in
      let hold =
        compute_hold_assessment c expected_r_score expected_r atr_pct (market_regime input) in
      let hold_score = clamp01 hold.hold_score in
      let share = share_effect recent c.engine_id in
      let strong_scalp =
        le (lit 125 2) expected_r
        && le (lit 72 2) structure
        && le (lit 72 2) cleanliness
        && le (lit 6 1) alignment in
      let fatigue = fatigue_effect c.engine_id (trailing_engine4 recent) strong_scalp in
      let weighted =
        structure * lit 27 2
        + expected_r_score * lit 28 2
        + alignment * lit 12 2
        + priority * lit 1 1
        + cleanliness * lit 12 2
        + hold_score * lit 11 2 in
      (
        record {
          candidate = c;
          breakdown = record {
            structure_score = structure;
            expected_r_score = expected_r_score;
            volatility_alignment = alignment;
            engine_priority = priority;
            cleanliness_score = cleanliness;
            hold_score = hold_score;
            inferred_hold_profile = hold.inferred_hold_profile;
            hold_score_reason = hold.hold_score_reason;
            expected_r_threshold_used = threshold.threshold;
            expected_r_threshold_reason = threshold.reason;
            share_penalty = share.share_penalty;
            fatigue_penalty = fatigue.fatigue_penalty;
            total_score =
                weighted * int 100
                + share.participation_support
                - share.share_penalty
                - fatigue.fatigue_penalty;
          };
        },
        record {
          share_penalty_applications = count_if share.applied tally.share_penalty_applications;
          share_penalty_magnitude =
              when_applied share.applied tally.share_penalty_magnitude share.share_penalty;
          participation_floor_relief_applied =
              count_if share.relieved tally.participation_floor_relief_applied;
          fatigue_penalty_applications =
              count_if fatigue.applied tally.fatigue_penalty_applications;
          fatigue_penalty_magnitude =
              when_applied fatigue.applied tally.fatigue_penalty_magnitude fatigue.fatigue_penalty;
          fatigue_relief_applied_for_strong_scalp =
              count_if fatigue.relieved tally.fatigue_relief_applied_for_strong_scalp;
          rejected =
              if lt expected_r threshold.threshold
              then tally.rejected
                ++ (record { candidate = c; reason = BrainRejection.below_global_min_expected_r }
                    ∷ [])
              else tally.rejected;
        },
      )

  unfoldable pub score_all :
      StrategyBrainInput N
      → List BrainEngineId
      → List (StrategyBrainCandidate N)
      → Tally N
      → List (ScoredCandidate N) × Tally N
  score_all input recent [] tally = ([], tally)
  score_all input recent (c ∷ cs) tally =
      let (entry, next) = score_candidate input recent c tally in
      let (entries, last) = score_all input recent cs next in (entry ∷ entries, last)
