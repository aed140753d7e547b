-- ===== src/Brain/Pick.antt =====
-- packages/core/src/arbitration/strategy-brain.ts, runStrategyBrain: the best qualified candidate, and
-- the override of a scalp.
use text.Mathlib.Text.{◌==◌}
use hashi_bot.Base.{
  String, Bool, true, false, not, ◌&&◌, ◌||◌, Option, none, some, List, [], ◌∷◌, ◌++◌, find, exists,
  if◌then◌else◌,
}
use hashi_bot.Base.Number.{Number, int, ◌-◌}
use hashi_bot.Brain.Types.{
  ScoredCandidate, BrainRejection, RejectedCandidate, ScalpOverrideComparison,
}
use hashi_bot.Brain.Score.{Target, is_engine4, reward_to_risk}

pub record Choice (N : Type 0) : Type 0 where
  pub selected : Option (ScoredCandidate N)
  pub rejected : List (RejectedCandidate N)
  pub override_applied : Bool
  pub comparison : Option (ScalpOverrideComparison N)

module _ {N : Type 0} ⦃num : Number N⦄ where
  open num use {lit, min, max, lt, le}

  -- The comparator of `sort`: descending by the total score.
  abbrev pub higher : ScoredCandidate N → ScoredCandidate N → Bool
  higher a b = lt (b.breakdown.total_score - a.breakdown.total_score) (int 0)

  abbrev pub rejects : List (RejectedCandidate N) → String → Bool
  rejects rejected id = exists (λ r. r.candidate.id == id) rejected

  abbrev pub qualified : List (RejectedCandidate N) → ScoredCandidate N → Bool
  qualified rejected entry = not (rejects rejected entry.candidate.id)

  abbrev pub non_scalp_qualified : List (RejectedCandidate N) → ScoredCandidate N → Bool
  non_scalp_qualified rejected entry =
      not (is_engine4 entry.candidate.engine_id) && qualified rejected entry

  abbrev pub is_strong : ScoredCandidate N → Bool
  is_strong s =
      le (lit 125 2) (reward_to_risk s.candidate Target.tp2)
      && le (lit 75 2) s.breakdown.structure_score
      && le (lit 75 2) s.breakdown.cleanliness_score
      && le (lit 65 2) s.breakdown.volatility_alignment

  abbrev pub is_marginal : ScoredCandidate N → Bool
  is_marginal s =
      lt (reward_to_risk s.candidate Target.tp2) (lit 105 2)
      || lt s.breakdown.structure_score (lit 65 2)
      || lt s.breakdown.cleanliness_score (lit 65 2)

  abbrev pub required_delta : ScoredCandidate N → N
  required_delta s = if is_strong s then int 10 else if is_marginal s then int 5 else int 7

  unfoldable pub compare_scalp : (selected other : ScoredCandidate N) → ScalpOverrideComparison N
  compare_scalp selected other =
      let a = selected.breakdown in
      let b = other.breakdown in
      record {
        expected_r_delta = b.expected_r_score - a.expected_r_score;
        structure_delta = b.structure_score - a.structure_score;
        cleanliness_delta = b.cleanliness_score - a.cleanliness_score;
        hold_delta = b.hold_score - a.hold_score;
        total_delta = b.total_score - a.total_score;
        required_total_delta = required_delta selected;
      }

  abbrev pub better_by_parts : ScoredCandidate N → ScalpOverrideComparison N → Bool
  better_by_parts selected d =
      le
        (if is_strong selected then lit 12 2 else if is_marginal selected then lit 6 2 else lit 9 2)
        d.expected_r_delta
      && le (if is_strong selected then lit 9 2 else lit 6 2) d.structure_delta

  abbrev pub better_by_total : ScalpOverrideComparison N → Bool
  better_by_total d =
      le d.required_total_delta d.total_delta
      && (le (lit 5 2) d.structure_delta
          || le (lit 6 2) d.cleanliness_delta
          || le (lit 7 2) d.hold_delta)

  abbrev pub meaningful : ScoredCandidate N → ScalpOverrideComparison N → Bool
  meaningful selected d = better_by_parts selected d || better_by_total d

  -- The variables that the selection changes: `selected`, `rejected`, `scalpOverrideApplied` (and with
  -- it the reason) and `scalpOverrideComparison`.
  abbrev pub challenge :
      List (RejectedCandidate N) → ScoredCandidate N → Option (ScoredCandidate N) → Choice N
  challenge rejected s none = record {
    selected = some s;
    rejected = rejected;
    override_applied = false;
    comparison = none;
  }
  challenge rejected s (some other) =
      let d = compare_scalp s other in
      if meaningful s d
      then record {
        selected = some other;
        rejected =
            rejected
            ++ (record {
              candidate = s.candidate;
              reason = BrainRejection.scalp_override_material_superiority;
            }
                ∷ []);
        override_applied = true;
        comparison = some d;
      }
      else record {
        selected = some s;
        rejected = rejected;
        override_applied = false;
        comparison = some d;
      }

  abbrev pub override_scalp :
      List (ScoredCandidate N) → List (RejectedCandidate N) → Option (ScoredCandidate N) → Choice N
  override_scalp scored rejected none = record {
    selected = none;
    rejected = rejected;
    override_applied = false;
    comparison = none;
  }
  override_scalp scored rejected (some s) = challenge rejected s (
      if is_engine4 s.candidate.engine_id then find (non_scalp_qualified rejected) scored else none)

  -- The best qualified candidate, unless a non-scalp one overrides it.
  unfoldable pub choose : List (ScoredCandidate N) → List (RejectedCandidate N) → Choice N
  choose scored rejected = override_scalp scored rejected (find (qualified rejected) scored)
