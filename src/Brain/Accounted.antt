-- ===== src/Brain/Accounted.antt =====
-- What becomes of every candidate (runStrategyBrain).
use mathlib.Core.List.{Memᴰ}
use text.Mathlib.TextPositions.{eq_refl}
use text.Mathlib.Text.{◌==◌}
use hashi_bot.Base.{
  String, ◌≡◌, refl, ap, ◌⊎◌, inl, inr, true, Option, List, [], ◌∷◌, ◌++◌, map, exists-append, All,
  All-map, arith, Bool-cases,
}
use hashi_bot.Base.Number.{Number}
use hashi_bot.Brain.Types.{
  StrategyBrainInput, StrategyBrainCandidate, ScoredCandidate, RejectedCandidate, BrainRejection,
  Tally, BrainEngineId,
}
use hashi_bot.Brain.Score.{reward_to_risk, Target}
use hashi_bot.Brain.Rate.{score_candidate, score_all}
use hashi_bot.Brain.Pick.{rejects}
use hashi_bot.Brain.{is_selected, push_rest, reject_rest}

module _ {A : Type 0} where
  pub All-self : (xs : List A) → All (λ x. Memᴰ x xs) xs
  All-self [] = tt
  All-self (x ∷ xs) = (
    Memᴰ.head refl,
    All-map (λ y. Memᴰ y xs) (λ y. Memᴰ y (x ∷ xs)) xs (λ y d. Memᴰ.tail d) (All-self xs),
  )

module _ {N : Type 0} ⦃num : Number N⦄ where
  open num use {lit, lt, le}

  rejects_more :
      (rejected more : List (RejectedCandidate N)) (id : String)
      → rejects rejected id ≡ true
      → rejects (rejected ++ more) id ≡ true
  rejects_more rejected more id h =
      ground (arith, exists-append (λ r. r.candidate.id == id) rejected more)

  rejects_pushed :
      (rejected : List (RejectedCandidate N)) (c : StrategyBrainCandidate N)
      (reason : BrainRejection)
      → rejects (rejected ++ (record { candidate = c; reason = reason } ∷ [])) c.id ≡ true
  rejects_pushed rejected c reason = ground (
    arith,
    exists-append (λ r. r.candidate.id == c.id) rejected
        (record { candidate = c; reason = reason } ∷ []),
    eq_refl c.id,
  )

  -- The last loop keeps every rejection,
  reject_rest-keeps :
      (selected : Option (StrategyBrainCandidate N)) (rejected : List (RejectedCandidate N))
      (entries : List (ScoredCandidate N)) (id : String)
      → rejects rejected id ≡ true
      → rejects (reject_rest selected rejected entries) id ≡ true
  unfolding reject_rest
  reject_rest-keeps selected rejected [] id h = h
  reject_rest-keeps selected rejected (e ∷ es) id h =
      reject_rest-keeps selected (push_rest selected rejected e) es id (
        ground (
          arith,
          h,
          rejects_more rejected
              (record {
                candidate = e.candidate;
                reason = BrainRejection.not_selected_by_total_score;
              }
                ∷ [])
              id,
        ))

  abbrev pub AccountedIn :
      Option (StrategyBrainCandidate N) → List (RejectedCandidate N) → ScoredCandidate N → Type 0
  AccountedIn selected rejected e =
      (is_selected selected e.candidate.id ≡ true) ⊎ (rejects rejected e.candidate.id ≡ true)

  -- and rejects whoever it meets that is neither selected nor rejected.
  pub reject_rest-AccountedIn :
      (selected : Option (StrategyBrainCandidate N)) (rejected : List (RejectedCandidate N))
      (entries : List (ScoredCandidate N))
      → All (AccountedIn selected (reject_rest selected rejected entries)) entries
  unfolding reject_rest
  reject_rest-AccountedIn selected rejected [] = tt
  reject_rest-AccountedIn selected rejected (e ∷ es) = (
    elim (Bool-cases (is_selected selected e.candidate.id)) [
      | inl s ↦ inl s
      | inr s ↦ inr (
          reject_rest-keeps selected (push_rest selected rejected e) es e.candidate.id (
            ground (
              arith,
              s,
              rejects_pushed rejected e.candidate BrainRejection.not_selected_by_total_score,
            )))
    ],
    reject_rest-AccountedIn selected (push_rest selected rejected e) es,
  )

  -- A scored candidate whose reward is below the threshold is among the rejected.
  abbrev pub BelowIsRejected : List (RejectedCandidate N) → ScoredCandidate N → Type 0
  BelowIsRejected rejected e =
      lt (reward_to_risk e.candidate Target.tp2) e.breakdown.expected_r_threshold_used ≡ true
      → rejects rejected e.candidate.id ≡ true

  score_all-keeps :
      (input : StrategyBrainInput N) (recent : List BrainEngineId)
      (cs : List (StrategyBrainCandidate N)) (tally : Tally N) (id : String)
      → rejects tally.rejected id ≡ true
      → rejects (score_all input recent cs tally).1.rejected id ≡ true
  unfolding score_all score_candidate
  score_all-keeps input recent [] tally id h = h
  score_all-keeps input recent (c ∷ cs) tally id h =
      score_all-keeps input recent cs (score_candidate input recent c tally).1 id (
        ground (
          arith,
          h,
          rejects_more tally.rejected
              (record { candidate = c; reason = BrainRejection.below_global_min_expected_r } ∷ [])
              id,
        ))

  pub score_all-BelowIsRejected :
      (input : StrategyBrainInput N) (recent : List BrainEngineId)
      (cs : List (StrategyBrainCandidate N)) (tally : Tally N)
      → All
          (BelowIsRejected (score_all input recent cs tally).1.rejected)
          (score_all input recent cs tally).0
  unfolding score_all score_candidate
  score_all-BelowIsRejected input recent [] tally = tt
  score_all-BelowIsRejected input recent (c ∷ cs) tally = (
    λ below.
        score_all-keeps input recent cs (score_candidate input recent c tally).1 c.id
          (rw below (rejects_pushed tally.rejected c BrainRejection.below_global_min_expected_r)),
    score_all-BelowIsRejected input recent cs (score_candidate input recent c tally).1,
  )

  pub map_candidate-score_all :
      (input : StrategyBrainInput N) (recent : List BrainEngineId)
      (cs : List (StrategyBrainCandidate N)) (tally : Tally N)
      → map (λ e. e.candidate) (score_all input recent cs tally).0 ≡ cs
  unfolding score_all score_candidate
  map_candidate-score_all input recent [] tally = refl
  map_candidate-score_all input recent (c ∷ cs) tally =
      ap (λ es. c ∷ es)
        (map_candidate-score_all input recent cs (score_candidate input recent c tally).1)
