-- ===== src/Brain/Selected.antt =====
-- What the selected candidate has passed, and that every candidate is selected or rejected
-- (runStrategyBrain).
use mathlib.Core.Path.{subst}
use mathlib.Core.List.{Memᴰ, Perm}
use mathlib.Core.List.Perm
use hashi_bot.Base.{
  find-holds, ◌≡◌, refl, ◌∙◌, ◌⊎◌, inl, inr, true, false, Option, none, some, List, [], ◌∷◌, map,
  find, All, arith, Bool-cases,
}
use hashi_bot.Base.Number.{Number}
use hashi_bot.Base.Sort.{sort, All-sort, sort-perm}
use hashi_bot.Brain.Types.{
  StrategyBrainInput, StrategyBrainCandidate, StrategyBrainDecision, ScoredCandidate,
  RejectedCandidate,
}
use hashi_bot.Brain.Score.{reward_to_risk, Target}
use hashi_bot.Brain.Override.{All-find}
use hashi_bot.Brain.Accounted.{
  AccountedIn, BelowIsRejected, All-self, reject_rest-AccountedIn, score_all-BelowIsRejected,
  map_candidate-score_all,
}
use hashi_bot.Brain.Pick.{higher, qualified, non_scalp_qualified, challenge, override_scalp, choose}
use hashi_bot.Brain.{
  candidate_of, drop_low, recent_of, empty_tally, scored_of, decide_among, brain_for,
  run_strategy_brain,
}

module _ {N : Type 0} ⦃num : Number N⦄ where
  open num use {lit, lt, le}

  -- Every scored candidate is the selected one or a rejected one, by its id, and they are the
  -- candidates of the input in some order.
  abbrev pub Accounted : List (StrategyBrainCandidate N) → StrategyBrainDecision N → Type 0
  Accounted candidates out =
      All (AccountedIn out.selected out.rejected) out.scored_candidates
      × Perm (map (λ e. e.candidate) out.scored_candidates) candidates

  brain_for-Accounted :
      (input : StrategyBrainInput N) (cs : List (StrategyBrainCandidate N))
      → input.candidates ≡ cs
      → Accounted cs (brain_for input cs)
  unfolding decide_among
  brain_for-Accounted input [] e = (tt, Perm.refl [])
  brain_for-Accounted input (c ∷ cs) e =
      let scored = (scored_of input).0 in
      (
        reject_rest-AccountedIn _ _ (sort higher scored),
        rw (map_candidate-score_all input (recent_of input) input.candidates empty_tally ∙ e) at
            (Perm.map (λ s. s.candidate) (sort-perm higher scored)),
      )

  -- Every candidate is scored once, and is the selected one or a rejected one, by its id.
  pub run_strategy_brain-Accounted :
      (input : StrategyBrainInput N) → Accounted input.candidates (run_strategy_brain input)
  unfolding run_strategy_brain
  run_strategy_brain-Accounted input = brain_for-Accounted input input.candidates refl

  challenge-selected :
      (P : ScoredCandidate N → Type 0) (rejected : List (RejectedCandidate N))
      (s : ScoredCandidate N) (other : Option (ScoredCandidate N)) (c : ScoredCandidate N)
      → P s
      → ((o : ScoredCandidate N) → other ≡ some o → P o)
      → (challenge rejected s other).selected ≡ some c
      → P c
  challenge-selected P rejected s none c h k e = ground arith
  challenge-selected P rejected s (some o) c h k e = ground (arith, h, k o refl)

  -- The chosen candidate is qualified and has what all the scored candidates have.
  override_scalp-selected :
      (P : ScoredCandidate N → Type 0) (scored : List (ScoredCandidate N))
      (rejected : List (RejectedCandidate N)) (found : Option (ScoredCandidate N))
      (c : ScoredCandidate N)
      → All P scored
      → find (qualified rejected) scored ≡ found
      → (override_scalp scored rejected found).selected ≡ some c
      → (qualified rejected c ≡ true) × P c
  override_scalp-selected P scored rejected none c all f e = cc e
  override_scalp-selected P scored rejected (some s) c all f e =
      challenge-selected (λ c. (qualified rejected c ≡ true) × P c) rejected s _ c
        (find-holds (qualified rejected) scored s f, All-find P (qualified rejected) scored s all f)
        (λ o g.
          let later : find (non_scalp_qualified rejected) scored ≡ some o = ground arith in
          let holds = find-holds (non_scalp_qualified rejected) scored o later in
          (ground arith, All-find P (non_scalp_qualified rejected) scored o all later))
        e

  -- The entry of the selected candidate: its reward reaches its threshold, and its score the minimum.
  abbrev pub Passed : StrategyBrainDecision N → StrategyBrainCandidate N → Type 0
  Passed out c =
      (entry : ScoredCandidate N) × Memᴰ entry out.scored_candidates
      × (entry.candidate ≡ c)
      × (lt (reward_to_risk c Target.tp2) entry.breakdown.expected_r_threshold_used ≡ false)
      × (lt entry.breakdown.total_score out.diagnostics.min_arbitration_score_used ≡ false)

  kept :
      (min_score : N) (s : ScoredCandidate N) (c : StrategyBrainCandidate N)
      → (lt s.breakdown.total_score min_score ≡ true)
        ⊎ (lt s.breakdown.total_score min_score ≡ false)
      → (rejected : List (RejectedCandidate N))
      → candidate_of (drop_low min_score rejected (some s)).0 ≡ some c
      → (s.candidate ≡ c) × (lt s.breakdown.total_score min_score ≡ false)
  kept min_score s c (inl h) rejected e = ground arith
  kept min_score s c (inr h) rejected e = (ground arith, h)

  drop_low-selected :
      (min_score : N) (rejected : List (RejectedCandidate N)) (chosen : Option (ScoredCandidate N))
      (c : StrategyBrainCandidate N)
      → candidate_of (drop_low min_score rejected chosen).0 ≡ some c
      → (s : ScoredCandidate N) × (chosen ≡ some s)
        × (s.candidate ≡ c)
        × (lt s.breakdown.total_score min_score ≡ false)
  drop_low-selected min_score rejected none c e = cc e
  drop_low-selected min_score rejected (some s) c e =
      let (same, score) = kept min_score s c (Bool-cases _) rejected e in (s, refl, same, score)

  reward_reaches :
      (rejected : List (RejectedCandidate N)) (s : ScoredCandidate N)
      → qualified rejected s ≡ true
      → BelowIsRejected rejected s
      → lt (reward_to_risk s.candidate Target.tp2) s.breakdown.expected_r_threshold_used ≡ false
  reward_reaches rejected s q h =
      elim (Bool-cases
        (lt (reward_to_risk s.candidate Target.tp2) s.breakdown.expected_r_threshold_used)) [
          | inl t ↦ ground (arith, h t)
          | inr t ↦ t
        ]

  decide_among-Passed :
      (input : StrategyBrainInput N) (c : StrategyBrainCandidate N)
      → (decide_among input).selected ≡ some c
      → Passed (decide_among input) c
  unfolding decide_among choose
  decide_among-Passed input c e =
      let tally = (scored_of input).1 in
      let scored = sort higher (scored_of input).0 in
      let below =
        All-sort higher (BelowIsRejected tally.rejected) (scored_of input).0
          (score_all-BelowIsRejected input (recent_of input) input.candidates empty_tally) in
      let (s, chosen, same, score) =
        drop_low-selected _ _ (choose scored tally.rejected).selected c e in
      let reached =
        override_scalp-selected (BelowIsRejected tally.rejected) scored tally.rejected _ s below
          refl chosen in
      let member =
        override_scalp-selected (λ x. Memᴰ x scored) scored tally.rejected _ s (All-self scored)
          refl chosen in
      (
        s,
        member.1,
        same,
        subst (λ x. lt (reward_to_risk x Target.tp2) s.breakdown.expected_r_threshold_used ≡ false)
            same (reward_reaches tally.rejected s reached.0 reached.1),
        score,
      )

  brain_for-Passed :
      (input : StrategyBrainInput N) (cs : List (StrategyBrainCandidate N))
      (c : StrategyBrainCandidate N)
      → (brain_for input cs).selected ≡ some c
      → Passed (brain_for input cs) c
  brain_for-Passed input [] c e = cc e
  brain_for-Passed input (x ∷ xs) c e = decide_among-Passed input c e

  -- A selected candidate has an entry among the scored ones whose reward at the second target is not
  -- below its threshold and whose total score is not below the minimum that the diagnostics report.
  pub run_strategy_brain-Passed :
      (input : StrategyBrainInput N) (c : StrategyBrainCandidate N)
      → (run_strategy_brain input).selected ≡ some c
      → Passed (run_strategy_brain input) c
  unfolding run_strategy_brain
  run_strategy_brain-Passed input c e = brain_for-Passed input input.candidates c e
