-- ===== src/Allocator/Ranking.antt =====
-- The ranking of the setups.
use mathlib.Core.List.{Perm}
use mathlib.Core.List.Perm
use hashi_bot.Base.{ℕ, suc, ◌≡◌, refl, ap, List, [], ◌∷◌, map}
use hashi_bot.Base.Number.{Number}
use hashi_bot.Base.Sort.{sort, sort-perm}
use hashi_bot.Policy.Types.{BreakoutSignal}
use hashi_bot.Allocator.{rank_candidates, ranked_from, scored, before, total_quality}
use hashi_bot.Allocator.Types.{RankedSetup, ScoredSetup}

module _ {N : Type 0} ⦃num : Number N⦄ where
  open num use {is_finite, le}

  abbrev pub signals : List (RankedSetup N) → List (BreakoutSignal N)
  signals [] = []
  signals (r ∷ rs) = r.signal ∷ signals rs

  abbrev scored_signals : List (ScoredSetup N) → List (BreakoutSignal N)
  scored_signals = map (λ s. s.signal)

  signals-ranked_from :
      (total : N) (index : ℕ) (setups : List (ScoredSetup N))
      → signals (ranked_from total index setups) ≡ scored_signals setups
  unfolding ranked_from
  signals-ranked_from total index [] = refl
  signals-ranked_from total index (s ∷ rest) =
      ap (◌∷◌ s.signal) (signals-ranked_from total (suc index) rest)

  scored_signals-scored :
      (candidates : List (BreakoutSignal N)) → scored_signals (map scored candidates) ≡ candidates
  scored_signals-scored [] = refl
  scored_signals-scored (c ∷ rest) = ap (◌∷◌ c) (scored_signals-scored rest)

  -- The ranks from `index` on.
  abbrev pub RanksFrom : ℕ → List (RankedSetup N) → Type 0
  RanksFrom index [] = Unit
  RanksFrom index (r ∷ rs) = (r.rank ≡ suc index) × RanksFrom (suc index) rs

  ranked_from-RanksFrom :
      (total : N) (index : ℕ) (setups : List (ScoredSetup N))
      → RanksFrom index (ranked_from total index setups)
  unfolding ranked_from
  ranked_from-RanksFrom total index [] = tt
  ranked_from-RanksFrom total index (s ∷ rest) =
      (refl, ranked_from-RanksFrom total (suc index) rest)

  -- The ranked setups are the candidates, each as often as it was given, numbered from 1.
  pub rank_candidates-perm :
      (candidates : List (BreakoutSignal N))
      → Perm (signals (rank_candidates candidates)) candidates
        × RanksFrom 0 (rank_candidates candidates)
  unfolding rank_candidates
  rank_candidates-perm candidates =
      let setups = sort before (map scored candidates) in
      (
        rw (signals-ranked_from (total_quality setups) 0 setups) (
            rw (scored_signals-scored candidates) at
              (Perm.map (λ s. s.signal) (sort-perm before (map scored candidates)))),
        ranked_from-RanksFrom (total_quality setups) 0 setups,
      )
