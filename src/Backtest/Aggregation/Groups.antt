-- ===== src/Backtest/Aggregation/Groups.antt =====
-- The aggregated candles are those of the groups (backtest-engine.ts).
use Prim.Native.Nat.{◌+◌ as ◌+ℕ◌}
use hashi_bot.Base.{
  ℕ, suc, nat_eq, ◌<◌, ◌≡◌, refl, sym, ap, ◌∙◌, true, false, List, [], ◌∷◌, ◌++◌, map, append_nil,
  append_assoc, All, length, arith,
}
use hashi_bot.Base.Number.{Number, int, ◌+◌}
use hashi_bot.Domain.{Candle}
use hashi_bot.Backtest.Aggregation.{
  AggregationState, create_aggregation_state, candle_of, push_aggregated_candle, opened, merged,
  update_aggregation, aggregate,
}

-- A group: its first candle, and the others.
abbrev pub Group : Type 0 → Type 0
Group N = Candle N × List (Candle N)

module _ {N : Type 0} where
  abbrev pub ungroup : List (Group N) → List (Candle N) → List (Candle N)
  ungroup [] rest = rest
  ungroup ((c, cs) ∷ groups) rest = c ∷ (cs ++ ungroup groups rest)

module _ {N : Type 0} ⦃num : Number N⦄ where
  open num use {min, max, infinity}

  abbrev pub highest : N → List (Candle N) → N
  highest high [] = high
  highest high (c ∷ cs) = highest (max high c.high) cs

  abbrev pub lowest : N → List (Candle N) → N
  lowest low [] = low
  lowest low (c ∷ cs) = lowest (min low c.low) cs

  abbrev pub volume_of : N → List (Candle N) → N
  volume_of volume [] = volume
  volume_of volume (c ∷ cs) = volume_of (volume + c.volume) cs

  abbrev pub last : Candle N → List (Candle N) → Candle N
  last c [] = c
  last c (d ∷ ds) = last d ds

  -- The candle of a group: from the first to the last, between the extremes, with the whole volume.
  abbrev pub summary : Group N → Candle N
  summary (c, cs) = record {
    open_time = c.open_time;
    close_time = (last c cs).close_time;
    opening = c.opening;
    high = highest c.high cs;
    low = lowest c.low cs;
    close = (last c cs).close;
    volume = volume_of (int 0 + c.volume) cs;
    source = c.source;
  }

  -- The state after candles that do not complete a group.
  abbrev absorbed : AggregationState N → List (Candle N) → AggregationState N
  absorbed state [] = state
  absorbed state (c ∷ cs) = absorbed (merged state c) cs

  merged-factor :
      (state : AggregationState N) (c : Candle N) → (merged state c).factor ≡ state.factor
  merged-factor state c = ground arith

  update_within :
      (target : List (Candle N)) (state : AggregationState N) (c : Candle N)
      → suc state.count < state.factor
      → update_aggregation target state c ≡ (target, merged state c)
  unfolding update_aggregation
  update_within target state c h =
      let other : nat_eq (suc state.count) (merged state c).factor ≡ false =
        ground (arith, h, merged-factor state c) in
      rw other refl

  update_full :
      (target : List (Candle N)) (state : AggregationState N) (c : Candle N)
      → suc state.count ≡ state.factor
      → update_aggregation target state c ≡ push_aggregated_candle target (merged state c)
  unfolding update_aggregation
  update_full target state c h =
      let full : nat_eq (suc state.count) (merged state c).factor ≡ true =
        ground (arith, h, merged-factor state c) in
      rw full refl

  aggregate_partial :
      (target : List (Candle N)) (state : AggregationState N) (cs : List (Candle N))
      → state.count +ℕ length cs < state.factor
      → aggregate target state cs ≡ (target, absorbed state cs)
  unfolding aggregate
  aggregate_partial target state [] h = refl
  aggregate_partial target state (c ∷ cs) h =
      ap (λ r. aggregate r.0 r.1 cs) (update_within target state c (omega (arith, h)))
      ∙ aggregate_partial target (merged state c) cs (omega (arith, h, merged-factor state c))

  aggregate_complete :
      (target : List (Candle N)) (state : AggregationState N) (c : Candle N)
      (cs more : List (Candle N))
      → suc (state.count +ℕ length cs) ≡ state.factor
      → aggregate target state (c ∷ (cs ++ more))
        ≡ aggregate
            (push_aggregated_candle target (absorbed state (c ∷ cs))).0
            (push_aggregated_candle target (absorbed state (c ∷ cs))).1
            more
  unfolding aggregate
  aggregate_complete target state c [] more h =
      ap (λ r. aggregate r.0 r.1 more) (update_full target state c (omega (arith, h)))
  aggregate_complete target state c (d ∷ cs) more h =
      ap (λ r. aggregate r.0 r.1 (d ∷ (cs ++ more)))
        (update_within target state c (omega (arith, h)))
      ∙ aggregate_complete target (merged state c) d cs more
          (omega (arith, h, merged-factor state c))

  -- A state between two groups.
  abbrev Idle : ℕ → AggregationState N → Type 0
  Idle factor state = (state.count ≡ 0) × (state.factor ≡ factor)

  absorbed-factor :
      (state : AggregationState N) (cs : List (Candle N))
      → (absorbed state cs).factor ≡ state.factor
  absorbed-factor state [] = refl
  absorbed-factor state (c ∷ cs) = absorbed-factor (merged state c) cs ∙ merged-factor state c

  -- Within a group, the state is the summary of what has come and what is left.
  absorbed-candle :
      (state : AggregationState N) (c : Candle N) (cs : List (Candle N))
      → candle_of (absorbed (merged state c) cs) ≡ (record {
        open_time = (merged state c).open_time;
        close_time = (last c cs).close_time;
        opening = (merged state c).opening;
        high = highest (merged state c).high cs;
        low = lowest (merged state c).low cs;
        close = (last c cs).close;
        volume = volume_of (merged state c).volume cs;
        source = (merged state c).source;
      })
  absorbed-candle state c [] = ground arith
  absorbed-candle state c (d ∷ ds) =
      let later : nat_eq (suc state.count) 0 ≡ false = ground arith in
      absorbed-candle (merged state c) d ds ∙ rw (opened, later) refl

  summary-candle :
      (state : AggregationState N) (c : Candle N) (cs : List (Candle N))
      → state.count ≡ 0
      → candle_of (absorbed state (c ∷ cs)) ≡ summary (c, cs)
  summary-candle state c cs h =
      let first : nat_eq state.count 0 ≡ true = ground (arith, h) in
      absorbed-candle state c cs ∙ rw (opened, first) refl

  aggregate-groups :
      (factor : ℕ) (target : List (Candle N)) (state : AggregationState N) (groups : List (Group N))
      (rest : List (Candle N))
      → Idle factor state
      → All (λ g. suc (length g.1) ≡ factor) groups
      → length rest < factor
      → (aggregate target state (ungroup groups rest)).0 ≡ target ++ map summary groups
  aggregate-groups factor target state [] rest (idle, same) hs h =
      ap (λ r. r.0) (aggregate_partial target state rest (omega (arith, idle, same, h)))
      ∙ sym (append_nil target)
  aggregate-groups factor target state ((c, cs) ∷ groups) rest (idle, same) (g, hs) h =
      let pushed = push_aggregated_candle target (absorbed state (c ∷ cs)) in
      ap (λ r. r.0)
        (aggregate_complete target state c cs (ungroup groups rest) (omega (arith, idle, same, g)))
      ∙ aggregate-groups factor pushed.0 pushed.1 groups rest
          (refl, absorbed-factor state (c ∷ cs) ∙ same) hs h
      ∙ append_assoc target (candle_of (absorbed state (c ∷ cs)) ∷ []) (map summary groups)
      ∙ ap (λ d. target ++ (d ∷ map summary groups)) (summary-candle state c cs idle)

  -- The candles of whole groups of `factor` candles, followed by less than a group, are aggregated to one
  -- candle for each group: its summary. What follows the last group is not in the result.
  pub aggregate-summary :
      (factor : ℕ) (groups : List (Group N)) (rest : List (Candle N))
      → All (λ g. suc (length g.1) ≡ factor) groups
      → length rest < factor
      → (aggregate [] (create_aggregation_state factor) (ungroup groups rest)).0
        ≡ map summary groups
  unfolding create_aggregation_state
  aggregate-summary factor groups rest hs h =
      aggregate-groups factor [] (create_aggregation_state factor) groups rest (refl, refl) hs h
