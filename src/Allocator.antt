-- ===== src/Allocator.antt =====
-- packages/core/src/execution/portfolio-allocator.ts: ranking the setups and sharing out the risk budget.
pub mod Types
pub mod Ranking
pub mod Spending
pub mod Conservation
mod Tests
pub mod Descending
pub mod Budget
use mathlib.Core.List.{foldl}
use hashi_bot.Base.{
  ℕ, suc, Bool, true, false, not, Option, none, some, List, [], ◌∷◌, map, if◌then◌else◌, or_else,
}
use hashi_bot.Base.Number.{Number, int, ◌+◌, ◌-◌, ◌*◌, ◌/◌}
use hashi_bot.Base.Sort.{sort}
use hashi_bot.Domain.{MarketType}
use hashi_bot.Policy.{build_execution_intent, locked_mode_governance_defaults, clamp}
use hashi_bot.Policy.Types.{
  SetupGrade, a_plus, a, b, BreakoutSignal, LiveMode, live_personal, live_prop, ExecutionMode,
  signal_only, live, BlockedReason, ExecutionIntent,
}
use hashi_bot.Allocator.Types.{
  AllocatorMarketTypeHook, AllocatorInput, ScoredSetup, RankedSetup, AllocationDecision,
  PortfolioAllocationResult,
}

module _ {N : Type 0} ⦃num : Number N⦄ where
  open num use {lit, min, max, lt, le, eq}

  abbrev grade_weight : SetupGrade → N
  grade_weight a_plus = int 1
  grade_weight a = lit 75 2
  grade_weight b = lit 5 1

  unfoldable pub score_setup : BreakoutSignal N → N
  score_setup signal =
      signal.score * lit 6 1
      + signal.confidence * int 100 * lit 25 2
      + grade_weight signal.setup_grade * int 100 * lit 15 2

  unfoldable pub resolve_market_type_hook :
      AllocatorInput N → MarketType → AllocatorMarketTypeHook N
  resolve_market_type_hook input market_type = record {
    market_type = market_type;
    sizing_multiplier =
        clamp (or_else (input.market_type_hooks market_type) (int 1)) (int 0) (int 2);
  }

  abbrev pub scored : BreakoutSignal N → ScoredSetup N
  scored signal = record { signal = signal; quality_score = score_setup signal }

  -- The comparator of `scored.sort`: descending by quality, then by score, then by confidence.
  abbrev pub comparison : ScoredSetup N → ScoredSetup N → N
  comparison x y =
      if not (eq y.quality_score x.quality_score)
      then y.quality_score - x.quality_score
      else if not (eq y.signal.score x.signal.score)
      then y.signal.score - x.signal.score
      else y.signal.confidence - x.signal.confidence

  abbrev pub before : ScoredSetup N → ScoredSetup N → Bool
  before x y = lt (comparison x y) (int 0)

  unfoldable pub total_quality : List (ScoredSetup N) → N
  total_quality = foldl (λ sum item. sum + max item.quality_score (int 0)) (int 0)

  -- `scored.map((entry, index) => …)`, from `index` on
  unfoldable pub ranked_from : N → ℕ → List (ScoredSetup N) → List (RankedSetup N)
  ranked_from total index [] = []
  ranked_from total index (entry ∷ rest) =
      record {
        signal = entry.signal;
        quality_score = entry.quality_score;
        rank = suc index;
        weight = if lt (int 0) total then max entry.quality_score (int 0) / total else int 0;
      }
      ∷ ranked_from total (suc index) rest

  unfoldable pub rank_candidates : List (BreakoutSignal N) → List (RankedSetup N)
  rank_candidates candidates =
      let setups = sort before (map scored candidates) in
      ranked_from (total_quality setups) 0 setups

  abbrev pub decision :
      AllocatorInput N
      → RankedSetup N
      → N
      → Option BlockedReason
      → Option (ExecutionIntent N)
      → AllocationDecision N
  decision input entry risk reason intent = record {
    signal = entry.signal;
    rank = entry.rank;
    quality_score = entry.quality_score;
    allocated_risk_pct = risk;
    blocked_reason = reason;
    intent = intent;
    market_type_hook = resolve_market_type_hook input entry.signal.market_type;
  }

  abbrev pub open_risk_of : AllocatorInput N → N
  open_risk_of input = max (or_else input.current_open_risk_pct (int 0)) (int 0)

  abbrev pub total_cap : LiveMode → N
  total_cap mode = (locked_mode_governance_defaults mode).max_simultaneous_open_risk_pct

  abbrev pub available_of : LiveMode → AllocatorInput N → N
  available_of mode input = max (total_cap mode - open_risk_of input) (int 0)

  abbrev default_symbol_cap : LiveMode → N
  default_symbol_cap live_personal = lit 75 2
  default_symbol_cap live_prop = lit 4 1

  abbrev pub symbol_cap : LiveMode → AllocatorInput N → N
  symbol_cap mode input = or_else input.per_symbol_risk_cap_pct (default_symbol_cap mode)

  abbrev pub symbol_remaining : LiveMode → AllocatorInput N → RankedSetup N → N
  symbol_remaining mode input entry =
      let open_risk =
        max (or_else (input.open_risk_by_symbol_pct entry.signal.symbol) (int 0)) (int 0) in
      max (symbol_cap mode input - open_risk) (int 0)

  -- The share of the budget that an entry gets while `remaining` is left.
  unfoldable pub allocated_risk : LiveMode → AllocatorInput N → N → RankedSetup N → N
  allocated_risk mode input remaining entry =
      let hook = resolve_market_type_hook input entry.signal.market_type in
      let requested = available_of mode input * entry.weight * hook.sizing_multiplier in
      clamp (min (min requested (symbol_remaining mode input entry)) remaining) (int 0) remaining

  unfoldable pub allocation_intent :
      LiveMode → AllocatorInput N → (remaining risk : N) → RankedSetup N → ExecutionIntent N
  allocation_intent mode input remaining risk entry = build_execution_intent (record {
    mode = input.mode;
    signal = entry.signal;
    account_equity_usd = input.account_equity_usd;
    current_open_risk_pct = some (open_risk_of input + (available_of mode input - remaining));
    risk_percent_override = some risk;
    max_simultaneous_open_risk_pct_override = some (total_cap mode);
    governance_locks = input.governance_locks;
  })

  -- One round of the loop over the ranked setups: the decision, and the budget that is left.
  unfoldable pub decide : LiveMode → AllocatorInput N → N → RankedSetup N → AllocationDecision N × N
  decide mode input remaining entry =
      let risk = allocated_risk mode input remaining entry in
      let intent = allocation_intent mode input remaining risk entry in
      if le risk (int 0)
      then (
        decision input entry (int 0)
            (some (
              if le (symbol_remaining mode input entry) (int 0)
              then BlockedReason.per_symbol_risk_cap_exceeded
              else BlockedReason.portfolio_risk_budget_exhausted))
            none,
        remaining,
      )
      else if not intent.execution_allowed
      then (decision input entry (int 0) intent.blocked_reason (some intent), remaining)
      else (decision input entry risk none (some intent), max (remaining - risk) (int 0))

  unfoldable pub decide_all :
      LiveMode → AllocatorInput N → N → List (RankedSetup N) → List (AllocationDecision N) × N
  decide_all mode input remaining [] = ([], remaining)
  decide_all mode input remaining (entry ∷ rest) =
      let (made, left) = decide mode input remaining entry in
      let (others, last) = decide_all mode input left rest in (made ∷ others, last)

  abbrev pub signal_only_decision : AllocatorInput N → RankedSetup N → AllocationDecision N
  signal_only_decision input entry =
      decision input entry (int 0) (some BlockedReason.signal_only_mode) none

  unfoldable pub allocate_for : ExecutionMode → AllocatorInput N → PortfolioAllocationResult N
  allocate_for signal_only input = record {
    mode = input.mode;
    ranked_setups = rank_candidates input.candidates;
    decisions = map (signal_only_decision input) (rank_candidates input.candidates);
    budget = record {
      total_cap_pct = int 0;
      available_pct = int 0;
      remaining_pct = int 0;
      per_symbol_risk_cap_pct = int 0;
    };
  }
  allocate_for (live mode) input =
      let setups = rank_candidates input.candidates in
      let (decisions, remaining) = decide_all mode input (available_of mode input) setups in
      record {
        mode = input.mode;
        ranked_setups = setups;
        decisions = decisions;
        budget = record {
          total_cap_pct = total_cap mode;
          available_pct = available_of mode input;
          remaining_pct = remaining;
          per_symbol_risk_cap_pct = symbol_cap mode input;
        };
      }

  unfoldable pub allocate_portfolio_capital : AllocatorInput N → PortfolioAllocationResult N
  unfolding allocate_for
  allocate_portfolio_capital input = allocate_for input.mode input
