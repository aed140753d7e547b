-- ===== src/Allocator/Tests.antt =====
-- Allocations on decimals, and the theorems at them.
use hashi_bot.Base.{◌≡◌, refl, true, none, some, List, [], ◌∷◌, map, All}
use mathlib.Core.List.{Perm}
use hashi_bot.Base.Sort.{sort}
use hashi_bot.Base.Number.{◌≼◌}
use hashi_bot.Base.Decimal.{Decimal, decimal_number, decimal-IsIeee}
use hashi_bot.Policy.{build_execution_intent, build_live_intent, blocked_reason_of, sizing_of}
use hashi_bot.Policy.Types.{LiveMode, live_personal, live_prop, live, BreakoutSignal}
use hashi_bot.Policy.Tests.{dec, signal}
use hashi_bot.Allocator.{
  allocate_portfolio_capital, allocate_for, rank_candidates, decide_all, decide, total_cap,
  allocated_risk, allocation_intent, resolve_market_type_hook, ranked_from, score_setup,
  total_quality,
}
use hashi_bot.Allocator.Types.{AllocatorInput}
use hashi_bot.Allocator.Ranking.{signals, RanksFrom, rank_candidates-perm}
use hashi_bot.Allocator.Descending.{ByQuality, rank_candidates-ByQuality}
use hashi_bot.Allocator.Budget.{
  Settled, Denied, allocate_portfolio_capital-Settled, allocate_portfolio_capital-locked,
}
use hashi_bot.Allocator.Conservation.{Spends, allocate_portfolio_capital-Spends}
use hashi_bot.Allocator.Spending.{Within, WithinSymbols, allocate_portfolio_capital-Within}

abbrev weaker : BreakoutSignal Decimal
weaker = record signal { score = dec 60; symbol = "BTCUSDT" }

abbrev allocator_input : LiveMode → List (BreakoutSignal Decimal) → AllocatorInput Decimal
allocator_input mode candidates = record {
  mode = live mode;
  account_equity_usd = dec 1000;
  candidates = candidates;
  current_open_risk_pct = none;
  open_risk_by_symbol_pct = λ symbol. none;
  governance_locks = some (record {
    daily_loss_lock_active = some true;
    trailing_drawdown_lock_active = none;
    max_consecutive_loss_lock_active = none;
  });
  per_symbol_risk_cap_pct = none;
  market_type_hooks = λ market_type. none;
}

abbrev both : List (BreakoutSignal Decimal)
both = weaker ∷ signal ∷ []

allocate_portfolio_capital-Settled_example :
    All Settled (allocate_portfolio_capital (allocator_input live_prop both)).decisions
allocate_portfolio_capital-Settled_example =
    allocate_portfolio_capital-Settled (allocator_input live_prop both)

allocate_portfolio_capital-locked_example :
    let out = allocate_portfolio_capital (allocator_input live_prop both) in
    All Denied out.decisions × (out.budget.remaining_pct ≡ out.budget.available_pct)
allocate_portfolio_capital-locked_example =
    allocate_portfolio_capital-locked (allocator_input live_prop both) refl refl

rank_candidates-perm_example :
    Perm (signals (rank_candidates both)) both × RanksFrom 0 (rank_candidates both)
rank_candidates-perm_example = rank_candidates-perm both

rank_candidates-ByQuality_example : ByQuality (rank_candidates both)
unfolding score_setup
rank_candidates-ByQuality_example =
    rank_candidates-ByQuality decimal-IsIeee both ((refl, refl, refl), ((refl, refl, refl), tt))

allocate_portfolio_capital-Within_example :
    let input = allocator_input live_personal both in
    let out = allocate_portfolio_capital input in
    (dec 0 ≼ out.budget.remaining_pct)
    × (out.budget.remaining_pct ≼ out.budget.available_pct)
    × (out.budget.available_pct ≼ total_cap live_personal)
    × All (Within out.budget.available_pct) out.decisions
    × WithinSymbols live_personal input out.decisions out.ranked_setups
unfolding rank_candidates ranked_from score_setup total_quality sort resolve_market_type_hook
allocate_portfolio_capital-Within_example =
    allocate_portfolio_capital-Within decimal-IsIeee live_personal
      (allocator_input live_personal both) refl refl refl ((refl, refl), ((refl, refl), tt))

-- Two setups of one symbol get its cap of 0.75 percent each: what an earlier decision of the same run
-- granted the symbol does not count.
same_symbol :
    map
      (λ d. decimal_number.eq d.allocated_risk_pct (decimal_number.lit 75 2))
      (allocate_portfolio_capital (allocator_input live_personal (signal ∷ signal ∷ []))).decisions
    ≡ true ∷ true ∷ []
unfolding allocate_portfolio_capital allocate_for decide_all decide allocated_risk allocation_intent
    rank_candidates ranked_from score_setup total_quality build_execution_intent build_live_intent
    blocked_reason_of sizing_of sort resolve_market_type_hook
same_symbol = refl

allocate_portfolio_capital-Spends_example :
    let out = allocate_portfolio_capital (allocator_input live_personal both) in
    Spends out.budget.available_pct out.decisions out.budget.remaining_pct
unfolding rank_candidates ranked_from score_setup total_quality sort resolve_market_type_hook
allocate_portfolio_capital-Spends_example =
    allocate_portfolio_capital-Spends decimal-IsIeee live_personal
      (allocator_input live_personal both) refl refl refl ((refl, refl), ((refl, refl), tt))
