-- ===== src/Allocator/Types.antt =====
-- The types of packages/core/src/execution/portfolio-allocator.ts. The execution profile, which is
-- always "shared", is left out of the hook; a candidate is its signal.
use hashi_bot.Base.{ℕ, String, List, Option}
use hashi_bot.Domain.{MarketType}
use hashi_bot.Policy.Types.{
  ExecutionMode, BreakoutSignal, GovernanceLocks, BlockedReason, ExecutionIntent,
}

pub record AllocatorMarketTypeHook (N : Type 0) : Type 0 where
  pub market_type : MarketType
  pub sizing_multiplier : N

-- A record whose keys may be missing is a function into `Option`; of a hook's fields the allocator
-- reads the multiplier.
pub record AllocatorInput (N : Type 0) : Type 0 where
  pub mode : ExecutionMode
  pub account_equity_usd : N
  pub candidates : List (BreakoutSignal N)
  pub current_open_risk_pct : Option N
  pub open_risk_by_symbol_pct : String → Option N
  pub governance_locks : Option GovernanceLocks
  pub per_symbol_risk_cap_pct : Option N
  pub market_type_hooks : MarketType → Option N

pub record ScoredSetup (N : Type 0) : Type 0 where
  pub signal : BreakoutSignal N
  pub quality_score : N

pub record RankedSetup (N : Type 0) : Type 0 where
  pub signal : BreakoutSignal N
  pub quality_score : N
  pub rank : ℕ
  pub weight : N

pub record AllocationDecision (N : Type 0) : Type 0 where
  pub signal : BreakoutSignal N
  pub rank : ℕ
  pub quality_score : N
  pub allocated_risk_pct : N
  pub blocked_reason : Option BlockedReason
  pub intent : Option (ExecutionIntent N)
  pub market_type_hook : AllocatorMarketTypeHook N

pub record AllocationBudget (N : Type 0) : Type 0 where
  pub total_cap_pct : N
  pub available_pct : N
  pub remaining_pct : N
  pub per_symbol_risk_cap_pct : N

pub record PortfolioAllocationResult (N : Type 0) : Type 0 where
  pub mode : ExecutionMode
  pub ranked_setups : List (RankedSetup N)
  pub decisions : List (AllocationDecision N)
  pub budget : AllocationBudget N
