-- ===== src/Runtime/Types.antt =====
-- The types of packages/core/src/runtime/breakout-multi-symbol-runtime.ts. The reason of a lifecycle is
-- any text.
use hashi_bot.Base.{String, Option}
use hashi_bot.Domain.{SymbolMetadata, MarketContext}
use hashi_bot.Policy.Types.{BreakoutSignal, ExecutionIntent}

pub data BreakoutLifecycleStage : Type 0 where
  idle candidate_evaluated intent_built position_open cooldown : BreakoutLifecycleStage

pub record Lifecycle (N : Type 0) : Type 0 where
  pub stage : BreakoutLifecycleStage
  pub updated_at : N
  pub reason : Option String

pub record OpenPosition (N : Type 0) : Type 0 where
  pub opened_at : N
  pub intent : ExecutionIntent N

pub record PerSymbolRuntimeState (N : Type 0) : Type 0 where
  pub context : SymbolMetadata
  pub lifecycle : Lifecycle N
  pub market_context : Option (MarketContext N)
  pub last_signal : Option (BreakoutSignal N)
  pub last_intent : Option (ExecutionIntent N)
  pub open_position : Option (OpenPosition N)
  pub cooldown_until : Option N
  pub candidate_count : N

pub record EvaluationPayload (N : Type 0) : Type 0 where
  pub market_context : MarketContext N
  pub candidate_count : N
  pub signal : Option (BreakoutSignal N)
  pub intent : Option (ExecutionIntent N)
  pub now : N
  pub reason : Option String
