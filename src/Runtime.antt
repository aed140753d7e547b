-- ===== src/Runtime.antt =====
-- packages/core/src/runtime/breakout-multi-symbol-runtime.ts: the lifecycle of every symbol. `Date.now()`
-- is an argument, and a `throw` is an answer without a new state.
pub mod Types
mod Tests
pub mod Machine
use Prim.Native.String.{◌++◌ as ◌^◌}
use hashi_bot.Base.{
  String, ◌≡◌, Bool, true, false, Option, none, some, is_some, List, [], ◌∷◌, map, if◌then◌else◌,
  or_else,
}
use hashi_bot.Base.Number.{Number, int}
use hashi_bot.Domain.{SymbolMetadata, MarketType, crypto, forex}
use hashi_bot.Policy.Types.{ExecutionIntent}
use hashi_bot.Runtime.Types.{
  BreakoutLifecycleStage, Lifecycle, OpenPosition, PerSymbolRuntimeState, EvaluationPayload,
}
use hashi_bot.Base.Dict.{lookup, set}

abbrev pub market_type_text : MarketType → String
market_type_text crypto = "crypto"
market_type_text forex = "forex"

unfoldable pub symbol_key : SymbolMetadata → String
symbol_key context = market_type_text context.market_type ^ ":" ^ context.symbol

pub data SyncResult (A : Type 0) : Type 0 where
  synced : A → SyncResult A
  duplicate_registration : String → SyncResult A

-- The private map of the class.
abbrev pub RuntimeState : Type 0 → Type 0
RuntimeState N = List (String × PerSymbolRuntimeState N)

module _ {N : Type 0} ⦃num : Number N⦄ where
  open num use {lt}

  unfoldable pub to_idle_state : N → SymbolMetadata → PerSymbolRuntimeState N
  to_idle_state date_now context = record {
    context = context;
    lifecycle = record {
      stage = BreakoutLifecycleStage.idle;
      updated_at = date_now;
      reason = none;
    };
    market_context = none;
    last_signal = none;
    last_intent = none;
    open_position = none;
    cooldown_until = none;
    candidate_count = int 0;
  }

  abbrev pub current_state : N → RuntimeState N → SymbolMetadata → PerSymbolRuntimeState N
  current_state date_now state context =
      or_else (lookup (symbol_key context) state) (to_idle_state date_now context)

  -- The loop of `syncSymbols`, which fills `next`.
  unfoldable pub sync_from :
      N → RuntimeState N → RuntimeState N → List SymbolMetadata → SyncResult (RuntimeState N)
  sync_from date_now state next [] = SyncResult.synced next
  sync_from date_now state next (symbol ∷ symbols) =
      let key = symbol_key symbol in
      let rest =
        sync_from date_now state (set key (current_state date_now state symbol) next) symbols in
      if is_some (lookup key next) then SyncResult.duplicate_registration key else rest

  unfoldable pub sync_symbols :
      N → RuntimeState N → List SymbolMetadata → SyncResult (RuntimeState N)
  sync_symbols date_now state symbols = sync_from date_now state [] symbols

  abbrev pub stage_of : Option (ExecutionIntent N) → N → BreakoutLifecycleStage
  stage_of none candidate_count =
      if lt (int 0) candidate_count
      then BreakoutLifecycleStage.candidate_evaluated
      else BreakoutLifecycleStage.idle
  stage_of (some intent) candidate_count =
      if intent.execution_allowed
      then BreakoutLifecycleStage.position_open
      else BreakoutLifecycleStage.intent_built

  abbrev pub position_of : Option (ExecutionIntent N) → N → Option (OpenPosition N)
  position_of none now = none
  position_of (some intent) now =
      if intent.execution_allowed then some (record { opened_at = now; intent = intent }) else none

  unfoldable pub evaluated :
      PerSymbolRuntimeState N → SymbolMetadata → EvaluationPayload N → PerSymbolRuntimeState N
  evaluated current context payload = record current {
    context = context;
    market_context = some payload.market_context;
    last_signal = payload.signal;
    last_intent = payload.intent;
    candidate_count = payload.candidate_count;
    lifecycle = record {
      stage = stage_of payload.intent payload.candidate_count;
      updated_at = payload.now;
      reason = payload.reason;
    };
    open_position = position_of payload.intent payload.now;
  }

  -- The map after the call, and what the call returns.
  unfoldable pub record_evaluation :
      N
      → RuntimeState N
      → SymbolMetadata
      → EvaluationPayload N
      → RuntimeState N × PerSymbolRuntimeState N
  record_evaluation date_now state context payload =
      let next = evaluated (current_state date_now state context) context payload in
      (set (symbol_key context) next state, next)

  unfoldable pub apply_cooldown : N → RuntimeState N → SymbolMetadata → N → String → RuntimeState N
  apply_cooldown date_now state context cooldown_until reason =
      let current = current_state date_now state context in
      set (symbol_key context)
        (record current {
          cooldown_until = some cooldown_until;
          lifecycle = record {
            stage = BreakoutLifecycleStage.cooldown;
            updated_at = date_now;
            reason = some reason;
          };
        })
        state

  unfoldable pub get_state : RuntimeState N → SymbolMetadata → Option (PerSymbolRuntimeState N)
  get_state state context = lookup (symbol_key context) state

  unfoldable pub get_snapshot : RuntimeState N → List (PerSymbolRuntimeState N)
  get_snapshot state = map (λ entry. entry.1) state
