-- ===== src/Runtime/Machine.antt =====
-- The runtime as a state machine: the calls of its methods are the steps.
use mathlib.Core.Path.{subst}
use hashi_bot.Base.{
  String, ◌≡◌, refl, Bool, true, false, not, ◌||◌, Option, none, some, is_some, List, [], ◌∷◌, All,
  arith, or_else,
}
use hashi_bot.Base.Number.{Number}
use hashi_bot.Domain.{SymbolMetadata}
use hashi_bot.Policy.Types.{ExecutionIntent}
use hashi_bot.Runtime.Types.{
  BreakoutLifecycleStage, OpenPosition, PerSymbolRuntimeState, EvaluationPayload,
}
use hashi_bot.Base.Dict.{lookup, set, lookup-set_same, lookup-set_fresh, All-set, All-lookup}
use hashi_bot.Runtime.{
  RuntimeState, SyncResult, symbol_key, to_idle_state, current_state, sync_from, sync_symbols,
  evaluated, stage_of, position_of, record_evaluation, apply_cooldown, get_state,
}

abbrev pub is_position_open : BreakoutLifecycleStage → Bool
is_position_open BreakoutLifecycleStage.idle = false
is_position_open BreakoutLifecycleStage.candidate_evaluated = false
is_position_open BreakoutLifecycleStage.intent_built = false
is_position_open BreakoutLifecycleStage.position_open = true
is_position_open BreakoutLifecycleStage.cooldown = false

module _ {N : Type 0} ⦃num : Number N⦄ where
  -- The runtime starts empty; its constructor is a first `syncSymbols`.
  pub data Reachable : RuntimeState N → Type 0 where
    start : Reachable []
    sync :
        (date_now : N) (symbols : List SymbolMetadata) {s next : RuntimeState N}
        → Reachable s
        → sync_symbols date_now s symbols ≡ SyncResult.synced next
        → Reachable next
    evaluate :
        (date_now : N) (context : SymbolMetadata) (payload : EvaluationPayload N)
        {s : RuntimeState N}
        → Reachable s
        → Reachable (record_evaluation date_now s context payload).0
    cool :
        (date_now until : N) (context : SymbolMetadata) (reason : String) {s : RuntimeState N}
        → Reachable s
        → Reachable (apply_cooldown date_now s context until reason)

  abbrev pub executable : Option (ExecutionIntent N) → Bool
  executable none = false
  executable (some intent) = intent.execution_allowed

  abbrev pub open_allowed : Option (OpenPosition N) → Bool
  open_allowed none = true
  open_allowed (some p) = p.intent.execution_allowed

  -- The stage position_open has an open position, and an open position an intent that was allowed.
  abbrev pub Sound : PerSymbolRuntimeState N → Type 0
  Sound s =
      (not (is_position_open s.lifecycle.stage) || is_some s.open_position ≡ true)
      × (open_allowed s.open_position ≡ true)

  abbrev pub AllSound : RuntimeState N → Type 0
  AllSound = All (λ entry. Sound entry.1)

  intent-Sound :
      (intent : Option (ExecutionIntent N)) (count now : N)
      → (not (is_position_open (stage_of intent count)) || is_some (position_of intent now) ≡ true)
        × (open_allowed (position_of intent now) ≡ true)
        × (is_some (position_of intent now) ≡ executable intent)
  intent-Sound none count now = ground arith
  intent-Sound (some intent) count now = ground arith

  current_state-Sound :
      (date_now : N) (s : RuntimeState N) (context : SymbolMetadata)
      → AllSound s
      → Sound (current_state date_now s context)
  unfolding to_idle_state
  current_state-Sound date_now s context h = by_found (lookup (symbol_key context) s) refl
    where
      by_found :
          (found : Option (PerSymbolRuntimeState N))
          → lookup (symbol_key context) s ≡ found
          → Sound (or_else found (to_idle_state date_now context))
      by_found none e = (refl, refl)
      by_found (some state) e = All-lookup Sound (symbol_key context) s state h e

  sync_from-Sound :
      (date_now : N) (s next : RuntimeState N) (symbols : List SymbolMetadata)
      (out : RuntimeState N)
      → AllSound s
      → AllSound next
      → sync_from date_now s next symbols ≡ SyncResult.synced out
      → AllSound out
  unfolding sync_from
  sync_from-Sound date_now s next [] out h k e = subst AllSound (cc e) k
  sync_from-Sound date_now s next (c ∷ cs) out h k e =
      let state = current_state date_now s c in
      let added = set (symbol_key c) state next in
      let rest : sync_from date_now s added cs ≡ SyncResult.synced out = ground arith in
      sync_from-Sound date_now s added cs out h
        (All-set Sound (symbol_key c) state next (current_state-Sound date_now s c h) k) rest

  -- In every state that calls of the methods reach, a symbol at the stage position_open has an open
  -- position, and the intent of every open position was allowed.
  pub Reachable-AllSound : (s : RuntimeState N) → Reachable s → AllSound s
  unfolding sync_symbols record_evaluation apply_cooldown evaluated
  Reachable-AllSound out Reachable.start = tt
  Reachable-AllSound out (Reachable.sync date_now symbols {s} {next} r e) =
      sync_from-Sound date_now s [] symbols next (Reachable-AllSound s r) tt e
  Reachable-AllSound out (Reachable.evaluate date_now context payload {s} r) =
      let sound = intent-Sound payload.intent payload.candidate_count payload.now in
      All-set Sound (symbol_key context) _ s (sound.0, sound.1) (Reachable-AllSound s r)
  Reachable-AllSound out (Reachable.cool date_now until context reason {s} r) =
      let h = Reachable-AllSound s r in
      All-set Sound (symbol_key context) _ s (refl, (current_state-Sound date_now s context h).1) h

  -- After an evaluation, the state of its symbol is the one that the call returns, and it has an open
  -- position exactly if the evaluation has an allowed intent, whatever was open before.
  pub record_evaluation-open :
      (date_now : N) (s : RuntimeState N) (context : SymbolMetadata) (payload : EvaluationPayload N)
      → let (after, returned) = record_evaluation date_now s context payload in
        (get_state after context ≡ some returned)
        × (is_some returned.open_position ≡ executable payload.intent)
  unfolding record_evaluation get_state evaluated
  record_evaluation-open date_now s context payload = (
    lookup-set_same (symbol_key context) _ s,
    (intent-Sound payload.intent payload.candidate_count payload.now).2,
  )

  sync_from-keeps :
      (date_now : N) (s next : RuntimeState N) (symbols : List SymbolMetadata)
      (out : RuntimeState N) (key : String) (state : PerSymbolRuntimeState N)
      → sync_from date_now s next symbols ≡ SyncResult.synced out
      → lookup key next ≡ some state
      → lookup key out ≡ some state
  unfolding sync_from
  sync_from-keeps date_now s next [] out key state e h =
      subst (λ m. lookup key m ≡ some state) (cc e) h
  sync_from-keeps date_now s next (c ∷ cs) out key state e h =
      let new = current_state date_now s c in
      let added = set (symbol_key c) new next in
      let rest : sync_from date_now s added cs ≡ SyncResult.synced out = ground arith in
      let unset : lookup (symbol_key c) next ≡ none = ground arith in
      sync_from-keeps date_now s added cs out key state rest
        (lookup-set_fresh key (symbol_key c) new state next unset h)

  sync_from-registers :
      (date_now : N) (s next : RuntimeState N) (symbols : List SymbolMetadata)
      (out : RuntimeState N)
      → sync_from date_now s next symbols ≡ SyncResult.synced out
      → All (λ c. get_state out c ≡ some (current_state date_now s c)) symbols
  unfolding sync_from get_state
  sync_from-registers date_now s next [] out e = tt
  sync_from-registers date_now s next (c ∷ cs) out e =
      let new = current_state date_now s c in
      let added = set (symbol_key c) new next in
      let rest : sync_from date_now s added cs ≡ SyncResult.synced out = ground arith in
      (
        sync_from-keeps date_now s added cs out (symbol_key c) new rest
            (lookup-set_same (symbol_key c) new next),
        sync_from-registers date_now s added cs out rest,
      )

  -- A registration that finds no duplicate gives every registered symbol the state that it had before,
  -- or the idle one if it had none.
  pub sync_symbols-registers :
      (date_now : N) (s : RuntimeState N) (symbols : List SymbolMetadata) (out : RuntimeState N)
      → sync_symbols date_now s symbols ≡ SyncResult.synced out
      → All (λ c. get_state out c ≡ some (current_state date_now s c)) symbols
  unfolding sync_symbols
  sync_symbols-registers date_now s symbols out e = sync_from-registers date_now s [] symbols out e
