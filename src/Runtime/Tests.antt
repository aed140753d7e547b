-- ===== src/Runtime/Tests.antt =====
-- The runtime on decimals, and the theorems at it.
use hashi_bot.Base.{◌≡◌, refl, false, none, some, is_some, [], ◌∷◌, All}
use hashi_bot.Base.Decimal.{Decimal, decimal_number}
use hashi_bot.Domain.{SymbolMetadata, MarketType, MarketContext, MarketDataSource, Timeframe}
use hashi_bot.Policy.{build_execution_intent}
use hashi_bot.Policy.Types.{live_personal}
use hashi_bot.Policy.Tests.{dec, signal, input}
use hashi_bot.Runtime.Types.{EvaluationPayload}
use hashi_bot.Runtime.{
  RuntimeState, SyncResult, symbol_key, to_idle_state, current_state, sync_from, sync_symbols,
  record_evaluation, apply_cooldown, get_state,
}
use hashi_bot.Runtime.Machine.{
  Reachable, AllSound, Reachable-AllSound, record_evaluation-open, sync_symbols-registers,
}

abbrev ether : SymbolMetadata
ether = record { symbol = "ETHUSDT"; market_type = MarketType.crypto }

abbrev euro : SymbolMetadata
euro = record { symbol = "EURUSD"; market_type = MarketType.forex }

abbrev market_context : MarketContext Decimal
market_context = record {
  symbol = "ETHUSDT";
  market_type = MarketType.crypto;
  execution_timeframe = Timeframe.m15;
  htf1 = Timeframe.h1;
  htf2 = Timeframe.h4;
  source = record {
    primary = MarketDataSource.binance_spot;
    backup = MarketDataSource.bybit_spot;
    used = MarketDataSource.binance_spot;
    fallback_used = false;
  };
  latest_price = dec 100;
  candles = λ timeframe. [];
}

abbrev payload : EvaluationPayload Decimal
payload = record {
  market_context = market_context;
  candidate_count = dec 1;
  signal = some signal;
  intent = some (build_execution_intent (input live_personal));
  now = dec 7;
  reason = none;
}

abbrev evaluated_state : RuntimeState Decimal
evaluated_state = (record_evaluation (dec 5) [] ether payload).0

Reachable-AllSound_example : AllSound (apply_cooldown (dec 8) evaluated_state ether (dec 9) "loss")
Reachable-AllSound_example =
    Reachable-AllSound (apply_cooldown (dec 8) evaluated_state ether (dec 9) "loss") (
      Reachable.cool (dec 8) (dec 9) ether "loss"
        (Reachable.evaluate (dec 5) ether payload Reachable.start))

-- An evaluation without an intent closes what the symbol had open.
record_evaluation-open_example :
    let again = record payload { intent = none } in
    let (after, returned) = record_evaluation (dec 8) evaluated_state ether again in
    (get_state after ether ≡ some returned) × (is_some returned.open_position ≡ false)
record_evaluation-open_example =
    record_evaluation-open (dec 8) evaluated_state ether (record payload { intent = none })

abbrev registered : RuntimeState Decimal
registered =
    (symbol_key euro, to_idle_state (dec 8) euro)
    ∷ (symbol_key ether, current_state (dec 8) evaluated_state ether)
    ∷ []

sync_symbols-registers_example :
    All
      (λ c. get_state registered c ≡ some (current_state (dec 8) evaluated_state c))
      (euro ∷ ether ∷ [])
unfolding sync_symbols sync_from symbol_key record_evaluation to_idle_state
sync_symbols-registers_example =
    sync_symbols-registers (dec 8) evaluated_state (euro ∷ ether ∷ []) registered refl

-- Registering a symbol twice is an error.
duplicate_symbol :
    sync_symbols (dec 8) evaluated_state (ether ∷ euro ∷ ether ∷ [])
    ≡ SyncResult.duplicate_registration "crypto:ETHUSDT"
unfolding sync_symbols sync_from symbol_key
duplicate_symbol = refl
