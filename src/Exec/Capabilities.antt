-- ===== src/Exec/Capabilities.antt =====
-- v2/src/execution-core/capabilities.ts: what the adapters can do. The map of platforms is a function.
use hashi_bot.Base.{ℕ, nat_eq, true, false, Option, some, [], ◌∷◌, if◌then◌else◌}
use hashi_bot.Base.Number.{Number, int}
use hashi_bot.Exec.Types.{
  Platform, crypto, forex, indices, commodities, open_position, move_stop_loss, move_take_profit,
  synchronize, partial_close, start_trailing, repair_protection, safe_close,
  AdapterCapabilityProfile,
}

abbrev pub platform_index : Platform → ℕ
platform_index Platform.binance = 0
platform_index Platform.bybit = 1
platform_index Platform.mt5 = 2
platform_index Platform.mock = 3

abbrev pub Registry : Type 0 → Type 0
Registry N = Platform → Option (AdapterCapabilityProfile N)

module _ {N : Type 0} ⦃num : Number N⦄ where
  abbrev pub exchange : Platform → ℕ → AdapterCapabilityProfile N
  exchange platform max_leverage = record {
    adapter_type = platform;
    available = some true;
    supports_market = crypto ∷ [];
    supports_stop_loss = true;
    supports_take_profit = true;
    supports_partial_close = true;
    supports_trailing = true;
    supports_leverage = true;
    supports_reduce_only = true;
    supports_position_sync = true;
    max_leverage = int max_leverage;
    supported_order_types =
        open_position ∷ move_stop_loss ∷ move_take_profit ∷ synchronize ∷ partial_close
        ∷ start_trailing ∷ safe_close ∷ [];
  }

  abbrev pub default_registry : Registry N
  default_registry Platform.binance = some (exchange Platform.binance 20)
  default_registry Platform.bybit = some (exchange Platform.bybit 15)
  default_registry Platform.mt5 = some (record {
    adapter_type = Platform.mt5;
    available = some true;
    supports_market = forex ∷ indices ∷ commodities ∷ [];
    supports_stop_loss = true;
    supports_take_profit = true;
    supports_partial_close = true;
    supports_trailing = false;
    supports_leverage = true;
    supports_reduce_only = false;
    supports_position_sync = true;
    max_leverage = int 5;
    supported_order_types =
        open_position ∷ move_stop_loss ∷ move_take_profit ∷ synchronize ∷ partial_close ∷ safe_close
        ∷ [];
  })
  default_registry Platform.mock = some (record (exchange Platform.mock 100) {
    supports_market = crypto ∷ forex ∷ indices ∷ commodities ∷ [];
    supported_order_types =
        open_position ∷ move_stop_loss ∷ move_take_profit ∷ synchronize ∷ partial_close
        ∷ start_trailing ∷ repair_protection ∷ safe_close ∷ [];
  })

  unfoldable pub set_capability : AdapterCapabilityProfile N → Registry N → Registry N
  set_capability profile registry platform =
      if nat_eq (platform_index platform) (platform_index profile.adapter_type)
      then some profile
      else registry platform
