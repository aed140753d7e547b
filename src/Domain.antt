-- ===== src/Domain.antt =====
-- packages/core/src/domains.ts: the types that the engines share. A TypeScript union of texts is a data
-- type with a constructor for each text; `number` is the type parameter `N`, an optional field an
-- `Option`.
use hashi_bot.Base.{String, Bool, List, Option}

pub data Timeframe : Type 0 where
  m5 m15 h1 h4 : Timeframe

pub data MarketType : Type 0 where
  crypto forex : MarketType

pub record SymbolMetadata : Type 0 where
  pub symbol : String
  pub market_type : MarketType

pub data MarketDataSource : Type 0 where
  binance_spot bybit_spot mt5_bridge : MarketDataSource

pub data RegimeClass : Type 0 where
  trend_orderly trend_stretched compression_ready chop shock_unstable neutral : RegimeClass

pub data SignalSide : Type 0 where
  long short none_side : SignalSide

-- `Exclude<SignalSide, "NONE">`, and the sides of positions and candidates.
pub data TradeSide : Type 0 where
  long short : TradeSide

pub record Candle (N : Type 0) : Type 0 where
  pub open_time : N
  pub close_time : N
  pub opening : N
  pub high : N
  pub low : N
  pub close : N
  pub volume : N
  pub source : MarketDataSource

pub record ContextSource : Type 0 where
  pub primary : MarketDataSource
  pub backup : MarketDataSource
  pub used : MarketDataSource
  pub fallback_used : Bool

pub record MarketContext (N : Type 0) : Type 0 where
  pub symbol : String
  pub market_type : MarketType
  pub execution_timeframe : Timeframe
  pub htf1 : Timeframe
  pub htf2 : Timeframe
  pub source : ContextSource
  pub latest_price : N
  pub candles : Timeframe → List (Candle N)

-- A value of `Record<string, unknown>`, such as a signal's metadata, which is only passed on.
mutual
  pub data Unknown (N : Type 0) : Type 0 where
    undefined : Unknown N
    null : Unknown N
    flag : Bool → Unknown N
    number : N → Unknown N
    text : String → Unknown N
    array : Items N → Unknown N
    object : Fields N → Unknown N

  pub data Items (N : Type 0) : Type 0 where
    nil : Items N
    cons : Unknown N → Items N → Items N

  pub data Fields (N : Type 0) : Type 0 where
    end : Fields N
    field : String → Unknown N → Fields N → Fields N

abbrev pub Metadata : Type 0 → Type 0
Metadata N = Option (List (String × Unknown N))
