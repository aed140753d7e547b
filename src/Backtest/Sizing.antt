-- ===== src/Backtest/Sizing.antt =====
-- backtest-engine.ts: the size of a position, and the prices that slippage gives.
pub mod Bounds
use hashi_bot.Base.{
  String, Bool, true, false, not, ◌&&◌, ◌||◌, includes, Option, none, some, List, [], ◌∷◌,
  if◌then◌else◌, or_else,
}
use hashi_bot.Base.Number.{Number, int, truthy, ◌+◌, ◌-◌, ◌*◌, ◌/◌}
use hashi_bot.Domain.{TradeSide, RegimeClass}

abbrev pub breakout_strategy_ids : List String
breakout_strategy_ids = "compression_breakout_strict" ∷ "compression_breakout_balanced" ∷ []

abbrev pub swing_strategy_ids : List String
swing_strategy_ids = "swing_continuation_strict" ∷ "swing_continuation_balanced" ∷ []

pub data RiskMode : Type 0 where
  balanced aggressive : RiskMode

-- What the sizing reads: of the regime, its class and the chop of its diagnostics.
pub record SizingInputs (N : Type 0) : Type 0 where
  pub equity : N
  pub entry : N
  pub stop : N
  pub strategy_id : Option String
  pub confidence : N
  pub risk_percent : N
  pub risk_mode : Option RiskMode
  pub base_risk_pct : Option N
  pub max_risk_pct_cap : Option N
  pub size_mod_min : Option N
  pub size_mod_max : Option N
  pub max_position_notional : Option N
  pub regime : RegimeClass
  pub chop : N
  pub risk_scale : Option N

pub record PositionSizing (N : Type 0) : Type 0 where
  pub quantity : N
  pub risk_amount : N
  pub size_modifier : N

-- `strategyId && ids.has(strategyId)`
abbrev pub is_one_of : List String → Option String → Bool
is_one_of ids none = false
is_one_of ids (some id) = includes ids id

module _ {N : Type 0} ⦃num : Number N⦄ where
  open num use {lit, min, max, abs, lt, le, eq, is_finite}

  abbrev pub clamp : N → N → N → N
  clamp value low high = max low (min high value)

  abbrev pub apply_adverse_slippage : TradeSide → N → N → N
  apply_adverse_slippage TradeSide.long price slippage_pct =
      let slip = max slippage_pct (int 0) in
      if eq slip (int 0) then price else price * (int 1 + slip / int 100)
  apply_adverse_slippage TradeSide.short price slippage_pct =
      let slip = max slippage_pct (int 0) in
      if eq slip (int 0) then price else price * (int 1 - slip / int 100)

  abbrev pub apply_protective_slippage : TradeSide → N → N → N
  apply_protective_slippage TradeSide.long price slippage_pct =
      let slip = max slippage_pct (int 0) in
      if eq slip (int 0) then price else price * (int 1 - slip / int 100)
  apply_protective_slippage TradeSide.short price slippage_pct =
      let slip = max slippage_pct (int 0) in
      if eq slip (int 0) then price else price * (int 1 + slip / int 100)

  abbrev pub regime_tilt : RegimeClass → N
  regime_tilt RegimeClass.compression_ready = lit 1 1
  regime_tilt RegimeClass.trend_orderly = lit 5 2
  regime_tilt RegimeClass.chop = int 0 - lit 2 1
  regime_tilt RegimeClass.shock_unstable = int 0 - lit 3 1
  regime_tilt RegimeClass.trend_stretched = int 0
  regime_tilt RegimeClass.neutral = int 0

  abbrev pub chop_tilt : N → N
  chop_tilt chop =
      if lt chop (lit 45 2) then lit 5 2 else if lt (lit 62 2) chop then int 0 - lit 1 1 else int 0

  abbrev pub compute_breakout_size_modifier : SizingInputs N → N
  compute_breakout_size_modifier inputs =
      let confidence_tilt = (inputs.confidence - lit 5 1) * lit 2 1 in
      let raw = int 1 + regime_tilt inputs.regime + chop_tilt inputs.chop + confidence_tilt in
      clamp raw (or_else inputs.size_mod_min (lit 7 1)) (or_else inputs.size_mod_max (lit 12 1))

  abbrev pub default_mode_risk_pct : Option RiskMode → N
  default_mode_risk_pct none = lit 1 2
  default_mode_risk_pct (some RiskMode.balanced) = lit 1 2
  default_mode_risk_pct (some RiskMode.aggressive) = lit 2 2

  abbrev pub applied_risk_pct : SizingInputs N → N
  applied_risk_pct inputs =
      let requested =
        if is_one_of breakout_strategy_ids inputs.strategy_id
          || is_one_of swing_strategy_ids inputs.strategy_id
        then or_else inputs.base_risk_pct (default_mode_risk_pct inputs.risk_mode)
        else inputs.risk_percent / int 100 in
      clamp (requested * or_else inputs.risk_scale (int 1)) (int 0)
        (or_else inputs.max_risk_pct_cap (lit 25 3))

  abbrev pub size_modifier_of : SizingInputs N → N
  size_modifier_of inputs =
      if is_one_of breakout_strategy_ids inputs.strategy_id
      then compute_breakout_size_modifier inputs
      else int 1

  -- `maxNotional && maxNotional > 0 && entry > 0`: the quantity is cut to what the notional allows.
  abbrev pub within_notional : Option N → N → N → N
  within_notional none entry quantity = quantity
  within_notional (some max_notional) entry quantity =
      if truthy max_notional && lt (int 0) max_notional && lt (int 0) entry
      then min quantity (max_notional / entry)
      else quantity

  unfoldable pub resolve_position_sizing : SizingInputs N → Option (PositionSizing N)
  resolve_position_sizing inputs =
      let stop_distance = abs (inputs.entry - inputs.stop) in
      let size_modifier = size_modifier_of inputs in
      let desired = inputs.equity * applied_risk_pct inputs * size_modifier / stop_distance in
      let quantity = within_notional inputs.max_position_notional inputs.entry desired in
      if le stop_distance (int 0) || not (is_finite stop_distance)
      then none
      else if not (is_finite desired) || le desired (int 0)
      then none
      else if not (is_finite quantity) || le quantity (int 0)
      then none
      else some (record {
        quantity = quantity;
        risk_amount = quantity * stop_distance;
        size_modifier = size_modifier;
      })
