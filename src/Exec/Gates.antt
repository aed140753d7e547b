-- ===== src/Exec/Gates.antt =====
-- v2/src/execution-core/planner.ts: the early returns of `plan`, in groups, one function for each, with the
-- refusal that the first failing test gives; and the size of the position.
use text.Mathlib.Text.{◌==◌}
use hashi_bot.Base.{
  String, Bool, true, false, not, ◌&&◌, ◌||◌, exists, includes, Option, none, some, List,
  if◌then◌else◌, or_else,
}
use hashi_bot.Base.Number.{Number, int, ◌+◌, ◌-◌, ◌*◌, ◌/◌}
use hashi_bot.Domain.{TradeSide, Unknown}
use hashi_bot.Exec.Types.{
  ApprovalStatus, approved, pending, rejected, CustomerMode, signal_only, execution, ExecutorState,
  active, paused, disabled, PlanStatus, Market, crypto, forex, indices, commodities, AccountHealth,
  healthy, degraded, offline, CommandAction, open_position, ImmutableSignal, AccountRiskSettings,
  CustomerAccountProfile, ExecutorProfile, CustomerExecutionProfile, AdapterCapabilityProfile,
  Clock,
}
use hashi_bot.Exec.Key.{build_idempotency_key}

-- Why `plan` returns before the end, and whether it rejects or defers.
pub data Refusal : Type 0 where
  rejects defers : (reason : String) → Refusal

abbrev pub status_of : Refusal → PlanStatus
status_of (Refusal.rejects reason) = PlanStatus.rejected
status_of (Refusal.defers reason) = PlanStatus.deferred

abbrev pub reason_of : Refusal → String
reason_of (Refusal.rejects reason) = reason
reason_of (Refusal.defers reason) = reason

abbrev pub reject_for : String → Option Refusal
reject_for reason = some (Refusal.rejects reason)

abbrev pub defer_for : String → Option Refusal
defer_for reason = some (Refusal.defers reason)

abbrev pub is_false : Option Bool → Bool
is_false none = false
is_false (some b) = not b

abbrev pub is_signal_only : CustomerMode → Bool
is_signal_only signal_only = true
is_signal_only execution = false

abbrev pub is_approved : ApprovalStatus → Bool
is_approved approved = true
is_approved pending = false
is_approved rejected = false

abbrev pub is_paused : ExecutorState → Bool
is_paused active = false
is_paused paused = true
is_paused disabled = false

abbrev pub is_disabled : ExecutorState → Bool
is_disabled active = false
is_disabled paused = false
is_disabled disabled = true

abbrev pub is_healthy : AccountHealth → Bool
is_healthy healthy = true
is_healthy degraded = false
is_healthy offline = false

abbrev pub market_text : Market → String
market_text crypto = "crypto"
market_text forex = "forex"
market_text indices = "indices"
market_text commodities = "commodities"

abbrev pub has_market : Market → List Market → Bool
has_market market markets = exists (λ m. market_text m == market_text market) markets

abbrev pub opens : CommandAction → Bool
opens open_position = true
opens CommandAction.move_stop_loss = false
opens CommandAction.move_take_profit = false
opens CommandAction.synchronize = false
opens CommandAction.partial_close = false
opens CommandAction.start_trailing = false
opens CommandAction.repair_protection = false
opens CommandAction.safe_close = false

abbrev pub side_text : TradeSide → String
side_text TradeSide.long = "LONG"
side_text TradeSide.short = "SHORT"

abbrev pub optional : {N : Type 0} → Option N → Unknown N
optional none = Unknown.undefined
optional (some x) = Unknown.number x

-- The first refusal, if there is one.
abbrev pub first_of : Option Refusal → Option Refusal → Option Refusal
first_of none next = next
first_of (some r) next = some r

module _ {N : Type 0} ⦃num : Number N⦄ where
  open num use {lt, le, abs, min, infinity}

  unfoldable pub customer_gate :
      CustomerExecutionProfile N → ExecutorProfile N → CustomerAccountProfile N → Option Refusal
  customer_gate customer executor account =
      if is_false customer.eligible
      then reject_for "customer_not_eligible"
      else if not customer.package_of.active
      then reject_for "package_inactive"
      else if is_false customer.package_of.subscription_valid
      then reject_for "subscription_invalid"
      else if is_signal_only customer.package_of.execution_mode
      then reject_for "signal_only_customer"
      else if not (is_approved executor.approval_status)
      then reject_for "executor_not_approved"
      else if is_paused executor.state
      then defer_for "executor_paused"
      else if is_disabled executor.state
      then reject_for "executor_disabled"
      else if not account.enabled
      then reject_for "account_disabled"
      else if not (is_healthy account.health)
      then defer_for "account_health_not_healthy"
      else none

  unfoldable pub market_gate :
      ImmutableSignal N
      → CustomerExecutionProfile N
      → CustomerAccountProfile N
      → AdapterCapabilityProfile N
      → Option Refusal
  market_gate signal customer account cap =
      if is_false cap.available
      then defer_for "adapter_unavailable"
      else if not (exists opens cap.supported_order_types)
      then reject_for "adapter_capability_not_supported"
      else if not (has_market signal.market cap.supports_market)
      then reject_for "platform_market_not_supported"
      else if not (has_market signal.market customer.package_of.allowed_markets)
          || not (has_market signal.market account.permissions.allowed_markets)
      then reject_for "market_not_allowed"
      else if not (includes account.permissions.allowed_symbols "*")
          && not (includes account.permissions.allowed_symbols signal.symbol)
      then reject_for "symbol_not_allowed"
      else none

  -- `(sameDirectionOpenTrades ?? { LONG: 0, SHORT: 0 })[direction] ?? 0`
  abbrev pub open_in_direction : TradeSide → Option (TradeSide → Option N) → N
  open_in_direction side none = int 0
  open_in_direction side (some trades) = or_else (trades side) (int 0)

  -- `cooldownUntil && Date.parse(cooldownUntil) > Date.now()`
  abbrev pub cooling : Clock N → N → Option String → Bool
  cooling clock now none = false
  cooling clock now (some until) = not (until == "") && lt now (clock.parse until)

  unfoldable pub risk_gate :
      Clock N → N → ImmutableSignal N → AccountRiskSettings N → Option Refusal
  risk_gate clock now signal risk =
      if is_false risk.risk_allowed
      then reject_for "risk_not_allowed"
      else if risk.daily_loss_lock
      then reject_for "daily_loss_lock_active"
      else if lt (or_else risk.max_drawdown_pct infinity)
          (or_else risk.current_drawdown_pct (int 0))
      then reject_for "drawdown_limit_exceeded"
      else if lt risk.max_daily_risk_pct (risk.used_daily_risk_pct + risk.risk_per_trade_pct)
      then reject_for "daily_risk_limit_exceeded"
      else if le risk.max_open_trades risk.open_trades
      then reject_for "max_open_trades_exceeded"
      else if le risk.max_same_symbol_trades
          (or_else (risk.same_symbol_open_trades signal.symbol) (int 0))
      then reject_for "max_same_symbol_trades_exceeded"
      else if le (or_else risk.max_same_direction_trades infinity)
          (open_in_direction signal.direction risk.same_direction_open_trades)
      then reject_for "max_same_direction_trades_exceeded"
      else if cooling clock now risk.cooldown_until
      then defer_for "cooldown_active"
      else none

  abbrev pub leverage_of : AccountRiskSettings N → AdapterCapabilityProfile N → N
  leverage_of risk cap = min risk.max_leverage cap.max_leverage

  abbrev pub quantity_of : ImmutableSignal N → AccountRiskSettings N → N
  quantity_of signal risk =
      let risk_amount = risk.equity_usd * (risk.risk_per_trade_pct / int 100) in
      let stop = or_else signal.stop_loss (signal.entry_price * num.lit 99 2) in
      let stop_distance = abs (signal.entry_price - stop) in
      if lt (int 0) stop_distance then risk_amount / stop_distance else int 0

  unfoldable pub size_gate :
      ImmutableSignal N → CustomerAccountProfile N → AdapterCapabilityProfile N → Option Refusal
  size_gate signal account cap =
      if lt (leverage_of account.risk cap) (int 1)
        || (not cap.supports_leverage && lt (int 1) account.risk.max_leverage)
        || not account.permissions.leverage_allowed
      then reject_for "leverage_not_supported"
      else if lt (or_else account.risk.max_exposure_usd infinity) (
          or_else account.risk.current_exposure_usd (int 0)
          + quantity_of signal account.risk * signal.entry_price)
      then reject_for "max_exposure_exceeded"
      else none

  abbrev pub key_for :
      ImmutableSignal N
      → CustomerExecutionProfile N
      → ExecutorProfile N
      → CustomerAccountProfile N
      → String
  key_for signal customer executor account = build_idempotency_key (record {
    signal_id = signal.signal_id;
    customer_id = customer.customer_id;
    executor_id = executor.executor_id;
    account_id = account.account_id;
    adapter_type = account.platform;
    action = open_position;
    purpose = "initial_signal_entry";
  })
