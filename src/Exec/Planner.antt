-- ===== src/Exec/Planner.antt =====
-- v2/src/execution-core/planner.ts: whether and with which size an account takes a signal. The tests of its early
-- returns stand in Gates.antt. `command_id` is the random identifier of the command.
pub mod Approved
use text.Mathlib.Text.{◌==◌}
use hashi_bot.Base.{
  ℕ, nat_eq, String, Bool, true, false, not, ◌&&◌, ◌||◌, exists, includes, Option, none, some, List,
  [], ◌∷◌, if◌then◌else◌, or_else,
}
use hashi_bot.Base.Number.{Number, int, ◌+◌, ◌-◌, ◌*◌, ◌/◌}
use hashi_bot.Domain.{TradeSide, Unknown}
use hashi_bot.Exec.Types.{
  ApprovalStatus, approved, pending, rejected, CustomerMode, signal_only, execution, ExecutorState,
  active, paused, disabled, PlanStatus, Market, crypto, forex, indices, commodities, AccountHealth,
  healthy, degraded, offline, CommandAction, open_position, CommandStatus, ImmutableSignal,
  AccountRiskSettings, CustomerAccountProfile, ExecutorProfile, CustomerExecutionProfile,
  AdapterCapabilityProfile, ExecutionCommand, PlanSizing, ExecutionPlan, Clock,
}
use hashi_bot.Exec.Capabilities.{Registry}
use hashi_bot.Exec.Key.{platform_text, build_idempotency_key}
use hashi_bot.Exec.Gates.{
  Refusal, status_of, reason_of, reject_for, first_of, market_text, side_text, optional,
  customer_gate, market_gate, risk_gate, leverage_of, quantity_of, size_gate, key_for,
}

module _ {N : Type 0} ⦃num : Number N⦄ where
  -- `reject` and `defer`
  abbrev pub refuse :
      ImmutableSignal N
      → CustomerExecutionProfile N
      → ExecutorProfile N
      → CustomerAccountProfile N
      → Refusal
      → ExecutionPlan N
  refuse signal customer executor account r = record {
    status = status_of r;
    reason = some (reason_of r);
    signal_id = signal.signal_id;
    customer_id = customer.customer_id;
    executor_id = executor.executor_id;
    account_id = account.account_id;
    adapter_type = account.platform;
    sizing = none;
    commands = [];
  }

  -- The command that opens the position.
  abbrev pub command_for :
      (command_id now : String)
      → ImmutableSignal N
      → CustomerExecutionProfile N
      → ExecutorProfile N
      → CustomerAccountProfile N
      → AdapterCapabilityProfile N
      → ExecutionCommand N
  command_for command_id now signal customer executor account cap = record {
    command_id = command_id;
    correlation_id = signal.signal_id;
    idempotency_key = key_for signal customer executor account;
    signal_id = signal.signal_id;
    customer_id = customer.customer_id;
    executor_id = executor.executor_id;
    account_id = account.account_id;
    adapter_id = or_else account.adapter_id (platform_text account.platform);
    adapter_type = account.platform;
    action = open_position;
    purpose = "initial_signal_entry";
    status = CommandStatus.queued;
    payload =
        ("symbol", Unknown.text signal.symbol)
        ∷ ("market", Unknown.text (market_text signal.market))
        ∷ ("direction", Unknown.text (side_text signal.direction))
        ∷ ("entryPrice", Unknown.number signal.entry_price)
        ∷ ("stopLoss", optional signal.stop_loss)
        ∷ ("takeProfit", optional signal.take_profit)
        ∷ ("quantity", Unknown.number (quantity_of signal account.risk))
        ∷ ("leverage", Unknown.number (leverage_of account.risk cap))
        ∷ [];
    created_at = now;
    updated_at = now;
    retry_count = 0;
    priority = int 100;
    lease_expiration = none;
    leased_by = none;
    retry_at = none;
    failure_reason = none;
    failure_category = none;
  }

  abbrev pub approve :
      (command_id now : String)
      → ImmutableSignal N
      → CustomerExecutionProfile N
      → ExecutorProfile N
      → CustomerAccountProfile N
      → AdapterCapabilityProfile N
      → ExecutionPlan N
  approve command_id now signal customer executor account cap =
      let quantity = quantity_of signal account.risk in
      record {
        status = PlanStatus.approved;
        reason = none;
        signal_id = signal.signal_id;
        customer_id = customer.customer_id;
        executor_id = executor.executor_id;
        account_id = account.account_id;
        adapter_type = account.platform;
        sizing = some (record {
          risk_pct = account.risk.risk_per_trade_pct;
          notional_usd = quantity * signal.entry_price;
          quantity = quantity;
          leverage = leverage_of account.risk cap;
        });
        commands = command_for command_id now signal customer executor account cap ∷ [];
      }

module _ {N : Type 0} ⦃num : Number N⦄ (clock : Clock N) (caps : Registry N)
    (is_duplicate : String → Bool) where
  -- What follows the lookup of the platform's capabilities.
  abbrev pub cap_gate :
      N
      → ImmutableSignal N
      → CustomerExecutionProfile N
      → ExecutorProfile N
      → CustomerAccountProfile N
      → AdapterCapabilityProfile N
      → Option Refusal
  cap_gate now signal customer executor account cap =
      first_of (market_gate signal customer account cap) (
        first_of (risk_gate clock now signal account.risk) (
          first_of (size_gate signal account cap) (
            if is_duplicate (key_for signal customer executor account)
            then reject_for "duplicate_signal_execution_prevented"
            else none)))

  abbrev pub plan_with :
      N
      → String
      → ImmutableSignal N
      → CustomerExecutionProfile N
      → ExecutorProfile N
      → CustomerAccountProfile N
      → Option (AdapterCapabilityProfile N)
      → ExecutionPlan N
  plan_with now command_id signal customer executor account none =
      refuse signal customer executor account (Refusal.rejects "unsupported_platform")
  plan_with now command_id signal customer executor account (some cap) =
      elim (cap_gate now signal customer executor account cap) [
        | some r ↦ refuse signal customer executor account r
        | none ↦ approve command_id (clock.iso now) signal customer executor account cap
      ]

  unfoldable pub plan :
      N
      → String
      → ImmutableSignal N
      → CustomerExecutionProfile N
      → ExecutorProfile N
      → CustomerAccountProfile N
      → ExecutionPlan N
  plan now command_id signal customer executor account =
      elim (customer_gate customer executor account) [
        | some r ↦ refuse signal customer executor account r
        | none ↦ plan_with now command_id signal customer executor account (caps account.platform)
      ]
