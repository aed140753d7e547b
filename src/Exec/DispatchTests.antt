-- ===== src/Exec/DispatchTests.antt =====
-- A signal, a customer and an account on decimals, and the theorems on plans and dispatches at them.
use hashi_bot.Base.{◌≢◌, ◌↔◌, ◌≡◌, refl, true, false, none, some, [], ◌∷◌, All}
use hashi_bot.Base.Decimal.{Decimal, decimal_number}
use hashi_bot.Domain.{TradeSide}
use hashi_bot.Policy.Tests.{dec}
use hashi_bot.Exec.Types.{
  Platform, AccountMode, ApprovalStatus, CustomerMode, ExecutorState, Market, AccountHealth,
  ImmutableSignal, CustomerAccountProfile, ExecutorProfile, CustomerExecutionProfile, Store,
}
use hashi_bot.Exec.Commands.{insert_command, has_dispatched, save_profile}
use hashi_bot.Exec.Repository.{reserve_idempotency, recover, publish}
use hashi_bot.Exec.Queue.{find_by_idempotency_key, enqueue}
use hashi_bot.Exec.Reserved.{empty}
use hashi_bot.Exec.Key.{build_idempotency_key}
use hashi_bot.Exec.Capabilities.{default_registry, exchange}
use hashi_bot.Exec.Gates.{customer_gate, market_gate, risk_gate, size_gate}
use hashi_bot.Exec.Planner.{plan}
use hashi_bot.Exec.Planner.Approved.{
  is_approval, MayTrade, MarketOpen, RiskFree, SizeAllowed, plan-approved,
}
use hashi_bot.Exec.Manager.{
  manager_recover, queue_commands, dispatch_slot, dispatch_slots, dispatch,
}
use hashi_bot.Exec.Manager.Once.{dispatch-once}
use hashi_bot.Exec.Tests.{clock}

abbrev signal : ImmutableSignal Decimal
signal = record {
  signal_id = "s1";
  symbol = "ETHUSDT";
  market = Market.crypto;
  direction = TradeSide.long;
  entry_price = dec 100;
  stop_loss = some (dec 90);
  take_profit = some (dec 130);
  risk_hint_pct = none;
  created_at = "2024-01-01T00:00:00.000Z";
  metadata = none;
}

abbrev account : CustomerAccountProfile Decimal
account = record {
  account_id = "a1";
  enabled = true;
  platform = Platform.mock;
  adapter_id = none;
  mode = AccountMode.demo;
  permissions = record {
    allowed_markets = Market.crypto ∷ [];
    allowed_symbols = "*" ∷ [];
    leverage_allowed = true;
  };
  risk = record {
    equity_usd = dec 1000;
    risk_per_trade_pct = dec 1;
    max_daily_risk_pct = dec 5;
    used_daily_risk_pct = dec 0;
    max_open_trades = dec 3;
    open_trades = dec 0;
    max_same_symbol_trades = dec 1;
    same_symbol_open_trades = λ symbol. none;
    max_same_direction_trades = none;
    same_direction_open_trades = none;
    max_exposure_usd = some (dec 500);
    current_exposure_usd = none;
    max_drawdown_pct = none;
    current_drawdown_pct = none;
    cooldown_until = none;
    max_leverage = dec 3;
    daily_loss_lock = false;
    risk_allowed = none;
  };
  health = AccountHealth.healthy;
}

abbrev executor : ExecutorProfile Decimal
executor = record {
  executor_id = "e1";
  approval_status = ApprovalStatus.approved;
  state = ExecutorState.active;
  accounts = account ∷ [];
}

abbrev customer : CustomerExecutionProfile Decimal
customer = record {
  customer_id = "c1";
  eligible = none;
  package_of = record {
    package_id = "p1";
    active = true;
    execution_mode = CustomerMode.execution;
    allowed_markets = Market.crypto ∷ [];
    max_accounts = dec 1;
    subscription_valid = none;
  };
  executors = executor ∷ [];
}

plan-approved_example :
    is_approval
        (plan clock default_registry
          (λ key. false)
          (dec 1)
          "cmd_1"
          signal
          customer
          executor
          account).status
      ≡ true
    ↔ MayTrade customer executor account
      × (MarketOpen signal customer account (record (exchange Platform.mock 100) {
        supports_market = Market.crypto ∷ Market.forex ∷ Market.indices ∷ Market.commodities ∷ [];
      })
          × (RiskFree clock (dec 1) signal account.risk
              × (SizeAllowed signal account (exchange Platform.mock 100) × (false ≡ false))))
plan-approved_example =
    plan-approved clock default_registry (λ key. false) (dec 1) "cmd_1" signal customer executor
      account _ refl

abbrev with_customer : Store Decimal
with_customer = save_profile customer empty

-- The first dispatch approves the account, the second does not.
dispatch-once_example :
    All
      (λ p.
        All
          (λ c.
            All
              (λ q. All (λ d. c.idempotency_key ≢ d.idempotency_key) q.commands)
              (dispatch clock default_registry
                (λ k. dec k)
                (λ k. "cmd_2")
                signal
                (dispatch clock default_registry
                  (λ k. dec k)
                  (λ k. "cmd_1")
                  signal
                  with_customer).1).0.plans)
          p.commands)
      (dispatch clock default_registry (λ k. dec k) (λ k. "cmd_1") signal with_customer).0.plans
dispatch-once_example =
    dispatch-once clock default_registry (λ k. dec k) (λ k. dec k) (λ k. "cmd_1") (λ k. "cmd_2")
      signal signal with_customer

-- The dispatch queues the command.
dispatched_once :
    (dispatch clock default_registry
      (λ k. dec k)
      (λ k. "cmd_1")
      signal
      with_customer).0.queued_commands
    ≡ 1
unfolding dispatch manager_recover recover publish save_profile dispatch_slots dispatch_slot plan
    customer_gate market_gate risk_gate size_gate queue_commands enqueue reserve_idempotency
    insert_command has_dispatched find_by_idempotency_key build_idempotency_key
dispatched_once = refl

dispatched_twice :
    (dispatch clock default_registry
      (λ k. dec k)
      (λ k. "cmd_2")
      signal
      (dispatch clock default_registry
        (λ k. dec k)
        (λ k. "cmd_1")
        signal
        with_customer).1).0.queued_commands
    ≡ 0
unfolding dispatch manager_recover recover publish save_profile dispatch_slots dispatch_slot plan
    customer_gate market_gate risk_gate size_gate queue_commands enqueue reserve_idempotency
    insert_command has_dispatched find_by_idempotency_key build_idempotency_key
dispatched_twice = refl
