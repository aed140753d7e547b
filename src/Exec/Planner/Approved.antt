-- ===== src/Exec/Planner/Approved.antt =====
-- When a plan is approved (v2/src/execution-core/planner.ts).
use hashi_bot.Base.{
  ◌↔◌, String, ◌≡◌, refl, Bool, true, false, not, ◌&&◌, ◌||◌, exists, includes, Option,
  Option-cases, is_some, none, some, inl, inr, arith, if◌then◌else◌, or_else,
}
use hashi_bot.Base.Number.{Number, int, ◌+◌, ◌*◌}
use hashi_bot.Exec.Types.{
  PlanStatus, ImmutableSignal, AccountRiskSettings, CustomerAccountProfile, ExecutorProfile,
  CustomerExecutionProfile, AdapterCapabilityProfile, Clock,
}
use hashi_bot.Exec.Capabilities.{Registry}
use hashi_bot.Exec.Gates.{
  Refusal, status_of, reject_for, first_of, is_false, is_signal_only, is_approved, is_paused,
  is_disabled, is_healthy, has_market, opens, customer_gate, market_gate, risk_gate, leverage_of,
  quantity_of, size_gate, key_for, open_in_direction, cooling,
}
use hashi_bot.Exec.Planner.{cap_gate, plan_with, plan}

abbrev pub is_approval : PlanStatus → Bool
is_approval PlanStatus.approved = true
is_approval PlanStatus.rejected = false
is_approval PlanStatus.deferred = false

module _ {N : Type 0} ⦃num : Number N⦄ where
  open num use {lt, le, infinity}

  -- The customer, the executor and the account may trade at all.
  abbrev pub MayTrade :
      CustomerExecutionProfile N → ExecutorProfile N → CustomerAccountProfile N → Type 0
  MayTrade customer executor account =
      (is_false customer.eligible ≡ false)
      × (customer.package_of.active ≡ true)
      × (is_false customer.package_of.subscription_valid ≡ false)
      × (is_signal_only customer.package_of.execution_mode ≡ false)
      × (is_approved executor.approval_status ≡ true)
      × (is_paused executor.state ≡ false)
      × (is_disabled executor.state ≡ false)
      × (account.enabled ≡ true)
      × (is_healthy account.health ≡ true)

  -- The platform, the package and the account take the market, and the account the symbol.
  abbrev pub MarketOpen :
      ImmutableSignal N
      → CustomerExecutionProfile N
      → CustomerAccountProfile N
      → AdapterCapabilityProfile N
      → Type 0
  MarketOpen signal customer account cap =
      (is_false cap.available ≡ false)
      × (exists opens cap.supported_order_types ≡ true)
      × (has_market signal.market cap.supports_market ≡ true)
      × (has_market signal.market customer.package_of.allowed_markets ≡ true)
      × (has_market signal.market account.permissions.allowed_markets ≡ true)
      × (includes account.permissions.allowed_symbols "*"
            || includes account.permissions.allowed_symbols signal.symbol
          ≡ true)

  -- No limit of the account's risk is reached.
  abbrev pub RiskFree : Clock N → N → ImmutableSignal N → AccountRiskSettings N → Type 0
  RiskFree clock now signal risk =
      (is_false risk.risk_allowed ≡ false)
      × (risk.daily_loss_lock ≡ false)
      × (lt (or_else risk.max_drawdown_pct infinity) (or_else risk.current_drawdown_pct (int 0))
          ≡ false)
      × (lt risk.max_daily_risk_pct (risk.used_daily_risk_pct + risk.risk_per_trade_pct) ≡ false)
      × (le risk.max_open_trades risk.open_trades ≡ false)
      × (le risk.max_same_symbol_trades
            (or_else (risk.same_symbol_open_trades signal.symbol) (int 0))
          ≡ false)
      × (le (or_else risk.max_same_direction_trades infinity)
            (open_in_direction signal.direction risk.same_direction_open_trades)
          ≡ false)
      × (cooling clock now risk.cooldown_until ≡ false)

  -- The leverage is at least 1 and allowed, and the exposure with the new position within its cap.
  abbrev pub SizeAllowed :
      ImmutableSignal N → CustomerAccountProfile N → AdapterCapabilityProfile N → Type 0
  SizeAllowed signal account cap =
      (lt (leverage_of account.risk cap) (int 1) ≡ false)
      × (cap.supports_leverage || not (lt (int 1) account.risk.max_leverage) ≡ true)
      × (account.permissions.leverage_allowed ≡ true)
      × (lt (or_else account.risk.max_exposure_usd infinity) (
            or_else account.risk.current_exposure_usd (int 0)
            + quantity_of signal account.risk * signal.entry_price)
          ≡ false)

  customer_gate-MayTrade :
      (customer : CustomerExecutionProfile N) (executor : ExecutorProfile N)
      (account : CustomerAccountProfile N)
      → is_some (customer_gate customer executor account) ≡ false
        ↔ MayTrade customer executor account
  unfolding customer_gate
  customer_gate-MayTrade customer executor account = ground arith

  market_gate-MarketOpen :
      (signal : ImmutableSignal N) (customer : CustomerExecutionProfile N)
      (account : CustomerAccountProfile N) (cap : AdapterCapabilityProfile N)
      → is_some (market_gate signal customer account cap) ≡ false
        ↔ MarketOpen signal customer account cap
  unfolding market_gate
  market_gate-MarketOpen signal customer account cap = ground arith

  risk_gate-RiskFree :
      (clock : Clock N) (now : N) (signal : ImmutableSignal N) (risk : AccountRiskSettings N)
      → is_some (risk_gate clock now signal risk) ≡ false ↔ RiskFree clock now signal risk
  unfolding risk_gate
  risk_gate-RiskFree clock now signal risk = ground arith

  size_gate-SizeAllowed :
      (signal : ImmutableSignal N) (account : CustomerAccountProfile N)
      (cap : AdapterCapabilityProfile N)
      → is_some (size_gate signal account cap) ≡ false ↔ SizeAllowed signal account cap
  unfolding size_gate
  size_gate-SizeAllowed signal account cap = ground arith

refuse-status : (r : Refusal) → is_approval (status_of r) ≡ false
refuse-status (Refusal.rejects reason) = refl
refuse-status (Refusal.defers reason) = refl

first_of-clear :
    {A B : Type 0} (a b : Option Refusal)
    → (is_some a ≡ false ↔ A)
    → (is_some b ≡ false ↔ B)
    → (is_some (first_of a b) ≡ false ↔ A × B)
first_of-clear none b f g = ((λ e. (f.0 refl, g.0 e)), (λ h. g.1 h.1))
first_of-clear (some r) b f g = ((λ e. cc e), (λ h. f.1 h.0))

duplicate-clear :
    (duplicate : Bool) (reason : String)
    → is_some (if duplicate then reject_for reason else none) ≡ false ↔ duplicate ≡ false
duplicate-clear true reason = ground arith
duplicate-clear false reason = ground arith

module _ {N : Type 0} ⦃num : Number N⦄ (clock : Clock N) (caps : Registry N)
    (is_duplicate : String → Bool) where
  pub cap_gate-clear :
      (now : N) (signal : ImmutableSignal N) (customer : CustomerExecutionProfile N)
      (executor : ExecutorProfile N) (account : CustomerAccountProfile N)
      (cap : AdapterCapabilityProfile N)
      → is_some (cap_gate clock caps is_duplicate now signal customer executor account cap) ≡ false
        ↔ MarketOpen signal customer account cap
          × (RiskFree clock now signal account.risk
              × (SizeAllowed signal account cap
                  × (is_duplicate (key_for signal customer executor account) ≡ false)))
  cap_gate-clear now signal customer executor account cap =
      let key = key_for signal customer executor account in
      let unique =
        if is_duplicate key then reject_for "duplicate_signal_execution_prevented" else none in
      let size = size_gate signal account cap in
      let risk = risk_gate clock now signal account.risk in
      first_of-clear (market_gate signal customer account cap)
        (first_of risk (first_of size unique)) (market_gate-MarketOpen signal customer account cap)
        (first_of-clear risk (first_of size unique)
          (risk_gate-RiskFree clock now signal account.risk)
          (first_of-clear size unique (size_gate-SizeAllowed signal account cap)
            (duplicate-clear (is_duplicate key) "duplicate_signal_execution_prevented")))

  plan_with-approved :
      (now : N) (id : String) (signal : ImmutableSignal N) (customer : CustomerExecutionProfile N)
      (executor : ExecutorProfile N) (account : CustomerAccountProfile N)
      (cap : AdapterCapabilityProfile N)
      → is_approval
          (plan_with clock caps is_duplicate now id signal customer executor account
            (some cap)).status
        ≡ not (is_some (cap_gate clock caps is_duplicate now signal customer executor account cap))
  plan_with-approved now id signal customer executor account cap =
      elim (Option-cases
        (cap_gate clock caps is_duplicate now signal customer executor account cap)) [
          | inl n ↦ rw (plan_with, n) refl
          | inr (r, e) ↦ rw (plan_with, e) (refuse-status r)
        ]

  plan-gates :
      (now : N) (id : String) (signal : ImmutableSignal N) (customer : CustomerExecutionProfile N)
      (executor : ExecutorProfile N) (account : CustomerAccountProfile N)
      (cap : AdapterCapabilityProfile N)
      → caps account.platform ≡ some cap
      → is_approval (plan clock caps is_duplicate now id signal customer executor account).status
        ≡ not (is_some (customer_gate customer executor account))
          && not
              (is_some (cap_gate clock caps is_duplicate now signal customer executor account cap))
  unfolding plan
  plan-gates now id signal customer executor account cap known =
      elim (Option-cases (customer_gate customer executor account)) [
        | inl n ↦
            rw (plan, n, known) (plan_with-approved now id signal customer executor account cap)
        | inr (r, e) ↦ rw (plan, e) (refuse-status r)
      ]

  -- On a platform with known capabilities, a plan is approved exactly if the customer, the executor and the
  -- account may trade, the market is open to them, no limit of the account's risk is reached, the size is
  -- allowed, and the idempotency key of the order is not a duplicate.
  pub plan-approved :
      (now : N) (id : String) (signal : ImmutableSignal N) (customer : CustomerExecutionProfile N)
      (executor : ExecutorProfile N) (account : CustomerAccountProfile N)
      (cap : AdapterCapabilityProfile N)
      → caps account.platform ≡ some cap
      → is_approval (plan clock caps is_duplicate now id signal customer executor account).status
          ≡ true
        ↔ MayTrade customer executor account
          × (MarketOpen signal customer account cap
              × (RiskFree clock now signal account.risk
                  × (SizeAllowed signal account cap
                      × (is_duplicate (key_for signal customer executor account) ≡ false))))
  plan-approved now id signal customer executor account cap known =
      let gates = plan-gates now id signal customer executor account cap known in
      let may = customer_gate-MayTrade customer executor account in
      let clear = cap_gate-clear now signal customer executor account cap in
      (
        (λ e. (may.0 (ground (arith, gates, e)), clear.0 (ground (arith, gates, e)))),
        (λ h. let a = may.1 h.0 in let b = clear.1 h.1 in ground (arith, gates, a, b)),
      )
