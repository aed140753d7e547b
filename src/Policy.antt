-- ===== src/Policy.antt =====
-- packages/core/src/execution/breakout-execution-policy.ts: from a signal to an execution intent.
pub mod Types
pub mod Permission
pub mod Bounds
pub mod Tests
use hashi_bot.Base.{
  ℕ, Bool, true, false, not, ◌&&◌, Option, none, some, List, [], ◌∷◌, if◌then◌else◌, or_else,
  is_some, find,
}
use hashi_bot.Base.Number.{Number, int, truthy, ◌+◌, ◌-◌, ◌*◌, ◌/◌}
use hashi_bot.Policy.Types.{
  LiveMode, live_personal, live_prop, ExecutionMode, signal_only, live, SetupGrade, a_plus,
  BreakoutSignal, LeverageRange, CapitalProgressionTier, ModeGovernanceDefaults, GovernanceLocks,
  ExecutionIntentInput, BlockedReason, SizingIntent, ExecutionIntent,
}

-- `signal.setupGrade === "A+"`
abbrev pub is_a_plus : SetupGrade → Bool
is_a_plus a_plus = true
is_a_plus _ = false

-- `input.mode === "live_prop"`
abbrev pub is_prop : LiveMode → Bool
is_prop live_prop = true
is_prop live_personal = false

-- A lock of an optional record of optional locks, as a condition.
abbrev pub locked : Option GovernanceLocks → (GovernanceLocks → Option Bool) → Bool
locked none lock = false
locked (some locks) lock = or_else (lock locks) false

module _ {N : Type 0} ⦃num : Number N⦄ where
  open num use {lit, abs, min, max, lt, le}

  abbrev pub range : ℕ → ℕ → LeverageRange N
  range m n = record { from = int m; to = int n }

  unfoldable pub locked_capital_progression_defaults : List (CapitalProgressionTier N)
  locked_capital_progression_defaults =
      record {
        min_inclusive = int 1_000;
        max_inclusive = some (int 5_000);
        normal_leverage_range = range 3 5;
        a_plus_leverage_range = range 5 8;
      }
      ∷ record {
        min_inclusive = int 5_000;
        max_inclusive = some (int 10_000);
        normal_leverage_range = range 3 5;
        a_plus_leverage_range = range 3 5;
      }
      ∷ record {
        min_inclusive = int 10_000;
        max_inclusive = none;
        normal_leverage_range = range 1 3;
        a_plus_leverage_range = range 1 3;
      }
      ∷ []

  -- The last tier, for an equity that no tier holds.
  abbrev last_tier : CapitalProgressionTier N
  last_tier = record {
    min_inclusive = int 10_000;
    max_inclusive = none;
    normal_leverage_range = range 1 3;
    a_plus_leverage_range = range 1 3;
  }

  abbrev pub locked_mode_governance_defaults : LiveMode → ModeGovernanceDefaults N
  locked_mode_governance_defaults live_personal = record {
    leverage_normal_range = range 3 5;
    leverage_a_plus_range = range 6 8;
    leverage_hard_cap = int 10;
    risk_per_trade_base_pct = lit 5 1;
    risk_per_trade_a_plus_pct = lit 75 2;
    risk_per_trade_absolute_max_pct = some (int 1);
    max_simultaneous_open_risk_pct = lit 15 1;
  }
  locked_mode_governance_defaults live_prop = record {
    leverage_normal_range = range 1 2;
    leverage_a_plus_range = range 2 3;
    leverage_hard_cap = int 4;
    risk_per_trade_base_pct = lit 25 2;
    risk_per_trade_a_plus_pct = lit 4 1;
    risk_per_trade_absolute_max_pct = none;
    max_simultaneous_open_risk_pct = lit 75 2;
  }

  abbrev pub clamp : N → N → N → N
  clamp value low high = max low (min high value)

  unfoldable pub to_midpoint : LeverageRange N → N
  to_midpoint range = (range.from + range.to) / int 2

  abbrev holds : N → CapitalProgressionTier N → Bool
  holds equity tier =
      le tier.min_inclusive equity
      && elim tier.max_inclusive [ none ↦ true | some top ↦ le equity top ]

  unfoldable pub resolve_personal_leverage_range : BreakoutSignal N → N → LeverageRange N
  unfolding locked_capital_progression_defaults
  resolve_personal_leverage_range signal equity =
      let tier = or_else (find (holds equity) locked_capital_progression_defaults) last_tier in
      if is_a_plus signal.setup_grade
      then tier.a_plus_leverage_range
      else tier.normal_leverage_range

  unfoldable pub resolve_leverage_range : LiveMode → BreakoutSignal N → N → LeverageRange N
  resolve_leverage_range live_personal signal equity = resolve_personal_leverage_range signal equity
  resolve_leverage_range live_prop signal equity =
      if is_a_plus signal.setup_grade
      then (locked_mode_governance_defaults live_prop).leverage_a_plus_range
      else (locked_mode_governance_defaults live_prop).leverage_normal_range

  -- `blockedReason`: the first condition that holds.
  unfoldable pub blocked_reason_of :
      LiveMode → (open_risk cap : N) → Option GovernanceLocks → Option BlockedReason
  blocked_reason_of mode open_risk cap locks =
      if le cap open_risk
      then some BlockedReason.max_open_risk_exceeded
      else if is_prop mode && locked locks (λ l. l.daily_loss_lock_active)
      then some BlockedReason.daily_loss_lock_active
      else if is_prop mode && locked locks (λ l. l.trailing_drawdown_lock_active)
      then some BlockedReason.trailing_drawdown_lock_active
      else if is_prop mode && locked locks (λ l. l.max_consecutive_loss_lock_active)
      then some BlockedReason.max_consecutive_loss_lock_active
      else none

  unfoldable pub sizing_of : BreakoutSignal N → (equity risk_percent : N) → Option (SizingIntent N)
  sizing_of signal equity risk_percent =
      let stop_distance = abs (signal.entry_price - signal.stop_price) in
      let risk_amount = equity * (risk_percent / int 100) in
      let quantity = if lt (int 0) stop_distance then risk_amount / stop_distance else int 0 in
      if lt (int 0) stop_distance
      then some (record {
        quantity = quantity;
        position_notional = quantity * signal.entry_price;
        risk_amount = risk_amount;
      })
      else none

  -- `riskPercent` of the intent, below the mode's absolute maximum if it has one.
  abbrev pub capped_risk : Option N → N → N
  capped_risk none risk = risk
  capped_risk (some top) risk = if truthy top then clamp risk (int 0) top else risk

  abbrev pub baseline_risk : LiveMode → SetupGrade → N
  baseline_risk mode grade =
      if is_a_plus grade
      then (locked_mode_governance_defaults mode).risk_per_trade_a_plus_pct
      else (locked_mode_governance_defaults mode).risk_per_trade_base_pct

  unfoldable pub build_live_intent : LiveMode → ExecutionIntentInput N → ExecutionIntent N
  build_live_intent mode input =
      let defaults = locked_mode_governance_defaults mode in
      let leverage_range = resolve_leverage_range mode input.signal input.account_equity_usd in
      let risk =
        or_else input.risk_percent_override (baseline_risk mode input.signal.setup_grade) in
      let cap =
        or_else input.max_simultaneous_open_risk_pct_override
          defaults.max_simultaneous_open_risk_pct in
      let reason =
        blocked_reason_of mode (or_else input.current_open_risk_pct (int 0)) cap
          input.governance_locks in
      record {
        mode = input.mode;
        execution_allowed = not (is_some reason);
        blocked_reason = reason;
        effective_leverage = clamp (to_midpoint leverage_range) (int 1) defaults.leverage_hard_cap;
        risk_percent = capped_risk defaults.risk_per_trade_absolute_max_pct risk;
        provisional_sizing_intent = sizing_of input.signal input.account_equity_usd risk;
        signal = input.signal;
        governance = record {
          max_simultaneous_open_risk_pct = cap;
          hooks = record {
            daily_loss_lock = is_prop mode;
            trailing_drawdown_lock = is_prop mode;
            max_consecutive_loss_lock = is_prop mode;
          };
        };
      }

  unfoldable pub signal_only_intent : ExecutionIntentInput N → ExecutionIntent N
  signal_only_intent input = record {
    mode = input.mode;
    execution_allowed = false;
    blocked_reason = some BlockedReason.signal_only_mode;
    effective_leverage = int 1;
    risk_percent = int 0;
    provisional_sizing_intent = none;
    signal = input.signal;
    governance = record {
      max_simultaneous_open_risk_pct = int 0;
      hooks = record {
        daily_loss_lock = false;
        trailing_drawdown_lock = false;
        max_consecutive_loss_lock = false;
      };
    };
  }

  abbrev pub by_mode : ExecutionMode → ExecutionIntentInput N → ExecutionIntent N
  by_mode signal_only = signal_only_intent
  by_mode (live mode) = build_live_intent mode

  unfoldable pub build_execution_intent : ExecutionIntentInput N → ExecutionIntent N
  build_execution_intent input = by_mode input.mode input
