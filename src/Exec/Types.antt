-- ===== src/Exec/Types.antt =====
-- The types of v2/src/execution-core (types.ts, and Store of storage.ts). Counters are whole numbers.
-- Left out: the eventId of an event, a random text that nothing reads, and the fields adapterState and
-- activeExecutionState of the store, which no function touches.
use hashi_bot.Base.{ℕ, String, Bool, Option, List}
use hashi_bot.Domain.{TradeSide, Unknown}

pub data Platform : Type 0 where
  binance bybit mt5 mock : Platform

pub data AccountMode : Type 0 where
  personal prop demo : AccountMode

pub data ApprovalStatus : Type 0 where
  approved pending rejected : ApprovalStatus

pub data CustomerMode : Type 0 where
  signal_only execution : CustomerMode

pub data ExecutorState : Type 0 where
  active paused disabled : ExecutorState

pub data PlanStatus : Type 0 where
  approved rejected deferred : PlanStatus

pub data Market : Type 0 where
  crypto forex indices commodities : Market

pub data AccountHealth : Type 0 where
  healthy degraded offline : AccountHealth

pub data CommandAction : Type 0 where
  open_position move_stop_loss move_take_profit synchronize partial_close : CommandAction
  start_trailing repair_protection safe_close : CommandAction

pub data CommandStatus : Type 0 where
  queued leased started sent acknowledged completed verified failed : CommandStatus
  retry_scheduled dead_lettered expired : CommandStatus

pub data FailureCategory : Type 0 where
  transient permanent authentication rate_limit network exchange_rejected : FailureCategory
  duplicate verification_failed protection_failed manual_intervention_required : FailureCategory

pub data ExecutionEventType : Type 0 where
  execution_planning_started execution_planning_completed execution_plan_approved :
      ExecutionEventType
  execution_plan_deferred execution_plan_rejected command_queued : ExecutionEventType
  command_leased command_started command_sent command_acknowledged : ExecutionEventType
  command_verified command_completed command_failed command_retried : ExecutionEventType
  command_expired command_duplicate_prevented execution_started : ExecutionEventType
  execution_completed execution_recovered execution_repair_started : ExecutionEventType
  execution_repair_completed : ExecutionEventType

pub record ImmutableSignal (N : Type 0) : Type 0 where
  pub signal_id : String
  pub symbol : String
  pub market : Market
  pub direction : TradeSide
  pub entry_price : N
  pub stop_loss : Option N
  pub take_profit : Option N
  pub risk_hint_pct : Option N
  pub created_at : String
  pub metadata : Option (List (String × Unknown N))

pub record CustomerPackage (N : Type 0) : Type 0 where
  pub package_id : String
  pub active : Bool
  pub execution_mode : CustomerMode
  pub allowed_markets : List Market
  pub max_accounts : N
  pub subscription_valid : Option Bool

pub record AccountRiskSettings (N : Type 0) : Type 0 where
  pub equity_usd : N
  pub risk_per_trade_pct : N
  pub max_daily_risk_pct : N
  pub used_daily_risk_pct : N
  pub max_open_trades : N
  pub open_trades : N
  pub max_same_symbol_trades : N
  pub same_symbol_open_trades : String → Option N
  pub max_same_direction_trades : Option N
  pub same_direction_open_trades : Option (TradeSide → Option N)
  pub max_exposure_usd : Option N
  pub current_exposure_usd : Option N
  pub max_drawdown_pct : Option N
  pub current_drawdown_pct : Option N
  pub cooldown_until : Option String
  pub max_leverage : N
  pub daily_loss_lock : Bool
  pub risk_allowed : Option Bool

pub record AccountPermissionSettings : Type 0 where
  pub allowed_markets : List Market
  pub allowed_symbols : List String
  pub leverage_allowed : Bool

pub record CustomerAccountProfile (N : Type 0) : Type 0 where
  pub account_id : String
  pub enabled : Bool
  pub platform : Platform
  pub adapter_id : Option String
  pub mode : AccountMode
  pub permissions : AccountPermissionSettings
  pub risk : AccountRiskSettings N
  pub health : AccountHealth

pub record ExecutorProfile (N : Type 0) : Type 0 where
  pub executor_id : String
  pub approval_status : ApprovalStatus
  pub state : ExecutorState
  pub accounts : List (CustomerAccountProfile N)

pub record CustomerExecutionProfile (N : Type 0) : Type 0 where
  pub customer_id : String
  pub eligible : Option Bool
  pub package_of : CustomerPackage N
  pub executors : List (ExecutorProfile N)

pub record CustomerRuntimeState : Type 0 where
  pub customer_id : String
  pub executor_states : List (String × ExecutorState)
  pub dispatch_history : List String

pub record AdapterCapabilityProfile (N : Type 0) : Type 0 where
  pub adapter_type : Platform
  pub supports_market : List Market
  pub supports_stop_loss : Bool
  pub supports_take_profit : Bool
  pub supports_partial_close : Bool
  pub supports_trailing : Bool
  pub supports_leverage : Bool
  pub supports_reduce_only : Bool
  pub supports_position_sync : Bool
  pub max_leverage : N
  pub supported_order_types : List CommandAction
  pub available : Option Bool

pub record ExecutionCommand (N : Type 0) : Type 0 where
  pub command_id : String
  pub correlation_id : String
  pub idempotency_key : String
  pub signal_id : String
  pub customer_id : String
  pub executor_id : String
  pub account_id : String
  pub adapter_id : String
  pub adapter_type : Platform
  pub action : CommandAction
  pub purpose : String
  pub status : CommandStatus
  pub payload : List (String × Unknown N)
  pub created_at : String
  pub updated_at : String
  pub retry_count : ℕ
  pub priority : N
  pub lease_expiration : Option String
  pub leased_by : Option String
  pub retry_at : Option String
  pub failure_reason : Option String
  pub failure_category : Option FailureCategory

pub record PlanSizing (N : Type 0) : Type 0 where
  pub risk_pct : N
  pub notional_usd : N
  pub quantity : N
  pub leverage : N

pub record ExecutionPlan (N : Type 0) : Type 0 where
  pub status : PlanStatus
  pub reason : Option String
  pub signal_id : String
  pub customer_id : String
  pub executor_id : String
  pub account_id : String
  pub adapter_type : Platform
  pub sizing : Option (PlanSizing N)
  pub commands : List (ExecutionCommand N)

-- The payload of an event: a constructor for each shape that the code publishes.
pub data EventPayload (N : Type 0) : Type 0 where
  recovered : ℕ → EventPayload N
  of_signal : String → EventPayload N
  of_plan : ExecutionPlan N → EventPayload N
  planned : String → ℕ → EventPayload N
  queued : (command_id correlation_id customer_id : String) → EventPayload N
  prevented : (idempotency_key : String) → EventPayload N
  of_command : String → EventPayload N
  leased : (command_id worker_id : String) → EventPayload N
  failed : (command_id : String) → FailureCategory → (reason : Option String) → EventPayload N
  retried : (command_id : String) → FailureCategory → EventPayload N

pub record ExecutionEvent (N : Type 0) : Type 0 where
  pub sequence : ℕ
  pub type : ExecutionEventType
  pub timestamp : String
  pub payload : EventPayload N

pub data WorkerStatus : Type 0 where
  starting healthy draining stopped : WorkerStatus

pub record WorkerState : Type 0 where
  pub worker_id : String
  pub status : WorkerStatus
  pub last_heartbeat_at : String
  pub active_command_ids : List String

pub record IdempotencyRecord : Type 0 where
  pub command_id : String
  pub created_at : String
  pub expires_at : Option String

pub record AdapterResult : Type 0 where
  pub acknowledged : Option Bool
  pub verified : Option Bool
  pub completed : Option Bool
  pub reason : Option String

pub record VerificationEntry : Type 0 where
  pub command_id : String
  pub checked_at : String
  pub result : AdapterResult

pub record Store (N : Type 0) : Type 0 where
  pub profiles : List (CustomerExecutionProfile N)
  pub runtime : List CustomerRuntimeState
  pub commands : List (ExecutionCommand N)
  pub dead_letters : List (ExecutionCommand N)
  pub dispatch_history : List String
  pub events : List (ExecutionEvent N)
  pub verification_history : List VerificationEntry
  pub worker_state : List WorkerState
  pub idempotency_records : List (String × IdempotencyRecord)
  pub recovery_count : ℕ
  pub duplicate_prevention_count : ℕ

-- What the code uses of JavaScript's dates: `Date.parse` and `new Date(n).toISOString()`.
pub record Clock (N : Type 0) : Type 0 where
  pub parse : String → N
  pub iso : N → String

pub record ExecutionTelemetry (N : Type 0) : Type 0 where
  pub queue_depth : ℕ
  pub worker_health : List (String × WorkerStatus)
  pub average_latency_ms : N
  pub failure_rate : N
  pub retry_rate : N
  pub completion_rate : N
  pub verification_rate : N
  pub recovery_count : ℕ
  pub duplicate_prevention_count : ℕ
