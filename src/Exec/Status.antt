-- ===== src/Exec/Status.antt =====
-- Which commands wait, are held by a worker, or are done (v2/src/execution-core).
use hashi_bot.Base.{ℕ, nat_eq, Bool, true, false, ◌≡◌, arith}
use hashi_bot.Exec.Types.{CommandStatus}

abbrev pub is_held : CommandStatus → Bool
is_held CommandStatus.leased = true
is_held CommandStatus.started = true
is_held CommandStatus.sent = true
is_held CommandStatus.queued = false
is_held CommandStatus.acknowledged = false
is_held CommandStatus.completed = false
is_held CommandStatus.verified = false
is_held CommandStatus.failed = false
is_held CommandStatus.retry_scheduled = false
is_held CommandStatus.dead_lettered = false
is_held CommandStatus.expired = false

abbrev pub is_waiting : CommandStatus → Bool
is_waiting CommandStatus.queued = true
is_waiting CommandStatus.retry_scheduled = true
is_waiting CommandStatus.leased = false
is_waiting CommandStatus.started = false
is_waiting CommandStatus.sent = false
is_waiting CommandStatus.acknowledged = false
is_waiting CommandStatus.completed = false
is_waiting CommandStatus.verified = false
is_waiting CommandStatus.failed = false
is_waiting CommandStatus.dead_lettered = false
is_waiting CommandStatus.expired = false

abbrev pub is_done : CommandStatus → Bool
is_done CommandStatus.completed = true
is_done CommandStatus.verified = true
is_done CommandStatus.queued = false
is_done CommandStatus.retry_scheduled = false
is_done CommandStatus.leased = false
is_done CommandStatus.started = false
is_done CommandStatus.sent = false
is_done CommandStatus.acknowledged = false
is_done CommandStatus.failed = false
is_done CommandStatus.dead_lettered = false
is_done CommandStatus.expired = false

-- A status by its place in the union, to compare two of them.
abbrev pub status_index : CommandStatus → ℕ
status_index CommandStatus.queued = 0
status_index CommandStatus.leased = 1
status_index CommandStatus.started = 2
status_index CommandStatus.sent = 3
status_index CommandStatus.acknowledged = 4
status_index CommandStatus.completed = 5
status_index CommandStatus.verified = 6
status_index CommandStatus.failed = 7
status_index CommandStatus.retry_scheduled = 8
status_index CommandStatus.dead_lettered = 9
status_index CommandStatus.expired = 10

abbrev pub same_status : CommandStatus → CommandStatus → Bool
same_status a b = nat_eq (status_index a) (status_index b)

pub same_status-is_waiting :
    (a b : CommandStatus) → same_status a b ≡ true → is_waiting a ≡ is_waiting b
same_status-is_waiting a b e = ground arith
