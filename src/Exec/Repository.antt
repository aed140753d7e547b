-- ===== src/Exec/Repository.antt =====
-- v2/src/execution-core/repositories.ts and events.ts: the functions that read the clock. A `Partial`
-- that is assigned to a command is a function on commands.
use text.Mathlib.Text.{◌==◌}
use Prim.Native.Nat.{◌+◌ as ◌+ℕ◌}
use hashi_bot.Base.{
  ℕ, suc, String, Bool, true, false, not, ◌&&◌, ◌||◌, Option, none, some, [], ◌∷◌, ◌++◌, map, find,
  keep, update_first, count_of, includes, length, if◌then◌else◌,
}
use hashi_bot.Base.Number.{Number, truthy, ◌+◌, ◌-◌}
use hashi_bot.Exec.Status.{is_held}
use hashi_bot.Base.Dict.{lookup, set}
use hashi_bot.Exec.Types.{
  ExecutionCommand, CommandStatus, ExecutionEventType, EventPayload, IdempotencyRecord, Store,
  Clock,
}
use hashi_bot.Exec.Commands.{has_id, expected_command}

module _ {N : Type 0} ⦃num : Number N⦄ (clock : Clock N) where
  open num use {lt, le}
  open clock use {parse, iso}

  -- `const rec = s.idempotencyRecords[key]`, and whether it still counts.
  abbrev pub is_reserved : N → Option IdempotencyRecord → Bool
  is_reserved now none = false
  is_reserved now (some record_of) = elim record_of.expires_at [
    | none ↦ true
    | some at ↦ at == "" || lt now (parse at)
  ]

  -- `ttlMs ? new Date(now + ttlMs).toISOString() : undefined`
  abbrev pub expiry : N → Option N → Option String
  expiry now none = none
  expiry now (some ttl_ms) = if truthy ttl_ms then some (iso (now + ttl_ms)) else none

  unfoldable pub reserve_idempotency :
      N → (key command_id : String) → Option N → Store N → Bool × Store N
  reserve_idempotency now key command_id ttl_ms s =
      if is_reserved now (lookup key s.idempotency_records)
      then (false, record s { duplicate_prevention_count = suc s.duplicate_prevention_count })
      else (
        true,
        record s {
          idempotency_records =
              set key
                (record {
                  command_id = command_id;
                  created_at = iso now;
                  expires_at = expiry now ttl_ms;
                })
                s.idempotency_records;
          dispatch_history =
              if includes s.dispatch_history key
              then s.dispatch_history
              else s.dispatch_history ++ (key ∷ []);
        },
      )

  -- `Object.assign(c, clone(patch), { updatedAt: … })`
  abbrev pub assigned :
      N → (ExecutionCommand N → ExecutionCommand N) → ExecutionCommand N → ExecutionCommand N
  assigned now patch c = record (patch c) { updated_at = iso now }

  abbrev pub patched : N → String → (ExecutionCommand N → ExecutionCommand N) → Store N → Store N
  patched now id patch s = record s {
    commands = update_first (has_id id) (assigned now patch) s.commands;
  }

  unfoldable pub update_command :
      N
      → String
      → (ExecutionCommand N → ExecutionCommand N)
      → Store N
      → Option (ExecutionCommand N) × Store N
  update_command now id patch s =
      (find (has_id id) (patched now id patch s).commands, patched now id patch s)

  unfoldable pub compare_and_set_command :
      N
      → String
      → (ExecutionCommand N → Bool)
      → (ExecutionCommand N → ExecutionCommand N)
      → Store N
      → Bool × Store N
  compare_and_set_command now id expected patch s =
      if expected_command expected (find (has_id id) s.commands)
      then (true, patched now id patch s)
      else (false, s)

  -- A lease that `recover` ends: `c.leaseExpiration && Date.parse(c.leaseExpiration) <= now`.
  abbrev pub lease_over : N → ExecutionCommand N → Bool
  lease_over now c =
      is_held c.status
      && elim c.lease_expiration [ none ↦ false | some at ↦ not (at == "") && le (parse at) now ]

  abbrev pub recovered_command : N → ExecutionCommand N → ExecutionCommand N
  recovered_command now c =
      if lease_over now c
      then record c { status = CommandStatus.queued; leased_by = none; lease_expiration = none }
      else c

  unfoldable pub recover : N → Store N → ℕ × Store N
  recover now s =
      let n = count_of (lease_over now) s.commands in
      (
        n,
        record s {
          commands = map (recovered_command now) s.commands;
          recovery_count = s.recovery_count +ℕ n;
        },
      )

  -- A record that `cleanup` deletes.
  abbrev pub record_over : N → IdempotencyRecord → Bool
  record_over now r = elim r.expires_at [
    | none ↦ false
    | some at ↦ not (at == "") && lt (parse at) now
  ]

  unfoldable pub cleanup : N → N → Store N → Store N
  cleanup now ttl_ms s = record s {
    events = keep (λ e. le (now - ttl_ms) (parse e.timestamp)) s.events;
    idempotency_records = keep (λ entry. not (record_over now entry.1)) s.idempotency_records;
  }

  -- events.ts: an event is numbered by the length of the log.
  unfoldable pub publish : N → ExecutionEventType → EventPayload N → Store N → Store N
  publish now type payload s = record s {
    events =
        s.events
        ++ (record {
          sequence = suc (length s.events);
          type = type;
          timestamp = iso now;
          payload = payload;
        }
            ∷ []);
  }
