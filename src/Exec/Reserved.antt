-- ===== src/Exec/Reserved.antt =====
-- The store as a state machine, and the commands with an idempotency key (v2/src/execution-core).
use Prim.Native.Nat.{◌+◌ as ◌+ℕ◌}
use text.Mathlib.Text.{◌==◌}
use text.Mathlib.TextEquality.{eq_iff}
use hashi_bot.Base.{
  ℕ, ◌≤◌, not, is_some, keep, String, ◌≡◌, ap, ◌∙◌, Bool, true, false, Option, Option-cases, none,
  some, List, [], ◌∷◌, arith, Bool-cases, inl, inr, if◌then◌else◌,
}
use hashi_bot.Base.Number.{Number}
use hashi_bot.Base.Dict.{lookup, lookup-set_same, lookup-set_other}
use hashi_bot.Exec.Types.{ExecutionCommand, IdempotencyRecord, Store, Clock}
use hashi_bot.Exec.Commands.{insert_command, record_dispatch}
use hashi_bot.Exec.Repository.{is_reserved, reserve_idempotency, record_over}
use hashi_bot.Exec.Queue.{enqueue}
use hashi_bot.Exec.Queue.Total.{total, total-append}

-- A store without anything in it: `empty` of storage.ts, and what `clear` leaves.
abbrev pub empty : {N : Type 0} → Store N
empty = record {
  profiles = [];
  runtime = [];
  commands = [];
  dead_letters = [];
  dispatch_history = [];
  events = [];
  verification_history = [];
  worker_state = [];
  idempotency_records = [];
  recovery_count = 0;
  duplicate_prevention_count = 0;
}

abbrev pub one_if : Bool → ℕ
one_if true = 1
one_if false = 0

-- 1 if the key has a record without an end.
abbrev pub forever : Option IdempotencyRecord → ℕ
forever none = 0
forever (some r) = one_if (not (is_some r.expires_at))

module _ {N : Type 0} ⦃num : Number N⦄ where
  abbrev pub counts : String → ExecutionCommand N → ℕ
  counts key c = one_if (c.idempotency_key == key)

  -- The commands with the key, live or dead.
  abbrev pub copies : String → Store N → ℕ
  copies key s = total (counts key) s.commands +ℕ total (counts key) s.dead_letters

  abbrev pub reserved : String → Store N → ℕ
  reserved key s = forever (lookup key s.idempotency_records)

  pub counts-same :
      (key : String) (c d : ExecutionCommand N)
      → c.idempotency_key ≡ d.idempotency_key
      → c.retry_count ≡ d.retry_count
      → counts key c ≡ counts key d
  counts-same key c d k r = ap (λ k. one_if (k == key)) k

  pub record_dispatch-kept :
      (key k : String) (s : Store N)
      → (copies key (record_dispatch k s) ≡ copies key s)
        × (reserved key (record_dispatch k s) ≡ reserved key s)
  unfolding record_dispatch
  record_dispatch-kept key k s = ground arith

  -- An insertion adds the command or nothing.
  insert-copies :
      (key : String) (c : ExecutionCommand N) (s : Store N)
      → copies key (insert_command c s).1 ≤ copies key s +ℕ counts key c
  unfolding insert_command
  insert-copies key c s = ground (arith, total-append (counts key) s.commands (c ∷ []))

  insert-reserved :
      (key : String) (c : ExecutionCommand N) (s : Store N)
      → reserved key (insert_command c s).1 ≡ reserved key s
  unfolding insert_command
  insert-reserved key c s = ground arith

module _ {N : Type 0} ⦃num : Number N⦄ (clock : Clock N) where
  -- A record without an end is in force.
  not_reserved-forever :
      (now : N) (found : Option IdempotencyRecord)
      → is_reserved clock now found ≡ false
      → forever found ≡ 0
  not_reserved-forever now none e = omega arith
  not_reserved-forever now (some r) e = elim (Option-cases r.expires_at) [
    | inl n ↦ cc (rw n at e)
    | inr (at, f) ↦ rw f (omega arith)
  ]

  reserve-copies :
      (now : N) (key k id : String) (ttl : Option N) (s : Store N)
      → copies key (reserve_idempotency clock now k id ttl s).1 ≡ copies key s
  unfolding reserve_idempotency
  reserve-copies now key k id ttl s = ground arith

  -- A reservation without an end, where none is in force.
  reserve-grants :
      (now : N) (key k id : String) (s : Store N)
      → (reserve_idempotency clock now k id none s).0 ≡ true
      → (reserved key (reserve_idempotency clock now k id none s).1
          ≡ (if key == k then 1 else reserved key s))
        × (reserved k s ≡ 0)
  unfolding reserve_idempotency
  reserve-grants now key k id s e = ground (
    arith,
    eq_iff key k,
    not_reserved-forever now (lookup k s.idempotency_records),
    lookup-set_same k (record { command_id = id; created_at = clock.iso now; expires_at = none })
        s.idempotency_records,
    lookup-set_other key k
        (record { command_id = id; created_at = clock.iso now; expires_at = none })
        s.idempotency_records,
  )

  reserve-refuses :
      (now : N) (key k id : String) (s : Store N)
      → (reserve_idempotency clock now k id none s).0 ≡ false
      → reserved key (reserve_idempotency clock now k id none s).1 ≡ reserved key s
  unfolding reserve_idempotency
  reserve-refuses now key k id s e = ground arith

  pub enqueue-guarded :
      (now : N) (c : ExecutionCommand N) (s : Store N) (key : String)
      → copies key s ≤ reserved key s
      → copies key (enqueue clock now c s).1 ≤ reserved key (enqueue clock now c s).1
  unfolding enqueue
  enqueue-guarded now c s key h =
      let k = c.idempotency_key in
      let s1 = (reserve_idempotency clock now k c.command_id none s).1 in
      elim (Bool-cases (reserve_idempotency clock now k c.command_id none s).0) [
        | inl t ↦
            let (grant, free) = reserve-grants now key k c.command_id s t in
            let more = insert-copies key c s1 in
            let before = reserve-copies now key k c.command_id none s in
            let kept = insert-reserved key c s1 in
            elim (Bool-cases (key == k)) [
              | inl e ↦
                  let none_yet : reserved key s ≡ 0 =
                    ap (λ k. reserved k s) ((eq_iff key k).0 e) ∙ free in
                  rw t (ground (arith, h, rw e at grant, none_yet, more, before, kept))
              | inr e ↦
                  rw t (
                    ground
                      (arith, h, rw e at grant, more, before, kept, eq_iff key k, eq_iff k key))
            ]
        | inr t ↦ rw t (
            omega (
              arith,
              h,
              reserve-copies now key k c.command_id none s,
              reserve-refuses now key k c.command_id s t,
            ))
      ]

  -- Cleaning up keeps the records without an end.
  pub cleanup-forever :
      (now : N) (key : String) (m : List (String × IdempotencyRecord))
      → forever (lookup key m)
        ≤ forever (lookup key (keep (λ entry. not (record_over clock now entry.1)) m))
  cleanup-forever now key [] = omega arith
  cleanup-forever now key (entry ∷ m) = elim (Option-cases entry.1.expires_at) [
    | inl n ↦ ground (arith, cleanup-forever now key m)
    | inr (at, e) ↦ ground (arith, cleanup-forever now key m)
  ]
