-- ===== src/Exec/Manager/Kept.antt =====
-- What stays dispatched in a store (v2/src/execution-core/queue.ts, manager.ts).
use text.Mathlib.Text.{◌==◌}
use hashi_bot.Base.{
  ℕ, zero, suc, ◌≢◌, String, ◌≡◌, refl, ◌∙◌, Bool, true, false, exists-append, Option-cases, none,
  List, [], ◌∷◌, All, arith, Bool-cases, inl, inr,
}
use Prim.Native.Nat.{◌+◌ as ◌+ℕ◌}
use hashi_bot.Base.Number.{Number}
use hashi_bot.Base.Dict.{lookup, lookup-set_same, is_some-set}
use hashi_bot.Exec.Types.{IdempotencyRecord, ExecutionCommand, Store, Clock}
use hashi_bot.Exec.Commands.{insert_command, has_dispatched}
use hashi_bot.Exec.Repository.{is_reserved, reserve_idempotency, recover, publish}
use hashi_bot.Exec.Queue.{enqueue}
use hashi_bot.Exec.Manager.{manager_recover, announce, announce_recovered, queue_commands}

module _ {N : Type 0} ⦃num : Number N⦄ where
  insert-dispatched :
      (key : String) (c : ExecutionCommand N) (s : Store N)
      → has_dispatched key (insert_command c s).1 ≡ has_dispatched key s
  unfolding insert_command has_dispatched
  insert-dispatched key c s = ground arith

  pub not_before :
      (next s : Store N) (key : String)
      → (has_dispatched key s ≡ true → has_dispatched key next ≡ true)
      → has_dispatched key next ≡ false
      → has_dispatched key s ≡ false
  not_before next s key keeps n = elim (Bool-cases (has_dispatched key s)) [
    | inl t ↦ cc (keeps t, n)
    | inr f ↦ f
  ]

  pub clash :
      (s : Store N) (key other : String)
      → has_dispatched key s ≡ true
      → has_dispatched other s ≡ false
      → key ≢ other
  clash s key other t f e = cc (t, f, e)

module _ {N : Type 0} ⦃num : Number N⦄ (clock : Clock N) where
  -- A reservation leaves its key dispatched, and forgets none.
  reserve-dispatched :
      (now : N) (k id : String) (s : Store N)
      → has_dispatched k (reserve_idempotency clock now k id none s).1 ≡ true
  unfolding reserve_idempotency has_dispatched
  reserve-dispatched now k id s =
      elim (Bool-cases (is_reserved clock now (lookup k s.idempotency_records))) [
        | inl t ↦ elim (Option-cases (lookup k s.idempotency_records)) [
          | inl n ↦ cc (rw n at t)
          | inr (r, e) ↦ ground (arith, t, e)
        ]
        | inr t ↦
            let value : IdempotencyRecord = record {
              command_id = id;
              created_at = clock.iso now;
              expires_at = none;
            } in
            ground (arith, t, lookup-set_same k value s.idempotency_records)
      ]

  reserve-keeps :
      (now : N) (key k id : String) (s : Store N)
      → has_dispatched key s ≡ true
      → has_dispatched key (reserve_idempotency clock now k id none s).1 ≡ true
  unfolding reserve_idempotency has_dispatched
  reserve-keeps now key k id s h =
      let value : IdempotencyRecord = record {
        command_id = id;
        created_at = clock.iso now;
        expires_at = none;
      } in
      ground (
        arith,
        h,
        exists-append (λ t. t == key) s.dispatch_history (k ∷ []),
        is_some-set key k value s.idempotency_records,
      )

  enqueue-dispatched :
      (now : N) (c : ExecutionCommand N) (s : Store N)
      → has_dispatched c.idempotency_key (enqueue clock now c s).1 ≡ true
  unfolding enqueue
  enqueue-dispatched now c s =
      let k = c.idempotency_key in
      let reserved = reserve_idempotency clock now k c.command_id none s in
      ground (arith, reserve-dispatched now k c.command_id s, insert-dispatched k c reserved.1)

  enqueue-keeps :
      (now : N) (key : String) (c : ExecutionCommand N) (s : Store N)
      → has_dispatched key s ≡ true
      → has_dispatched key (enqueue clock now c s).1 ≡ true
  unfolding enqueue
  enqueue-keeps now key c s h =
      let reserved = reserve_idempotency clock now c.idempotency_key c.command_id none s in
      ground (
        arith,
        reserve-keeps now key c.idempotency_key c.command_id s h,
        insert-dispatched key c reserved.1,
      )

  announce-dispatched :
      (now : N) (key : String) (c : ExecutionCommand N) (queued : Bool) (s : Store N)
      → has_dispatched key (announce clock now c queued s) ≡ has_dispatched key s
  unfolding publish has_dispatched
  announce-dispatched now key c true s = refl
  announce-dispatched now key c false s = refl

  pub queue_commands-keeps :
      (time : ℕ → N) (key : String) (cs : List (ExecutionCommand N)) (s : Store N)
      → has_dispatched key s ≡ true
      → has_dispatched key (queue_commands clock time cs s) ≡ true
  unfolding queue_commands
  queue_commands-keeps time key [] s h = h
  queue_commands-keeps time key (c ∷ cs) s h =
      let (result, next) = enqueue clock (time 0) c s in
      queue_commands-keeps (λ k. time (2 +ℕ k)) key cs
        (announce clock (time 1) c result.enqueued next)
        (announce-dispatched (time 1) key c result.enqueued next ∙ enqueue-keeps (time 0) key c s h)

  pub queue_commands-dispatched :
      (time : ℕ → N) (cs : List (ExecutionCommand N)) (s : Store N)
      → All (λ c. has_dispatched c.idempotency_key (queue_commands clock time cs s) ≡ true) cs
  unfolding queue_commands
  queue_commands-dispatched time [] s = tt
  queue_commands-dispatched time (c ∷ cs) s =
      let (result, next) = enqueue clock (time 0) c s in
      let announced = announce clock (time 1) c result.enqueued next in
      (
        queue_commands-keeps (λ k. time (2 +ℕ k)) c.idempotency_key cs announced
            (announce-dispatched (time 1) c.idempotency_key c result.enqueued next
              ∙ enqueue-dispatched (time 0) c s),
        queue_commands-dispatched (λ k. time (2 +ℕ k)) cs announced,
      )

  announce_recovered-dispatched :
      (now : N) (key : String) (n : ℕ) (s : Store N)
      → has_dispatched key (announce_recovered clock now n s) ≡ has_dispatched key s
  unfolding publish has_dispatched
  announce_recovered-dispatched now key zero s = refl
  announce_recovered-dispatched now key (suc n) s = refl

  pub manager_recover-dispatched :
      (time : ℕ → N) (key : String) (s : Store N)
      → has_dispatched key (manager_recover clock time s).1 ≡ has_dispatched key s
  unfolding manager_recover recover has_dispatched
  manager_recover-dispatched time key s =
      announce_recovered-dispatched (time 1) key (recover clock (time 0) s).0
        (recover clock (time 0) s).1
