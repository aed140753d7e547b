-- ===== src/Exec/AtMostOnce.antt =====
-- At most one command for an idempotency key (v2/src/execution-core).
use hashi_bot.Base.{ℕ, ◌≤◌, String, ◌≡◌, refl, ap, ◌∙◌, Bool, Option, List, [], ◌∷◌, take, arith}
use hashi_bot.Base.Number.{Number}
use hashi_bot.Base.Sort.{sort}
use hashi_bot.Exec.Types.{ExecutionCommand, FailureCategory, CommandStatus, Store, Clock}
use hashi_bot.Exec.Commands.{
  list_commands, move_to_dead_letter, save_profile, upsert_runtime, save_worker_state,
  record_verification, clear_events,
}
use hashi_bot.Exec.Repository.{compare_and_set_command, update_command, recover, cleanup, publish}
use hashi_bot.Exec.Queue.{
  QueueConfig, is_due, sooner, try_lease, lease_each, lease, renew_lease, release_lease, mark,
  mark_as, mark_failed, schedule_retry,
}
use hashi_bot.Exec.Queue.Total.{
  total, renew-total, release-total, lease-total, mark-total, recover-total,
}
use hashi_bot.Exec.Reserved.{
  copies, counts, counts-same, reserved, enqueue-guarded, cleanup-forever, record_dispatch-kept,
}
use hashi_bot.Exec.Machine.{Reachable, schedule_retry-copies}

module _ {N : Type 0} ⦃num : Number N⦄ where
  -- All but the live commands.
  abbrev rest : Store N → Store N
  rest s = record s { commands = [] }

module _ {N : Type 0} ⦃num : Number N⦄ (clock : Clock N) where
  cas-rest :
      (now : N) (id : String) (expected : ExecutionCommand N → Bool)
      (patch : ExecutionCommand N → ExecutionCommand N) (s : Store N)
      → rest (compare_and_set_command clock now id expected patch s).1 ≡ rest s
  unfolding compare_and_set_command
  cas-rest now id expected patch s = ground arith

module _ {N : Type 0} ⦃num : Number N⦄ (clock : Clock N) (config : QueueConfig N) where
  lease_each-rest :
      (now : N) (worker_id : String) (cs : List (ExecutionCommand N)) (s : Store N)
      → rest (lease_each clock config now worker_id cs s).1 ≡ rest s
  unfolding lease_each
  lease_each-rest now worker_id [] s = refl
  lease_each-rest now worker_id (c ∷ cs) s =
      lease_each-rest now worker_id cs (try_lease clock config now worker_id c s).1
      ∙ cas-rest clock now c.command_id _ _ s

  lease-rest :
      (now : N) (worker_id : String) (size : ℕ) (s : Store N)
      → rest (lease clock config now worker_id size s).1 ≡ rest s
  unfolding lease
  lease-rest now worker_id size s =
      lease_each-rest now worker_id
        (take size (sort (sooner clock) (list_commands (is_due clock now) s))) s

  renew-rest :
      (now : N) (id worker_id : String) (s : Store N)
      → rest (renew_lease clock config now id worker_id s).1 ≡ rest s
  unfolding renew_lease
  renew-rest now id worker_id s = cas-rest clock now id _ _ s

  release-rest :
      (now : N) (id worker_id : String) (s : Store N)
      → rest (release_lease clock now id worker_id s).1 ≡ rest s
  unfolding release_lease
  release-rest now id worker_id s = cas-rest clock now id _ _ s

  mark_failed-rest :
      (now : N) (id reason : String) (category : FailureCategory) (s : Store N)
      → rest (mark_failed clock now id reason category s).1 ≡ rest s
  unfolding mark_failed mark update_command
  mark_failed-rest now id reason category s = refl

  mark_failed-total :
      (now : N) (id reason : String) (category : FailureCategory) (s : Store N) (key : String)
      → total (counts key) (mark_failed clock now id reason category s).1.commands
        ≡ total (counts key) s.commands
  unfolding mark_failed
  mark_failed-total now id reason category s key =
      mark-total clock config (counts key) (counts-same key) now id CommandStatus.failed _ s
        (λ c. refl)

  schedule_retry-reserved :
      (now : N) (id : String) (retry_at reason : Option String) (category : FailureCategory)
      (s : Store N) (key : String)
      → reserved key (schedule_retry clock config now id retry_at reason category s).1
        ≡ reserved key s
  unfolding schedule_retry mark update_command move_to_dead_letter
  schedule_retry-reserved now id retry_at reason category s key = ground arith

  abbrev Guarded : String → Store N → Type 0
  Guarded key s = copies key s ≤ reserved key s

  Guarded-rest :
      (key : String) (s t : Store N)
      → total (counts key) t.commands ≡ total (counts key) s.commands
      → rest t ≡ rest s
      → Guarded key s
      → Guarded key t
  Guarded-rest key s t e r h =
      omega (arith, h, e, ap (λ r. total (counts key) r.dead_letters) r, ap (reserved key) r)

  -- In every store that calls of the queue, of the events and of the modelled steps of the repository
  -- reach from an empty one, the commands with an idempotency key, live and dead together, are at most one, and none unless the key is reserved without an end.
  pub Reachable-AtMostOnce :
      (s : Store N) → Reachable clock config s → (key : String) → copies key s ≤ reserved key s
  unfolding mark update_command recover cleanup publish clear_events save_profile upsert_runtime
      save_worker_state record_verification
  Reachable-AtMostOnce s Reachable.start key = omega arith
  Reachable-AtMostOnce t (Reachable.enqueued now c {s} r) key =
      enqueue-guarded clock now c s key (Reachable-AtMostOnce s r key)
  Reachable-AtMostOnce t (Reachable.leased now worker_id size {s} r) key =
      Guarded-rest key s (lease clock config now worker_id size s).1
        (lease-total clock config (counts key) (counts-same key) now worker_id size s)
        (lease-rest now worker_id size s) (Reachable-AtMostOnce s r key)
  Reachable-AtMostOnce t (Reachable.renewed now id worker_id {s} r) key =
      Guarded-rest key s (renew_lease clock config now id worker_id s).1
        (renew-total clock config (counts key) (counts-same key) now id worker_id s)
        (renew-rest now id worker_id s) (Reachable-AtMostOnce s r key)
  Reachable-AtMostOnce t (Reachable.released now id worker_id {s} r) key =
      Guarded-rest key s (release_lease clock now id worker_id s).1
        (release-total clock config (counts key) (counts-same key) now id worker_id s)
        (release-rest now id worker_id s) (Reachable-AtMostOnce s r key)
  Reachable-AtMostOnce t (Reachable.marked now id status {s} r) key =
      Guarded-rest key s (mark_as clock now id status s)
        (mark-total clock config (counts key) (counts-same key) now id status (λ c. c) s
          (λ c. refl))
        refl (Reachable-AtMostOnce s r key)
  Reachable-AtMostOnce t (Reachable.marked_failed now id reason category {s} r) key =
      Guarded-rest key s (mark_failed clock now id reason category s).1
        (mark_failed-total now id reason category s key) (mark_failed-rest now id reason category s)
        (Reachable-AtMostOnce s r key)
  Reachable-AtMostOnce t (Reachable.retried now id retry_at reason category {s} r) key = omega (
    arith,
    Reachable-AtMostOnce s r key,
    schedule_retry-copies clock config now id retry_at reason category s key,
    schedule_retry-reserved now id retry_at reason category s key,
  )
  Reachable-AtMostOnce t (Reachable.recovered now {s} r) key = omega (
    arith,
    Reachable-AtMostOnce s r key,
    recover-total clock config (counts key) (counts-same key) now s,
  )
  Reachable-AtMostOnce t (Reachable.cleaned now ttl_ms {s} r) key =
      omega
        (arith, Reachable-AtMostOnce s r key, cleanup-forever clock now key s.idempotency_records)
  Reachable-AtMostOnce t (Reachable.published now type payload {s} r) key =
      Reachable-AtMostOnce s r key
  Reachable-AtMostOnce t (Reachable.forgot_events {s} r) key = Reachable-AtMostOnce s r key
  Reachable-AtMostOnce t (Reachable.saved_profile profile {s} r) key = Reachable-AtMostOnce s r key
  Reachable-AtMostOnce t (Reachable.saved_runtime runtime {s} r) key = Reachable-AtMostOnce s r key
  Reachable-AtMostOnce t (Reachable.dispatched k {s} r) key =
      omega (arith, Reachable-AtMostOnce s r key, record_dispatch-kept key k s)
  Reachable-AtMostOnce t (Reachable.saved_worker worker {s} r) key = Reachable-AtMostOnce s r key
  Reachable-AtMostOnce t (Reachable.verified entry {s} r) key = Reachable-AtMostOnce s r key
