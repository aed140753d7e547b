-- ===== src/Exec/Queue/Total.antt =====
-- A sum over commands, and what the queue's writes do to it (v2/src/execution-core).
use Prim.Native.Nat.{◌+◌ as ◌+ℕ◌}
use hashi_bot.Base.{
  ℕ, String, ◌≡◌, refl, ◌∙◌, Bool, some, List, [], ◌∷◌, ◌++◌, map, find, take, update_first,
  remove_first, arith,
}
use hashi_bot.Base.Number.{Number}
use hashi_bot.Base.Sort.{sort}
use hashi_bot.Exec.Types.{ExecutionCommand, CommandStatus, Store, Clock}
use hashi_bot.Exec.Commands.{has_id, list_commands}
use hashi_bot.Exec.Repository.{
  assigned, update_command, compare_and_set_command, recovered_command, recover,
}
use hashi_bot.Exec.Queue.{
  QueueConfig, is_due, sooner, lease_to, try_lease, lease_each, lease, renew_lease, release_lease,
  mark,
}

module _ {N : Type 0} ⦃num : Number N⦄ (w : ExecutionCommand N → ℕ) where
  abbrev pub total : List (ExecutionCommand N) → ℕ
  total [] = 0
  total (c ∷ cs) = w c +ℕ total cs

  pub total-update :
      (id : String) (f : ExecutionCommand N → ExecutionCommand N) (cs : List (ExecutionCommand N))
      → ((c : ExecutionCommand N) → w (f c) ≡ w c)
      → total (update_first (has_id id) f cs) ≡ total cs
  total-update id f [] k = refl
  total-update id f (c ∷ cs) k = ground (arith, k c, total-update id f cs k)

  pub total-change :
      (id : String) (f : ExecutionCommand N → ExecutionCommand N) (cs : List (ExecutionCommand N))
      (c : ExecutionCommand N)
      → find (has_id id) cs ≡ some c
      → total (update_first (has_id id) f cs) +ℕ w c ≡ total cs +ℕ w (f c)
  total-change id f [] c e = cc e
  total-change id f (d ∷ cs) c e = ground (arith, total-change id f cs c)

  pub total-remove :
      (id : String) (cs : List (ExecutionCommand N)) (c : ExecutionCommand N)
      → find (has_id id) cs ≡ some c
      → total (remove_first (has_id id) cs) +ℕ w c ≡ total cs
  total-remove id [] c e = cc e
  total-remove id (d ∷ cs) c e = ground (arith, total-remove id cs c)

  pub total-map :
      (f : ExecutionCommand N → ExecutionCommand N) (cs : List (ExecutionCommand N))
      → ((c : ExecutionCommand N) → w (f c) ≡ w c)
      → total (map f cs) ≡ total cs
  total-map f [] k = refl
  total-map f (c ∷ cs) k = ground (arith, k c, total-map f cs k)

  pub total-append : (xs ys : List (ExecutionCommand N)) → total (xs ++ ys) ≡ total xs +ℕ total ys
  total-append [] ys = omega arith
  total-append (c ∷ xs) ys = omega (arith, total-append xs ys)

-- A weight that depends on the idempotency key and on the retries only.
module _ {N : Type 0} ⦃num : Number N⦄ (clock : Clock N) (config : QueueConfig N)
    (w : ExecutionCommand N → ℕ)
    (same : (c d : ExecutionCommand N)
      → c.idempotency_key ≡ d.idempotency_key
      → c.retry_count ≡ d.retry_count
      → w c ≡ w d) where
  pub cas-total :
      (now : N) (id : String) (expected : ExecutionCommand N → Bool)
      (patch : ExecutionCommand N → ExecutionCommand N) (s : Store N)
      → ((c : ExecutionCommand N) → w (patch c) ≡ w c)
      → total w (compare_and_set_command clock now id expected patch s).1.commands
        ≡ total w s.commands
  unfolding compare_and_set_command
  cas-total now id expected patch s k = ground (
    arith,
    total-update w id (assigned clock now patch) s.commands
        (λ c. same (assigned clock now patch c) (patch c) refl refl ∙ k c),
  )

  pub renew-total :
      (now : N) (id worker_id : String) (s : Store N)
      → total w (renew_lease clock config now id worker_id s).1.commands ≡ total w s.commands
  unfolding renew_lease
  renew-total now id worker_id s = cas-total now id _ _ s (λ c. same _ c refl refl)

  pub release-total :
      (now : N) (id worker_id : String) (s : Store N)
      → total w (release_lease clock now id worker_id s).1.commands ≡ total w s.commands
  unfolding release_lease
  release-total now id worker_id s = cas-total now id _ _ s (λ c. same _ c refl refl)

  lease_each-total :
      (now : N) (worker_id : String) (cs : List (ExecutionCommand N)) (s : Store N)
      → total w (lease_each clock config now worker_id cs s).1.commands ≡ total w s.commands
  unfolding lease_each
  lease_each-total now worker_id [] s = refl
  lease_each-total now worker_id (c ∷ cs) s =
      lease_each-total now worker_id cs (try_lease clock config now worker_id c s).1
      ∙ cas-total now c.command_id _ (lease_to clock config now worker_id) s
          (λ c. same _ c refl refl)

  pub lease-total :
      (now : N) (worker_id : String) (size : ℕ) (s : Store N)
      → total w (lease clock config now worker_id size s).1.commands ≡ total w s.commands
  unfolding lease
  lease-total now worker_id size s =
      lease_each-total now worker_id
        (take size (sort (sooner clock) (list_commands (is_due clock now) s))) s

  pub mark-total :
      (now : N) (id : String) (status : CommandStatus)
      (extra : ExecutionCommand N → ExecutionCommand N) (s : Store N)
      → ((c : ExecutionCommand N) → w (extra c) ≡ w c)
      → total w (mark clock now id status extra s).1.commands ≡ total w s.commands
  unfolding mark update_command
  mark-total now id status extra s k =
      total-update w id (assigned clock now (λ c. record (extra c) { status = status })) s.commands
        (λ c.
          same (record (extra c) { status = status; updated_at = clock.iso now }) (extra c) refl
            refl
          ∙ k c)

  pub recover-total :
      (now : N) (s : Store N) → total w (recover clock now s).1.commands ≡ total w s.commands
  unfolding recover
  recover-total now s =
      total-map w (recovered_command clock now) s.commands
        (λ c. same (recovered_command clock now c) c (ground arith) (ground arith))
