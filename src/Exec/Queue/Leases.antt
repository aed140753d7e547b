-- ===== src/Exec/Queue/Leases.antt =====
-- Who holds what after a lease (v2/src/execution-core/queue.ts).
use hashi_bot.Base.{
  ℕ, suc, ◌≤◌, ◌≢◌, All-map, All-take, length-take, String, ◌≡◌, true, Option, none, some, List, [],
  ◌∷◌, find, keep, take, length, All, arith, Bool-cases, inl, inr,
}
use hashi_bot.Base.Number.{Number}
use hashi_bot.Base.Sort.{sort, All-sort}
use hashi_bot.Exec.Types.{ExecutionCommand, Store, Clock}
use hashi_bot.Exec.Commands.{has_id, list_commands}
use hashi_bot.Exec.Queue.{QueueConfig, is_due, sooner, push_found, try_lease, lease_each, lease}
use hashi_bot.Exec.Queue.Leased.{
  waits, live, Granted, leased-waits, lease_each-kept, try_lease-waits, try_lease-grants,
  Granted-push,
}

module _ {N : Type 0} ⦃num : Number N⦄ (clock : Clock N) (config : QueueConfig N) where
  lease_each-Granted :
      (now : N) (worker_id : String) (cs : List (ExecutionCommand N)) (s : Store N)
      → All (λ c. waits c ≡ true) cs
      → All
          (Granted worker_id s (lease_each clock config now worker_id cs s).1)
          (lease_each clock config now worker_id cs s).0
  unfolding lease_each
  lease_each-Granted now worker_id [] s ws = tt
  lease_each-Granted now worker_id (c ∷ cs) s (w, ws) =
      let mid = (try_lease clock config now worker_id c s).1 in
      let last = (lease_each clock config now worker_id cs mid).1 in
      let rest =
        All-map (Granted worker_id mid last) (Granted worker_id s last)
          (lease_each clock config now worker_id cs mid).0
          (λ d g. (try_lease-waits clock config now worker_id d.command_id c s g.0, g.1, g.2))
          (lease_each-Granted now worker_id cs mid ws) in
      elim (Bool-cases (try_lease clock config now worker_id c s).0) [
        | inl t ↦
            let g = try_lease-grants clock config now worker_id c s w t in
            rw t (
              Granted-push clock config now worker_id c s mid last
                (lease_each clock config now worker_id cs mid).0 g.0 g.1
                (λ d v e. lease_each-kept clock config now worker_id c.command_id d cs mid ws v e)
                rest)
        | inr t ↦ rw t rest
      ]

  length-push_found :
      (found : Option (ExecutionCommand N)) (rest : List (ExecutionCommand N))
      → length (push_found found rest) ≤ suc (length rest)
  length-push_found none rest = omega arith
  length-push_found (some c) rest = omega arith

  length-lease_each :
      (now : N) (worker_id : String) (cs : List (ExecutionCommand N)) (s : Store N)
      → length (lease_each clock config now worker_id cs s).0 ≤ length cs
  unfolding lease_each
  length-lease_each now worker_id [] s = omega arith
  length-lease_each now worker_id (c ∷ cs) s =
      let next = (try_lease clock config now worker_id c s).1 in
      ground (
        arith,
        length-lease_each now worker_id cs next,
        length-push_found (find (has_id c.command_id) next.commands)
            (lease_each clock config now worker_id cs next).0,
      )

  due-waits :
      (now : N) (cs : List (ExecutionCommand N))
      → All (λ c. waits c ≡ true) (keep (is_due clock now) cs)
  due-waits now [] = tt
  due-waits now (c ∷ cs) = elim (Bool-cases (is_due clock now c)) [
    | inl t ↦ rw t (ground arith, due-waits now cs)
    | inr t ↦ rw t (due-waits now cs)
  ]

  -- A lease with a batch size returns at most so many commands. Each of them waited before; after it, it is
  -- the command that is found under its identifier, with the status leased and the worker as its holder.
  pub lease-Granted :
      (now : N) (worker_id : String) (batch_size : ℕ) (s : Store N)
      → (length (lease clock config now worker_id batch_size s).0 ≤ batch_size)
        × All
            (Granted worker_id s (lease clock config now worker_id batch_size s).1)
            (lease clock config now worker_id batch_size s).0
  unfolding lease list_commands
  lease-Granted now worker_id batch_size s =
      let due = sort (sooner clock) (keep (is_due clock now) s.commands) in
      (
        omega (
          arith,
          length-lease_each now worker_id (take batch_size due) s,
          length-take batch_size due,
        ),
        lease_each-Granted now worker_id (take batch_size due) s (
            All-take (λ c. waits c ≡ true) batch_size due
              (All-sort (sooner clock) (λ c. waits c ≡ true) (keep (is_due clock now) s.commands)
                (due-waits now s.commands))),
      )

  apart :
      (worker_id worker' : String) (s mid last : Store N) (c d : ExecutionCommand N)
      → Granted worker_id s mid c
      → Granted worker' mid last d
      → c.command_id ≢ d.command_id
  apart worker_id worker' s mid last c d (w, f, l) (w', f', l') e =
      let here : live waits c.command_id mid ≡ true = rw e w' in
      ground (arith, leased-waits worker_id c l)

  -- Two leases, one after the other, never return the same command, whoever asks and whatever the clock says.
  pub lease-exclusive :
      (now now' : N) (worker_id worker' : String) (size size' : ℕ) (s : Store N)
      → All
          (λ c.
            All
              (λ d. c.command_id ≢ d.command_id)
              (lease clock config now' worker' size' (lease clock config now worker_id size s).1).0)
          (lease clock config now worker_id size s).0
  lease-exclusive now now' worker_id worker' size size' s =
      let first = lease clock config now worker_id size s in
      let second = lease clock config now' worker' size' first.1 in
      All-map (Granted worker_id s first.1) (λ c. All (λ d. c.command_id ≢ d.command_id) second.0)
        first.0
        (λ c g.
          All-map (Granted worker' first.1 second.1) (λ d. c.command_id ≢ d.command_id) second.0
            (λ d g'. apart worker_id worker' s first.1 second.1 c d g g')
            (lease-Granted now' worker' size' first.1).1)
        (lease-Granted now worker_id size s).1
