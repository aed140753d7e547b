-- ===== src/Exec/Replay.antt =====
-- The numbering of the events and their replay (v2/src/execution-core/events.ts).
use Prim.Native.Nat.{◌+◌ as ◌+ℕ◌}
use hashi_bot.Base.{
  ℕ, zero, suc, ltb, ◌≤◌, ◌≡◌, refl, ap, ◌∙◌, List, [], ◌∷◌, ◌++◌, keep, drop, length, arith,
}
use hashi_bot.Base.Number.{Number}
use hashi_bot.Exec.Types.{ExecutionEvent, ExecutionEventType, EventPayload, Store, Clock}
use hashi_bot.Exec.Commands.{replay, clear_events}
use hashi_bot.Exec.Repository.{publish}

module _ {N : Type 0} where
  -- The events are numbered one by one, from the one after `n`.
  abbrev pub Numbered : ℕ → List (ExecutionEvent N) → Type 0
  Numbered n [] = Unit
  Numbered n (e ∷ es) = (e.sequence ≡ suc n) × Numbered (suc n) es

  Numbered-append :
      (n : ℕ) (es : List (ExecutionEvent N)) (e : ExecutionEvent N)
      → Numbered n es
      → e.sequence ≡ suc (n +ℕ length es)
      → Numbered n (es ++ (e ∷ []))
  Numbered-append n [] e h q = (omega (arith, q), tt)
  Numbered-append n (d ∷ es) e (k, h) q = (k, Numbered-append (suc n) es e h (omega (arith, q)))

  after-all :
      (n k : ℕ) (es : List (ExecutionEvent N))
      → Numbered n es
      → k ≤ n
      → keep (λ e. ltb k e.sequence) es ≡ es
  after-all n k [] h le = refl
  after-all n k (e ∷ es) (q, h) le = ground (arith, q, le, after-all (suc n) k es h)

  after-drop :
      (n k : ℕ) (es : List (ExecutionEvent N))
      → Numbered n es
      → keep (λ e. ltb (n +ℕ k) e.sequence) es ≡ drop k es
  after-drop n zero es h = after-all n (n +ℕ 0) es h (omega arith)
  after-drop n (suc k) [] h = refl
  after-drop n (suc k) (e ∷ es) (q, h) =
      let shift : n +ℕ suc k ≡ suc n +ℕ k = omega arith in
      let later : keep (λ e. ltb (n +ℕ suc k) e.sequence) es ≡ drop k es =
        ap (λ m. keep (λ e. ltb m e.sequence) es) shift ∙ after-drop (suc n) k es h in
      ground (arith, q, later)

module _ {N : Type 0} ⦃num : Number N⦄ (clock : Clock N) where
  -- A log that was emptied once and is not cleaned up since: events are published, and the other operations
  -- leave it as it is.
  pub data Logged : Store N → Type 0 where
    cleared : (s : Store N) → Logged (clear_events s)
    published :
        (now : N) (type : ExecutionEventType) (payload : EventPayload N) {s : Store N}
        → Logged s
        → Logged (publish clock now type payload s)
    elsewhere : {s t : Store N} → t.events ≡ s.events → Logged s → Logged t

  Logged-Numbered : (s : Store N) → Logged s → Numbered 0 s.events
  unfolding publish clear_events
  Logged-Numbered t (Logged.cleared s) = tt
  Logged-Numbered t (Logged.published now type payload {s} l) =
      Numbered-append 0 s.events
        (record {
          sequence = suc (length s.events);
          type = type;
          timestamp = clock.iso now;
          payload = payload;
        })
        (Logged-Numbered s l) (omega arith)
  Logged-Numbered t (Logged.elsewhere {s} e l) = rw e (Logged-Numbered s l)

  -- As long as the log is not cleaned up, the replay after a sequence number k gives the events but the first
  -- k, in their order.
  pub replay-drop : (s : Store N) → Logged s → (k : ℕ) → replay k s ≡ drop k s.events
  unfolding replay
  replay-drop s l k =
      let from_zero : k ≡ 0 +ℕ k = omega arith in
      ap (λ m. keep (λ e. ltb m e.sequence) s.events) from_zero
      ∙ after-drop 0 k s.events (Logged-Numbered s l)
