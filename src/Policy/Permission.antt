-- ===== src/Policy/Permission.antt =====
-- When an intent may be executed.
use mathlib.Core.Path.{subst}
use hashi_bot.Base.{
  Bool, not, is_some, ap, ◌∙◌, ◌||◌, ◌≡◌, refl, ◌↔◌, ◌⊎◌, true, false, Option, none, or_else, arith,
  sym, inl, inr, Option-cases,
}
use hashi_bot.Base.Number.{Number, int}
use hashi_bot.Policy.{
  build_execution_intent, build_live_intent, signal_only_intent, blocked_reason_of, locked, is_prop,
  locked_mode_governance_defaults, by_mode,
}
use hashi_bot.Policy.Types.{
  LiveMode, live_prop, ExecutionMode, signal_only, live, ExecutionIntentInput, GovernanceLocks,
}

live-injective : {m n : LiveMode} → live m ≡ live n → m ≡ n
live-injective e = cc

-- One of the three locks is active.
abbrev pub any_lock : Option GovernanceLocks → Bool
any_lock locks =
    locked locks (λ l. l.daily_loss_lock_active)
    || locked locks (λ l. l.trailing_drawdown_lock_active)
    || locked locks (λ l. l.max_consecutive_loss_lock_active)

module _ {N : Type 0} ⦃num : Number N⦄ where
  open num use {lit, abs, min, max, lt, le}

  -- The open risk does not reach the cap, and in prop mode no lock is active.
  abbrev pub MayExecute : LiveMode → ExecutionIntentInput N → Type 0
  MayExecute mode i =
      (le
          (or_else i.max_simultaneous_open_risk_pct_override
            (locked_mode_governance_defaults mode).max_simultaneous_open_risk_pct)
          (or_else i.current_open_risk_pct (int 0))
        ≡ false)
      × ((is_prop mode ≡ false)
          ⊎ ((locked i.governance_locks (λ l. l.daily_loss_lock_active) ≡ false)
              × (locked i.governance_locks (λ l. l.trailing_drawdown_lock_active) ≡ false)
              × (locked i.governance_locks (λ l. l.max_consecutive_loss_lock_active) ≡ false)))

  blocked_reason_of-lem :
      (mode : LiveMode) (open_risk cap : N) (locks : Option GovernanceLocks)
      → (blocked_reason_of mode open_risk cap locks ≡ none) ↔ (
          (le cap open_risk ≡ false)
          × ((is_prop mode ≡ false)
              ⊎ ((locked locks (λ l. l.daily_loss_lock_active) ≡ false)
                  × (locked locks (λ l. l.trailing_drawdown_lock_active) ≡ false)
                  × (locked locks (λ l. l.max_consecutive_loss_lock_active) ≡ false))))
  unfolding blocked_reason_of
  blocked_reason_of-lem mode open_risk cap locks = ground arith

  build_live_intent-allowed :
      (mode : LiveMode) (i : ExecutionIntentInput N)
      → ((build_live_intent mode i).execution_allowed ≡ true) ↔ MayExecute mode i
  unfolding build_live_intent
  build_live_intent-allowed mode i =
      let cap =
        or_else i.max_simultaneous_open_risk_pct_override
          (locked_mode_governance_defaults mode).max_simultaneous_open_risk_pct in
      let open_risk = or_else i.current_open_risk_pct (int 0) in
      let reasons = blocked_reason_of-lem mode open_risk cap i.governance_locks in
      elim (Option-cases (blocked_reason_of mode open_risk cap i.governance_locks)) [
        | inl e ↦ rw e (λ _. reasons.0 e, λ _. refl)
        | inr (r, e) ↦ rw e (λ h. absurd (cc h), λ h. cc (e, reasons.1 h))
      ]

  by_mode-allowed :
      (mode : ExecutionMode) (i : ExecutionIntentInput N)
      → ((by_mode mode i).execution_allowed ≡ true)
        ↔ ((m : LiveMode) × (mode ≡ live m) × MayExecute m i)
  unfolding signal_only_intent
  by_mode-allowed signal_only i = (λ h. absurd (cc h), λ h. absurd (cc h.1))
  by_mode-allowed (live mode) i = (
    λ h. (mode, refl, (build_live_intent-allowed mode i).0 h),
    λ h.
        (build_live_intent-allowed mode i).1
          (subst (λ m. MayExecute m i) (sym (live-injective h.1)) h.2),
  )

  -- An intent may be executed exactly if its mode is live, the open risk does not reach the cap and, in
  -- prop mode, no lock is active.
  pub build_execution_intent-allowed :
      (i : ExecutionIntentInput N)
      → ((build_execution_intent i).execution_allowed ≡ true)
        ↔ ((mode : LiveMode) × (i.mode ≡ live mode) × MayExecute mode i)
  unfolding build_execution_intent
  build_execution_intent-allowed i = by_mode-allowed i.mode i

  build_live_intent-reason :
      (mode : LiveMode) (i : ExecutionIntentInput N)
      → let out = build_live_intent mode i in
        out.execution_allowed ≡ not (is_some out.blocked_reason)
  unfolding build_live_intent
  build_live_intent-reason mode i = refl

  by_mode-reason :
      (mode : ExecutionMode) (i : ExecutionIntentInput N)
      → let out = by_mode mode i in out.execution_allowed ≡ not (is_some out.blocked_reason)
  unfolding signal_only_intent
  by_mode-reason signal_only i = refl
  by_mode-reason (live mode) i = build_live_intent-reason mode i

  -- An intent is allowed exactly if it has no blocked reason.
  pub build_execution_intent-reason :
      (i : ExecutionIntentInput N)
      → let out = build_execution_intent i in
        out.execution_allowed ≡ not (is_some out.blocked_reason)
  unfolding build_execution_intent
  build_execution_intent-reason i = by_mode-reason i.mode i

  build_live_intent-locked :
      (i : ExecutionIntentInput N)
      → any_lock i.governance_locks ≡ true
      → (build_live_intent live_prop i).execution_allowed ≡ false
  unfolding build_live_intent blocked_reason_of
  build_live_intent-locked i l = ground arith

  pub build_execution_intent-locked :
      (i : ExecutionIntentInput N)
      → i.mode ≡ live live_prop
      → any_lock i.governance_locks ≡ true
      → (build_execution_intent i).execution_allowed ≡ false
  unfolding build_execution_intent
  build_execution_intent-locked i e l =
      ap (λ m. (by_mode m i).execution_allowed) e ∙ build_live_intent-locked i l
