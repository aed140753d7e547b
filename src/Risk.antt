-- ===== src/Risk.antt =====
-- packages/core/src/execution/risk-engines.ts: the checks of the two kinds of account. The clock
-- (`Date.now()`) and `new Date(text).getTime()` are parameters.
pub mod Types
pub mod Checks
mod Tests
use text.Mathlib.Text.{◌==◌}
use hashi_bot.Base.{
  String, Bool, true, false, not, ◌&&◌, Option, none, some, List, [], ◌∷◌, ◌++◌, if◌then◌else◌,
  or_else,
}
use hashi_bot.Base.Number.{Number, int, ◌+◌}
use hashi_bot.Risk.Types.{
  RiskReason, RiskDecision, PersonalRiskState, PropRiskState, RiskCheckInput,
}

-- `if (test) reasons.push(reason)`
abbrev pub push_if : Bool → RiskReason → List RiskReason → List RiskReason
push_if true reason reasons = reasons ++ (reason ∷ [])
push_if false reason reasons = reasons

abbrev pub is_empty : List RiskReason → Bool
is_empty [] = true
is_empty (reason ∷ reasons) = false

module _ {N : Type 0} ⦃num : Number N⦄ (time_of : String → N) (date_now : N) where
  open num use {lt, le}

  -- `cooldownUntil && new Date(cooldownUntil).getTime() > Date.now()`
  abbrev pub cooling : Option String → Bool
  cooling none = false
  cooling (some until) = not (until == "") && lt date_now (time_of until)

  abbrev pub decided : List RiskReason → RiskDecision N
  decided reasons = record {
    allowed = is_empty reasons;
    reasons = reasons;
    recommended_size = none;
  }

  unfoldable pub evaluate_personal_risk : PersonalRiskState N → RiskCheckInput N → RiskDecision N
  evaluate_personal_risk state input =
      let killed = push_if state.kill_switch RiskReason.kill_switch_active [] in
      let cooled = push_if (cooling state.cooldown_until) RiskReason.cooldown_active killed in
      let leveraged =
        push_if (lt state.leverage_cap (or_else input.leverage (int 1)))
          RiskReason.leverage_cap_exceeded cooled in
      let exposed =
        push_if (lt state.max_exposure (state.active_exposure + input.notional))
          RiskReason.max_exposure_exceeded leveraged in
      decided (
        push_if (lt state.max_simultaneous_risk input.risk_percent)
          RiskReason.max_simultaneous_risk_exceeded exposed)

  unfoldable pub evaluate_prop_risk : PropRiskState N → RiskCheckInput N → RiskDecision N
  evaluate_prop_risk state input =
      let locked = push_if state.lock_active RiskReason.prop_lock_active [] in
      let cooled = push_if (cooling state.cooldown_until) RiskReason.cooldown_active locked in
      let lost =
        push_if (le state.daily_drawdown_limit state.realized_daily_loss)
          RiskReason.daily_drawdown_breached cooled in
      let streak =
        push_if (le state.max_consecutive_losses state.consecutive_losses)
          RiskReason.consecutive_loss_lock lost in
      decided (
        push_if (lt state.max_drawdown_limit input.risk_percent)
          RiskReason.max_drawdown_risk_exceeded streak)
