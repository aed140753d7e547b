-- ===== src/Risk/Checks.antt =====
-- When the risk checks allow a trade (risk-engines.ts).
use hashi_bot.Base.{
  String, ◌≡◌, ◌↔◌, Bool, true, false, not, ◌&&◌, List, [], ◌∷◌, ◌++◌, arith, or_else,
}
use hashi_bot.Base.Number.{Number, int, ◌+◌}
use hashi_bot.Risk.Types.{RiskReason, PersonalRiskState, PropRiskState, RiskCheckInput}
use hashi_bot.Risk.{push_if, is_empty, cooling, evaluate_personal_risk, evaluate_prop_risk}

is_empty-append :
    (reasons : List RiskReason) (reason : RiskReason) → is_empty (reasons ++ (reason ∷ [])) ≡ false
is_empty-append [] reason = ground arith
is_empty-append (r ∷ rs) reason = ground arith

is_empty-push_if :
    (test : Bool) (reason : RiskReason) (reasons : List RiskReason)
    → is_empty (push_if test reason reasons) ≡ not test && is_empty reasons
is_empty-push_if true reason reasons = is_empty-append reasons reason
is_empty-push_if false reason reasons = ground arith

module _ {N : Type 0} ⦃num : Number N⦄ (time_of : String → N) (date_now : N) where
  open num use {lt, le}

  abbrev pub PersonalClear : PersonalRiskState N → RiskCheckInput N → Type 0
  PersonalClear state input =
      (state.kill_switch ≡ false)
      × (cooling time_of date_now state.cooldown_until ≡ false)
      × (lt state.leverage_cap (or_else input.leverage (int 1)) ≡ false)
      × (lt state.max_exposure (state.active_exposure + input.notional) ≡ false)
      × (lt state.max_simultaneous_risk input.risk_percent ≡ false)

  evaluate_personal_risk-allowed :
      (state : PersonalRiskState N) (input : RiskCheckInput N)
      → (evaluate_personal_risk time_of date_now state input).allowed ≡ true
        ↔ PersonalClear state input
  unfolding evaluate_personal_risk
  evaluate_personal_risk-allowed state input = ground arith

  abbrev pub PropClear : PropRiskState N → RiskCheckInput N → Type 0
  PropClear state input =
      (state.lock_active ≡ false)
      × (cooling time_of date_now state.cooldown_until ≡ false)
      × (le state.daily_drawdown_limit state.realized_daily_loss ≡ false)
      × (le state.max_consecutive_losses state.consecutive_losses ≡ false)
      × (lt state.max_drawdown_limit input.risk_percent ≡ false)

  evaluate_prop_risk-allowed :
      (state : PropRiskState N) (input : RiskCheckInput N)
      → (evaluate_prop_risk time_of date_now state input).allowed ≡ true ↔ PropClear state input
  unfolding evaluate_prop_risk
  evaluate_prop_risk-allowed state input = ground arith

  -- A personal account is allowed to trade exactly if it is not killed and not cooling down, and the
  -- leverage (1 if not given), the exposure with the new notional and the risk do not exceed their caps; a
  -- prop account exactly if it is not locked and not cooling down, the loss of the day and the losses in a
  -- row do not reach their limits, and the risk does not exceed the maximal drawdown.
  pub evaluate_risk-allowed :
      (personal : PersonalRiskState N) (prop : PropRiskState N) (input : RiskCheckInput N)
      → ((evaluate_personal_risk time_of date_now personal input).allowed ≡ true
          ↔ PersonalClear personal input)
        × ((evaluate_prop_risk time_of date_now prop input).allowed ≡ true ↔ PropClear prop input)
  evaluate_risk-allowed personal prop input =
      (evaluate_personal_risk-allowed personal input, evaluate_prop_risk-allowed prop input)
