-- ===== src/Risk/Tests.antt =====
-- Risk checks on decimals, and the theorems at them.
use hashi_bot.Base.{String, ◌≡◌, ◌↔◌, true, false, none, some}
use hashi_bot.Base.Decimal.{Decimal, decimal_number}
use hashi_bot.Policy.Tests.{dec}
use hashi_bot.Risk.{evaluate_personal_risk, evaluate_prop_risk}
use hashi_bot.Risk.Types.{PersonalRiskState, PropRiskState, RiskCheckInput}
use hashi_bot.Risk.Checks.{PersonalClear, PropClear, evaluate_risk-allowed}

abbrev clock : String → Decimal
clock text = dec 50

abbrev personal : PersonalRiskState Decimal
personal = record {
  leverage_cap = dec 5;
  max_exposure = dec 1000;
  max_simultaneous_risk = dec 2;
  cooldown_until = some "2024-01-01T00:00:00.000Z";
  daily_loss_limit = dec 100;
  kill_switch = false;
  active_exposure = dec 400;
}

abbrev prop : PropRiskState Decimal
prop = record {
  daily_drawdown_limit = dec 100;
  trailing_drawdown_limit = dec 200;
  max_drawdown_limit = dec 5;
  max_consecutive_losses = dec 3;
  cooldown_until = none;
  lock_active = false;
  consecutive_losses = dec 1;
  realized_daily_loss = dec 20;
}

abbrev trade : RiskCheckInput Decimal
trade = record { notional = dec 500; leverage = none; risk_percent = dec 1; now_iso = none }

evaluate_risk-allowed_example :
    ((evaluate_personal_risk clock (dec 60) personal trade).allowed ≡ true
      ↔ PersonalClear clock (dec 60) personal trade)
    × ((evaluate_prop_risk clock (dec 60) prop trade).allowed ≡ true
        ↔ PropClear clock (dec 60) prop trade)
evaluate_risk-allowed_example = evaluate_risk-allowed clock (dec 60) personal prop trade
