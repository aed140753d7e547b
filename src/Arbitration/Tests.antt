-- ===== src/Arbitration/Tests.antt =====
-- The arbitration on decimals, and the theorem at it.
use hashi_bot.Base.{◌≡◌, refl, none, some}
use hashi_bot.Base.Decimal.{Decimal, decimal_number, decimal-IsIeee}
use hashi_bot.Domain.{TradeSide}
use hashi_bot.Policy.Tests.{dec}
use hashi_bot.Arbitration.{
  StrategyExecutionCandidate, CandidateArbitrationOptions, epsilon_of, select_winner,
}
use hashi_bot.Arbitration.Justified.{Justified, select_winner-Justified}

abbrev breakout : StrategyExecutionCandidate Decimal
breakout = record {
  strategy_id = "compression_breakout_strict";
  side = TradeSide.long;
  entry_price = dec 100;
  stop_price = dec 98;
  risk_distance = dec 2;
  score = dec 80;
  timestamp = dec 1;
  bar_index = dec 1;
  metadata = none;
}

abbrev swing : StrategyExecutionCandidate Decimal
swing = record breakout { strategy_id = "swing_continuation_strict"; score = dec 50 }

abbrev defaults : CandidateArbitrationOptions Decimal
defaults = record { epsilon = none; tie_margin = none; quality_floor = none }

breakout_wins : (select_winner (some breakout) (some swing) defaults).winner ≡ some breakout
unfolding select_winner
breakout_wins = refl

select_winner-Justified_example :
    Justified (epsilon_of defaults) (select_winner (some breakout) (some swing) defaults)
select_winner-Justified_example =
    select_winner-Justified ⦃ieee = decimal-IsIeee⦄ (some breakout) (some swing) defaults refl refl
      refl
