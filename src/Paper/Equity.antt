-- ===== src/Paper/Equity.antt =====
-- The paper account before and after a position is closed (paper-account.ts). The sums stand in the
-- order in which the source adds them, so that they hold with rounding.
use hashi_bot.Base.{String, ◌≡◌, Bool, true, false, not, ◌&&◌, List, [], ◌∷◌, if◌then◌else◌}
use hashi_bot.Base.Number.{Number, int, ◌+◌, ◌-◌, ◌/◌}
use hashi_bot.Paper.Types.{
  PaperCloseReason, PaperPosition, PaperPositionStatus, PaperAccountSnapshot, SnapshotParams,
}
use hashi_bot.Paper.{close_paper_position}

-- The statuses that count as open.
abbrev pub is_live : PaperPositionStatus → Bool
is_live PaperPositionStatus.opened = true
is_live PaperPositionStatus.partially_closed = true
is_live PaperPositionStatus.pending_open = false
is_live PaperPositionStatus.closed = false
is_live PaperPositionStatus.rejected = false

module _ {N : Type 0} ⦃num : Number N⦄ where
  open num use {is_finite, le}

  -- The account before and after `p`, the newest position, is closed at `exit_price`.
  abbrev pub holding : SnapshotParams N → PaperPosition N → SnapshotParams N
  holding a p = record a { open_positions = p ∷ a.open_positions }

  abbrev pub after_close :
      SnapshotParams N → PaperPosition N → N → PaperCloseReason → String → SnapshotParams N
  after_close a p exit_price reason at_iso =
      let (closed, pnl) = close_paper_position p exit_price reason at_iso in
      record a {
        open_positions = closed ∷ a.open_positions;
        closed_positions = closed ∷ a.closed_positions;
      }

  -- The realized results of `ps`, added to `sum` one by one; and the unrealized results and the margins
  -- of the open ones among `ps`, likewise.
  abbrev pub realized_after : N → List (PaperPosition N) → N
  realized_after sum [] = sum
  realized_after sum (p ∷ ps) = realized_after (sum + p.realized_pnl) ps

  abbrev pub unrealized_after : N → List (PaperPosition N) → N
  unrealized_after sum [] = sum
  unrealized_after sum (p ∷ ps) =
      unrealized_after (if is_live p.status then sum + p.unrealized_pnl else sum) ps

  -- A margin is the notional by the leverage, if that is finite and not 0 or less.
  abbrev pub with_margin : N → PaperPosition N → N
  with_margin sum p =
      if is_finite p.leverage && not (le p.leverage (int 0))
      then sum + p.notional / p.leverage
      else sum

  abbrev pub margin_after : N → List (PaperPosition N) → N
  margin_after sum [] = sum
  margin_after sum (p ∷ ps) = margin_after (if is_live p.status then with_margin sum p else sum) ps

  -- What the snapshot reports, from the three sums.
  abbrev pub Reports :
      SnapshotParams N → (realized unrealized margin : N) → PaperAccountSnapshot N → Type 0
  Reports a realized unrealized margin out =
      (out.realized_pnl ≡ realized)
      × (out.unrealized_pnl ≡ unrealized)
      × (out.used_margin ≡ margin)
      × (out.balance ≡ a.starting_balance + realized)
      × (out.equity ≡ a.starting_balance + realized + unrealized)
      × (out.free_margin ≡ a.starting_balance + realized + unrealized - margin)
