-- ===== src/Paper.antt =====
-- packages/core/src/execution/paper-account.ts: the positions, the account and the gate of the paper
-- execution.
pub mod Types
pub mod Gate
mod Tests
pub mod Equity
pub mod Positions
pub mod Admission
use mathlib.Core.List.{foldl}
use hashi_bot.Base.{
  ℕ, String, Bool, true, false, not, ◌&&◌, ◌||◌, Option, none, some, List, [], ◌∷◌, map, keep,
  length, if◌then◌else◌, or_else,
}
use hashi_bot.Base.Number.{Number, int, ◌+◌, ◌-◌, ◌*◌, ◌/◌}
use hashi_bot.Domain.{TradeSide, long, short}
use hashi_bot.Paper.Types.{
  PaperPositionStatus, PaperExecutionRejectionReason, PaperCloseReason, PaperAccountSnapshot,
  PaperExecutionDecision, PaperPosition, ProtectedStop, Tp1ProtectMode, PartialClose,
  SnapshotParams, DecisionParams,
}

-- `status === "open" || status === "partially_closed"`
abbrev pub is_open : PaperPositionStatus → Bool
is_open PaperPositionStatus.pending_open = false
is_open PaperPositionStatus.opened = true
is_open PaperPositionStatus.partially_closed = true
is_open PaperPositionStatus.closed = false
is_open PaperPositionStatus.rejected = false

module _ {N : Type 0} ⦃num : Number N⦄ where
  open num use {lit, infinity, abs, min, max, lt, le, is_finite}

  abbrev pub compute_paper_pnl : TradeSide → (entry_price target_price qty : N) → N
  compute_paper_pnl long entry_price target_price qty = (target_price - entry_price) * qty
  compute_paper_pnl short entry_price target_price qty = (entry_price - target_price) * qty

  abbrev pub protect_r : Tp1ProtectMode → (offset buffer : N) → N
  protect_r Tp1ProtectMode.break_even offset buffer = buffer
  protect_r Tp1ProtectMode.offset_r offset buffer = offset + buffer
  protect_r (Tp1ProtectMode.other mode) offset buffer = buffer

  abbrev pub protected_price : TradeSide → (entry_price distance : N) → N
  protected_price long entry_price distance = entry_price + distance
  protected_price short entry_price distance = entry_price - distance

  unfoldable pub compute_protected_stop_price : ProtectedStop N → N
  compute_protected_stop_price p =
      let risk_distance = abs (p.entry_price - p.initial_stop_price) in
      let r = protect_r p.tp1_protect_mode p.tp1_protect_offset_r p.breakeven_buffer_r in
      if le risk_distance (int 0)
      then p.initial_stop_price
      else protected_price p.side p.entry_price (risk_distance * r)

  unfoldable pub mark_paper_position_to_market : PaperPosition N → N → PaperPosition N
  mark_paper_position_to_market position mark_price = record position {
    mark_price = mark_price;
    unrealized_pnl = compute_paper_pnl position.side position.entry_price mark_price position.qty;
  }

  -- `Number.isFinite` of `undefined` is false.
  abbrev pub marked_at : PaperPosition N → Option N → PaperPosition N
  marked_at position none = position
  marked_at position (some mark) =
      if is_finite mark then mark_paper_position_to_market position mark else position

  unfoldable pub mark_position : (String → Option N) → PaperPosition N → PaperPosition N
  mark_position mark_price_by_symbol position =
      if not (is_open position.status)
      then position
      else marked_at position (mark_price_by_symbol position.symbol)

  unfoldable pub mark_open_paper_positions :
      (String → Option N) → List (PaperPosition N) → List (PaperPosition N)
  mark_open_paper_positions mark_price_by_symbol = map (mark_position mark_price_by_symbol)

  -- The closed position, and `newlyRealizedPnl`.
  unfoldable pub close_paper_position :
      PaperPosition N → (exit_price : N) → PaperCloseReason → String → PaperPosition N × N
  close_paper_position position exit_price close_reason closed_at_iso =
      let newly_realized_pnl =
        compute_paper_pnl position.side position.entry_price exit_price position.qty in
      (
        record position {
          status = PaperPositionStatus.closed;
          close_reason = some close_reason;
          mark_price = exit_price;
          unrealized_pnl = int 0;
          realized_pnl = position.realized_pnl + newly_realized_pnl;
          notional = int 0;
          margin_used = int 0;
          qty = int 0;
          closed_at = some closed_at_iso;
        },
        newly_realized_pnl,
      )

  abbrev pub safe_close_qty : PaperPosition N → N → N
  safe_close_qty position close_qty = min (max close_qty (int 0)) position.qty

  -- A position that keeps `remaining_qty`, with the result so far.
  unfoldable pub reduced :
      PaperPosition N
      → (exit_price remaining_qty realized_pnl : N) → PaperCloseReason
      → PaperPosition N
  reduced position exit_price remaining_qty realized_pnl close_reason =
      let notional = remaining_qty * position.entry_price in
      record position {
        status = PaperPositionStatus.partially_closed;
        close_reason = some close_reason;
        mark_price = exit_price;
        qty = remaining_qty;
        notional = notional;
        margin_used = if lt (int 0) position.leverage then notional / position.leverage else int 0;
        realized_pnl = realized_pnl;
        unrealized_pnl =
            compute_paper_pnl position.side position.entry_price exit_price remaining_qty;
        closed_at = none;
      }

  unfoldable pub partially_close_paper_position :
      PaperPosition N → (exit_price close_qty : N) → PaperCloseReason → String → PartialClose N
  partially_close_paper_position position exit_price close_qty close_reason closed_at_iso =
      let safe = safe_close_qty position close_qty in
      let remaining_qty = max (position.qty - safe) (int 0) in
      let newly_realized_pnl =
        compute_paper_pnl position.side position.entry_price exit_price safe in
      let realized_pnl = position.realized_pnl + newly_realized_pnl in
      let closed = close_paper_position position exit_price close_reason closed_at_iso in
      if le remaining_qty (int 0)
      then record {
        position = record closed.0 { realized_pnl = realized_pnl };
        newly_realized_pnl = newly_realized_pnl;
        closed_qty = safe;
        remaining_qty = int 0;
      }
      else record {
        position = reduced position exit_price remaining_qty realized_pnl close_reason;
        newly_realized_pnl = newly_realized_pnl;
        closed_qty = safe;
        remaining_qty = remaining_qty;
      }

  -- `positions.reduce((sum, position) => …, 0)`
  abbrev pub total : (PaperPosition N → N) → List (PaperPosition N) → N
  total of = foldl (λ sum position. sum + of position) (int 0)

  abbrev pub add_margin : N → PaperPosition N → N
  add_margin sum position =
      if not (is_finite position.leverage) || le position.leverage (int 0)
      then sum
      else sum + position.notional / position.leverage

  unfoldable pub build_paper_account_snapshot : SnapshotParams N → PaperAccountSnapshot N
  build_paper_account_snapshot params =
      let realized_pnl = total (λ p. p.realized_pnl) params.closed_positions in
      let balance = params.starting_balance + realized_pnl in
      let open_positions = keep (λ p. is_open p.status) params.open_positions in
      let unrealized_pnl = total (λ p. p.unrealized_pnl) open_positions in
      let used_margin = foldl add_margin (int 0) open_positions in
      let equity = balance + unrealized_pnl in
      record {
        balance = balance;
        equity = equity;
        unrealized_pnl = unrealized_pnl;
        realized_pnl = realized_pnl;
        used_margin = used_margin;
        free_margin = equity - used_margin;
        configured_leverage = params.configured_leverage;
        max_concurrent_positions = params.max_concurrent_positions;
        open_positions_count = int (length open_positions);
        closed_positions_count = int (length params.closed_positions);
      }
