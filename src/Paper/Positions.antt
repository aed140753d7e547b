-- ===== src/Paper/Positions.antt =====
-- Marking and partly closing a paper position.
use hashi_bot.Base.{
  String, ◌≡◌, refl, ap, true, false, Option, none, some, List, [], ◌∷◌, arith, ◌⊎◌, inl, inr,
  if◌then◌else◌,
}
use hashi_bot.Base.Number.{Number, IsIeee, IsNumber, ◌≼◌, SameNumber, int, ◌-◌, ◌+◌, ◌*◌}
use hashi_bot.Domain.{TradeSide, long, short}
use hashi_bot.Paper.Types.{PaperPositionStatus, PaperCloseReason, PaperPosition, PartialClose}
use hashi_bot.Paper.{
  mark_open_paper_positions, mark_position, mark_paper_position_to_market, marked_at,
  partially_close_paper_position, reduced, close_paper_position, safe_close_qty, compute_paper_pnl,
}

module _ {N : Type 0} ⦃num : Number N⦄ where
  open num use {lit, min, max, lt, le, is_finite}

  -- The result of `qty` from one price to another.
  abbrev pub result : TradeSide → (entry exit qty : N) → N
  result long entry exit qty = (exit - entry) * qty
  result short entry exit qty = (entry - exit) * qty

  -- At a finite mark, the mark and the unrealized result that goes with it; nothing else changes.
  abbrev pub at_mark : Option N → PaperPosition N → PaperPosition N
  at_mark none p = p
  at_mark (some mark) p =
      if is_finite mark
      then record p { mark_price = mark; unrealized_pnl = result p.side p.entry_price mark p.qty }
      else p

  -- Only a position that is open, wholly or in part, follows the price of its symbol.
  abbrev pub followed : PaperPositionStatus → Option N → PaperPosition N → PaperPosition N
  followed PaperPositionStatus.pending_open mark p = p
  followed PaperPositionStatus.opened mark p = at_mark mark p
  followed PaperPositionStatus.partially_closed mark p = at_mark mark p
  followed PaperPositionStatus.closed mark p = p
  followed PaperPositionStatus.rejected mark p = p

  abbrev pub all_followed : (String → Option N) → List (PaperPosition N) → List (PaperPosition N)
  all_followed marks [] = []
  all_followed marks (p ∷ ps) = followed p.status (marks p.symbol) p ∷ all_followed marks ps

  pub compute_paper_pnl-result :
      (side : TradeSide) (entry exit qty : N)
      → compute_paper_pnl side entry exit qty ≡ result side entry exit qty
  compute_paper_pnl-result long entry exit qty = refl
  compute_paper_pnl-result short entry exit qty = refl

  marked_at-at_mark : (p : PaperPosition N) (mark : Option N) → marked_at p mark ≡ at_mark mark p
  unfolding mark_paper_position_to_market
  marked_at-at_mark p none = refl
  marked_at-at_mark p (some mark) =
      ground (arith, compute_paper_pnl-result p.side p.entry_price mark p.qty)

  mark_position-followed :
      (marks : String → Option N) (p : PaperPosition N)
      → mark_position marks p ≡ followed p.status (marks p.symbol) p
  unfolding mark_position
  mark_position-followed marks p = ground (arith, marked_at-at_mark p (marks p.symbol))

  at_mark-keeps :
      (mark : Option N) (p : PaperPosition N)
      → ((at_mark mark p).symbol ≡ p.symbol)
        × ((at_mark mark p).status ≡ p.status)
        × (at_mark mark (at_mark mark p) ≡ at_mark mark p)
  at_mark-keeps none p = (refl, refl, refl)
  at_mark-keeps (some mark) p = ground arith

  followed_twice :
      (marks : String → Option N) (p : PaperPosition N)
      → let q = followed p.status (marks p.symbol) p in followed q.status (marks q.symbol) q ≡ q
  followed_twice marks p =
      let (symbol, status, same) = at_mark-keeps (marks p.symbol) p in
      ground (arith, symbol, status, ap marks symbol, same)

  mark_open_paper_positions-all_followed :
      (marks : String → Option N) (ps : List (PaperPosition N))
      → mark_open_paper_positions marks ps ≡ all_followed marks ps
  unfolding mark_open_paper_positions
  mark_open_paper_positions-all_followed marks [] = refl
  mark_open_paper_positions-all_followed marks (p ∷ ps) =
      cc (mark_position-followed marks p, mark_open_paper_positions-all_followed marks ps)

  all_followed_twice :
      (marks : String → Option N) (ps : List (PaperPosition N))
      → all_followed marks (all_followed marks ps) ≡ all_followed marks ps
  all_followed_twice marks [] = refl
  all_followed_twice marks (p ∷ ps) = cc (followed_twice marks p, all_followed_twice marks ps)

  -- Marking changes exactly the positions that are open or partially closed and whose symbol has a
  -- finite price: these get that price as their mark and, as their unrealized result, the difference to
  -- the entry, taken for their side, times the quantity. Marking twice with the same prices is marking
  -- once.
  pub mark_open_paper_positions_lem :
      (marks : String → Option N) (ps : List (PaperPosition N))
      → let marked = mark_open_paper_positions marks ps in
        (marked ≡ all_followed marks ps) × (mark_open_paper_positions marks marked ≡ marked)
  mark_open_paper_positions_lem marks ps = (
    mark_open_paper_positions-all_followed marks ps,
    cc (
      mark_open_paper_positions-all_followed marks (mark_open_paper_positions marks ps),
      mark_open_paper_positions-all_followed marks ps,
      all_followed_twice marks ps,
    ),
  )

  -- What is closed when `asked` is to be: 0, what is asked for, or the whole.
  abbrev pub IsClosedQty : PaperPosition N → (asked closed : N) → Type 0
  IsClosedQty p asked closed =
      ((asked ≼ int 0) × SameNumber closed (int 0))
      ⊎ ((int 0 ≼ asked) × (asked ≼ p.qty) × SameNumber closed asked)
      ⊎ ((p.qty ≼ asked) × SameNumber closed p.qty)

  -- What a partial close of `p` by `asked` at `exit_price` gives.
  abbrev pub PartlyClosed : PaperPosition N → (exit_price asked : N) → PartialClose N → Type 0
  PartlyClosed p exit_price asked out =
      IsClosedQty p asked out.closed_qty
      × (out.newly_realized_pnl ≡ result p.side p.entry_price exit_price out.closed_qty)
      × (out.position.realized_pnl ≡ p.realized_pnl + out.newly_realized_pnl)
      × (out.position.qty ≡ out.remaining_qty)
      × SameNumber out.remaining_qty (p.qty - out.closed_qty)
      × (int 0 ≼ out.closed_qty)
      × (out.closed_qty ≼ p.qty)
      × (int 0 ≼ out.remaining_qty)
      × (out.remaining_qty ≼ p.qty)
      × (((out.position.status ≡ PaperPositionStatus.closed) × (out.remaining_qty ≡ int 0))
          ⊎ ((out.position.status ≡ PaperPositionStatus.partially_closed)
              × (le out.remaining_qty (int 0) ≡ false)))

  module _ (ieee : IsIeee N) where
    open ieee use {
      numbers_of_le, finite_number, finite_between, zero-le-lit, min_le, le-min, le_max, max-le,
      numbers_of_max, numbers_of_min, numbers_of_minus, number_of_minus, minus_le, le_trans,
      le_total, minus_nonneg,
    }

    zero-IsNumber : IsNumber (lit 0 0)
    zero-IsNumber = (numbers_of_le _ _ (zero-le-lit 0 0)).0

    safe_close_qty-bounds :
        (p : PaperPosition N) (close_qty : N)
        → IsNumber close_qty
        → int 0 ≼ p.qty
        → (int 0 ≼ safe_close_qty p close_qty) × (safe_close_qty p close_qty ≼ p.qty)
    safe_close_qty-bounds p close_qty n h =
        let raised = (le_max close_qty (int 0) n zero-IsNumber).1 in
        (
          le-min _ _ _ raised h,
          (min_le _ p.qty (numbers_of_le _ _ raised).1 (numbers_of_le _ _ h).1).1,
        )

    safe_close_qty-IsClosedQty :
        (p : PaperPosition N) (close_qty : N)
        → IsNumber close_qty
        → int 0 ≼ p.qty
        → IsClosedQty p close_qty (safe_close_qty p close_qty)
    safe_close_qty-IsClosedQty p close_qty n h =
        let qty = (numbers_of_le _ _ h).1 in
        let (own, raised) = le_max close_qty (int 0) n zero-IsNumber in
        let number = (numbers_of_le _ _ raised).1 in
        let (left, right) = min_le (max close_qty (int 0)) p.qty number qty in
        elim (le_total close_qty (int 0) n zero-IsNumber) [
          | inl low ↦
              let none_asked = le_trans _ _ _ left (max-le _ _ _ low zero-IsNumber) in
              inl (low, (none_asked, le-min _ _ _ raised h))
          | inr high ↦
              let asked = max-le _ _ _ n high in
              elim (le_total close_qty p.qty n qty) [
                | inl fits ↦
                    inr (inl (high, fits, (le_trans _ _ _ left asked, le-min _ _ _ own fits)))
                | inr more ↦ inr (inr (more, (right, le-min _ _ _ (le_trans _ _ _ more own) qty)))
              ]
        ]

    -- Under the laws of IEEE 754 arithmetic, a partial close of a finite quantity that is at least 0 by
    -- a quantity that is not NaN closes, as numbers, 0 if asked for less, the whole if asked for more,
    -- and what is asked for otherwise, and leaves the (rounded) difference, which is between 0 and the
    -- whole. The result that it reports is the difference of the exit price and the entry, taken for the
    -- side, times the closed quantity, and is added to the realized one. The position is closed, with
    -- nothing left, or partially closed with a quantity that is not 0 or less.
    pub partially_close_paper_position-PartlyClosed :
        (p : PaperPosition N) (exit_price close_qty : N) (reason : PaperCloseReason)
        (at_iso : String)
        → IsNumber close_qty
        → int 0 ≼ p.qty
        → is_finite p.qty ≡ true
        → PartlyClosed p exit_price close_qty
            (partially_close_paper_position p exit_price close_qty reason at_iso)
    unfolding partially_close_paper_position reduced close_paper_position
    partially_close_paper_position-PartlyClosed p exit_price close_qty reason at_iso n h f =
        let safe = safe_close_qty p close_qty in
        let asked = safe_close_qty-IsClosedQty p close_qty n h in
        let (nonneg, below) = safe_close_qty-bounds p close_qty n h in
        let safe_finite = finite_between _ _ nonneg below f in
        let difference = number_of_minus p.qty _ f safe_finite in
        let apart = minus_nonneg p.qty safe below difference in
        let (own, left_nonneg) = le_max _ (int 0) difference zero-IsNumber in
        let left_below = max-le _ _ _ (minus_le p.qty _ nonneg difference) h in
        ground (
          arith,
          asked,
          nonneg,
          below,
          apart,
          own,
          left_nonneg,
          left_below,
          zero-IsNumber,
          h,
          max-le _ _ _ difference apart,
          le_trans _ _ (int 0) own,
          compute_paper_pnl-result p.side p.entry_price exit_price safe,
        )

    left_IsNumber :
        (p : PaperPosition N) (close_qty : N)
        → IsNumber (max (p.qty - safe_close_qty p close_qty) (int 0))
        → IsNumber close_qty
    left_IsNumber p close_qty h =
        let safe = (numbers_of_minus _ _ (numbers_of_max _ _ h).0).1 in
        (numbers_of_max _ _ (numbers_of_min _ _ safe).0).0

    -- A NaN quantity to close makes a position partially closed with a quantity that is NaN.
    partially_close_paper_position_nan :
        (p : PaperPosition N) (exit_price close_qty : N) (reason : PaperCloseReason)
        (at_iso : String)
        → le close_qty close_qty ≡ false
        → let out = partially_close_paper_position p exit_price close_qty reason at_iso in
          (out.position.status ≡ PaperPositionStatus.partially_closed)
          × (le out.position.qty out.position.qty ≡ false)
    unfolding partially_close_paper_position reduced
    partially_close_paper_position_nan p exit_price close_qty reason at_iso h =
        let left = max (p.qty - safe_close_qty p close_qty) (int 0) in
        ground (arith, left_IsNumber p close_qty, numbers_of_le left (int 0), h)
