-- ===== src/Policy/Bounds.antt =====
-- The leverage and the risk of an intent.
use Prim.Native.Nat.{◌+◌ as ◌+ℕ◌, ◌*◌ as ◌*ℕ◌}
use hashi_bot.Base.{ℕ, ◌≤◌, ◌≡◌, ap, ◌∙◌, true, ◌&&◌, some, arith, if◌then◌else◌}
use hashi_bot.Base.Number.{Number, IsIeee, IsNumber, ◌≼◌, SameNumber, int, truthy, ◌*◌, ◌/◌}
use hashi_bot.Policy.{
  build_execution_intent, build_live_intent, locked_mode_governance_defaults, range, clamp,
  to_midpoint, resolve_leverage_range, resolve_personal_leverage_range, sizing_of, by_mode,
}
use hashi_bot.Policy.Types.{
  LiveMode, live_personal, live_prop, live, ExecutionIntentInput, LeverageRange, SizingIntent,
  SetupGrade, a_plus, a, b,
}

module _ {N : Type 0} ⦃num : Number N⦄ where
  open num use {lit, abs, min, lt, le}

  -- The leverage of an account of each kind, by the grade and the equity.
  abbrev pub expected_leverage : LiveMode → SetupGrade → N → N
  expected_leverage live_prop a_plus equity = lit 25 1
  expected_leverage live_prop a equity = lit 15 1
  expected_leverage live_prop b equity = lit 15 1
  expected_leverage live_personal a_plus equity =
      if le (int 1000) equity && le equity (int 5000)
      then lit 65 1
      else if le (int 5000) equity && le equity (int 10000)
      then lit 40 1
      else lit 20 1
  expected_leverage live_personal a equity =
      if le (int 1000) equity && le equity (int 10000) then lit 40 1 else lit 20 1
  expected_leverage live_personal b equity =
      if le (int 1000) equity && le equity (int 10000) then lit 40 1 else lit 20 1

  build_execution_intent-live :
      (mode : LiveMode) (i : ExecutionIntentInput N)
      → i.mode ≡ live mode
      → build_execution_intent i ≡ build_live_intent mode i
  unfolding build_execution_intent
  build_execution_intent-live mode i e = ap (λ m. by_mode m i) e

  module _ (ieee : IsIeee N) where
    open ieee use {
      numbers_of_le, le_trans, le_total, le_of_lt, lt-eq-not-le, finite_number, zero-le-lit,
      lit_finite, zero-lt-lit, lit_mono, eq-eq-le, min_le, le-min, le_max, max-le, number_of_plus,
      number_of_over, lit_scale, lit-plus, lit-half,
    }

    lit-IsNumber : (m : ℕ) → m ≤ 1000 → IsNumber (lit m 0)
    lit-IsNumber m h = finite_number _ (lit_finite m 0 (omega arith))

    to_midpoint-IsNumber :
        (m n : ℕ)
        → m ≤ 1000
        → n ≤ 1000
        → IsNumber (let r : LeverageRange N = range m n in to_midpoint r)
    unfolding to_midpoint
    to_midpoint-IsNumber m n h k =
        number_of_over _ _
          (number_of_plus _ _ (lit_finite m 0 (omega arith)) (lit_finite n 0 (omega arith)))
          (lit_finite 2 0 (omega arith)) (zero-lt-lit 2 0 (omega arith) (omega arith))

    -- `clamp` stays between its bounds, if they are in order and the value is not NaN.
    pub clamp_bounds :
        (value low high : N)
        → IsNumber value
        → low ≼ high
        → (low ≼ clamp value low high) × (clamp value low high ≼ high)
    clamp_bounds value low high n h =
        let least = min_le high value (numbers_of_le low high h).1 n in
        let least_number = (numbers_of_le _ _ least.0).0 in
        let greatest = le_max low (min high value) (numbers_of_le low high h).0 least_number in
        (greatest.0, max-le low (min high value) high h least.0)

    midpoint-IsNumber :
        (mode : LiveMode) (i : ExecutionIntentInput N)
        → IsNumber (to_midpoint (resolve_leverage_range mode i.signal i.account_equity_usd))
    unfolding resolve_leverage_range resolve_personal_leverage_range
    midpoint-IsNumber mode i = ground (
      arith,
      to_midpoint-IsNumber 3 5 (omega arith) (omega arith),
      to_midpoint-IsNumber 5 8 (omega arith) (omega arith),
      to_midpoint-IsNumber 1 3 (omega arith) (omega arith),
      to_midpoint-IsNumber 1 2 (omega arith) (omega arith),
      to_midpoint-IsNumber 2 3 (omega arith) (omega arith),
    )

    one-le-hard_cap :
        (mode : LiveMode) → lit 1 0 ≼ (locked_mode_governance_defaults mode).leverage_hard_cap
    one-le-hard_cap live_personal = lit_mono 1 10 0 (omega arith)
    one-le-hard_cap live_prop = lit_mono 1 4 0 (omega arith)

    -- The number `lit m 1` of tenths from 1 to `cap` is what a clamp to these bounds leaves.
    clamp-lit :
        (m cap : ℕ)
        → 10 ≤ m
        → m ≤ cap *ℕ 10
        → let x : N = lit m 1 in SameNumber (clamp x (int 1) (int cap)) x
    clamp-lit m cap h k =
        let low = lit_mono 10 m 1 h in
        let high = lit_mono m (cap *ℕ 10) 1 k in
        let number = (numbers_of_le _ _ low).1 in
        let low' : lit 1 0 ≼ lit m 1 = rw (← lit_scale 1 0) low in
        let high' : lit m 1 ≼ lit cap 0 = rw (← lit_scale cap 0) high in
        let least = min_le (int cap) (lit m 1) (numbers_of_le _ _ high').1 number in
        (
          max-le _ _ _ low' least.1,
          le_trans _ _ _ (le-min _ _ _ high' number)
              (le_max (int 1) _ (numbers_of_le _ _ low').0 (numbers_of_le _ _ least.1).0).1,
        )

    to_midpoint_lit :
        (m n : ℕ)
        → m +ℕ n ≤ 1000
        → let r : LeverageRange N = range m n in to_midpoint r ≡ lit ((m +ℕ n) *ℕ 5) 1
    unfolding to_midpoint
    to_midpoint_lit m n h =
        ap (λ x. x / int 2) (lit-plus m n (omega arith) (omega arith)) ∙ lit-half (m +ℕ n) h

    midpoint_clamped :
        (m n cap : ℕ)
        → m +ℕ n ≤ 1000
        → 2 ≤ m +ℕ n
        → m +ℕ n ≤ cap *ℕ 2
        → let r : LeverageRange N = range m n in
          SameNumber (clamp (to_midpoint r) (int 1) (int cap)) (lit ((m +ℕ n) *ℕ 5) 1)
    midpoint_clamped m n cap h k l =
        rw (to_midpoint_lit m n h) (clamp-lit ((m +ℕ n) *ℕ 5) cap (omega arith) (omega arith))

    leverage_of :
        (mode : LiveMode) (i : ExecutionIntentInput N)
        → SameNumber
            (clamp
              (to_midpoint (resolve_leverage_range mode i.signal i.account_equity_usd))
              (int 1)
              (locked_mode_governance_defaults mode).leverage_hard_cap)
            (expected_leverage mode i.signal.setup_grade i.account_equity_usd)
    unfolding resolve_leverage_range resolve_personal_leverage_range
    leverage_of mode i =
        let equity = i.account_equity_usd in
        let five = lit_mono 1000 5000 0 (omega arith) in
        let ten = lit_mono 5000 10000 0 (omega arith) in
        let below : equity ≼ int 5000 → equity ≼ int 10000 =
          λ h. le_trans equity (int 5000) (int 10000) h ten in
        ground (
          arith,
          le_trans (int 1000) (int 5000) equity five,
          below,
          numbers_of_le (int 1000) equity,
          le_total (int 5000) equity (numbers_of_le _ _ five).1,
          midpoint_clamped 3 5 10 (omega arith) (omega arith) (omega arith),
          midpoint_clamped 5 8 10 (omega arith) (omega arith) (omega arith),
          midpoint_clamped 1 3 10 (omega arith) (omega arith) (omega arith),
          midpoint_clamped 1 2 4 (omega arith) (omega arith) (omega arith),
          midpoint_clamped 2 3 4 (omega arith) (omega arith) (omega arith),
        )

    -- Under the laws of IEEE 754 arithmetic, for any equity, NaN included, the leverage of a live intent
    -- lies between 1 and the hard cap of its mode, and is a fixed number. For a prop account it is 2.5 at
    -- grade A+ and 1.5 below. For a personal account of 1000 to 10000 dollars it is 4, but 6.5 at grade A+
    -- up to 5000 dollars; for any other equity it is 2.
    pub build_execution_intent-leverage :
        (mode : LiveMode) (i : ExecutionIntentInput N)
        → i.mode ≡ live mode
        → let out = build_execution_intent i in
          (lit 1 0 ≼ out.effective_leverage)
          × (out.effective_leverage ≼ (locked_mode_governance_defaults mode).leverage_hard_cap)
          × SameNumber out.effective_leverage
              (expected_leverage mode i.signal.setup_grade i.account_equity_usd)
    unfolding build_live_intent
    build_execution_intent-leverage mode i e =
        let (low, high) =
          clamp_bounds _ (int 1) _ (midpoint-IsNumber mode i) (one-le-hard_cap mode) in
        rw (build_execution_intent-live mode i e) (low, high, leverage_of mode i)

    one_truthy : truthy (lit 1 0) ≡ true
    one_truthy =
        let one = lit-IsNumber 1 (omega arith) in
        let zero = lit-IsNumber 0 (omega arith) in
        ground (
          arith,
          eq-eq-le (lit 1 0) (lit 1 0) one one,
          eq-eq-le (lit 1 0) (lit 0 0) one zero,
          lt-eq-not-le (lit 0 0) (lit 1 0) zero one,
          zero-lt-lit 1 0 (omega arith) (omega arith),
        )

    sizing_of-risk_amount :
        (i : ExecutionIntentInput N) (risk : N) (s : SizingIntent N)
        → sizing_of i.signal i.account_equity_usd risk ≡ some s
        → s.risk_amount ≡ i.account_equity_usd * (risk / int 100)
    unfolding sizing_of
    sizing_of-risk_amount i risk s h = ground arith

    -- Under the laws of IEEE 754 arithmetic, and if the override is not NaN: the risk that a personal intent
    -- with an override reports lies between 0 and 1 percent, but it is sized by the whole override: the
    -- risk amount of its sizing, if it has one, is the equity times the override.
    pub build_execution_intent-personal_risk :
        (i : ExecutionIntentInput N) (risk : N) (s : SizingIntent N)
        → i.mode ≡ live live_personal
        → i.risk_percent_override ≡ some risk
        → IsNumber risk
        → (build_execution_intent i).provisional_sizing_intent ≡ some s
        → ((build_execution_intent i).risk_percent ≼ lit 1 0)
          × (lit 0 0 ≼ (build_execution_intent i).risk_percent)
          × (s.risk_amount ≡ i.account_equity_usd * (risk / int 100))
    unfolding build_live_intent
    build_execution_intent-personal_risk i risk s e o n d =
        let bounds = clamp_bounds risk (int 0) (int 1) n (lit_mono 0 1 0 (omega arith)) in
        let live_intent = build_execution_intent-live live_personal i e in
        rw live_intent
          (ground (arith, bounds, one_truthy, sizing_of-risk_amount i risk s, rw live_intent at d))
