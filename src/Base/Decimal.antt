-- ===== src/Base/Decimal.antt =====
-- A `Number` that runs: signed decimals with twelve places, and NaN. Products and quotients are rounded
-- towards zero. It shows that the facts of `IsIeee` can be met, and runs the examples.
use Prim.Native.Nat.{ℕ, suc, ◌+◌, ◌-◌, ◌*◌, ◌/◌, ◌≤◌, ◌^◌}
use mathlib.Core.Bool.{Bool, true, false}
use mathlib.Core.Path.{◌≡◌, ap}
use native.Mathlib.Nat.{
  div-le_self, mul-div-mul_right, le-div_iff_mul-le, pow-le-pow_right, one-le-pow,
}
use native.Mathlib.Omega.{arith}
use hashi_bot.Base.Tests.{ltb, leb, nat_eq, if◌then◌else◌}
use hashi_bot.Base.Number.{Number, IsIeee}

-- `dec p n` is (p - n) / 10^12; one of the two parts is zero.
pub data Decimal : Type 0 where
  nan : Decimal
  positive : ℕ → Decimal
  negative : ℕ → Decimal

abbrev places : ℕ
places = 10 ^ 12

-- From 10^18 on a decimal counts as infinite.
abbrev limit : ℕ
limit = 10 ^ 30

-- (p - n) / 10^12; `negative n` is -(n + 1) / 10^12
abbrev pub decimal : ℕ → ℕ → Decimal
decimal p n = if leb n p then positive (p - n) else negative (n - p - 1)

abbrev linear : (ℕ → ℕ → ℕ → ℕ → Decimal) → Decimal → Decimal → Decimal
linear f nan y = nan
linear f (positive a) nan = nan
linear f (positive a) (positive b) = f a 0 b 0
linear f (positive a) (negative b) = f a 0 0 (suc b)
linear f (negative a) nan = nan
linear f (negative a) (positive b) = f 0 (suc a) b 0
linear f (negative a) (negative b) = f 0 (suc a) 0 (suc b)

abbrev compared : (ℕ → ℕ → Bool) → Decimal → Decimal → Bool
compared f nan y = false
compared f (positive a) nan = false
compared f (positive a) (positive b) = f a b
compared f (positive a) (negative b) = f (a + suc b) 0
compared f (negative a) nan = false
compared f (negative a) (positive b) = f 0 (suc a + b)
compared f (negative a) (negative b) = f (suc b) (suc a)

abbrev least : Decimal → Decimal → Decimal
least x y = if compared leb x y then x else if compared leb y x then y else nan

abbrev greatest : Decimal → Decimal → Decimal
greatest x y = if compared leb x y then y else if compared leb y x then x else nan

abbrev product : Decimal → Decimal → Decimal
product = linear λ p n q m. decimal ((p * q + n * m) / places) ((p * m + n * q) / places)

abbrev quotient : Decimal → Decimal → Decimal
quotient = linear λ p n q m.
    if nat_eq (q + m) 0
    then nan
    else if leb m q
    then decimal (p * places / (q + m)) (n * places / (q + m))
    else decimal (n * places / (q + m)) (p * places / (q + m))

abbrev magnitude : Decimal → Decimal
magnitude nan = nan
magnitude (positive a) = positive a
magnitude (negative a) = positive (suc a)

abbrev bounded : Decimal → Bool
bounded nan = false
bounded (positive a) = ltb a limit
bounded (negative a) = ltb a limit

instance abbrev pub decimal_number : Number Decimal
decimal_number = record {
  lit = λ m k. positive (m * places / 10 ^ k);
  infinity = positive limit;
  plus = linear λ p n q m. decimal (p + q) (n + m);
  minus = linear λ p n q m. decimal (p + m) (n + q);
  times = product;
  over = quotient;
  abs = magnitude;
  min = least;
  max = greatest;
  lt = compared ltb;
  le = compared leb;
  eq = compared nat_eq;
  is_finite = bounded;
}

div_mono : (a b k : ℕ) → a ≤ b → a / k ≤ b / k
div_mono a b k h = grind arith

lit_below : (m k : ℕ) → m ≤ 10 ^ 12 → ltb (m * places / 10 ^ k) limit ≡ true
lit_below m k h = ground (arith, div-le_self (m * places) (10 ^ k))

lit_above : (m k : ℕ) → 1 ≤ m → k ≤ 12 → ltb 0 (m * places / 10 ^ k) ≡ true
lit_above m k h b =
    let small : 10 ^ k ≤ 10 ^ 12 = pow-le-pow_right (omega arith) b in
    let fits : 1 * 10 ^ k ≤ m * places = omega arith in
    let quotient_pos : 1 ≤ m * places / 10 ^ k =
      (le-div_iff_mul-le (one-le-pow k 10 (omega arith))).1 fits in
    ground arith

scale_down : (m k : ℕ) → m * 10 * places / 10 ^ suc k ≡ m * places / 10 ^ k
scale_down m k =
    let tens : m * 10 * places ≡ m * places * 10 = omega arith in
    let power : 10 ^ suc k ≡ 10 ^ k * 10 = omega arith in
    rw (tens, power) (mul-div-mul_right (m * places) (10 ^ k) (omega arith))

pub decimal-IsIeee : IsIeee Decimal
decimal-IsIeee = record {
  numbers_of_le = ground arith;
  le_trans = ground arith;
  le_total = ground arith;
  le_of_lt = ground arith;
  lt-eq-not-le = ground arith;
  finite_number = ground arith;
  finite_between = ground arith;
  zero-le-lit = ground arith;
  lit_finite = lit_below;
  zero-lt-lit = lit_above;
  lit_scale = λ m k. ap positive (scale_down m k);
  lit-plus = λ m n h k. ground arith;
  lit-half = λ m h. ground arith;
  lit_mono = λ m n k h. ground (arith, div_mono (m * places) (n * places) (10 ^ k));
  numbers_of_min = ground arith;
  numbers_of_max = ground arith;
  min_le = ground arith;
  le-min = ground arith;
  le_max = ground arith;
  max-le = ground arith;
  eq-eq-le = ground arith;
  numbers_of_minus = ground arith;
  numbers_of_times = ground arith;
  numbers_of_over = ground arith;
  number_of_plus = ground arith;
  number_of_minus = ground arith;
  number_of_over = ground arith;
  minus_negative = ground arith;
  minus_nonneg = ground arith;
  minus_nonpos = ground arith;
  minus_le = ground arith;
  minus_zero = ground arith;
  times_nonneg = ground arith;
  abs_nonneg = ground arith;
}
