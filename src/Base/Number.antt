-- ===== src/Base/Number.antt =====
-- What the program does with a TypeScript `number`. JavaScript's doubles are not code of the
-- repository, so they are a parameter: a type with the operations that the source calls, and, for the
-- theorems that need them, facts of IEEE 754 arithmetic that hold with NaN, the infinities, both
-- zeros and rounding.
use Prim.Native.Nat.{ℕ, suc, ◌≤◌, ◌^◌, ◌+◌ as ◌+ℕ◌, ◌*◌ as ◌*ℕ◌}
use mathlib.Core.Path.{◌≡◌}
use mathlib.Core.Logic.{◌⊎◌}
use mathlib.Core.Bool.{Bool, true, not, ◌&&◌}

pub record Number (N : Type 0) : Type 0 where
  -- `lit m k` is the decimal literal m / 10^k: 0.75 is `lit 75 2`.
  pub lit : ℕ → ℕ → N
  -- `Number.POSITIVE_INFINITY`
  pub infinity : N
  pub plus : N → N → N
  pub minus : N → N → N
  pub times : N → N → N
  pub over : N → N → N
  -- `Math.abs`, and `Math.min` and `Math.max` of two numbers
  pub abs : N → N
  pub min : N → N → N
  pub max : N → N → N
  -- `<`, `<=`, `===`
  pub lt : N → N → Bool
  pub le : N → N → Bool
  pub eq : N → N → Bool
  -- `Number.isFinite`
  pub is_finite : N → Bool

module _ {N : Type 0} ⦃num : Number N⦄ where
  infixl 65 ◌+◌ ◌-◌
  infixl 70 ◌*◌ ◌/◌
  abbrev pub ◌+◌ : N → N → N
  x + y = num.plus x y

  abbrev pub ◌-◌ : N → N → N
  x - y = num.minus x y

  abbrev pub ◌*◌ : N → N → N
  x * y = num.times x y

  abbrev pub ◌/◌ : N → N → N
  x / y = num.over x y

  -- A whole literal, or the number of elements of an array.
  abbrev pub int : ℕ → N
  int n = num.lit n 0

  -- A number as a condition: 0 and NaN are false.
  abbrev pub truthy : N → Bool
  truthy x = num.eq x x && not (num.eq x (int 0))

infix 4 ◌≼◌
abbrev pub ◌≼◌ : {N : Type 0} ⦃num : Number N⦄ → N → N → Type 0
◌≼◌ ⦃num⦄ x y = num.le x y ≡ true

-- Not NaN: NaN is the value that is not `<=` itself.
abbrev pub IsNumber : {N : Type 0} ⦃num : Number N⦄ → N → Type 0
IsNumber x = x ≼ x

-- The same number: 0 and -0 are.
abbrev pub SameNumber : {N : Type 0} ⦃num : Number N⦄ → N → N → Type 0
SameNumber x y = (x ≼ y) × (y ≼ x)

pub record IsIeee (N : Type 0) ⦃num : Number N⦄ : Type 0 where
  pub numbers_of_le : (x y : N) → x ≼ y → IsNumber x × IsNumber y
  pub le_trans : (x y z : N) → x ≼ y → y ≼ z → x ≼ z
  pub le_total : (x y : N) → IsNumber x → IsNumber y → (x ≼ y) ⊎ (y ≼ x)
  pub le_of_lt : (x y : N) → num.lt x y ≡ true → x ≼ y
  pub lt-eq-not-le : (x y : N) → IsNumber x → IsNumber y → num.lt x y ≡ not (num.le y x)
  pub finite_number : (x : N) → num.is_finite x ≡ true → IsNumber x
  pub finite_between :
      (x y : N) → int 0 ≼ x → x ≼ y → num.is_finite y ≡ true → num.is_finite x ≡ true
  pub zero-le-lit : (m k : ℕ) → int 0 ≼ num.lit m k
  -- Literals of the size of those in the source are finite, and positive unless they are 0.
  pub lit_finite : (m k : ℕ) → m ≤ 10 ^ 12 → num.is_finite (num.lit m k) ≡ true
  pub zero-lt-lit : (m k : ℕ) → 1 ≤ m → k ≤ 12 → num.lt (int 0) (num.lit m k) ≡ true
  -- 2.0 is 2, and sums and halves of small whole literals are exact.
  pub lit_scale : (m k : ℕ) → num.lit (m *ℕ 10) (suc k) ≡ num.lit m k
  pub lit-plus : (m n : ℕ) → m ≤ 1000 → n ≤ 1000 → num.plus (int m) (int n) ≡ num.lit (m +ℕ n) 0
  pub lit-half : (m : ℕ) → m ≤ 1000 → num.over (int m) (int 2) ≡ num.lit (m *ℕ 5) 1
  pub lit_mono : (m n k : ℕ) → m ≤ n → num.lit m k ≼ num.lit n k
  -- `Math.min` and `Math.max` return NaN as soon as one argument is NaN.
  pub numbers_of_min : (x y : N) → IsNumber (num.min x y) → IsNumber x × IsNumber y
  pub numbers_of_max : (x y : N) → IsNumber (num.max x y) → IsNumber x × IsNumber y
  pub min_le : (x y : N) → IsNumber x → IsNumber y → (num.min x y ≼ x) × (num.min x y ≼ y)
  pub le-min : (x y z : N) → z ≼ x → z ≼ y → z ≼ num.min x y
  pub le_max : (x y : N) → IsNumber x → IsNumber y → (x ≼ num.max x y) × (y ≼ num.max x y)
  pub max-le : (x y z : N) → x ≼ z → y ≼ z → num.max x y ≼ z
  pub eq-eq-le : (x y : N) → IsNumber x → IsNumber y → num.eq x y ≡ num.le x y && num.le y x
  -- An operation with a NaN operand is NaN.
  pub numbers_of_minus : (x y : N) → IsNumber (x - y) → IsNumber x × IsNumber y
  pub numbers_of_times : (x y : N) → IsNumber (x * y) → IsNumber x × IsNumber y
  pub numbers_of_over : (x y : N) → IsNumber (x / y) → IsNumber x × IsNumber y
  -- Finite operands give NaN only in 0 / 0.
  pub number_of_plus :
      (x y : N) → num.is_finite x ≡ true → num.is_finite y ≡ true → IsNumber (x + y)
  pub number_of_minus :
      (x y : N) → num.is_finite x ≡ true → num.is_finite y ≡ true → IsNumber (x - y)
  pub number_of_over :
      (x y : N) → IsNumber x → num.is_finite y ≡ true → num.lt (int 0) y ≡ true → IsNumber (x / y)
  pub minus_negative :
      (x y : N)
      → num.is_finite x ≡ true
      → num.is_finite y ≡ true
      → num.lt (x - y) (int 0) ≡ num.lt x y
  pub minus_nonneg : (x y : N) → y ≼ x → IsNumber (x - y) → int 0 ≼ x - y
  pub minus_nonpos : (x y : N) → x ≼ y → IsNumber (x - y) → x - y ≼ int 0
  pub minus_le : (x y : N) → int 0 ≼ y → IsNumber (x - y) → x - y ≼ x
  pub minus_zero : (x : N) → x - int 0 ≡ x
  pub times_nonneg : (x y : N) → int 0 ≼ x → int 0 ≼ y → IsNumber (x * y) → int 0 ≼ x * y
  pub abs_nonneg : (x : N) → IsNumber x → int 0 ≼ num.abs x
