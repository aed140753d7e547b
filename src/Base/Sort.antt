-- ===== src/Base/Sort.antt =====
-- `Array.prototype.sort` with a comparator: stable, so `x` goes before the first element that the
-- comparator puts strictly after it. `before x y` is `compare(x, y) < 0`.
use mathlib.Core.List.{List, [], ◌∷◌, Perm}
use mathlib.Core.List.Perm
use hashi_bot.Base.Tests.{if◌then◌else◌, Bool-cases}
use hashi_bot.Base.Lists.{All}
use mathlib.Core.Path.{◌≡◌}
use mathlib.Core.Bool.{Bool, true, false}
use mathlib.Core.Logic.{inl, inr}

module _ {A : Type 0} (before : A → A → Bool) where
  -- The elements are taken from the back: a new one passes those that come strictly before it.
  unfoldable pub place : A → List A → List A
  place x [] = x ∷ []
  place x (y ∷ ys) = if before y x then y ∷ place x ys else x ∷ y ∷ ys

  unfoldable pub sort : List A → List A
  unfolding place
  sort [] = []
  sort (x ∷ xs) = place x (sort xs)

  pub place-perm : (x : A) (ys : List A) → Perm (place x ys) (x ∷ ys)
  unfolding place
  place-perm x [] = Perm.refl (x ∷ [])
  place-perm x (y ∷ ys) = elim (Bool-cases (before y x)) [
    | inl e ↦ rw e (Perm.trans (Perm.cons y (place-perm x ys)) (Perm.swap x y ys))
    | inr e ↦ rw e (Perm.refl (x ∷ y ∷ ys))
  ]

  pub sort-perm : (xs : List A) → Perm (sort xs) xs
  unfolding sort
  sort-perm [] = Perm.refl []
  sort-perm (x ∷ xs) = Perm.trans (place-perm x (sort xs)) (Perm.cons x (sort-perm xs))

  -- No element stands strictly before one to its left.
  abbrev pub Ordered : List A → Type 0
  Ordered [] = Unit
  Ordered (x ∷ xs) = All (λ y. before y x ≡ false) xs × Ordered xs

  pub All-place {κ} : (P : A → Type κ) (x : A) (ys : List A) → P x → All P ys → All P (place x ys)
  unfolding place
  All-place P x [] h k = (h, tt)
  All-place P x (y ∷ ys) h k = elim (Bool-cases (before y x)) [
    | inl e ↦ rw e (k.0, All-place P x ys h k.1)
    | inr e ↦ rw e (h, k)
  ]

  pub All-sort {κ} : (P : A → Type κ) (xs : List A) → All P xs → All P (sort xs)
  unfolding sort
  All-sort P [] h = tt
  All-sort P (x ∷ xs) h = All-place P x (sort xs) h.0 (All-sort P xs h.1)

-- The comparator need only be an order on the elements at hand, those with `P`.
module _ {A : Type 0} (before : A → A → Bool) (P : A → Type 0)
    (asym : (x y : A) → P x → P y → before x y ≡ true → before y x ≡ false)
    (trans : (x y z : A)
      → P x
      → P y
      → P z
      → before y x ≡ false
      → before z y ≡ false
      → before z x ≡ false) where
  All-trans :
      (x y : A) (zs : List A)
      → P x
      → P y
      → All P zs
      → before y x ≡ false
      → All (λ z. before z y ≡ false) zs
      → All (λ z. before z x ≡ false) zs
  All-trans x y [] px py ps e h = tt
  All-trans x y (z ∷ zs) px py ps e h =
      (trans x y z px py ps.0 e h.0, All-trans x y zs px py ps.1 e h.1)

  place-Ordered :
      (x : A) (ys : List A)
      → P x
      → All P ys
      → Ordered before ys
      → Ordered before (place before x ys)
  unfolding place
  place-Ordered x [] px ps o = (tt, tt)
  place-Ordered x (y ∷ ys) px ps o = elim (Bool-cases (before y x)) [
    | inl e ↦ rw e (
      All-place before (λ z. before z y ≡ false) x ys (asym y x ps.0 px e) o.0,
      place-Ordered x ys px ps.1 o.1,
    )
    | inr e ↦ rw e ((e, All-trans x y ys px ps.0 ps.1 e o.0), o)
  ]

  pub sort-Ordered : (xs : List A) → All P xs → Ordered before (sort before xs)
  unfolding sort
  sort-Ordered [] ps = tt
  sort-Ordered (x ∷ xs) ps =
      place-Ordered x (sort before xs) ps.0 (All-sort before P xs ps.1) (sort-Ordered xs ps.1)
