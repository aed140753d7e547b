-- ===== src/Base/Dict.antt =====
-- A `Map` with string keys: its entries, in the order in which the keys were first set.
use text.Mathlib.Text.{◌==◌}
use text.Mathlib.TextPositions.{eq_refl}
use text.Mathlib.TextEquality.{eq_iff}
use Prim.Native.String.{String}
use mathlib.Core.Path.{◌≡◌, refl}
use mathlib.Core.Logic.{inl, inr}
use mathlib.Core.Bool.{false, ◌||◌}
use mathlib.Core.Option.{Option, none, some}
use mathlib.Core.List.{List, [], ◌∷◌}
use native.Mathlib.Omega.{arith}
use hashi_bot.Base.Tests.{Bool-cases, is_some, if◌then◌else◌}
use hashi_bot.Base.Lists.{All}

module _ {A : Type 0} where
  abbrev pub lookup : String → List (String × A) → Option A
  lookup key [] = none
  lookup key (entry ∷ entries) = if entry.0 == key then some entry.1 else lookup key entries

  -- `map.set(key, value)`: in place, or at the end.
  abbrev pub set : String → A → List (String × A) → List (String × A)
  set key value [] = (key, value) ∷ []
  set key value (entry ∷ entries) =
      let rest = set key value entries in
      if entry.0 == key then (key, value) ∷ entries else entry ∷ rest

  pub lookup-set_same :
      (key : String) (value : A) (m : List (String × A)) → lookup key (set key value m) ≡ some value
  lookup-set_same key value [] = rw (eq_refl key) refl
  lookup-set_same key value (entry ∷ entries) = elim (Bool-cases (entry.0 == key)) [
    | inl t ↦ rw (t, eq_refl key) refl
    | inr t ↦ rw (t, t) (lookup-set_same key value entries)
  ]

  pub All-set :
      (P : A → Type 0) (key : String) (value : A) (m : List (String × A))
      → P value
      → All (λ entry. P entry.1) m
      → All (λ entry. P entry.1) (set key value m)
  All-set P key value [] p h = (p, tt)
  All-set P key value (entry ∷ entries) p (h, hs) = elim (Bool-cases (entry.0 == key)) [
    | inl t ↦ rw t (p, hs)
    | inr t ↦ rw t (h, All-set P key value entries p hs)
  ]

  -- What holds of every value holds of one that is found.
  pub All-lookup :
      (P : A → Type 0) (key : String) (m : List (String × A)) (value : A)
      → All (λ entry. P entry.1) m
      → lookup key m ≡ some value
      → P value
  All-lookup P key [] value h e = cc e
  All-lookup P key (entry ∷ entries) value (h, hs) e = elim (Bool-cases (entry.0 == key)) [
    | inl t ↦ ground arith
    | inr t ↦ All-lookup P key entries value hs (rw t at e)
  ]

  -- Setting a new key leaves what is found under the others.
  pub lookup-set_fresh :
      (key other : String) (value found : A) (m : List (String × A))
      → lookup other m ≡ none
      → lookup key m ≡ some found
      → lookup key (set other value m) ≡ some found
  lookup-set_fresh key other value found [] n e = cc e
  lookup-set_fresh key other value found (entry ∷ entries) n e =
      elim (Bool-cases (entry.0 == key)) [
        | inl t ↦ ground arith
        | inr t ↦
            let tail : lookup key entries ≡ some found = rw t at e in
            let unset : lookup other entries ≡ none = ground arith in
            ground (arith, t, lookup-set_fresh key other value found entries unset tail)
      ]

  -- Setting a key changes nothing under another.
  pub lookup-set_other :
      (key other : String) (value : A) (m : List (String × A))
      → (key == other) ≡ false
      → lookup key (set other value m) ≡ lookup key m
  lookup-set_other key other value [] n = ground (arith, eq_iff key other, eq_iff other key)
  lookup-set_other key other value (entry ∷ entries) n = ground (
    arith,
    eq_iff key other,
    eq_iff other key,
    eq_iff entry.0 other,
    eq_iff entry.0 key,
    lookup-set_other key other value entries n,
  )

  pub is_some-set :
      (key other : String) (value : A) (m : List (String × A))
      → is_some (lookup key (set other value m)) ≡ (other == key) || is_some (lookup key m)
  is_some-set key other value m = ground (
    arith,
    eq_iff key other,
    eq_iff other key,
    lookup-set_same other value m,
    lookup-set_other key other value m,
  )
