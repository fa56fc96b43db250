-- ===== src/Prelude/Maps.antt =====
-- A Go map with string keys, as an association list in which a key stands at most once.
use mathlib.Core.Path.{◌≡◌, refl}
use mathlib.Core.List.{List, [], ◌∷◌}
use mathlib.Core.Option.{Option, none, some}
use native.Mathlib.Omega.{arith}
use kraclaw.Prelude.Tests.{if◌then◌else◌}
use kraclaw.Prelude.Texts.{Text, ◌==◌, ==_iff}

abbrev pub Map {ℓ} : Type ℓ → Type ℓ
Map V = List (Text × V)

module _ {ℓ} {V : Type ℓ} where
  -- `m[k] = v`.
  unfoldable pub insert : Text → V → Map V → Map V
  insert key new [] = (key, new) ∷ []
  insert key new (e ∷ rest) = if e.0 == key then (key, new) ∷ rest else e ∷ insert key new rest

  -- `delete(m, k)`.
  unfoldable pub remove : Text → Map V → Map V
  remove key [] = []
  remove key (e ∷ rest) = if e.0 == key then remove key rest else e ∷ remove key rest

  -- `v, ok := m[k]`.
  unfoldable pub lookup : Text → Map V → Option V
  lookup key [] = none
  lookup key (e ∷ rest) = if e.0 == key then some e.1 else lookup key rest

  -- `m[k]` with the zero value of the value type.
  abbrev pub lookup_or : V → Text → Map V → V
  lookup_or d k m = elim (lookup k m) [ none ↦ d | some v ↦ v ]

  pub lookup-insert :
      (key other : Text) (new : V) (m : Map V)
      → lookup other (insert key new m) ≡ (if key == other then some new else lookup other m)
  unfolding insert lookup
  lookup-insert key other new [] = refl
  lookup-insert key other new (e ∷ rest) =
      let h = lookup-insert key other new rest in
      ground (arith, h, ==_iff e.0 key, ==_iff e.0 other, ==_iff key other)

  pub lookup-remove :
      (key other : Text) (m : Map V)
      → lookup other (remove key m) ≡ (if key == other then none else lookup other m)
  unfolding remove lookup
  lookup-remove key other [] = ground arith
  lookup-remove key other (e ∷ rest) =
      let h = lookup-remove key other rest in
      ground (arith, h, ==_iff e.0 key, ==_iff e.0 other, ==_iff key other)
