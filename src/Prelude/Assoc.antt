-- ===== src/Prelude/Assoc.antt =====
-- Go maps with string keys, as association lists. The program never depends on their order.
use mathlib.Core.Path.{◌≡◌, refl}
use mathlib.Core.Bool.{Bool}
use mathlib.Core.Option.{Option, none, some}
use mathlib.Core.List.{List, [], ◌∷◌}
use native.Mathlib.Omega.{arith}
use blockade.Prelude.Tests.{if◌then◌else◌}
use blockade.Prelude.Text.{Bytes, ◌==◌, eq_iff}

abbrev pub Map {ℓ} : Type ℓ → Type ℓ
Map V = List (Bytes × V)

module _ {ℓ} {V : Type ℓ} where
  -- found, ok := m[key]
  unfoldable pub lookup : Bytes → Map V → Option V
  lookup key [] = none
  lookup key ((name, found) ∷ rest) = if key == name then some found else lookup key rest

  -- delete(m, key)
  unfoldable pub delete : Bytes → Map V → Map V
  delete key [] = []
  delete key ((name, found) ∷ m) =
      let rest = delete key m in if key == name then rest else (name, found) ∷ rest

  -- m[key] = new: the new entry stands first, and an old one is gone.
  unfoldable pub insert : Bytes → V → Map V → Map V
  unfolding delete
  insert key new m = (key, new) ∷ delete key m

  -- for k, v := range m { if !keep(v) { delete(m, k) } }
  unfoldable pub retain : (V → Bool) → Map V → Map V
  unfolding delete
  retain keep [] = []
  retain keep ((name, found) ∷ m) =
      let rest = retain keep m in if keep found then (name, found) ∷ rest else delete name rest

  pub lookup-delete :
      (key other : Bytes) (m : Map V)
      → lookup other (delete key m) ≡ (if key == other then none else lookup other m)
  unfolding lookup delete
  lookup-delete key other [] = ground arith
  lookup-delete key other ((name, found) ∷ m) =
      ground
        (arith, lookup-delete key other m, eq_iff key name, eq_iff other name, eq_iff key other)

  pub lookup-insert :
      (key other : Bytes) (new : V) (m : Map V)
      → lookup other (insert key new m) ≡ (if key == other then some new else lookup other m)
  unfolding lookup insert
  lookup-insert key other new m =
      ground (arith, lookup-delete key other m, eq_iff key other, eq_iff other key)

  -- Removing the entries of a map leaves each key what it had, or nothing.
  pub lookup-retain :
      (keep : V → Bool) (key : Bytes) (m : Map V)
      → lookup key (retain keep m)
        ≡ elim (lookup key m) [ none ↦ none | some found ↦ if keep found then some found else none ]
  unfolding lookup retain
  lookup-retain keep key [] = refl
  lookup-retain keep key ((name, found) ∷ m) = ground (
    arith,
    lookup-retain keep key m,
    lookup-delete name key (retain keep m),
    eq_iff key name,
    eq_iff name key,
  )

pub ruleset map_laws = (lookup-insert, lookup-delete)
