-- ===== src/Common/Maps.antt =====
-- A Go `map` with string keys, as an association list with one entry to a key.
use Prim.Native.Nat.{ℕ, ◌+◌}
use mathlib.Core.Path.{◌≡◌, refl, ◌∙◌}
use mathlib.Core.List.{List, [], ◌∷◌}
use mathlib.Core.Option.{Option, none, some}
use native.Mathlib.Omega.{arith}
use gardener_discovery_serve.Common.Tests.{if◌then◌else◌}
use gardener_discovery_serve.Common.Lists.{length}
use gardener_discovery_serve.Common.Text.{Bytes, ◌==◌, eq_iff, eq_refl}

abbrev pub Map {ℓ} : Type ℓ → Type ℓ
Map V = List (Bytes × V)

module _ {ℓ} {V : Type ℓ} where
  -- `v, ok := m[k]`
  unfoldable pub lookup : Bytes → Map V → Option V
  lookup k [] = none
  lookup k ((j, v) ∷ m) = if j == k then some v else lookup k m

  -- `delete(m, k)`
  unfoldable pub remove : Bytes → Map V → Map V
  remove k [] = []
  remove k ((j, v) ∷ m) = let rest = remove k m in if j == k then rest else (j, v) ∷ rest

  -- `m[k] = v`
  unfoldable pub insert : Bytes → V → Map V → Map V
  insert k v m = (k, v) ∷ remove k m

  pub lookup-remove :
      (k j : Bytes) (m : Map V) → lookup j (remove k m) ≡ (if k == j then none else lookup j m)
  unfolding lookup remove
  lookup-remove k j [] = ground arith
  lookup-remove k j ((i, v) ∷ m) =
      ground (arith, lookup-remove k j m, eq_iff i k, eq_iff i j, eq_iff k j)

  pub lookup-insert :
      (k j : Bytes) (v : V) (m : Map V)
      → lookup j (insert k v m) ≡ (if k == j then some v else lookup j m)
  unfolding lookup insert
  lookup-insert k j v m = ground (arith, lookup-remove k j m)

  pub lookup-nil : (k : Bytes) → lookup k [] ≡ none
  unfolding lookup
  lookup-nil k = refl

  -- One entry to a key, as in a Go map.
  abbrev pub Distinct : Map V → Type ℓ
  Distinct [] = Unit
  Distinct ((k, v) ∷ m) = (lookup k m ≡ none) × Distinct m

  -- how many entries a key has, by what it looks up to
  abbrev pub present : Option V → ℕ
  present none = 0
  present (some v) = 1

  pub Distinct-remove : (k : Bytes) (m : Map V) → Distinct m → Distinct (remove k m)
  unfolding remove
  Distinct-remove k [] d = tt
  Distinct-remove k ((j, v) ∷ m) d = ground (arith, lookup-remove k j m, Distinct-remove k m d.1)

  pub Distinct-insert : (k : Bytes) (v : V) (m : Map V) → Distinct m → Distinct (insert k v m)
  unfolding insert
  Distinct-insert k v m d = (lookup-remove k k m ∙ (rw (eq_refl k)), Distinct-remove k m d)

  pub remove-absent : (k : Bytes) (m : Map V) → lookup k m ≡ none → remove k m ≡ m
  unfolding remove lookup
  remove-absent k [] h = refl
  remove-absent k ((j, v) ∷ m) h = ground (arith, remove-absent k m)

  pub length-remove :
      (k : Bytes) (m : Map V) → Distinct m → length (remove k m) + present (lookup k m) ≡ length m
  unfolding remove lookup
  length-remove k [] d = omega arith
  length-remove k ((j, v) ∷ m) d =
      ground (arith, length-remove k m d.1, eq_iff j k, remove-absent k m)

  pub length-insert :
      (k : Bytes) (v : V) (m : Map V)
      → Distinct m
      → length (insert k v m) + present (lookup k m) ≡ length m + 1
  unfolding insert
  length-insert k v m d = omega (arith, length-remove k m d)

pub ruleset map_laws = (lookup-nil, lookup-insert, lookup-remove)
