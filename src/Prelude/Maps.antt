-- ===== src/Prelude/Maps.antt =====
-- std::unordered_map over numbers as an association list in which a key stands once.
use Prim.Native.Nat.{ℕ, ◌≤◌, ◌<◌}
use mathlib.Core.Path.{◌≡◌}
use mathlib.Core.List.{List, [], ◌∷◌}
use mathlib.Core.Bool.{true, false}
use mathlib.Core.Option.{Option, none, some}
use native.Mathlib.Omega.{arith}
use remus_tutorial.Prelude.Tests.{◌==◌, if◌then◌else◌}
use remus_tutorial.Prelude.Lists.{length}

abbrev pub Map {ℓ} : Type ℓ → Type ℓ
Map V = List (ℕ × V)

module _ {ℓ} {V : Type ℓ} where
  -- `find`
  unfoldable pub lookup : ℕ → Map V → Option V
  lookup addr [] = none
  lookup addr ((at, v) ∷ more) = elim (at == addr) [ true ↦ some v | false ↦ lookup addr more ]

  -- `map[addr] = v`
  unfoldable pub insert : ℕ → V → Map V → Map V
  insert addr v [] = (addr, v) ∷ []
  insert addr v ((at, old) ∷ more) = elim (at == addr) [
    | true ↦ (at, v) ∷ more
    | false ↦ (at, old) ∷ insert addr v more
  ]

  -- Every entry of the key goes; where keys stand once, that is the one entry.
  unfoldable pub erase : ℕ → Map V → Map V
  erase k [] = []
  erase k ((j, w) ∷ m) = elim (j == k) [ true ↦ erase k m | false ↦ (j, w) ∷ erase k m ]

  pub lookup-insert :
      (k j : ℕ) (v : V) (m : Map V)
      → lookup j (insert k v m) ≡ (if k == j then some v else lookup j m)
  unfolding lookup insert
  lookup-insert k j v [] = ground arith
  lookup-insert k j v ((i, w) ∷ m) = ground (arith, lookup-insert k j v m)

  pub lookup-erase :
      (k j : ℕ) (m : Map V) → lookup j (erase k m) ≡ (if k == j then none else lookup j m)
  unfolding lookup erase
  lookup-erase k j [] = ground arith
  lookup-erase k j ((i, w) ∷ m) = ground (arith, lookup-erase k j m)

  pub length-erase : (k : ℕ) (m : Map V) → length (erase k m) ≤ length m
  unfolding erase
  length-erase k [] = omega arith
  length-erase k ((i, w) ∷ m) = ground (arith, length-erase k m)

  -- Erasing a key that is there makes the map smaller.
  pub length-erase_lt :
      (k : ℕ) (m : Map V) (v : V) → lookup k m ≡ some v → length (erase k m) < length m
  unfolding lookup erase
  length-erase_lt k [] v h = ground arith
  length-erase_lt k ((i, w) ∷ m) v h = ground (arith, length-erase k m, length-erase_lt k m v)
