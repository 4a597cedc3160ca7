-- ===== src/Base/Maps.antt =====
-- Tables from numbers to values, the first entry of a key counting.
use Prim.Native.Nat.{ℕ}
use mathlib.Core.Path.{◌≡◌, refl}
use mathlib.Core.Bool.{Bool, true, false}
use mathlib.Core.Option.{Option, none, some}
use mathlib.Core.List.{List, [], ◌∷◌}
use native.Mathlib.Omega.{arith}
use server.Base.Tests.{◌==◌, if◌then◌else◌}

module _ {V : Type 0} where
  unfoldable pub lookup : ℕ → List (ℕ × V) → Option V
  lookup k [] = none
  lookup k (x ∷ xs) = if x.0 == k then some x.1 else lookup k xs

  unfoldable pub remove_key : ℕ → List (ℕ × V) → List (ℕ × V)
  remove_key k [] = []
  remove_key k (x ∷ xs) = let rest = remove_key k xs in if x.0 == k then rest else x ∷ rest

  -- `emplace`: nothing changes if the key is there.
  unfoldable pub emplace : ℕ → V → List (ℕ × V) → Bool × List (ℕ × V)
  unfolding lookup
  emplace k v m = elim (lookup k m) [ some w ↦ (false, m) | none ↦ (true, (k, v) ∷ m) ]

  -- `m[k] = v`
  unfoldable pub assign : ℕ → V → List (ℕ × V) → List (ℕ × V)
  unfolding remove_key
  assign k v m = (k, v) ∷ remove_key k m

  pub lookup-remove_key :
      (j k : ℕ) (m : List (ℕ × V))
      → lookup j (remove_key k m) ≡ (if k == j then none else lookup j m)
  unfolding lookup remove_key
  lookup-remove_key j k [] = ground arith
  lookup-remove_key j k (x ∷ xs) = ground (arith, lookup-remove_key j k xs)

  pub lookup-assign :
      (j k : ℕ) (v : V) (m : List (ℕ × V))
      → lookup j (assign k v m) ≡ (if k == j then some v else lookup j m)
  unfolding lookup assign
  lookup-assign j k v m = ground (arith, lookup-remove_key j k m)

  pub remove_key-missing : (k : ℕ) (m : List (ℕ × V)) → lookup k m ≡ none → remove_key k m ≡ m
  unfolding lookup remove_key
  remove_key-missing k [] h = refl
  remove_key-missing k (x ∷ m) h = ground (arith, remove_key-missing k m)

  pub lookup-remove_key-none :
      (j k : ℕ) (m : List (ℕ × V)) → lookup j m ≡ none → lookup j (remove_key k m) ≡ none
  lookup-remove_key-none j k m h = ground (arith, lookup-remove_key j k m)

  -- An entry that was put in front, taken out again.
  pub remove_key-cons :
      (k : ℕ) (v : V) (m : List (ℕ × V)) → lookup k m ≡ none → remove_key k ((k, v) ∷ m) ≡ m
  unfolding remove_key
  remove_key-cons k v m h = ground (arith, remove_key-missing k m)
