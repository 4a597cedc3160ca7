-- ===== src/Container/LruCache/Abstract.antt =====
-- What the cache of Source/Core/Container/LruCache.h promises: keys and values, the last used first.
use server.Base.{ℕ, Bool, true, false, List, [], ◌∷◌, Option, some, none, take, ◌==◌, if◌then◌else◌}
use server.Container.LruCache.{Node}

module _ {V : Type 0} where
  unfoldable pub entries : List (Node V) → List (ℕ × V)
  entries [] = []
  entries (n ∷ ns) = (n.key, n.value) ∷ entries ns

  unfoldable pub find : ℕ → List (ℕ × V) → Option V
  find k [] = none
  find k (x ∷ xs) = if x.0 == k then some x.1 else find k xs

  unfoldable pub remove : ℕ → List (ℕ × V) → List (ℕ × V)
  remove k [] = []
  remove k (x ∷ xs) = if x.0 == k then xs else x ∷ remove k xs

  unfoldable pub abstract_put : ℕ → ℕ → V → List (ℕ × V) → Bool × List (ℕ × V)
  unfolding find
  abstract_put max k v es = elim (find k es) [
    | some w ↦ (false, es)
    | none ↦ (true, take max ((k, v) ∷ es))
  ]

  unfoldable pub abstract_update : ℕ → ℕ → V → List (ℕ × V) → List (ℕ × V)
  unfolding remove
  abstract_update max k v es = take max ((k, v) ∷ remove k es)

  unfoldable pub abstract_get : (V → V) → ℕ → List (ℕ × V) → List (ℕ × V)
  unfolding find remove
  abstract_get moved k es = elim (find k es) [ some w ↦ (k, moved w) ∷ remove k es | none ↦ es ]
