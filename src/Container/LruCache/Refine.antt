-- ===== src/Container/LruCache/Refine.antt =====
-- The cache of Source/Core/Container/LruCache.h does what the abstract one does.
use server.Base.{
  ℕ, ◌≤◌, ◌≡◌, refl, sym, ap, ap₂, ◌∙◌, subst, ◌∷◌, Option, some, none, length, take, arith,
  ℕ_discrete, eq→==, ne→not-==, Option-cases, inl, inr,
}
use server.Container.LruCache.{
  Node, LruCache, element, erase_at, erase_entry, erase_key, put, update, pop, get,
}
use server.Container.LruCache.Abstract.{
  entries, find, remove, abstract_put, abstract_update, abstract_get,
}
use server.Container.LruCache.Lists.{
  iterator_of, IsNew, IsFree, iterator_of-none, element-iterator_of, erase_at-Erased,
  AllBelow-erase_at, AllDistinct-erase_at, remove-IsNew, element-AllBelow,
}
use server.Container.LruCache.Links.{IsLinked, IsCache, erase_entry-IsLinked, add-Trims}

module _ {V : Type 0} where
  -- Put does what the abstract cache does: a key that is there stays as it is; a new one goes to the
  -- front, and the entry used longest ago goes if there are more than the maximum. The invariant is kept.
  pub put-abstract_put :
      (k : ℕ) (x : V) (c : LruCache V)
      → IsCache c
      → IsCache (put k x c).1
        × ((put k x c).0 ≡ (abstract_put c.max_size k x (entries c.lru_key_values)).0)
        × (entries (put k x c).1.lru_key_values
            ≡ (abstract_put c.max_size k x (entries c.lru_key_values)).1)
  unfolding put abstract_put
  put-abstract_put k x c v = elim (Option-cases (c.lookup_table k)) [
    | inl absent ↦
        let (f, n) = iterator_of-none k c.lru_key_values (sym (v.links.linked k) ∙ absent) in
        let (w, e, m) = add-Trims k x c v.links f v.bounded in
        rw (absent, n, put, abstract_put) (w, refl, e)
    | inr (i, present) ↦
        let (n, a, b, e, q) =
          element-iterator_of k i c.lru_key_values v.links.distinct
            (sym (v.links.linked k) ∙ present) in
        rw (present, q, put, abstract_put) (v, refl, refl)
  ]

  -- Pop returns the value of the key and takes out its entry, and only it; without the key it returns
  -- nothing and changes nothing. The invariant is kept.
  pub pop-remove :
      (k : ℕ) (c : LruCache V)
      → IsCache c
      → IsCache (pop k c).1
        × ((pop k c).0 ≡ find k (entries c.lru_key_values))
        × (entries (pop k c).1.lru_key_values ≡ remove k (entries c.lru_key_values))
  unfolding pop
  pop-remove k c v = elim (Option-cases (c.lookup_table k)) [
    | inl absent ↦
        let (f, n) = iterator_of-none k c.lru_key_values (sym (v.links.linked k) ∙ absent) in
        rw (absent, pop) (v, sym n, sym (remove-IsNew k c.lru_key_values f))
    | inr (i, present) ↦
        let (n, a, b, e, q) =
          element-iterator_of k i c.lru_key_values v.links.distinct
            (sym (v.links.linked k) ∙ present) in
        let (w, r) = erase_entry-IsLinked k i c v.links present in
        rw (present, a, pop)
          (record { links = w; bounded = omega (arith, r.shorter, v.bounded) }, sym q, r.listed)
  ]

  erase_key-none : (k : ℕ) (c : LruCache V) → c.lookup_table k ≡ none → erase_key k c ≡ c
  unfolding erase_key
  erase_key-none k c e = simp (e, erase_key) refl

  erase_key-some :
      (k i : ℕ) (c : LruCache V) → c.lookup_table k ≡ some i → erase_key k c ≡ erase_entry k i c
  unfolding erase_key
  erase_key-some k i c e = simp (e, erase_key) refl

  abbrev Cleared : ℕ → LruCache V → LruCache V → Type 0
  Cleared k c d =
      IsLinked d
      × (IsNew k d.lru_key_values
          × (entries d.lru_key_values ≡ remove k (entries c.lru_key_values)))
      × ((length d.lru_key_values ≤ d.max_size) × (d.max_size ≡ c.max_size))

  erase_key-IsLinked : (k : ℕ) (c : LruCache V) → IsCache c → Cleared k c (erase_key k c)
  unfolding erase_entry
  erase_key-IsLinked k c v = elim (Option-cases (c.lookup_table k)) [
    | inl absent ↦
        let (f, n) = iterator_of-none k c.lru_key_values (sym (v.links.linked k) ∙ absent) in
        subst (Cleared k c) (sym (erase_key-none k c absent))
          (v.links, (f, sym (remove-IsNew k c.lru_key_values f)), (v.bounded, refl))
    | inr (i, present) ↦
        let (u, r) = erase_entry-IsLinked k i c v.links present in
        subst (Cleared k c) (sym (erase_key-some k i c present))
          (u, (r.gone, r.listed), (omega (arith, r.shorter, v.bounded), refl))
  ]

  -- Update puts the value at the front under its key, whether the key was there or not, and the entry
  -- used longest ago goes if there are more than the maximum. The invariant is kept.
  pub update-abstract_update :
      (k : ℕ) (x : V) (c : LruCache V)
      → IsCache c
      → IsCache (update k x c)
        × (entries (update k x c).lru_key_values
            ≡ abstract_update c.max_size k x (entries c.lru_key_values))
  unfolding update abstract_update
  update-abstract_update k x c v =
      let (u, e, h) = erase_key-IsLinked k c v in
      let (w, a, m) = add-Trims k x (erase_key k c) u e.0 h.0 in
      (w, a ∙ ap₂ (λ n l. take n ((k, x) ∷ l)) h.1 e.1)

  -- The element of a key at the front, its value moved out.
  moved_front :
      (moved : V → V) (k i : ℕ) (n : Node V) (c : LruCache V)
      → IsCache c
      → c.lookup_table k ≡ some i
      → element i c.lru_key_values ≡ some n
      → n.key ≡ k
      → n.iterator ≡ i
      → IsCache (record c {
        lru_key_values = record n { value = moved n.value } ∷ erase_at i c.lru_key_values;
      })
  unfolding iterator_of
  moved_front moved k i n c v present a b e =
      let r =
        erase_at-Erased k i c.lru_key_values v.links.distinct (sym (v.links.linked k) ∙ present) in
      record {
        links = record {
          linked = λ j. elim (ℕ_discrete n.key j) [
            | yes p ↦
                rw (eq→== n.key j p)
                  (ap c.lookup_table (sym p ∙ b) ∙ present ∙ ap {B = Option ℕ} some (sym e))
            | no p ↦
                rw (ne→not-== n.key j p) (v.links.linked j ∙ sym (r.kept j (λ q. p (b ∙ sym q))))
          ];
          distinct = (
            (
              subst (λ x. IsNew x (erase_at i c.lru_key_values)) (sym b) r.gone,
              subst (λ x. IsFree x (erase_at i c.lru_key_values)) (sym e) r.freed,
            ),
            AllDistinct-erase_at i c.lru_key_values v.links.distinct,
          );
          below = (
            element-AllBelow c.next_iterator i c.lru_key_values v.links.below a,
            AllBelow-erase_at c.next_iterator i c.lru_key_values v.links.below,
          );
        };
        bounded = omega (arith, r.shorter, v.bounded);
      }

  -- Get returns the value of the key and puts the key at the front, with a value that has been moved
  -- from; without the key it returns nothing and changes nothing. The invariant is kept.
  pub get-abstract_get :
      (moved : V → V) (k : ℕ) (c : LruCache V)
      → IsCache c
      → IsCache (get moved k c).1
        × ((get moved k c).0 ≡ find k (entries c.lru_key_values))
        × (entries (get moved k c).1.lru_key_values
            ≡ abstract_get moved k (entries c.lru_key_values))
  unfolding get abstract_get entries
  get-abstract_get moved k c v = elim (Option-cases (c.lookup_table k)) [
    | inl absent ↦
        let (f, n) = iterator_of-none k c.lru_key_values (sym (v.links.linked k) ∙ absent) in
        rw (absent, n, get, abstract_get) (v, refl, refl)
    | inr (i, present) ↦
        let (n, a, b, e, q) =
          element-iterator_of k i c.lru_key_values v.links.distinct
            (sym (v.links.linked k) ∙ present) in
        let r =
          erase_at-Erased k i c.lru_key_values v.links.distinct
            (sym (v.links.linked k) ∙ present) in
        rw (present, a, q, get, abstract_get)
          (
            moved_front moved k i n c v present a b e,
            refl,
            ap₂ (λ j l. (j, moved n.value) ∷ l) b r.listed,
          )
  ]

  -- A second Get of a key that is there returns a value that has been moved from.
  get-get :
      (moved : V → V) (k : ℕ) (w : V) (c : LruCache V)
      → IsCache c
      → find k (entries c.lru_key_values) ≡ some w
      → let (first, c') = get moved k c in (first ≡ some w) × ((get moved k c').0 ≡ some (moved w))
  unfolding abstract_get find
  get-get moved k w c v e =
      let (v', a, l) = get-abstract_get moved k c v in
      let (v'', a', l') = get-abstract_get moved k (get moved k c).1 v' in
      let g : abstract_get moved k (entries c.lru_key_values)
          ≡ (k, moved w) ∷ remove k (entries c.lru_key_values) =
        rw (e, abstract_get) refl in
      (a ∙ e, a' ∙ ap (find k) (l ∙ g) ∙ rw (eq→== k k refl) refl)
