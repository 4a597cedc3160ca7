-- ===== src/Container/LruCache/Links.antt =====
-- The links of the cache of Source/Core/Container/LruCache.h: its table, its list and its maximum.
use server.Base.{
  ℕ, suc, ◌+◌, ◌≤◌, ◌<◌, ◌≡◌, ◌≢◌, refl, sym, ap, ◌∙◌, subst, List, [], ◌∷◌, Option, some, none,
  length, take, take_all, arith, ℕ_discrete, eq→==, ne→not-==, dec_lt, lt→ltb, le→not-ltb,
}
use server.Container.LruCache.{
  Node, LruCache, erase_at, back, pop_back, trim, emplace_front, erase_entry, set_table,
}
use server.Container.LruCache.Abstract.{entries}
use server.Container.LruCache.Lists.{
  iterator_of, IsNew, AllDistinct, AllBelow, IsNew-iterator_of, Erased, erase_at-Erased,
  AllBelow-erase_at, AllDistinct-erase_at, IsFree-AllBelow, AllBelow-suc,
}
use server.Container.LruCache.Trimming.{pop_back-some}

module _ {V : Type 0} where
  -- The table holds the iterator of each key's element; keys and iterators are distinct.
  pub record IsLinked (c : LruCache V) : Type 0 where
    pub linked : (k : ℕ) → c.lookup_table k ≡ iterator_of k c.lru_key_values
    pub distinct : AllDistinct c.lru_key_values
    pub below : AllBelow c.next_iterator c.lru_key_values

  -- And there are no more than `max_size_` elements.
  pub record IsCache (c : LruCache V) : Type 0 where
    pub links : IsLinked c
    pub bounded : length c.lru_key_values ≤ c.max_size

  -- A table from which a key is erased, over a list from which it is.
  set_table-none :
      (k : ℕ) (table : ℕ → Option ℕ) (ns ms : List (Node V))
      → ((j : ℕ) → table j ≡ iterator_of j ns)
      → IsNew k ms
      → ((j : ℕ) → j ≢ k → iterator_of j ms ≡ iterator_of j ns)
      → (j : ℕ) → set_table k none table j ≡ iterator_of j ms
  set_table-none k table ns ms t f kept j = elim (ℕ_discrete j k) [
    | yes p ↦ rw (eq→== j k p) (sym (IsNew-iterator_of j ms (subst (λ x. IsNew x ms) (sym p) f)))
    | no p ↦ rw (ne→not-== j k p) (t j ∙ sym (kept j p))
  ]

  pub erase_entry-IsLinked :
      (k i : ℕ) (c : LruCache V)
      → IsLinked c
      → c.lookup_table k ≡ some i
      → IsLinked (erase_entry k i c) × Erased k i c.lru_key_values
  unfolding erase_entry
  erase_entry-IsLinked k i c v e =
      let r = erase_at-Erased k i c.lru_key_values v.distinct (sym (v.linked k) ∙ e) in
      (
        record {
          linked =
              set_table-none k c.lookup_table c.lru_key_values (erase_at i c.lru_key_values)
                v.linked r.gone r.kept;
          distinct = AllDistinct-erase_at i c.lru_key_values v.distinct;
          below = AllBelow-erase_at c.next_iterator i c.lru_key_values v.below;
        },
        r,
      )

  emplace_front-IsLinked :
      (k : ℕ) (x : V) (c : LruCache V)
      → IsLinked c
      → IsNew k c.lru_key_values
      → IsLinked (emplace_front k x c)
  unfolding emplace_front iterator_of
  emplace_front-IsLinked k x c v f = record {
    linked = λ j. elim (ℕ_discrete j k) [
      | yes p ↦ rw (eq→== j k p, eq→== k j (sym p)) refl
      | no p ↦ rw (ne→not-== j k p, ne→not-== k j (λ q. p (sym q))) (v.linked j)
    ];
    distinct = ((f, IsFree-AllBelow c.next_iterator c.lru_key_values v.below), v.distinct);
    below = (omega arith, AllBelow-suc c.next_iterator c.lru_key_values v.below);
  }

  trim-fits : (c : LruCache V) → length c.lru_key_values ≤ c.max_size → trim c ≡ c
  unfolding trim
  trim-fits c h = rw (le→not-ltb c.max_size (length c.lru_key_values) h) refl

  trim-pops :
      (c : LruCache V) (n : Node V)
      → c.max_size < length c.lru_key_values
      → back c.lru_key_values ≡ some n
      → trim c ≡ record c {
        lookup_table = set_table n.key none c.lookup_table;
        lru_key_values = pop_back c.lru_key_values;
      }
  unfolding trim
  trim-pops c n h e = rw (lt→ltb c.max_size (length c.lru_key_values) h, e) refl

  length-entries : (ns : List (Node V)) → length (entries ns) ≡ length ns
  unfolding entries
  length-entries [] = refl
  length-entries (n ∷ ns) = ap suc (length-entries ns)

  abbrev Trims : LruCache V → LruCache V → Type 0
  Trims c d =
      IsCache d
      × (entries d.lru_key_values ≡ take c.max_size (entries c.lru_key_values))
      × (d.max_size ≡ c.max_size)

  -- Trim, with one element too many at most.
  trim-Trims :
      (c : LruCache V) → IsLinked c → length c.lru_key_values ≤ c.max_size + 1 → Trims c (trim c)
  trim-Trims c v h = elim (dec_lt c.max_size (length c.lru_key_values)) [
    | yes many ↦
        let (n, r) = pop_back-some c.max_size c.lru_key_values (omega arith) v.distinct in
        subst (Trims c) (sym (trim-pops c n many r.last)) (
          record {
            links = record {
              linked =
                  set_table-none n.key c.lookup_table c.lru_key_values (pop_back c.lru_key_values)
                    v.linked r.gone r.kept;
              distinct = r.distinct;
              below = r.below c.next_iterator v.below;
            };
            bounded = omega (arith, r.shorter);
          },
          r.listed,
          refl,
        )
    | no few ↦ subst (Trims c) (sym (trim-fits c (omega (arith, few)))) (
      record { links = v; bounded = omega (arith, few) },
      sym (
          take_all c.max_size (entries c.lru_key_values)
            (omega (arith, few, length-entries c.lru_key_values))),
      refl,
    )
  ]

  -- A new key goes to the front, and the last element goes if there is no room.
  pub add-Trims :
      (k : ℕ) (x : V) (c : LruCache V)
      → IsLinked c
      → IsNew k c.lru_key_values
      → length c.lru_key_values ≤ c.max_size
      → IsCache (trim (emplace_front k x c))
        × (entries (trim (emplace_front k x c)).lru_key_values
            ≡ take c.max_size ((k, x) ∷ entries c.lru_key_values))
        × ((trim (emplace_front k x c)).max_size ≡ c.max_size)
  unfolding emplace_front entries
  add-Trims k x c v f h =
      trim-Trims (emplace_front k x c) (emplace_front-IsLinked k x c v f) (omega (arith, h))
