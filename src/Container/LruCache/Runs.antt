-- ===== src/Container/LruCache/Runs.antt =====
-- Whole runs of the cache of Source/Core/Container/LruCache.h: its operations, one after the other.
use server.Base.{
  ℕ, Bool, ◌≡◌, refl, ap, ap₂, ◌∙◌, List, [], ◌∷◌, Option, none, arith, inl, inr, Option-cases,
}
use server.Container.LruCache.{
  LruCache, trim, emplace_front, erase_entry, erase_key, put, update, pop, get,
}
use server.Container.LruCache.Abstract.{
  entries, find, remove, abstract_put, abstract_update, abstract_get,
}
use server.Container.LruCache.Lists.{iterator_of}
use server.Container.LruCache.Links.{IsCache}
use server.Container.LruCache.Refine.{
  put-abstract_put, pop-remove, update-abstract_update, get-abstract_get,
}

-- A call of an operation, and what it returns.
pub data Call (V : Type 0) : Type 0 where
  put_of : ℕ → V → Call V
  update_of : ℕ → V → Call V
  pop_of : ℕ → Call V
  get_of : ℕ → Call V

pub data Reply (V : Type 0) : Type 0 where
  added : Bool → Reply V
  updated : Reply V
  value_of : Option V → Reply V

module _ {V : Type 0} where
  -- The constructor.
  unfoldable pub lru_cache : ℕ → LruCache V
  lru_cache max = record {
    max_size = max;
    lookup_table = λ k. none;
    lru_key_values = [];
    next_iterator = 0;
  }

  -- One call, on the cache and on the entries.
  unfoldable pub call : (V → V) → Call V → LruCache V → Reply V × LruCache V
  unfolding put update pop get
  call moved (put_of k v) c = let (b, d) = put k v c in (added b, d)
  call moved (update_of k v) c = (updated, update k v c)
  call moved (pop_of k) c = let (r, d) = pop k c in (value_of r, d)
  call moved (get_of k) c = let (r, d) = get moved k c in (value_of r, d)

  abstract_call : (V → V) → ℕ → Call V → List (ℕ × V) → Reply V × List (ℕ × V)
  unfolding find remove abstract_put abstract_update abstract_get
  abstract_call moved max (put_of k v) es = let (b, fs) = abstract_put max k v es in (added b, fs)
  abstract_call moved max (update_of k v) es = (updated, abstract_update max k v es)
  abstract_call moved max (pop_of k) es = (value_of (find k es), remove k es)
  abstract_call moved max (get_of k) es = (value_of (find k es), abstract_get moved k es)

  -- The replies of calls in their order, and what is left.
  unfoldable pub call_all : (V → V) → List (Call V) → LruCache V → List (Reply V) × LruCache V
  unfolding call
  call_all moved [] c = ([], c)
  call_all moved (o ∷ os) c =
      let (r, d) = call moved o c in let (rs, e) = call_all moved os d in (r ∷ rs, e)

  unfoldable pub abstract_call_all :
      (V → V) → ℕ → List (Call V) → List (ℕ × V) → List (Reply V) × List (ℕ × V)
  unfolding abstract_call
  abstract_call_all moved max [] es = ([], es)
  abstract_call_all moved max (o ∷ os) es =
      let (r, fs) = abstract_call moved max o es in
      let (rs, gs) = abstract_call_all moved max os fs in (r ∷ rs, gs)

  -- No operation changes the maximum.
  trim-max_size : (c : LruCache V) → (trim c).max_size ≡ c.max_size
  unfolding trim
  trim-max_size c = ground arith

  erase_key-max_size : (k : ℕ) (c : LruCache V) → (erase_key k c).max_size ≡ c.max_size
  unfolding erase_key erase_entry
  erase_key-max_size k c = ground arith

  put-max_size : (k : ℕ) (v : V) (c : LruCache V) → (put k v c).1.max_size ≡ c.max_size
  unfolding put emplace_front
  put-max_size k v c = elim (Option-cases (c.lookup_table k)) [
    | inl absent ↦ rw (absent, put) (trim-max_size (emplace_front k v c))
    | inr (i, present) ↦ rw (present, put) refl
  ]

  update-max_size : (k : ℕ) (v : V) (c : LruCache V) → (update k v c).max_size ≡ c.max_size
  unfolding update emplace_front
  update-max_size k v c = trim-max_size (emplace_front k v (erase_key k c)) ∙ erase_key-max_size k c

  pop-max_size : (k : ℕ) (c : LruCache V) → (pop k c).1.max_size ≡ c.max_size
  unfolding pop erase_entry
  pop-max_size k c = ground arith

  get-max_size : (moved : V → V) (k : ℕ) (c : LruCache V) → (get moved k c).1.max_size ≡ c.max_size
  unfolding get
  get-max_size moved k c = ground arith

  abbrev Implements : (V → V) → Call V → LruCache V → Type 0
  Implements moved o c =
      let (r, d) = call moved o c in
      let (s, es) = abstract_call moved c.max_size o (entries c.lru_key_values) in
      IsCache d × (d.max_size ≡ c.max_size) × (r ≡ s) × (entries d.lru_key_values ≡ es)

  call-Implements : (moved : V → V) (o : Call V) (c : LruCache V) → IsCache c → Implements moved o c
  unfolding call abstract_call
  call-Implements moved (put_of k v) c h =
      let (i, r, e) = put-abstract_put k v c h in (i, put-max_size k v c, ap added r, e)
  call-Implements moved (update_of k v) c h =
      let (i, e) = update-abstract_update k v c h in (i, update-max_size k v c, refl, e)
  call-Implements moved (pop_of k) c h =
      let (i, r, e) = pop-remove k c h in (i, pop-max_size k c, ap value_of r, e)
  call-Implements moved (get_of k) c h =
      let (i, r, e) = get-abstract_get moved k c h in (i, get-max_size moved k c, ap value_of r, e)

  call_all-abstract :
      (moved : V → V) (os : List (Call V)) (c : LruCache V)
      → IsCache c
      → IsCache (call_all moved os c).1
        × ((call_all moved os c).0
            ≡ (abstract_call_all moved c.max_size os (entries c.lru_key_values)).0)
        × (entries (call_all moved os c).1.lru_key_values
            ≡ (abstract_call_all moved c.max_size os (entries c.lru_key_values)).1)
  unfolding call_all abstract_call_all
  call_all-abstract moved [] c h = (h, refl, refl)
  call_all-abstract moved (o ∷ os) c h =
      let (i, m, r, e) = call-Implements moved o c h in
      let (i', rs, es) = call_all-abstract moved os (call moved o c).1 i in
      let next = ap₂ (λ max es. abstract_call_all moved max os es) m e in
      (i', ap₂ (λ r rs. r ∷ rs) r (rs ∙ ap (λ x. x.0) next), es ∙ ap (λ x. x.1) next)

  -- After any calls of Put, Update, Pop and Get, in any order, on a cache that has just been made, the
  -- invariant holds, every call has returned what the abstract cache returns, and the entries that are
  -- left are the abstract cache's.
  pub call_all-abstract_call_all :
      (moved : V → V) (max : ℕ) (os : List (Call V))
      → IsCache (call_all moved os (lru_cache max)).1
        × ((call_all moved os (lru_cache max)).0 ≡ (abstract_call_all moved max os []).0)
        × (entries (call_all moved os (lru_cache max)).1.lru_key_values
            ≡ (abstract_call_all moved max os []).1)
  unfolding lru_cache entries iterator_of
  call_all-abstract_call_all moved max os = call_all-abstract moved os (lru_cache max) (record {
    links = record { linked = λ k. refl; distinct = tt; below = tt };
    bounded = omega arith;
  })
