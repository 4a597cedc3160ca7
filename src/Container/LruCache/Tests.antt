-- ===== src/Container/LruCache/Tests.antt =====
-- A cache of two elements: the key 2, used last, and the key 1.
use server.Base.{ℕ, true, ◌≡◌, refl, List, [], ◌∷◌, some, none, ◌==◌, if◌then◌else◌}
use server.Container.LruCache.{LruCache, put}
use server.Container.LruCache.Abstract.{entries}
use server.Container.LruCache.Links.{IsCache}
use server.Container.LruCache.Runs.{
  Call, put_of, update_of, pop_of, get_of, added, updated, value_of, call_all, abstract_call_all,
  lru_cache, call_all-abstract_call_all,
}

abbrev sample : LruCache ℕ
sample = record {
  max_size = 2;
  lookup_table = λ k. if 2 == k then some 1 else (if 1 == k then some 0 else none);
  lru_key_values =
      record { iterator = 1; key = 2; value = 20 }
      ∷ record { iterator = 0; key = 1; value = 10 }
      ∷ [];
  next_iterator = 2;
}

-- A third key takes the place of the first.
puts : entries (put 3 30 sample).1.lru_key_values ≡ (3, 30) ∷ (2, 20) ∷ []
unfolding put entries
puts = refl

abbrev calls : List (Call ℕ)
calls =
    put_of 1 10 ∷ put_of 2 20 ∷ get_of 1 ∷ put_of 3 30 ∷ pop_of 2 ∷ update_of 1 11 ∷ get_of 1 ∷ []

-- The key 2 was used longest ago, so that 3 takes its place.
replies :
    (call_all (λ v. 0) calls (lru_cache 2)).0
    ≡ added true
      ∷ added true
      ∷ value_of (some 10)
      ∷ added true
      ∷ value_of none
      ∷ updated
      ∷ value_of (some 11)
      ∷ []
unfolding call_all lru_cache
replies = refl

call_all-abstract_call_all_example :
    IsCache (call_all (λ v. 0) calls (lru_cache 2)).1
    × ((call_all (λ v. 0) calls (lru_cache 2)).0 ≡ (abstract_call_all (λ v. 0) 2 calls []).0)
    × (entries (call_all (λ v. 0) calls (lru_cache 2)).1.lru_key_values
        ≡ (abstract_call_all (λ v. 0) 2 calls []).1)
call_all-abstract_call_all_example = call_all-abstract_call_all (λ v. 0) 2 calls
