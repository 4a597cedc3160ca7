-- ===== src/Container/LruCache.antt =====
-- The least-recently-used cache of Source/Core/Container/LruCache.h, which Source/Server/World's
-- PlayerRepository.cpp keeps the players in. An element of the list has an identity, which is what an
-- iterator holds. `moved` is what becomes of a value that is moved from.
pub mod Lists
pub mod Abstract
pub mod Trimming
pub mod Links
pub mod Refine
pub mod Runs
mod Tests
use server.Base.{
  ℕ, suc, ◌+◌, Bool, true, false, List, [], ◌∷◌, Option, some, none, length, ltb, ◌==◌,
  if◌then◌else◌,
}

pub record Node (V : Type 0) : Type 0 where
  pub iterator : ℕ
  pub key : ℕ
  pub value : V

pub record LruCache (V : Type 0) : Type 0 where
  pub max_size : ℕ
  pub lookup_table : ℕ → Option ℕ
  pub lru_key_values : List (Node V)
  pub next_iterator : ℕ

abbrev pub set_table : ℕ → Option ℕ → (ℕ → Option ℕ) → ℕ → Option ℕ
set_table k i table j = if j == k then i else table j

module _ {V : Type 0} where
  -- The element that an iterator stands at, and the list without it.
  pub element : ℕ → List (Node V) → Option (Node V)
  element i [] = none
  element i (n ∷ ns) = if n.iterator == i then some n else element i ns

  pub erase_at : ℕ → List (Node V) → List (Node V)
  erase_at i [] = []
  erase_at i (n ∷ ns) = if n.iterator == i then ns else n ∷ erase_at i ns

  pub back : List (Node V) → Option (Node V)
  back [] = none
  back (n ∷ []) = some n
  back (n ∷ m ∷ ns) = back (m ∷ ns)

  pub pop_back : List (Node V) → List (Node V)
  pop_back [] = []
  pop_back (n ∷ []) = []
  pop_back (n ∷ m ∷ ns) = n ∷ pop_back (m ∷ ns)

  -- `Trim`
  pub trim : LruCache V → LruCache V
  unfolding back pop_back
  trim c =
      if ltb c.max_size (length c.lru_key_values)
      then elim (back c.lru_key_values) [
        | none ↦ c
        | some n ↦ record c {
          lookup_table = set_table n.key none c.lookup_table;
          lru_key_values = pop_back c.lru_key_values;
        }
      ]
      else c

  -- A new element at the front, and its entry in the table.
  pub emplace_front : ℕ → V → LruCache V → LruCache V
  emplace_front k v c = record c {
    lru_key_values = record { iterator = c.next_iterator; key = k; value = v } ∷ c.lru_key_values;
    lookup_table = set_table k (some c.next_iterator) c.lookup_table;
    next_iterator = c.next_iterator + 1;
  }

  -- The element at an iterator and the entry of its key, erased.
  pub erase_entry : ℕ → ℕ → LruCache V → LruCache V
  unfolding erase_at
  erase_entry k i c = record c {
    lru_key_values = erase_at i c.lru_key_values;
    lookup_table = set_table k none c.lookup_table;
  }

  -- `Put`
  pub put : ℕ → V → LruCache V → Bool × LruCache V
  unfolding trim emplace_front
  put k v c = elim (c.lookup_table k) [
    | some i ↦ (false, c)
    | none ↦ (true, trim (emplace_front k v c))
  ]

  -- The start of `Update`: the key's element is erased, if there is one.
  pub erase_key : ℕ → LruCache V → LruCache V
  unfolding erase_entry
  erase_key k c = elim (c.lookup_table k) [ some i ↦ erase_entry k i c | none ↦ c ]

  -- `Update`
  pub update : ℕ → V → LruCache V → LruCache V
  unfolding trim emplace_front erase_key
  update k v c = trim (emplace_front k v (erase_key k c))

  -- `Pop`: the value that is moved out. A dangling iterator is `none` too.
  pub pop : ℕ → LruCache V → Option V × LruCache V
  unfolding erase_entry element
  pop k c = elim (c.lookup_table k) [
    | none ↦ (none, c)
    | some i ↦ elim (element i c.lru_key_values) [
      | none ↦ (none, c)
      | some n ↦ (some n.value, erase_entry k i c)
    ]
  ]

  -- `Get`: the value is moved out of the element, which goes to the front.
  pub get : (V → V) → ℕ → LruCache V → Option V × LruCache V
  unfolding erase_at element
  get moved k c = elim (c.lookup_table k) [
    | none ↦ (none, c)
    | some i ↦ elim (element i c.lru_key_values) [
      | none ↦ (none, c)
      | some n ↦ (
        some n.value,
        record c {
          lru_key_values = record n { value = moved n.value } ∷ erase_at i c.lru_key_values;
        },
      )
    ]
  ]
