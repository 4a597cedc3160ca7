-- ===== src/World/PlayerRepository.antt =====
-- The players between two sessions: PlayerRepositoryImpl of
-- Source/Server/World/PlayerRepository.cpp, over the cache of LruCache.h. A `unique_ptr` is an Option.
mod Tests
use server.Base.{
  ℕ, zero, suc, ◌⊎◌, ◌<◌, ◌≡◌, refl, sym, ap, ◌∙◌, List, [], ◌∷◌, Option, some, none, take, arith,
  eq→==, Option-cases, inl, inr,
}
use server.Container.LruCache.{LruCache, put, pop}
use server.Container.LruCache.Abstract.{entries, find, abstract_put}
use server.Container.LruCache.Lists.{iterator_of}
use server.Container.LruCache.Links.{IsCache}
use server.Container.LruCache.Refine.{put-abstract_put, pop-remove}

-- `Model::Player`; `combat` is its pointer.
pub record Player : Type 0 where
  pub character_id : ℕ
  pub account_id : ℕ
  pub combat : ℕ

abbrev Repository : Type 0
Repository = LruCache (Option Player)

pub repository : Repository
repository = record {
  max_size = 1000;
  lookup_table = λ k. none;
  lru_key_values = [];
  next_iterator = 0;
}

-- `Insert` and `Remove` of the repository; a player that `Put` does not take is destroyed.
pub insert : Option Player → Repository → Repository
insert none c = c
insert (some p) c = (put p.character_id (some p) c).1

pub remove_player : ℕ → Repository → Option Player × Repository
remove_player id c = let (v, c') = pop id c in (elim v [ none ↦ none | some p ↦ p ], c')

find-abstract_put :
    (max k : ℕ) (x : Option Player) (es : List (ℕ × Option Player))
    → 0 < max
    → ((find k es ≡ none) × (find k (abstract_put max k x es).1 ≡ some x))
      ⊎ ((y : Option Player) × (find k es ≡ some y) × (find k (abstract_put max k x es).1 ≡ some y))
unfolding abstract_put find
find-abstract_put zero k x es pos = absurd (omega (arith, pos))
find-abstract_put (suc max) k x es pos = elim (Option-cases (find k es)) [
  | inl n ↦ inl (n, rw (n, abstract_put, eq→== k k refl) refl)
  | inr (y, e) ↦ inr (y, e, rw (e, abstract_put) e)
]

remove_player-find :
    (id : ℕ) (c : Repository) {q : Option Player}
    → IsCache c
    → find id (entries c.lru_key_values) ≡ some q
    → (remove_player id c).0 ≡ q
unfolding remove_player
remove_player-find id c v e = rw ((pop-remove id c v).1 ∙ e, remove_player) refl

-- A player that is put into the repository comes out of it under the id of its character; unless there
-- is one of that id already, which comes out in its place.
pub remove_player-insert :
    (p : Player) (c : Repository)
    → IsCache c
    → 0 < c.max_size
    → let (out, c') = remove_player p.character_id (insert (some p) c) in
      ((find p.character_id (entries c.lru_key_values) ≡ none) × (out ≡ some p))
      ⊎ ((q : Option Player) × (find p.character_id (entries c.lru_key_values) ≡ some q)
          × (out ≡ q))
unfolding insert
remove_player-insert p c v pos =
    let (w, b, es) = put-abstract_put p.character_id (some p) c v in
    elim (find-abstract_put c.max_size p.character_id (some p) (entries c.lru_key_values) pos) [
      | inl (n, e) ↦ inl (
        n,
        remove_player-find p.character_id (insert (some p) c) w (ap (find p.character_id) es ∙ e),
      )
      | inr (q, f, e) ↦ inr (
        q,
        f,
        remove_player-find p.character_id (insert (some p) c) w (ap (find p.character_id) es ∙ e),
      )
    ]

pub repository-IsCache : IsCache repository
unfolding repository iterator_of
repository-IsCache = record {
  links = record { linked = λ k. refl; distinct = tt; below = tt };
  bounded = omega arith;
}
