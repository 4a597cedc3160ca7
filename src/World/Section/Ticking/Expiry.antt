-- ===== src/World/Section/Ticking/Expiry.antt =====
-- What the removal of an object in a tick does to the others.
use server.Base.{
  ℕ, ◌≡◌, ◌≢◌, ◌⊎◌, refl, sym, ap, ◌∙◌, false, List, [], ◌∷◌, some, none, arith, if◌then◌else◌,
  ◌==◌, inl, inr, ℕ_discrete,
}
use server.World.Section.{Section, find_object, erase_object, contains, erase, despawn_object}

-- The object is registered under its id; or it is neither registered nor ticked.
abbrev pub IsRegistered : Section → ℕ → Type 0
IsRegistered c h =
    ((c.heap h).object_id ≢ 0) × (find_object (c.heap h).object_id c.game_objects ≡ some h)

abbrev pub IsGone : Section → ℕ → Type 0
IsGone c h =
    (find_object (c.heap h).object_id c.game_objects ≡ none) × (contains h c.all_tick ≡ false)

abbrev pub AllReady : Section → List ℕ → Type 0
AllReady c [] = Unit
AllReady c (h ∷ hs) = (IsRegistered c h ⊎ IsGone c h) × AllReady c hs

abbrev pub AllRegistered : Section → List ℕ → Type 0
AllRegistered c [] = Unit
AllRegistered c (h ∷ hs) = IsRegistered c h × AllRegistered c hs

abbrev pub AllGone : Section → List ℕ → Type 0
AllGone c [] = Unit
AllGone c (h ∷ hs) = (find_object (c.heap h).object_id c.game_objects ≡ none) × AllGone c hs

find_object-erase_object :
    (j k : ℕ) (m : List (ℕ × ℕ))
    → find_object j (erase_object k m) ≡ (if k == j then none else find_object j m)
unfolding find_object erase_object
find_object-erase_object j k [] = ground arith
find_object-erase_object j k (x ∷ m) = ground (arith, find_object-erase_object j k m)

erase-missing : (h : ℕ) (hs : List ℕ) → contains h hs ≡ false → erase h hs ≡ hs
unfolding contains erase
erase-missing h [] e = refl
erase-missing h (x ∷ hs) e = ground (arith, erase-missing h hs)

contains-erase :
    (g h : ℕ) (hs : List ℕ) → contains g (erase h hs) ≡ (if h == g then false else contains g hs)
unfolding contains erase
contains-erase g h [] = ground arith
contains-erase g h (x ∷ hs) = ground (arith, contains-erase g h hs)

-- One object despawned: registered or gone, it is in neither list then.
module _ (h : ℕ) (c : Section) (quiet : c.await_first_tick ≡ [])
    (ready : IsRegistered c h ⊎ IsGone c h) where
  pub despawn_object-all_tick : (despawn_object (some h) c).all_tick ≡ erase h c.all_tick
  unfolding despawn_object
  despawn_object-all_tick = elim ready [
    | inl (ne, f) ↦ ground (arith, erase-missing h c.all_tick)
    | inr (f, n) ↦ ground (arith, erase-missing h c.all_tick)
  ]

  pub despawn_object-await : (despawn_object (some h) c).await_first_tick ≡ []
  unfolding despawn_object erase
  despawn_object-await = ground arith

  pub despawn_object-heap : (despawn_object (some h) c).heap ≡ c.heap
  unfolding despawn_object
  despawn_object-heap = ground arith

  pub despawn_object-find :
      (k : ℕ)
      → find_object k (despawn_object (some h) c).game_objects
        ≡ (if (c.heap h).object_id == k then none else find_object k c.game_objects)
  unfolding despawn_object
  despawn_object-find k = elim ready [
    | inl (ne, f) ↦ ground (arith, find_object-erase_object k (c.heap h).object_id c.game_objects)
    | inr (f, n) ↦ ground (arith, find_object-erase_object k (c.heap h).object_id c.game_objects)
  ]

  pub ready-kept :
      (g : ℕ)
      → IsRegistered c g ⊎ IsGone c g
      → IsRegistered (despawn_object (some h) c) g ⊎ IsGone (despawn_object (some h) c) g
  ready-kept g r =
      let key = (c.heap g).object_id in
      let f = despawn_object-find key in
      let t : contains g (despawn_object (some h) c).all_tick
          ≡ (if h == g then false else contains g c.all_tick) =
        ap (contains g) despawn_object-all_tick ∙ contains-erase g h c.all_tick in
      rw despawn_object-heap (elim (ℕ_discrete (c.heap h).object_id key) [
        | no ne ↦ elim r [
          | inl (z, e) ↦ inl (z, ground (arith, f))
          | inr (n, k) ↦ inr (ground (arith, f), ground (arith, t))
        ]
        | yes e ↦ inr (
          ground (arith, f),
          elim r [
            | inr (n, k) ↦ ground (arith, t)
            | inl (z, q) ↦ elim ready [
              | inl (y, p) ↦ ground (arith, t)
              | inr (p, y) ↦ let v = sym p ∙ ap (λ k. find_object k c.game_objects) e ∙ q in cc v
            ]
          ],
        )
      ])
