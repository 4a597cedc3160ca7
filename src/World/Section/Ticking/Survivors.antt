-- ===== src/World/Section/Ticking/Survivors.antt =====
-- Which objects a tick leaves in the section.
use server.Base.{
  ℕ, ◌≡◌, ◌⊎◌, refl, ap, ◌∙◌, Bool, List, [], ◌∷◌, ◌++◌, some, map, none, arith, inl, inr,
  Bool-cases,
}
use server.World.Section.{
  GameObject, Section, Event, updated, systems_ticked, section_tick, sessions, find_object,
  despawn_object, emit,
}
use server.World.Section.Ticking.{expired, live, despawn_all, on_tick}
use server.World.Section.Ticking.Sifting.{erase_all, erase_all-out}
use server.World.Section.Ticking.Expiry.{
  IsRegistered, IsGone, AllReady, AllRegistered, AllGone, despawn_object-all_tick,
  despawn_object-await, despawn_object-heap, despawn_object-find, ready-kept,
}

AllReady-kept :
    (h : ℕ) (c : Section) (hs : List ℕ)
    → c.await_first_tick ≡ []
    → IsRegistered c h ⊎ IsGone c h
    → AllReady c hs
    → AllReady (despawn_object (some h) c) hs
AllReady-kept h c [] quiet r a = tt
AllReady-kept h c (g ∷ hs) quiet r a =
    (ready-kept h c quiet r g a.0, AllReady-kept h c hs quiet r a.1)

despawn_all-all_tick :
    (hs : List ℕ) (c : Section)
    → c.await_first_tick ≡ []
    → AllReady c hs
    → ((despawn_all hs c).all_tick ≡ erase_all hs c.all_tick)
      × ((despawn_all hs c).await_first_tick ≡ [])
unfolding despawn_all
despawn_all-all_tick [] c quiet a = (refl, quiet)
despawn_all-all_tick (h ∷ hs) c quiet a =
    let c' = despawn_object (some h) c in
    let q = despawn_object-await h c quiet a.0 in
    let r = despawn_all-all_tick hs c' q (AllReady-kept h c hs quiet a.0 a.1) in
    (r.0 ∙ ap (erase_all hs) (despawn_object-all_tick h c quiet a.0), r.1)

-- An id that is none of these objects' is registered as before; and an object's that has gone is not.
despawn_all-find :
    (hs : List ℕ) (c : Section) (k : ℕ)
    → c.await_first_tick ≡ []
    → AllReady c hs
    → ((despawn_all hs c).heap ≡ c.heap)
      × (find_object k c.game_objects ≡ none → find_object k (despawn_all hs c).game_objects ≡ none)
unfolding despawn_all
despawn_all-find [] c k quiet a = (refl, λ e. e)
despawn_all-find (h ∷ hs) c k quiet a =
    let c' = despawn_object (some h) c in
    let q = despawn_object-await h c quiet a.0 in
    let r = despawn_all-find hs c' k q (AllReady-kept h c hs quiet a.0 a.1) in
    let f = despawn_object-find h c quiet a.0 k in
    (r.0 ∙ despawn_object-heap h c quiet a.0, λ e. r.1 (ground (arith, f)))

despawn_all-AllGone :
    (hs : List ℕ) (c : Section)
    → c.await_first_tick ≡ []
    → AllReady c hs
    → AllGone (despawn_all hs c) hs
unfolding despawn_all
despawn_all-AllGone [] c quiet a = tt
despawn_all-AllGone (h ∷ hs) c quiet a =
    let c' = despawn_object (some h) c in
    let q = despawn_object-await h c quiet a.0 in
    let a' = AllReady-kept h c hs quiet a.0 a.1 in
    let key = (c.heap h).object_id in
    let r = despawn_all-find hs c' key q a' in
    let f = despawn_object-find h c quiet a.0 key in
    (
      rw (r.0 ∙ despawn_object-heap h c quiet a.0) (r.1 (ground (arith, f))),
      despawn_all-AllGone hs c' q a',
    )

module _ (is_expired : ℕ → GameObject → Bool) (now : ℕ) (c : Section) (xs ys : List ℕ)
    (es : List Event) where
  -- The state in which the objects are despawned.
  abbrev waiting : Section
  waiting =
      emit es (record c { all_tick = xs ++ live is_expired now c.heap ys; await_first_tick = [] })

  AllReady-waiting :
      (zs : List ℕ) → AllRegistered c zs → AllReady waiting (expired is_expired now c.heap zs)
  unfolding expired emit
  AllReady-waiting [] r = tt
  AllReady-waiting (z ∷ zs) r = elim (Bool-cases (is_expired now (c.heap z))) [
    | inl e ↦ rw (e, expired) (inl r.0, AllReady-waiting zs r.1)
    | inr e ↦ rw (e, expired) (AllReady-waiting zs r.1)
  ]

AllReady-append :
    (c : Section) (xs ys : List ℕ) → AllReady c xs → AllReady c ys → AllReady c (xs ++ ys)
AllReady-append c [] ys a b = b
AllReady-append c (x ∷ xs) ys a b = (a.0, AllReady-append c xs ys a.1 b)

AllGone-emit : (es : List Event) (c : Section) (hs : List ℕ) → AllGone c hs → AllGone (emit es c) hs
unfolding emit
AllGone-emit es c [] a = tt
AllGone-emit es c (h ∷ hs) a = (a.0, AllGone-emit es c hs a.1)

-- If every object that is ticked or waits for its first tick is registered under its id, then after a tick
-- those that are ticked are those of both lists whose lifetime is not over, in order, none waits, and those
-- whose lifetime is over are registered no more.
pub on_tick-survivors :
    (is_expired : ℕ → GameObject → Bool) (now : ℕ) (c : Section)
    → AllRegistered c c.all_tick
    → AllRegistered c c.await_first_tick
    → let c' = on_tick is_expired now c in
      (c'.all_tick
        ≡ live is_expired now c.heap c.all_tick ++ live is_expired now c.heap c.await_first_tick)
      × (c'.await_first_tick ≡ [])
      × AllGone c' (
          expired is_expired now c.heap c.all_tick
          ++ expired is_expired now c.heap c.await_first_tick)
unfolding on_tick emit
on_tick-survivors is_expired now c r s =
    let xs = c.all_tick in
    let ys = c.await_first_tick in
    let es = map updated (live is_expired now c.heap xs ++ live is_expired now c.heap ys) in
    let gone = expired is_expired now c.heap xs ++ expired is_expired now c.heap ys in
    let w = waiting is_expired now c xs ys es in
    let ready =
      AllReady-append w (expired is_expired now c.heap xs) (expired is_expired now c.heap ys)
        (AllReady-waiting is_expired now c xs ys es xs r)
        (AllReady-waiting is_expired now c xs ys es ys s) in
    let d = despawn_all-all_tick gone w refl ready in
    (
      d.0 ∙ erase_all-out is_expired now c.heap xs ys,
      d.1,
      AllGone-emit (systems_ticked ∷ map section_tick (sessions c.slots)) (despawn_all gone w) gone
          (despawn_all-AllGone gone w refl ready),
    )
