-- ===== src/World/Section/Ticking.antt =====
-- What else a section does: OnTick, SpawnMany, ForEach, OnCreated and OnDestroyed of
-- Source/Server/Section/Section.cpp. Whether an object's lifetime is over at a tick is a parameter.
pub mod Expiry
pub mod Sifting
pub mod Survivors
use server.Base.{
  ℕ, ◌+◌, Bool, true, false, List, [], ◌∷◌, ◌++◌, Option, some, none, take, if◌then◌else◌, ◌==◌,
  map,
}
use server.World.Section.{
  Session, GameObject, Slot, Event, npcs_added, collider_added, updated, systems_ticked,
  section_tick, posted, section_created, section_destroyed, Section, emit, find_object, update_heap,
  despawn_object, sessions, others,
}

-- The loop over `objects_to_despawn_`.
pub despawn_all : List ℕ → Section → Section
unfolding despawn_object
despawn_all [] c = c
despawn_all (h ∷ hs) c = despawn_all hs (despawn_object (some h) c)

module _ (is_expired : ℕ → GameObject → Bool) where
  -- The two loops of `OnTick` over objects: those that are to go, and those that stay.
  pub expired : ℕ → (ℕ → GameObject) → List ℕ → List ℕ
  expired now heap [] = []
  expired now heap (h ∷ hs) =
      let rest = expired now heap hs in if is_expired now (heap h) then h ∷ rest else rest

  pub live : ℕ → (ℕ → GameObject) → List ℕ → List ℕ
  live now heap [] = []
  live now heap (h ∷ hs) =
      let rest = live now heap hs in if is_expired now (heap h) then rest else h ∷ rest

  -- `OnTick`
  pub on_tick : ℕ → Section → Section
  unfolding expired live despawn_all emit sessions
  on_tick now c =
      let gone = expired now c.heap c.all_tick ++ expired now c.heap c.await_first_tick in
      let first = live now c.heap c.await_first_tick in
      let c' =
        emit (map updated (live now c.heap c.all_tick ++ first))
          (record c { all_tick = c.all_tick ++ first; await_first_tick = [] }) in
      emit (systems_ticked ∷ map section_tick (sessions c.slots)) (despawn_all gone c')

-- The first loop of `SpawnMany`: those that are not there yet.
module _ (issue : ℕ → ℕ) where
  give_id : ℕ → Section → Section
  give_id h c =
      if (c.heap h).object_id == 0
      then record c {
        heap = update_heap h (record (c.heap h) { object_id = issue c.issued }) c.heap;
        issued = c.issued + 1;
      }
      else c

  register_new : List ℕ → Section → List ℕ × Section
  unfolding give_id find_object
  register_new [] c = ([], c)
  register_new (h ∷ hs) c =
      let c' = give_id h c in
      let key = (c'.heap h).object_id in
      elim (find_object key c'.game_objects) [
        | some other ↦ register_new hs c'
        | none ↦
            let (rest, c'') =
              register_new hs (record c' { game_objects = (key, h) ∷ c'.game_objects }) in
            (h ∷ rest, c'')
      ]

  -- The second loop.
  place_all : ℕ → List ℕ → Section → Section
  unfolding emit
  place_all now [] c = c
  place_all now (h ∷ hs) c = place_all now hs (
      emit (collider_added h ∷ []) (record c {
        heap =
            update_heap h (record (c.heap h) { section_id = c.section_id; created_tick = now })
              c.heap;
        await_first_tick = c.await_first_tick ++ h ∷ [];
      }))

  -- `SpawnMany`
  unfoldable pub spawn_many : ℕ → List ℕ → Section → Section
  unfolding register_new place_all emit
  spawn_many now hs c = let (new, c') = register_new hs c in announce new (place_all now new c')
    where
      announce : List ℕ → Section → Section
      announce [] d = d
      announce (h ∷ rest) d = emit (npcs_added (h ∷ rest) ∷ []) d

-- `ForEach`: the functor, as a number, is posted to the sessions of other ids.
unfoldable for_each : ℕ → ℕ → Section → Section
unfolding sessions others emit
for_each functor source c =
    emit (map (λ s. posted s functor) (others source (sessions (take c.session_count c.slots)))) c

-- `OnCreated` and `OnDestroyed`, with both systems'.
unfoldable pub on_created : Section → Section
unfolding emit
on_created c = emit (section_created ∷ []) c

unfoldable pub on_destroyed : Section → Section
unfolding emit
on_destroyed c =
    emit (section_destroyed ∷ [])
      (record c { game_objects = []; all_tick = []; await_first_tick = [] })
