-- ===== src/World/Section.antt =====
-- A section of the world: who is in it, and the objects in it (Source/Server/Section/Section.cpp).
-- Pointers are compared as their handles, and the objects that they point to are in a heap. What the
-- section calls outside of itself is a list of events: the sends of a session, BeginPlay and EndPlay,
-- and the spawn and collision systems. `issue n` is the n-th id of `UniqueId::Issue`.
pub mod Slots
pub mod Members
pub mod Entering
pub mod Leaving
pub mod Reach
pub mod Ticking
mod Tests
use server.Base.{
  ℕ, zero, suc, ◌+◌, ◌-◌, ◌%◌, Bool, true, false, not, List, [], ◌∷◌, ◌++◌, Option, some, none,
  take, ◌==◌, if◌then◌else◌,
}
use server.Network.Packet.{size_mod}

-- `WorldSession`: its pointer, its id, its character, and GetPc.
pub record Session : Type 0 where
  pub handle : ℕ
  pub session_id : ℕ
  pub character_id : ℕ
  pub pc : Option ℕ

pub record GameObject : Type 0 where
  pub object_id : ℕ
  pub section_id : ℕ
  pub created_tick : ℕ

-- An index of `world_sessions_indexes_` and of `world_sessions_arr_`.
pub record Slot : Type 0 where
  pub occupied : Bool
  pub session : Option Session

pub data Event : Type 0 where
  begin_play : ℕ → Event
  end_play : ℕ → Event
  object_added : ℕ → Event
  object_removed : ℕ → Event
  ownership_changed : Session → ℕ → Event
  sent : Session → ℕ → Event
  npcs_added : List ℕ → Event
  collider_added : ℕ → Event
  updated : ℕ → Event
  systems_ticked : Event
  section_tick : Session → Event
  posted : Session → ℕ → Event
  section_created : Event
  section_destroyed : Event

pub record Section : Type 0 where
  pub section_id : ℕ
  pub session_count : ℕ
  pub owner : Option Session
  pub slots : List Slot
  pub game_objects : List (ℕ × ℕ)
  pub all_tick : List ℕ
  pub await_first_tick : List ℕ
  pub heap : ℕ → GameObject
  pub issued : ℕ
  pub events : List Event

pub emit : List Event → Section → Section
emit es c = record c { events = c.events ++ es }

-- `emplace` and `erase` of `game_objects_`, by the object's id.
pub find_object : ℕ → List (ℕ × ℕ) → Option ℕ
find_object k [] = none
find_object k (x ∷ xs) = if x.0 == k then some x.1 else find_object k xs

pub erase_object : ℕ → List (ℕ × ℕ) → List (ℕ × ℕ)
erase_object k [] = []
erase_object k (x ∷ xs) = let rest = erase_object k xs in if x.0 == k then rest else x ∷ rest

-- `std::erase` of a list of pointers.
pub contains : ℕ → List ℕ → Bool
contains h [] = false
contains h (x ∷ xs) = if x == h then true else contains h xs

pub erase : ℕ → List ℕ → List ℕ
erase h [] = []
erase h (x ∷ xs) = let rest = erase h xs in if x == h then rest else x ∷ rest

abbrev pub update_heap : ℕ → GameObject → (ℕ → GameObject) → ℕ → GameObject
update_heap h o heap k = if k == h then o else heap k

-- `AddGameObject`
pub add_game_object : ℕ → ℕ → Section → Section
unfolding emit
add_game_object now h c =
    let o = c.heap h in
    elim (find_object o.object_id c.game_objects) [
      | some other ↦ c
      | none ↦ emit (begin_play h ∷ object_added h ∷ []) (record c {
        game_objects = (o.object_id, h) ∷ c.game_objects;
        heap = update_heap h (record o { section_id = c.section_id; created_tick = now }) c.heap;
        await_first_tick = c.await_first_tick ++ h ∷ [];
      })
    ]

-- `RemoveGameObject`
pub remove_game_object : ℕ → Section → Section
unfolding emit
remove_game_object h c =
    let key = (c.heap h).object_id in
    elim (find_object key c.game_objects) [
      | none ↦ c
      | some other ↦
          let c' = record c { game_objects = erase_object key c.game_objects } in
          emit (end_play h ∷ object_removed h ∷ []) (
            if contains h c.all_tick
            then record c' { all_tick = erase h c.all_tick }
            else record c' { await_first_tick = erase h c.await_first_tick })
    ]

-- `DespawnObject`
pub despawn_object : Option ℕ → Section → Section
unfolding remove_game_object
despawn_object none c = c
despawn_object (some h) c = if (c.heap h).object_id == 0 then c else remove_game_object h c

module _ (issue : ℕ → ℕ) where
  -- `SpawnObject`
  pub spawn_object : ℕ → Option ℕ → Section → Section
  unfolding add_game_object
  spawn_object now none c = c
  spawn_object now (some h) c = add_game_object now h (
      if (c.heap h).object_id == 0
      then record c {
        heap = update_heap h (record (c.heap h) { object_id = issue c.issued }) c.heap;
        issued = c.issued + 1;
      }
      else c)

abbrev pub owner_character_id : Option Session → ℕ
owner_character_id none = 0
owner_character_id (some s) = s.character_id

-- `OnOwnershipChanged`: the owner is told, and the session that it was taken from.
pub on_ownership_changed : Option Session → Section → Section
unfolding emit
on_ownership_changed prev c = emit (told c.owner ++ told prev) c
  where
    told : Option Session → List Event
    told none = []
    told (some s) = ownership_changed s (owner_character_id c.owner) ∷ []

-- The first slot that is not occupied, taken.
pub enter_slot : Session → List Slot → Option (List Slot)
enter_slot s [] = none
enter_slot s (x ∷ xs) =
    if x.occupied
    then elim (enter_slot s xs) [ none ↦ none | some ys ↦ some (x ∷ ys) ]
    else some (record { occupied = true; session = some s } ∷ xs)

-- The first slot that holds the session, cleared.
pub leave_slot : Session → List Slot → Option (List Slot)
leave_slot s [] = none
leave_slot s (x ∷ xs) =
    if holds x.session
    then some (record { occupied = false; session = none } ∷ xs)
    else elim (leave_slot s xs) [ none ↦ none | some ys ↦ some (x ∷ ys) ]
  where
    holds : Option Session → Bool
    holds none = false
    holds (some t) = t.handle == s.handle

-- The first session of another id.
pub next_owner : ℕ → List Slot → Option Session
next_owner id [] = none
next_owner id (x ∷ xs) = elim x.session [
  | none ↦ next_owner id xs
  | some t ↦ if t.session_id == id then next_owner id xs else some t
]

-- `EnterSession`; with no free slot it does nothing.
pub enter_session : (issue : ℕ → ℕ) → ℕ → Session → Section → Section
unfolding spawn_object on_ownership_changed
enter_session issue now s c = elim (enter_slot s c.slots) [
  | none ↦ c
  | some slots' ↦
      let c' = record c { slots = slots'; session_count = (c.session_count + 1) % size_mod } in
      spawn_object issue now s.pc (owned c.owner c')
]
  where
    owned : Option Session → Section → Section
    owned none d = on_ownership_changed none (record d { owner = some s })
    owned (some t) d = d

-- The end of `LeaveSession`: without an owner, the next one takes over.
pub hand_over : Session → Section → Section
unfolding on_ownership_changed
hand_over s c = elim c.owner [
  | some t ↦ c
  | none ↦ elim (next_owner s.session_id c.slots) [
    | none ↦ c
    | some t ↦ on_ownership_changed (some s) (record c { owner = some t })
  ]
]

-- `owner_session_.reset()`, if it is the session.
pub disown : Session → Option Session → Option Session
disown s none = none
disown s (some t) = if t.handle == s.handle then none else some t

-- `LeaveSession`
pub leave_session : Session → Section → Section
unfolding despawn_object hand_over disown
leave_session s c = elim (leave_slot s c.slots) [
  | none ↦ hand_over s c
  | some slots' ↦ hand_over s (
      despawn_object s.pc (record c {
        slots = slots';
        owner = disown s c.owner;
        session_count = (c.session_count + size_mod - 1) % size_mod;
      }))
]

-- The sessions in slots.
pub sessions : List Slot → List Session
sessions [] = []
sessions (x ∷ xs) = elim x.session [ none ↦ sessions xs | some s ↦ s ∷ sessions xs ]

-- The sessions of another id.
pub others : ℕ → List Session → List Session
others id [] = []
others id (s ∷ ss) = let rest = others id ss in if s.session_id == id then rest else s ∷ rest

abbrev pub send_to : ℕ → List Session → List Event
send_to message [] = []
send_to message (s ∷ ss) = sent s message ∷ send_to message ss

-- `Multicast`, and with a source that gets nothing: the loop runs over the first `_session_count`
-- slots.
pub multicast : ℕ → Section → Section
unfolding sessions emit
multicast message c = emit (send_to message (sessions (take c.session_count c.slots))) c

pub multicast_from : ℕ → ℕ → Section → Section
unfolding sessions emit
multicast_from message source c =
    emit (send_to message (others source (sessions (take c.session_count c.slots)))) c
