-- ===== src/World/CollisionSystem.antt =====
-- Which objects of a section collide: Source/Server/Section/CollisionSystem.cpp and
-- Source/Server/GameFramework/CollisionComponent.cpp. Components and objects are handles; a component's
-- owner is never null. The geometry of two colliders is a parameter, and the callbacks are events.
pub mod Pairs
pub mod Kept
pub mod Ticking
pub mod Removal
mod Tests
use server.Base.{
  ℕ, ◌+◌, Bool, true, false, List, [], ◌∷◌, ◌++◌, Option, some, none, if◌then◌else◌, ◌==◌, lookup,
  remove_key, emplace, assign,
}

pub data CollisionState : Type 0 where
  enter : CollisionState
  continue : CollisionState
  leave : CollisionState

-- What does not change while a system runs: a component's owner, collider and callback, an object's id,
-- and `CollidesWith` of two colliders.
pub record Objects : Type 0 where
  pub owner : ℕ → ℕ
  pub object_id : ℕ → ℕ
  pub collider : ℕ → Option ℕ
  pub has_callback : ℕ → Bool
  pub collides_with : ℕ → ℕ → Bool

-- A call of `on_collision_callback_`: of whom, with whom, and the state.
pub record Call : Type 0 where
  pub component : ℕ
  pub other : ℕ
  pub state : CollisionState

-- `collision_states_` of each component.
pub record States : Type 0 where
  pub states : ℕ → List (ℕ × CollisionState)
  pub calls : List Call

update_states : ℕ → List (ℕ × CollisionState) → States → States
update_states c m w = record w { states = λ d. if c == d then m else w.states d }

-- `RemoveCollisionState`, and what `HasCollisionState` looks up
pub remove_collision_state : ℕ → ℕ → States → States
unfolding update_states remove_key
remove_collision_state c id w = update_states c (remove_key id (w.states c)) w

pub collision_state : ℕ → ℕ → States → Option CollisionState
unfolding lookup
collision_state c id w = lookup id (w.states c)

module _ (o : Objects) where
  pub owner_id : ℕ → ℕ
  owner_id c = o.object_id (o.owner c)

  -- `SetCollisionState` of `c`.
  pub set_collision_state : ℕ → ℕ → ℕ → CollisionState → States → States
  unfolding update_states assign
  set_collision_state c id other st w =
      let w' = update_states c (assign id st (w.states c)) w in
      if o.has_callback c
      then record w' {
        calls = w'.calls ++ record { component = c; other = other; state = st } ∷ [];
      }
      else w'

  -- `OnCollision` of `c`.
  pub on_collision : ℕ → ℕ → States → States
  unfolding collision_state set_collision_state owner_id
  on_collision c other w = elim (collision_state c (owner_id other) w) [
    | some st ↦ set_collision_state c (owner_id other) other continue w
    | none ↦ set_collision_state c (owner_id other) other enter w
  ]

  -- `IsColliding`
  pub is_colliding : ℕ → ℕ → Bool
  is_colliding l r = elim (o.collider l) [
    | none ↦ false
    | some cl ↦ elim (o.collider r) [ none ↦ false | some cr ↦ o.collides_with cl cr ]
  ]

  -- The body of the loops of `OnTick`.
  pub tick_pair : ℕ → ℕ → States → States
  unfolding is_colliding on_collision set_collision_state remove_collision_state collision_state
      owner_id
  tick_pair l r w =
      if is_colliding l r
      then on_collision r l (on_collision l r w)
      else elim (collision_state l (owner_id r) w) [
        | none ↦ w
        | some st ↦ remove_collision_state r (owner_id l) (
            remove_collision_state l (owner_id r) (
              set_collision_state r (owner_id l) l leave
                (set_collision_state l (owner_id r) r leave w)))
      ]

  pub tick_row : ℕ → List ℕ → States → States
  unfolding tick_pair
  tick_row l [] w = w
  tick_row l (r ∷ rs) w = tick_row l rs (tick_pair l r w)

  pub tick_all : List ℕ → States → States
  unfolding tick_row
  tick_all [] w = w
  tick_all (l ∷ rs) w = tick_all rs (tick_row l rs w)

  -- The components that have a collider.
  pub with_colliders : List (ℕ × ℕ) → List ℕ
  with_colliders [] = []
  with_colliders (e ∷ es) = elim (o.collider e.1) [
    | none ↦ with_colliders es
    | some cl ↦ e.1 ∷ with_colliders es
  ]

  -- `OnTick`, over the table `queryable_colliders_`.
  pub on_tick : List (ℕ × ℕ) → States → States
  unfolding tick_all with_colliders
  on_tick table w = tick_all (with_colliders table) w

  -- `OnGameObjectAdded`: the object and its component.
  pub on_game_object_added : ℕ → Option ℕ → List (ℕ × ℕ) → List (ℕ × ℕ)
  unfolding emplace lookup
  on_game_object_added object none table = table
  on_game_object_added object (some c) table = (emplace (o.object_id object) c table).1

  -- The loop of `OnGameObjectRemoved`, which ends at the object's own component.
  pub leave_all : ℕ → ℕ → List (ℕ × ℕ) → States → States
  unfolding collision_state set_collision_state remove_collision_state
  leave_all object other [] w = w
  leave_all object other (e ∷ es) w =
      let id = o.object_id object in
      if o.owner e.1 == object
      then w
      else leave_all object other es (elim (collision_state e.1 id w) [
        | none ↦ w
        | some st ↦ remove_collision_state e.1 id (set_collision_state e.1 id other leave w)
      ])

  -- `OnGameObjectRemoved`
  pub on_game_object_removed : ℕ → List (ℕ × ℕ) → States → List (ℕ × ℕ) × States
  unfolding lookup leave_all remove_key
  on_game_object_removed object table w = elim (lookup (o.object_id object) table) [
    | none ↦ (table, w)
    | some c ↦ (remove_key (o.object_id object) table, leave_all object c table w)
  ]

-- `OnSectionDestroyed`
unfoldable pub on_section_destroyed : List (ℕ × ℕ) → List (ℕ × ℕ)
on_section_destroyed table = []
