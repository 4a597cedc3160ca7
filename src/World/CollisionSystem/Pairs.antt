-- ===== src/World/CollisionSystem/Pairs.antt =====
-- What one pair of components does to all collision states.
use server.Base.{
  ℕ, ◌≡◌, ◌≢◌, refl, Bool, true, false, Option, some, none, arith, if◌then◌else◌, ◌==◌, ◌&&◌,
  lookup-remove_key, lookup-assign,
}
use server.World.CollisionSystem.{
  CollisionState, enter, continue, leave, Objects, States, remove_collision_state, collision_state,
  owner_id, set_collision_state, on_collision, is_colliding, tick_pair,
}

pub collision_state-remove :
    (x k c id : ℕ) (w : States)
    → collision_state x k (remove_collision_state c id w)
      ≡ (if (c == x) && (id == k) then none else collision_state x k w)
unfolding collision_state remove_collision_state
collision_state-remove x k c id w = ground (arith, lookup-remove_key k id (w.states c))

module _ (o : Objects) where
  pub collision_state-set :
      (x k c id other : ℕ) (st : CollisionState) (w : States)
      → collision_state x k (set_collision_state o c id other st w)
        ≡ (if (c == x) && (id == k) then some st else collision_state x k w)
  unfolding collision_state set_collision_state
  collision_state-set x k c id other st w = ground (arith, lookup-assign k id st (w.states c))

  -- The state after a tick, from whether the two collide and the state before.
  pub next_state : Bool → Option CollisionState → Option CollisionState
  next_state false st = none
  next_state true none = some enter
  next_state true (some st) = some continue

  collision_state-on_collision :
      (x k c other : ℕ) (w : States)
      → collision_state x k (on_collision o c other w) ≡ (
          if (c == x) && (owner_id o other == k)
          then next_state true (collision_state x k w)
          else collision_state x k w)
  unfolding on_collision next_state
  collision_state-on_collision x k c other w = ground (
    arith,
    collision_state-set x k c (owner_id o other) other enter w,
    collision_state-set x k c (owner_id o other) other continue w,
  )

  -- Both ways that the loop's body goes, as one equation.
  tick_pair_apart :
      (x k l r : ℕ) (w : States)
      → is_colliding o l r ≡ false
      → collision_state x k (tick_pair o l r w) ≡ elim (collision_state l (owner_id o r) w) [
        | none ↦ collision_state x k w
        | some st ↦
            if (r == x) && (owner_id o l == k)
            then none
            else if (l == x) && (owner_id o r == k)
            then none
            else collision_state x k w
      ]
  unfolding tick_pair
  tick_pair_apart x k l r w e =
      let w1 = set_collision_state o l (owner_id o r) r leave w in
      let w2 = set_collision_state o r (owner_id o l) l leave w1 in
      let w3 = remove_collision_state l (owner_id o r) w2 in
      ground (
        arith,
        collision_state-remove x k r (owner_id o l) w3,
        collision_state-remove x k l (owner_id o r) w2,
        collision_state-set x k r (owner_id o l) l leave w1,
        collision_state-set x k l (owner_id o r) r leave w,
      )

  tick_pair_together :
      (x k l r : ℕ) (w : States)
      → is_colliding o l r ≡ true
      → l ≢ r
      → collision_state x k (tick_pair o l r w) ≡ (
          if (r == x) && (owner_id o l == k)
          then next_state true (collision_state x k w)
          else if (l == x) && (owner_id o r == k)
          then next_state true (collision_state x k w)
          else collision_state x k w)
  unfolding tick_pair
  tick_pair_together x k l r w e ne = ground (
    arith,
    collision_state-on_collision x k r l (on_collision o l r w),
    collision_state-on_collision x k l r w,
  )

  module _ (l r : ℕ) (w : States) (ne : l ≢ r) where
    pub tick_pair_left :
        collision_state l (owner_id o r) (tick_pair o l r w)
        ≡ next_state (is_colliding o l r) (collision_state l (owner_id o r) w)
    unfolding next_state
    tick_pair_left =
        ground
          (arith, tick_pair_together l (owner_id o r) l r w, tick_pair_apart l (owner_id o r) l r w)

    pub tick_pair_right :
        (collision_state l (owner_id o r) w ≡ none → collision_state r (owner_id o l) w ≡ none)
        → collision_state r (owner_id o l) (tick_pair o l r w)
          ≡ next_state (is_colliding o l r) (collision_state r (owner_id o l) w)
    unfolding next_state
    tick_pair_right h =
        ground
          (arith, tick_pair_together r (owner_id o l) l r w, tick_pair_apart r (owner_id o l) l r w)

    pub tick_pair_other :
        (x k : ℕ)
        → (x ≡ l → k ≢ owner_id o r)
        → (x ≡ r → k ≢ owner_id o l)
        → collision_state x k (tick_pair o l r w) ≡ collision_state x k w
    tick_pair_other x k p q =
        ground (arith, tick_pair_together x k l r w, tick_pair_apart x k l r w)

pub next_state-none :
    (o : Objects) (b : Bool) (s t : Option CollisionState)
    → next_state o b s ≡ none
    → next_state o b t ≡ none
unfolding next_state
next_state-none o false s t h = refl
next_state-none o true none t h = cc
next_state-none o true (some s) t h = cc
