-- ===== src/World/CollisionSystem/Tests.antt =====
-- Three objects with a component each: 1 and 2 touch, 3 is away.
use server.Base.{ℕ, ◌+◌, refl, true, List, [], ◌∷◌, some, arith, if◌then◌else◌, ◌==◌, ltb, ◌&&◌}
use server.World.CollisionSystem.{
  enter, Objects, States, on_tick, with_colliders, collision_state, owner_id,
}
use server.World.CollisionSystem.Kept.{AllMutual, AllTicked}
use server.World.CollisionSystem.Ticking.{on_tick-AllTicked}

abbrev objects : Objects
objects = record {
  owner = λ c. c + 10;
  object_id = λ g. g + 100;
  collider = λ c. some c;
  has_callback = λ c. true;
  collides_with = λ a b. ltb a 3 && ltb b 3;
}

abbrev table : List (ℕ × ℕ)
table = (111, 1) ∷ (112, 2) ∷ (113, 3) ∷ []

-- The state that 1 and 2 have of each other is one of an earlier tick.
abbrev touching : States
touching = record {
  states = λ c. if c == 1 then (112, enter) ∷ [] else if c == 2 then (111, enter) ∷ [] else [];
  calls = [];
}

on_tick-AllTicked_example :
    AllMutual objects (on_tick objects table touching) (with_colliders objects table)
    × AllTicked objects touching (on_tick objects table touching) (with_colliders objects table)
unfolding with_colliders collision_state owner_id
on_tick-AllTicked_example =
    on_tick-AllTicked objects table touching (omega arith)
      ((λ e. cc e, (λ e. refl, tt)), ((λ e. refl, tt), (tt, tt)))
