-- ===== src/World/SpawnSystem/Tests.antt =====
-- A spawn system with one spawner, and what comes to it.
use server.Base.{
  ℕ, ◌≡◌, ◌<◌, ◌+◌, refl, Bool, true, [], ◌∷◌, Option, some, arith, length, lookup, if◌then◌else◌,
  ◌==◌, ltb,
}
use server.World.SpawnSystem.{
  Vec3, Npc, npc, Item, SpawnSystem, on_game_object_added, on_game_object_removed, spawn_npcs,
  is_valid_spawn_info,
}
use server.World.SpawnSystem.Counts.{IsCounted, spawn_system-IsCounted}
use server.World.SpawnSystem.Undo.{IsFound, Restores, entered_and_left, removed-added}
use server.World.SpawnSystem.Requests.{IsUnused, served, request_bounds}
use server.World.SpawnSystem.Client.{Client}

abbrev here : Vec3
here = record { x = 0; y = 0; z = 0 }

abbrev goblin : ℕ → Npc
goblin n = record { object_id = n; spawner_id = 7; location = here; hp = 100 }

abbrev spawner : Item
spawner = record { location = here; radius = 9; max_spawn_count = 3; spawn_duration_seconds = 5 }

-- Two npcs of spawner 7.
abbrev two_goblins : SpawnSystem
two_goblins = record {
  npcs = (2, goblin 2) ∷ (1, goblin 1) ∷ [];
  pcs = [];
  projectiles = [];
  spawn_counts = λ k. if k == 7 then 2 else 0;
  spawner_data_record = some ((7, spawner) ∷ []);
  last_spawn_tick = 0;
  sent = [];
}

two_goblins-IsCounted : IsCounted two_goblins
unfolding lookup
two_goblins-IsCounted = record {
  keyed = (refl, refl, (refl, refl, tt));
  counted = λ k h. ground arith;
}

spawn_system-IsCounted_example :
    IsCounted (on_game_object_added (npc (goblin 1)) two_goblins)
    × IsCounted (on_game_object_removed (npc (goblin 1)) two_goblins)
    × IsCounted (spawn_npcs (goblin 3 ∷ goblin 2 ∷ goblin 4 ∷ []) two_goblins).2
unfolding lookup
spawn_system-IsCounted_example =
    spawn_system-IsCounted (npc (goblin 1)) (goblin 3 ∷ goblin 2 ∷ goblin 4 ∷ []) two_goblins
      (λ m e. ground arith) two_goblins-IsCounted

removed-added_example :
    let s' = on_game_object_added (npc (goblin 3)) two_goblins in
    IsFound (npc (goblin 3)) s'
    × Restores two_goblins
        (on_game_object_removed (npc (goblin 3)) s')
        (entered_and_left (npc (goblin 3)))
unfolding lookup
removed-added_example = removed-added (npc (goblin 3)) two_goblins refl

abbrev too_soon : ℕ → ℕ → ℕ → Bool
too_soon now last secs = ltb now (last + secs)

abbrev outside : Vec3 → Vec3 → ℕ → Bool
outside a b r = ltb (a.x + r) b.x

abbrev ids : ℕ → ℕ
ids n = n + 100

ids-IsUnused : IsUnused ids 0 2 two_goblins.npcs
unfolding lookup
ids-IsUnused = record {
  distinct = λ i j h l m e. omega (arith, e, l);
  absent = λ i h l. ground arith;
}

is_valid : is_valid_spawn_info too_soon outside 6 7 (here ∷ here ∷ []) two_goblins ≡ true
unfolding is_valid_spawn_info
is_valid = refl

-- Two npcs are asked for, and one was missing.
request_bounds_example :
    let s' = served too_soon outside ids 0 6 7 (here ∷ here ∷ []) two_goblins in
    (s'.spawn_counts 7 ≡ two_goblins.spawn_counts 7 + length (here ∷ here ∷ []))
    × (s'.spawn_counts 7 < spawner.max_spawn_count + length (here ∷ here ∷ []))
unfolding lookup
request_bounds_example =
    request_bounds too_soon outside ids 0 6 7 (here ∷ here ∷ []) two_goblins (omega arith)
      ids-IsUnused refl refl is_valid

abbrev client : ℕ → Option Client
client n = some (record { handle = n; character_id = n; server_id = 1; session_id = n })
