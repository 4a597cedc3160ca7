-- ===== src/World/Session/Tests.antt =====
-- A session in section 1, with an attack made and a projectile spawned.
use server.Base.{
  ◌+◌, ◌-◌, ◌*◌, ◌≡◌, ◌≤◌, refl, true, false, List, [], ◌∷◌, some, arith, ltb, length,
}
use server.World.SpawnSystem.{Projectile, Vec3, SpawnSystem}
use server.World.Session.{WorldSession, ClientActionReq}
use server.World.Session.Handlers.{SpawnProjectileReq, Flight}
use server.World.Session.Attacks.{
  Request, client_action, spawn_projectile, section_tick, Rules, shots, run, accepted, issued_ids,
}
use server.World.Session.Queue.{IsSublist}
use server.World.Session.Ledger.{IsSpaced, run_attacks}
use server.World.Session.Spawning.{SpawnNpcReq, spawn_npc_posted, Arena}
use server.World.Session.Spawning.Cooldown.{Meets, spawn_npc_posted-Meets}
use server.World.Session.Spawning.Hits.{hits, IsGone, hits_lem}

abbrev here : Vec3
here = record { x = 0; y = 0; z = 0 }

abbrev flight : Flight
flight = record {
  expected_position = λ now. here;
  is_valid_projectile = λ v pose. true;
  is_bad_speed = λ v. false;
  adjusted = λ v p q. v;
  rotation_of = λ p. here;
  forward = λ v. v;
  simulate_trajectory = λ p. p.position ∷ [];
}

abbrev shoot : SpawnProjectileReq
shoot = record { character_pose = 0; pose = 0; projectile_speed = 0 }

abbrev rules : Rules
rules = record {
  issue = λ n. n + 50;
  too_early = λ now last. ltb now (last + 500);
  expected = λ t now last. t;
  flight = flight;
}

abbrev session : WorldSession
session = record {
  session_id = 1;
  character_id = 2;
  player_character_id = 0;
  last_base_attack_tick = 0;
  section = some 1;
  action_queue = [];
  issued = 0;
  sent = [];
  calls = [];
}

abbrev attack : ClientActionReq
attack = record { action_type = 4; attack_timestamp = 0; client_timestamp = 0 }

-- The second attack comes too early, and the second projectile is not paid for.
abbrev fight : List Request
fight =
    client_action 600 attack
    ∷ client_action 700 attack
    ∷ spawn_projectile 710 shoot
    ∷ spawn_projectile 720 shoot
    ∷ section_tick 730
    ∷ client_action 1200 attack
    ∷ []

run_attacks_example :
    IsSublist
      (shots (run rules fight session).calls)
      (issued_ids rules (length (accepted rules fight session)))
    × IsSpaced rules 0 (accepted rules fight session)
run_attacks_example = run_attacks rules fight session refl refl refl

abbrev quiet_system : SpawnSystem
quiet_system = record {
  npcs = [];
  pcs = [];
  projectiles = [];
  spawn_counts = λ k. 0;
  spawner_data_record = some (
      (7, record { location = here; radius = 9; max_spawn_count = 3; spawn_duration_seconds = 5 })
      ∷ []);
  last_spawn_tick = 0;
  sent = [];
}

abbrev spawn_req : SpawnNpcReq
spawn_req = record { spawner_id = 7; places = here ∷ here ∷ []; client_timestamp = 0 }

spawn_npc_posted-Meets_example :
    Meets
      (λ n. n)
      (λ now last secs. false)
      (λ a b r. false)
      (λ t secs. t)
      0
      9
      spawn_req
      quiet_system
      (spawn_npc_posted
        (λ n. n)
        (λ now last secs. false)
        (λ a b r. false)
        (λ t secs. t)
        0
        9
        spawn_req
        quiet_system)
spawn_npc_posted-Meets_example =
    spawn_npc_posted-Meets (λ n. n) (λ now last secs. false) (λ a b r. false) (λ t secs. t) 0 9
      spawn_req quiet_system

abbrev arrow : Projectile
arrow = record {
  object_id = 8;
  trigger_id = 0;
  action_id = 0;
  damage = 20;
  position = here;
  rotation = here;
  direction = here;
  initial_speed = 0;
  lifetime_seconds = 30;
}

abbrev arena : Arena
arena = record { hp = λ k. 30; game_objects = 8 ∷ 9 ∷ []; notified = [] }

-- An npc with 30 is hit twice by a projectile of 20.
hits_lem_example :
    let a' = hits 2 arrow 9 arena in
    (a'.hp 9 ≡ 30 - 2 * 20) × IsGone 8 a'.game_objects × (30 ≤ 2 * 20 → IsGone 9 a'.game_objects)
hits_lem_example = hits_lem 1 arrow 9 arena (omega arith) (omega arith)
