-- ===== src/World/Session/Spawning.antt =====
-- Requests that a session passes on to its section, where they run as posted messages: to spawn npcs, and to
-- hit one with a projectile (Source/Server/Session/WorldSession.cpp, Source/Server/GameObject/Projectile.cpp).
pub mod Cooldown
pub mod Hits
use server.Base.{
  ℕ, ◌+◌, ◌-◌, Bool, true, false, List, [], ◌∷◌, ◌++◌, Option, some, none, ltb, leb, if◌then◌else◌,
  ◌==◌, lookup,
}
use server.World.SpawnSystem.{
  Npc, Projectile, Vec3, Item, SpawnSystem, find_npc, find_projectile, is_valid_spawn_info,
  make_npcs_from_spawner,
}
use server.World.Session.{
  Result, success, not_found, unauthorized, internal_error, invalid_cooldown, invalid_request,
  WorldSession,
}

pub record SpawnNpcReq : Type 0 where
  pub spawner_id : ℕ
  pub places : List Vec3
  pub client_timestamp : ℕ

-- Fields that are not set are 0.
pub record SpawnNpcRes : Type 0 where
  pub result : Result
  pub spawner_id : ℕ
  next_client_timestamp : ℕ

abbrev pub refuse : Result → ℕ → SpawnNpcRes
refuse result stamp = record { result = result; spawner_id = 0; next_client_timestamp = stamp }

-- `OnRecvSpawnNpcOnSectionReq` up to its post: what it replies, or none if it posts the rest.
-- `owner_character_id` is what the section's owner has.
unfoldable on_recv_spawn_npc_on_section_req : (ℕ → ℕ) → WorldSession → Option SpawnNpcRes
on_recv_spawn_npc_on_section_req owner_character_id s = elim s.section [
  | none ↦ some (refuse not_found 0)
  | some section ↦
      if owner_character_id section == s.character_id then none else some (refuse unauthorized 0)
]

-- What the posted part replies, the argument of `SpawnMany` if it is called, and the state.
pub record Spawned : Type 0 where
  pub res : SpawnNpcRes
  pub spawn_many : Option (List Npc)
  pub spawn_system : SpawnSystem

abbrev pub refused : Result → ℕ → SpawnSystem → Spawned
refused result stamp s = record { res = refuse result stamp; spawn_many = none; spawn_system = s }

-- `add_secs stamp seconds` is the time stamp later.
module _ (issue : ℕ → ℕ) (too_soon : ℕ → ℕ → ℕ → Bool) (outside : Vec3 → Vec3 → ℕ → Bool)
    (add_secs : ℕ → ℕ → ℕ) where
  unfoldable pub spawn_for_item : ℕ → ℕ → SpawnNpcReq → Item → SpawnSystem → Spawned
  spawn_for_item issued now msg item s =
      let stamp = add_secs msg.client_timestamp item.spawn_duration_seconds in
      if too_soon now s.last_spawn_tick item.spawn_duration_seconds
      then refused invalid_cooldown stamp s
      else if is_valid_spawn_info too_soon outside now msg.spawner_id msg.places s
      then (let (npcs, s') = make_npcs_from_spawner issue issued now msg.spawner_id msg.places s in
          record {
            res = record {
              result = success;
              spawner_id = msg.spawner_id;
              next_client_timestamp = stamp;
            };
            spawn_many = some npcs;
            spawn_system = s';
          })
      else refused invalid_request stamp s

  -- The posted part of `OnRecvSpawnNpcOnSectionReq`.
  unfoldable pub spawn_npc_posted : ℕ → ℕ → SpawnNpcReq → SpawnSystem → Spawned
  unfolding spawn_for_item
  spawn_npc_posted issued now msg s = elim s.spawner_data_record [
    | none ↦ refused internal_error 0 s
    | some items ↦ elim (lookup msg.spawner_id items) [
      | none ↦ refused not_found 0 s
      | some item ↦ spawn_for_item issued now msg item s
    ]
  ]

-- `OnRecvHitObjectByProjectileReq` up to its post.
unfoldable on_recv_hit_object_by_projectile_req : WorldSession → Option Result
on_recv_hit_object_by_projectile_req s = elim s.section [
  | none ↦ some not_found
  | some section ↦ none
]

-- The posted part: its reply, and the call of `HitObject`. `too_far p` is the test of the distance.
module _ (too_far : Projectile → Bool) where
  unfoldable hit_posted : ℕ → ℕ → SpawnSystem → Result × Option (Projectile × Npc)
  hit_posted projectile_object_id hit_object_id s = elim (find_projectile projectile_object_id s) [
    | none ↦ (not_found, none)
    | some projectile ↦ elim (find_npc hit_object_id s) [
      | none ↦ (not_found, none)
      | some npc ↦
          if too_far projectile then (invalid_request, none) else (success, some (projectile, npc))
    ]
  ]

-- `world::HitObjectByProjectileNotify`
pub record HitNotify : Type 0 where
  pub object_id : ℕ
  projectile_object_id : ℕ
  current_hp : ℕ
  is_alive : Bool

-- What a hit reads and writes: an npc's `hp_` by its id, and the ids of the section's objects.
pub record Arena : Type 0 where
  pub hp : ℕ → ℕ
  pub game_objects : List ℕ
  pub notified : List HitNotify

pub remove_id : ℕ → List ℕ → List ℕ
remove_id k [] = []
remove_id k (x ∷ xs) = let rest = remove_id k xs in if x == k then rest else x ∷ rest

-- `DespawnObject`, on ids.
despawn_id : ℕ → Arena → Arena
unfolding remove_id
despawn_id id a = if id == 0 then a else record a { game_objects = remove_id id a.game_objects }

set_hp : ℕ → ℕ → Arena → Arena
set_hp id hp a = record a { hp = λ k. if id == k then hp else a.hp k }

-- What `HitObject` posts to the section, on the npc's id.
pub hit_object : Projectile → ℕ → Arena → Arena
unfolding despawn_id set_hp
hit_object projectile id a =
    let a' = despawn_id projectile.object_id a in
    let notify = λ (hp : ℕ) (alive : Bool) (b : Arena). record b {
      notified =
          b.notified
          ++ record {
            object_id = id;
            projectile_object_id = projectile.object_id;
            current_hp = hp;
            is_alive = alive;
          }
            ∷ [];
    } in
    if leb (a'.hp id) projectile.damage
    then notify 0 false (despawn_id id (set_hp id 0 a'))
    else notify (a'.hp id - projectile.damage) true (set_hp id (a'.hp id - projectile.damage) a')
