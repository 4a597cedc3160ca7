-- ===== src/World/SpawnSystem/Objects.antt =====
-- What can be spawned in a section, and the state of Source/Server/Section/SpawnSystem.cpp. Of a pose the
-- location is kept; floats are bit patterns.
use server.Base.{ℕ, List, Option}

pub record Vec3 : Type 0 where
  pub x : ℕ
  pub y : ℕ
  pub z : ℕ

pub record Npc : Type 0 where
  pub object_id : ℕ
  pub spawner_id : ℕ
  pub location : Vec3
  pub hp : ℕ

pub record Projectile : Type 0 where
  pub object_id : ℕ
  pub trigger_id : ℕ
  pub action_id : ℕ
  pub damage : ℕ
  pub position : Vec3
  pub rotation : Vec3
  pub direction : Vec3
  pub initial_speed : ℕ
  pub lifetime_seconds : ℕ

-- `client` is the handle of a session.
pub record Pc : Type 0 where
  pub object_id : ℕ
  pub client : Option ℕ
  pub character_id : ℕ
  pub server_id : ℕ
  pub session_id : ℕ

-- By `type_id`; `other` has a type that no method is registered for.
pub data SpawnObject : Type 0 where
  npc : Npc → SpawnObject
  pc : Pc → SpawnObject
  projectile : Projectile → SpawnObject
  other : ℕ → SpawnObject

pub data Notify : Type 0 where
  spawn_npc_on_section : List Npc → Notify
  despawn_npc_on_section : ℕ → Notify
  spawn_projectile_on_section : Projectile → Notify
  despawn_projectile_on_section : ℕ → Notify
  other_client_enter : Pc → Notify
  other_client_leave : ℕ → Notify

-- A call of `Multicast`, with the source's id if it has one.
pub record Multicast : Type 0 where
  pub notify : Notify
  pub source : Option ℕ

pub record Item : Type 0 where
  pub location : Vec3
  pub radius : ℕ
  pub max_spawn_count : ℕ
  pub spawn_duration_seconds : ℕ

pub record SpawnSystem : Type 0 where
  pub npcs : List (ℕ × Npc)
  pub pcs : List (ℕ × Pc)
  pub projectiles : List (ℕ × Projectile)
  pub spawn_counts : ℕ → ℕ
  pub spawner_data_record : Option (List (ℕ × Item))
  pub last_spawn_tick : ℕ
  pub sent : List Multicast
