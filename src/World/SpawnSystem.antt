-- ===== src/World/SpawnSystem.antt =====
-- What is spawned in a section: Source/Server/Section/SpawnSystem.cpp. Objects are values; a spawner's
-- id is not negative; floats are bit patterns, and the tests on them parameters. `Multicast` of the
-- section is the list `sent`. `issue n` is the n-th id of `UniqueId::Issue`.
mod Objects
pub mod Counts
pub mod Requests
pub mod Undo
pub mod Client
mod Tests
pub use Objects.*
use server.Base.{
  ℕ, zero, suc, ◌+◌, ◌-◌, Bool, true, false, List, [], ◌∷◌, ◌++◌, Option, some, none, map, ltb, leb,
  if◌then◌else◌, ◌==◌, lookup, remove_key, emplace,
}

pub multicast : Notify → Option ℕ → SpawnSystem → SpawnSystem
multicast n source s = record s { sent = s.sent ++ record { notify = n; source = source } ∷ [] }

update_count : ℕ → ℕ → (ℕ → ℕ) → ℕ → ℕ
update_count k v counts j = if k == j then v else counts j

-- `++spawn_count`, and `--spawn_count` unless it is 0, of the npc's spawner if it has one.
pub increase_count : Npc → (ℕ → ℕ) → ℕ → ℕ
unfolding update_count
increase_count n counts =
    if ltb 0 n.spawner_id
    then update_count n.spawner_id (counts n.spawner_id + 1) counts
    else counts

pub decrease_count : Npc → (ℕ → ℕ) → ℕ → ℕ
unfolding update_count
decrease_count n counts =
    if ltb 0 n.spawner_id
    then if ltb 0 (counts n.spawner_id)
      then update_count n.spawner_id (counts n.spawner_id - 1) counts
      else counts
    else counts

-- `OnSectionCreated`: the record of the section's map, in the table.
unfoldable on_section_created : (ℕ → Option (List (ℕ × Item))) → ℕ → SpawnSystem → SpawnSystem
on_section_created table map_uid s = record s { spawner_data_record = table map_uid }

unfoldable pub on_section_destroyed : SpawnSystem → SpawnSystem
on_section_destroyed s = record s { npcs = []; pcs = []; projectiles = [] }

-- `SpawnNpcOnSection`
pub spawn_npc : Npc → SpawnSystem → Bool × SpawnSystem
unfolding multicast increase_count emplace lookup
spawn_npc n s =
    let (inserted, npcs') = emplace n.object_id n s.npcs in
    if inserted
    then (
      true,
      multicast (spawn_npc_on_section (n ∷ [])) none
          (record s { npcs = npcs'; spawn_counts = increase_count n s.spawn_counts }),
    )
    else (false, s)

-- The loop of `SpawnNpcsOnSection`: the npcs that are taken, which the notice and the vector hold.
pub take_npcs : List Npc → SpawnSystem → List Npc × SpawnSystem
unfolding increase_count emplace lookup
take_npcs [] s = ([], s)
take_npcs (n ∷ ns) s = elim (lookup n.object_id s.npcs) [
  | some m ↦ take_npcs ns s
  | none ↦
      let (taken, s') = take_npcs ns (record s {
        npcs = (n.object_id, n) ∷ s.npcs;
        spawn_counts = increase_count n s.spawn_counts;
      }) in
      (n ∷ taken, s')
]

-- `SpawnNpcsOnSection`, with what it leaves in the vector.
pub spawn_npcs : List Npc → SpawnSystem → Bool × List Npc × SpawnSystem
unfolding take_npcs multicast
spawn_npcs ns s = finish (take_npcs ns s)
  where
    finish : List Npc × SpawnSystem → Bool × List Npc × SpawnSystem
    finish ([], s') = (false, [], s')
    finish (n ∷ taken, s') = (true, n ∷ taken, multicast (spawn_npc_on_section (n ∷ taken)) none s')

-- `DespawnNpcOnSection`
pub despawn_npc : Npc → SpawnSystem → Bool × SpawnSystem
unfolding multicast decrease_count remove_key lookup
despawn_npc n s = elim (lookup n.object_id s.npcs) [
  | none ↦ (false, s)
  | some m ↦ (
    true,
    multicast (despawn_npc_on_section n.object_id) none (record s {
      npcs = remove_key n.object_id s.npcs;
      spawn_counts = decrease_count n s.spawn_counts;
    }),
  )
]

-- `FindNpc`, `FindPc` and `FindProjectile`
pub find_npc : ℕ → SpawnSystem → Option Npc
unfolding lookup
find_npc id s = lookup id s.npcs

pub find_pc : ℕ → SpawnSystem → Option Pc
unfolding lookup
find_pc id s = lookup id s.pcs

pub find_projectile : ℕ → SpawnSystem → Option Projectile
unfolding lookup
find_projectile id s = lookup id s.projectiles

-- `SpawnProjectileOnSection` and `DespawnProjectileOnSection`
pub spawn_projectile : Projectile → SpawnSystem → Bool × SpawnSystem
unfolding multicast emplace lookup
spawn_projectile p s =
    let (inserted, projectiles') = emplace p.object_id p s.projectiles in
    if inserted
    then (
      true,
      multicast (spawn_projectile_on_section p) none (record s { projectiles = projectiles' }),
    )
    else (false, s)

pub despawn_projectile : Projectile → SpawnSystem → Bool × SpawnSystem
unfolding multicast remove_key lookup
despawn_projectile p s = elim (lookup p.object_id s.projectiles) [
  | none ↦ (false, s)
  | some q ↦ (
    true,
    multicast (despawn_projectile_on_section p.object_id) none
        (record s { projectiles = remove_key p.object_id s.projectiles }),
  )
]

-- `SpawnPcOnSection`, which always returns false, and `DespawnPcOnSection`
pub spawn_pc : Pc → SpawnSystem → Bool × SpawnSystem
unfolding multicast emplace lookup
spawn_pc p s =
    let (inserted, pcs') = emplace p.character_id p s.pcs in
    if inserted
    then (false, multicast (other_client_enter p) (some p.session_id) (record s { pcs = pcs' }))
    else (false, s)

pub despawn_pc : Pc → SpawnSystem → Bool × SpawnSystem
unfolding multicast remove_key lookup
despawn_pc p s = elim (lookup p.character_id s.pcs) [
  | none ↦ (false, s)
  | some q ↦ (
    true,
    multicast (other_client_leave p.character_id) (some p.session_id)
        (record s { pcs = remove_key p.character_id s.pcs }),
  )
]

-- `OnGameObjectAdded` and `OnGameObjectRemoved`
pub on_game_object_added : SpawnObject → SpawnSystem → SpawnSystem
unfolding spawn_npc spawn_pc spawn_projectile
on_game_object_added (npc n) s = (spawn_npc n s).1
on_game_object_added (pc p) s = (spawn_pc p s).1
on_game_object_added (projectile p) s = (spawn_projectile p s).1
on_game_object_added (other type_id) s = s

pub on_game_object_removed : SpawnObject → SpawnSystem → SpawnSystem
unfolding despawn_npc despawn_pc despawn_projectile
on_game_object_removed (npc n) s = (despawn_npc n s).1
on_game_object_removed (pc p) s = (despawn_pc p s).1
on_game_object_removed (projectile p) s = (despawn_projectile p s).1
on_game_object_removed (other type_id) s = s

-- `IsValidSpawnInfo`: `too_soon now last seconds`, and `outside location place radius` for a place farther
-- off than the radius and 50.
module _ (too_soon : ℕ → ℕ → ℕ → Bool) (outside : Vec3 → Vec3 → ℕ → Bool) where
  pub all_inside : Item → List Vec3 → Bool
  all_inside item [] = true
  all_inside item (v ∷ vs) =
      if outside item.location v item.radius then false else all_inside item vs

  is_valid_item : ℕ → ℕ → List Vec3 → Item → SpawnSystem → Bool
  unfolding all_inside
  is_valid_item now spawner_id places item s =
      if too_soon now s.last_spawn_tick item.spawn_duration_seconds
      then false
      else if leb item.max_spawn_count (s.spawn_counts spawner_id)
      then false
      else all_inside item places

  pub is_valid_spawn_info : ℕ → ℕ → List Vec3 → SpawnSystem → Bool
  unfolding is_valid_item lookup
  is_valid_spawn_info now spawner_id places s = elim s.spawner_data_record [
    | none ↦ false
    | some items ↦ elim (lookup spawner_id items) [
      | none ↦ false
      | some item ↦ is_valid_item now spawner_id places item s
    ]
  ]

-- `MakeNpcsFromSpawner`, from the `issued`-th id on.
unfoldable pub new_npcs : (ℕ → ℕ) → ℕ → ℕ → List Vec3 → List Npc
new_npcs issue issued spawner_id [] = []
new_npcs issue issued spawner_id (v ∷ vs) =
    record { object_id = issue issued; spawner_id = spawner_id; location = v; hp = 100 }
    ∷ new_npcs issue (issued + 1) spawner_id vs

unfoldable pub make_npcs_from_spawner :
    (ℕ → ℕ) → ℕ → ℕ → ℕ → List Vec3 → SpawnSystem → List Npc × SpawnSystem
unfolding new_npcs
make_npcs_from_spawner issue issued now spawner_id places s =
    (new_npcs issue issued spawner_id places, record s { last_spawn_tick = now })

-- `WriteTo` a `types::SectionInfo`
pub record SectionInfo : Type 0 where
  npc_infos : List Npc
  projectile_infos : List Projectile
  pc_infos : List Pc

unfoldable write_to : SpawnSystem → SectionInfo → SectionInfo
write_to s i = record {
  npc_infos = i.npc_infos ++ map (λ e. e.1) s.npcs;
  projectile_infos = i.projectile_infos ++ map (λ e. e.1) s.projectiles;
  pc_infos = i.pc_infos ++ map (λ e. e.1) s.pcs;
}
