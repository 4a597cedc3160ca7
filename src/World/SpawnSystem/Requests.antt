-- ===== src/World/SpawnSystem/Requests.antt =====
-- A client's request to spawn npcs, from `IsValidSpawnInfo` on.
use server.Base.{
  ℕ, ◌+◌, ◌<◌, ◌≤◌, ◌≡◌, ◌≢◌, refl, ap, ◌∙◌, Bool, true, false, List, [], ◌∷◌, some, none, arith,
  lookup, length,
}
use server.World.SpawnSystem.{
  Npc, Vec3, Item, SpawnSystem, increase_count, take_npcs, spawn_npcs, new_npcs,
  make_npcs_from_spawner, all_inside, is_valid_spawn_info,
}
use server.World.SpawnSystem.Counts.{increase_count_lem, spawn_npcs-npcs}

-- The ids from the `issued`-th up to the `last`-th, which is not counted, are distinct, and no npc has one.
pub record IsUnused (issue : ℕ → ℕ) (issued last : ℕ) (es : List (ℕ × Npc)) : Type 0 where
  pub distinct : (i j : ℕ) → issued ≤ i → i < j → j < last → issue i ≢ issue j
  pub absent : (i : ℕ) → issued ≤ i → i < last → lookup (issue i) es ≡ none

IsUnused-cons :
    (issue : ℕ → ℕ) (i last : ℕ) (n : Npc) (es : List (ℕ × Npc))
    → IsUnused issue i last es
    → IsUnused issue (i + 1) last ((issue i, n) ∷ es)
unfolding lookup
IsUnused-cons issue i last n es u = record {
  distinct = λ j k h. u.distinct j k (omega (arith, h));
  absent = λ j h l.
      ground
        (arith, u.distinct i j (omega arith) (omega (arith, h)) l, u.absent j (omega (arith, h)) l);
}

-- New npcs are all taken, and the spawner's count grows by their number.
take_npcs-new_npcs :
    (issue : ℕ → ℕ) (i k last : ℕ) (vs : List Vec3) (s : SpawnSystem)
    → 0 < k
    → i + length vs ≤ last
    → IsUnused issue i last s.npcs
    → let r = take_npcs (new_npcs issue i k vs) s in
      (r.0 ≡ new_npcs issue i k vs) × (r.1.spawn_counts k ≡ s.spawn_counts k + length vs)
unfolding take_npcs new_npcs
take_npcs-new_npcs issue i k last [] s h l u = (refl, omega arith)
take_npcs-new_npcs issue i k last (v ∷ vs) s h l u =
    let n : Npc = record { object_id = issue i; spawner_id = k; location = v; hp = 100 } in
    let s' : SpawnSystem = record s {
      npcs = (issue i, n) ∷ s.npcs;
      spawn_counts = increase_count n s.spawn_counts;
    } in
    let r =
      take_npcs-new_npcs issue (i + 1) k last vs s' h (omega (arith, l))
        (IsUnused-cons issue i last n s.npcs u) in
    rw (u.absent i (omega arith) (omega (arith, l)), take_npcs)
      (ap (◌∷◌ n) r.0, ground (arith, r.1, increase_count_lem n s.spawn_counts k h))

module _ (too_soon : ℕ → ℕ → ℕ → Bool) (outside : Vec3 → Vec3 → ℕ → Bool) (issue : ℕ → ℕ)
    (issued now k : ℕ) (places : List Vec3) (s : SpawnSystem) where
  -- The state after the request's npcs are made and spawned.
  abbrev pub served : SpawnSystem
  served =
      let (made, s') = make_npcs_from_spawner issue issued now k places s in (spawn_npcs made s').2

  served_count :
      0 < k
      → IsUnused issue issued (issued + length places) s.npcs
      → served.spawn_counts k ≡ s.spawn_counts k + length places
  unfolding make_npcs_from_spawner
  served_count h u =
      let s' : SpawnSystem = record s { last_spawn_tick = now } in
      let made = new_npcs issue issued k places in
      ap (λ c. c k) (spawn_npcs-npcs made s').1
      ∙ (take_npcs-new_npcs issue issued k (issued + length places) places s' h (omega arith) u).1

  is_valid_spawn_info-below :
      {items : List (ℕ × Item)} {item : Item}
      → s.spawner_data_record ≡ some items
      → lookup k items ≡ some item
      → is_valid_spawn_info too_soon outside now k places s ≡ true
      → s.spawn_counts k < item.max_spawn_count
  unfolding is_valid_spawn_info
  is_valid_spawn_info-below {item} d e v = ground arith

-- For a spawner whose id is not 0: a request that `IsValidSpawnInfo` accepts, once its npcs are made with
-- distinct ids that no npc has and spawned, has added their number to the spawner's count, which then is
-- below the maximum and their number together.
pub request_bounds :
    (too_soon : ℕ → ℕ → ℕ → Bool) (outside : Vec3 → Vec3 → ℕ → Bool) (issue : ℕ → ℕ)
    (issued now k : ℕ) (places : List Vec3) (s : SpawnSystem) {items : List (ℕ × Item)}
    {item : Item}
    → 0 < k
    → IsUnused issue issued (issued + length places) s.npcs
    → s.spawner_data_record ≡ some items
    → lookup k items ≡ some item
    → is_valid_spawn_info too_soon outside now k places s ≡ true
    → let s' = served too_soon outside issue issued now k places s in
      (s'.spawn_counts k ≡ s.spawn_counts k + length places)
      × (s'.spawn_counts k < item.max_spawn_count + length places)
request_bounds too_soon outside issue issued now k places s h u d e v = omega (
  arith,
  served_count too_soon outside issue issued now k places s h u,
  is_valid_spawn_info-below too_soon outside issue issued now k places s d e v,
)

-- A request that comes late enough, with all places inside, is accepted if one npc is missing, however
-- many it is for: if it is for more than are missing, the spawner has more than the maximum afterwards.
request_overruns :
    (too_soon : ℕ → ℕ → ℕ → Bool) (outside : Vec3 → Vec3 → ℕ → Bool) (issue : ℕ → ℕ)
    (issued now k : ℕ) (places : List Vec3) (s : SpawnSystem) {items : List (ℕ × Item)}
    {item : Item}
    → 0 < k
    → IsUnused issue issued (issued + length places) s.npcs
    → s.spawner_data_record ≡ some items
    → lookup k items ≡ some item
    → too_soon now s.last_spawn_tick item.spawn_duration_seconds ≡ false
    → all_inside too_soon outside item places ≡ true
    → s.spawn_counts k < item.max_spawn_count
    → item.max_spawn_count < s.spawn_counts k + length places
    → (is_valid_spawn_info too_soon outside now k places s ≡ true)
      × (item.max_spawn_count
          < (served too_soon outside issue issued now k places s).spawn_counts k)
unfolding is_valid_spawn_info
request_overruns too_soon outside issue issued now k places s h u d e t i b o =
    (ground arith, omega (arith, served_count too_soon outside issue issued now k places s h u))
