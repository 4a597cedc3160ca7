-- ===== src/World/Session/Spawning/Cooldown.antt =====
-- When a request to spawn npcs is served.
use server.Base.{
  ℕ, ◌≡◌, refl, Bool, true, List, [], ◌∷◌, ◌+◌, some, none, arith, inl, inr, Bool-cases,
  Option-cases, if◌then◌else◌, lookup, ◌∙◌, sym, ap, subst,
}
use server.World.SpawnSystem.{
  Vec3, Npc, Item, SpawnSystem, is_valid_spawn_info, make_npcs_from_spawner, new_npcs,
}
use server.World.Session.{
  Result, success, not_found, internal_error, invalid_cooldown, invalid_request,
}
use server.World.Session.Spawning.{SpawnNpcReq, Spawned, refused, spawn_npc_posted, spawn_for_item}

module _ (issue : ℕ → ℕ) (too_soon : ℕ → ℕ → ℕ → Bool) (outside : Vec3 → Vec3 → ℕ → Bool)
    (add_secs : ℕ → ℕ → ℕ) (issued now : ℕ) (msg : SpawnNpcReq) (s : SpawnSystem) where
  -- Nothing is asked of the section, which stays as it is.
  abbrev IsRefused : Result → Spawned → Type 0
  IsRefused result r = (r.res.result ≡ result) × (r.spawn_many ≡ none) × (r.spawn_system ≡ s)

  -- The npcs are one for each place, at it: of the spawner, with the next ids and the full hp.
  pub AreMade : ℕ → List Vec3 → List Npc → Type 0
  AreMade i [] [] = Unit {0}
  AreMade i (v ∷ vs) (n ∷ ns) =
      (n.object_id ≡ issue i)
      × (n.spawner_id ≡ msg.spawner_id)
      × (n.location ≡ v)
      × (n.hp ≡ 100)
      × AreMade (i + 1) vs ns
  AreMade i [] (n ∷ ns) = ⊥
  AreMade i (v ∷ vs) [] = ⊥

  new_npcs-AreMade : (i : ℕ) (vs : List Vec3) → AreMade i vs (new_npcs issue i msg.spawner_id vs)
  unfolding new_npcs AreMade
  new_npcs-AreMade i [] = tt
  new_npcs-AreMade i (v ∷ vs) = (refl, refl, refl, refl, new_npcs-AreMade (i + 1) vs)

  -- The section is to spawn an npc for each place, and remembers the time.
  pub record IsServed (r : Spawned) : Type 0 where
    pub result : r.res.result ≡ success
    pub spawner : r.res.spawner_id ≡ msg.spawner_id
    pub made : List Npc
    pub asked : r.spawn_many ≡ some made
    pub npcs : AreMade issued msg.places made
    pub state : r.spawn_system ≡ record s { last_spawn_tick = now }

  -- What the request meets: the spawner of a section that has a table of them.
  pub data Meets : Spawned → Type 0 where
    no_table : {r : Spawned} → s.spawner_data_record ≡ none → IsRefused internal_error r → Meets r
    no_spawner :
        {r : Spawned} {items : List (ℕ × Item)}
        → s.spawner_data_record ≡ some items
        → lookup msg.spawner_id items ≡ none
        → IsRefused not_found r
        → Meets r
    spawner :
        {r : Spawned} {items : List (ℕ × Item)} {item : Item}
        → s.spawner_data_record ≡ some items
        → lookup msg.spawner_id items ≡ some item
        → (if too_soon now s.last_spawn_tick item.spawn_duration_seconds
            then IsRefused invalid_cooldown r
            else if is_valid_spawn_info too_soon outside now msg.spawner_id msg.places s
            then IsServed r
            else IsRefused invalid_request r)
        → Meets r

  found_lem :
      {items : List (ℕ × Item)} (item : Item)
      → s.spawner_data_record ≡ some items
      → lookup msg.spawner_id items ≡ some item
      → spawn_npc_posted issue too_soon outside add_secs issued now msg s
        ≡ spawn_for_item issue too_soon outside add_secs issued now msg item s
  unfolding spawn_npc_posted
  found_lem item d l = ground arith

  for_item :
      (item : Item)
      → (if too_soon now s.last_spawn_tick item.spawn_duration_seconds
          then IsRefused invalid_cooldown
              (spawn_for_item issue too_soon outside add_secs issued now msg item s)
          else if is_valid_spawn_info too_soon outside now msg.spawner_id msg.places s
          then IsServed (spawn_for_item issue too_soon outside add_secs issued now msg item s)
          else IsRefused invalid_request
              (spawn_for_item issue too_soon outside add_secs issued now msg item s))
  unfolding spawn_for_item make_npcs_from_spawner
  for_item item = elim (Bool-cases (too_soon now s.last_spawn_tick item.spawn_duration_seconds)) [
    | inl t ↦ rw (t, spawn_for_item) (refl, refl, refl)
    | inr t ↦
        elim (Bool-cases (is_valid_spawn_info too_soon outside now msg.spawner_id msg.places s)) [
          | inr v ↦ rw (t, v, spawn_for_item) (refl, refl, refl)
          | inl v ↦
              rw (t, v, spawn_for_item)
                (record {
                  result = refl;
                  spawner = refl;
                  made = new_npcs issue issued msg.spawner_id msg.places;
                  asked = refl;
                  npcs = new_npcs-AreMade issued msg.places;
                  state = refl;
                })
        ]
  ]

  served_state :
      (r : Spawned)
      → Meets r
      → r.res.result ≡ success
      → r.spawn_system ≡ record s { last_spawn_tick = now }
  served_state r (no_table d q) e = cc (q.0)
  served_state r (no_spawner d l q) e = cc (q.0)
  served_state r (spawner {item} d l q) e =
      elim (Bool-cases (too_soon now s.last_spawn_tick item.spawn_duration_seconds)) [
        | inl t ↦ let q' = rw t at q in cc (q'.0)
        | inr t ↦
            elim (Bool-cases
              (is_valid_spawn_info too_soon outside now msg.spawner_id msg.places s)) [
                | inr v ↦ let q' = rw (t, v) at q in cc (q'.0)
                | inl v ↦ let q' = rw (t, v) at q in q'.state
              ]
      ]

-- A posted request to spawn npcs is refused with `internal_error` if the section has no table of spawners,
-- with `not_found` if the spawner is not in it, with `invalid_cooldown` if it comes too soon after the last,
-- with `invalid_request` if `IsValidSpawnInfo` does not hold; the section then stays as it is. Otherwise it
-- succeeds, and the section remembers the time and is asked to spawn npcs: one for each place, in order and at
-- the place, of the spawner, with the next id that is issued and an hp of 100.
pub spawn_npc_posted-Meets :
    (issue : ℕ → ℕ) (too_soon : ℕ → ℕ → ℕ → Bool) (outside : Vec3 → Vec3 → ℕ → Bool)
    (add_secs : ℕ → ℕ → ℕ) (issued now : ℕ) (msg : SpawnNpcReq) (s : SpawnSystem)
    → Meets issue too_soon outside add_secs issued now msg s
        (spawn_npc_posted issue too_soon outside add_secs issued now msg s)
unfolding spawn_npc_posted
spawn_npc_posted-Meets issue too_soon outside add_secs issued now msg s =
    elim (Option-cases s.spawner_data_record) [
      | inl d ↦ no_table d (ground arith, ground arith, ground arith)
      | inr (items, d) ↦ elim (Option-cases (lookup msg.spawner_id items)) [
        | inl l ↦ no_spawner d l (ground arith, ground arith, ground arith)
        | inr (item, l) ↦
            let e = found_lem issue too_soon outside add_secs issued now msg s item d l in
            subst (Meets issue too_soon outside add_secs issued now msg s) (sym e)
              (spawner d l (for_item issue too_soon outside add_secs issued now msg s item))
      ]
    ]

-- After a request that was served, one for any spawner whose own wait, from the served request on, is not
-- over is refused with `invalid_cooldown`, and changes nothing.
spawn_npc_posted-cooldown :
    (issue : ℕ → ℕ) (too_soon : ℕ → ℕ → ℕ → Bool) (outside : Vec3 → Vec3 → ℕ → Bool)
    (add_secs : ℕ → ℕ → ℕ) (issued issued' now later : ℕ) (msg msg' : SpawnNpcReq) (s : SpawnSystem)
    {items : List (ℕ × Item)} {item : Item}
    → s.spawner_data_record ≡ some items
    → lookup msg'.spawner_id items ≡ some item
    → too_soon later now item.spawn_duration_seconds ≡ true
    → let first = spawn_npc_posted issue too_soon outside add_secs issued now msg s in
      let second =
        spawn_npc_posted issue too_soon outside add_secs issued' later msg' first.spawn_system in
      first.res.result ≡ success
      → (second.res.result ≡ invalid_cooldown)
        × (second.spawn_many ≡ none)
        × (second.spawn_system ≡ first.spawn_system)
unfolding spawn_npc_posted spawn_for_item
spawn_npc_posted-cooldown issue too_soon outside add_secs issued issued' now later msg msg' s
      {item = i} d l t ok =
    let first = spawn_npc_posted issue too_soon outside add_secs issued now msg s in
    let s' : SpawnSystem = record s { last_spawn_tick = now } in
    let e : first.spawn_system ≡ s' =
      served_state issue too_soon outside add_secs issued now msg s first
        (spawn_npc_posted-Meets issue too_soon outside add_secs issued now msg s) ok in
    let f = found_lem issue too_soon outside add_secs issued' later msg' s' i d l in
    let g : spawn_for_item issue too_soon outside add_secs issued' later msg' i s'
        ≡ refused invalid_cooldown (add_secs msg'.client_timestamp i.spawn_duration_seconds) s' =
      rw (t, spawn_for_item) refl in
    subst
      (λ v.
        let second = spawn_npc_posted issue too_soon outside add_secs issued' later msg' v in
        (second.res.result ≡ invalid_cooldown)
        × (second.spawn_many ≡ none)
        × (second.spawn_system ≡ v))
      (sym e)
      (
        ap (λ r. r.res.result) (f ∙ g),
        ap (λ r. r.spawn_many) (f ∙ g),
        ap (λ r. r.spawn_system) (f ∙ g),
      )
