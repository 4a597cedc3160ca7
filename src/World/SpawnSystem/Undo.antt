-- ===== src/World/SpawnSystem/Undo.antt =====
-- What is added and removed again.
use server.Base.{
  ℕ, ◌≡◌, refl, sym, List, [], ◌∷◌, ◌++◌, some, none, arith, lookup, remove_key-cons, append_assoc,
  append-nil,
}
use server.World.SpawnSystem.{
  Npc, Pc, Projectile, SpawnObject, npc, pc, projectile, other, SpawnSystem, Multicast,
  spawn_npc_on_section, despawn_npc_on_section, spawn_projectile_on_section,
  despawn_projectile_on_section, other_client_enter, other_client_leave, increase_count,
  decrease_count, spawn_npc, despawn_npc, spawn_projectile, despawn_projectile, spawn_pc,
  despawn_pc, on_game_object_added, on_game_object_removed, find_npc, find_pc, find_projectile,
}

-- The section has no object under the object's key: its id, or the character's id of a player's.
abbrev IsAbsent : SpawnObject → SpawnSystem → Type 0
IsAbsent (npc n) s = lookup n.object_id s.npcs ≡ none
IsAbsent (pc p) s = lookup p.character_id s.pcs ≡ none
IsAbsent (projectile p) s = lookup p.object_id s.projectiles ≡ none
IsAbsent (other t) s = Unit

-- The object is found under its key.
abbrev pub IsFound : SpawnObject → SpawnSystem → Type 0
IsFound (npc n) s = find_npc n.object_id s ≡ some n
IsFound (pc p) s = find_pc p.character_id s ≡ some p
IsFound (projectile p) s = find_projectile p.object_id s ≡ some p
IsFound (other t) s = Unit

-- What clients are told of an object that comes and goes.
abbrev pub entered_and_left : SpawnObject → List Multicast
entered_and_left (npc n) =
    record { notify = spawn_npc_on_section (n ∷ []); source = none }
    ∷ record { notify = despawn_npc_on_section n.object_id; source = none }
    ∷ []
entered_and_left (pc p) =
    record { notify = other_client_enter p; source = some p.session_id }
    ∷ record { notify = other_client_leave p.character_id; source = some p.session_id }
    ∷ []
entered_and_left (projectile p) =
    record { notify = spawn_projectile_on_section p; source = none }
    ∷ record { notify = despawn_projectile_on_section p.object_id; source = none }
    ∷ []
entered_and_left (other t) = []

-- The same objects and counts, and the calls of `Multicast` that were made since.
pub record Restores (s t : SpawnSystem) (calls : List Multicast) : Type 0 where
  pub npcs : t.npcs ≡ s.npcs
  pub pcs : t.pcs ≡ s.pcs
  pub projectiles : t.projectiles ≡ s.projectiles
  pub counts : (k : ℕ) → t.spawn_counts k ≡ s.spawn_counts k
  pub sent : t.sent ≡ s.sent ++ calls

decrease_count-increase_count :
    (n : Npc) (counts : ℕ → ℕ) (k : ℕ) → decrease_count n (increase_count n counts) k ≡ counts k
unfolding decrease_count increase_count
decrease_count-increase_count n counts k = ground arith

undone_npc :
    (n : Npc) (s : SpawnSystem)
    → lookup n.object_id s.npcs ≡ none
    → Restores s (despawn_npc n (spawn_npc n s).1).1 (entered_and_left (npc n))
unfolding despawn_npc spawn_npc
undone_npc n s e = record {
  npcs = ground (arith, remove_key-cons n.object_id n s.npcs);
  pcs = ground arith;
  projectiles = ground arith;
  counts = λ k. ground (arith, decrease_count-increase_count n s.spawn_counts k);
  sent = ground (
    arith,
    append_assoc s.sent (record { notify = spawn_npc_on_section (n ∷ []); source = none } ∷ [])
        (record { notify = despawn_npc_on_section n.object_id; source = none } ∷ []),
  );
}

undone_projectile :
    (p : Projectile) (s : SpawnSystem)
    → lookup p.object_id s.projectiles ≡ none
    → Restores s (despawn_projectile p (spawn_projectile p s).1).1 (entered_and_left (projectile p))
unfolding despawn_projectile spawn_projectile
undone_projectile p s e = record {
  npcs = ground arith;
  pcs = ground arith;
  projectiles = ground (arith, remove_key-cons p.object_id p s.projectiles);
  counts = λ k. ground arith;
  sent = ground (
    arith,
    append_assoc s.sent (record { notify = spawn_projectile_on_section p; source = none } ∷ [])
        (record { notify = despawn_projectile_on_section p.object_id; source = none } ∷ []),
  );
}

undone_pc :
    (p : Pc) (s : SpawnSystem)
    → lookup p.character_id s.pcs ≡ none
    → Restores s (despawn_pc p (spawn_pc p s).1).1 (entered_and_left (pc p))
unfolding despawn_pc spawn_pc
undone_pc p s e = record {
  npcs = ground arith;
  pcs = ground (arith, remove_key-cons p.character_id p s.pcs);
  projectiles = ground arith;
  counts = λ k. ground arith;
  sent = ground (
    arith,
    append_assoc s.sent (record { notify = other_client_enter p; source = some p.session_id } ∷ [])
        (record { notify = other_client_leave p.character_id; source = some p.session_id } ∷ []),
  );
}

found : (o : SpawnObject) (s : SpawnSystem) → IsAbsent o s → IsFound o (on_game_object_added o s)
unfolding on_game_object_added find_npc find_pc find_projectile
found (npc n) s e = ground arith
found (pc p) s e = ground arith
found (projectile p) s e = ground arith
found (other t) s e = tt

-- An object whose key is free is found when it has been added. When it is then removed, the npcs, the
-- players, the projectiles and every spawn count are as before, and for an npc, a player or a projectile
-- Multicast has been called once for its coming and once for its leaving, for a player with the object's
-- `session_id_` as the source.
pub removed-added :
    (o : SpawnObject) (s : SpawnSystem)
    → IsAbsent o s
    → let s' = on_game_object_added o s in
      IsFound o s' × Restores s (on_game_object_removed o s') (entered_and_left o)
unfolding on_game_object_added on_game_object_removed
removed-added (npc n) s e = (found (npc n) s e, undone_npc n s e)
removed-added (pc p) s e = (found (pc p) s e, undone_pc p s e)
removed-added (projectile p) s e = (found (projectile p) s e, undone_projectile p s e)
removed-added (other t) s e = (
  tt,
  record {
    npcs = refl;
    pcs = refl;
    projectiles = refl;
    counts = λ k. refl;
    sent = sym (append-nil s.sent);
  },
)
