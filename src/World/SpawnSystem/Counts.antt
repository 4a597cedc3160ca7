-- ===== src/World/SpawnSystem/Counts.antt =====
-- The spawn counts: each is the number of the spawner's npcs.
use server.Base.{
  ℕ, ◌+◌, ◌<◌, ◌≡◌, refl, ap, ◌∙◌, List, [], ◌∷◌, some, none, arith, if◌then◌else◌, ◌==◌, lookup,
  remove_key, emplace, remove_key-missing, lookup-remove_key-none, Option-cases, inl, inr,
}
use server.World.SpawnSystem.{
  Npc, SpawnObject, npc, pc, projectile, other, SpawnSystem, multicast, increase_count,
  decrease_count, spawn_npc, take_npcs, spawn_npcs, despawn_npc, on_game_object_added,
  on_game_object_removed,
}

-- How many npcs of the table have the spawner.
abbrev pub count : ℕ → List (ℕ × Npc) → ℕ
count k [] = 0
count k (e ∷ es) = (if e.1.spawner_id == k then 1 else 0) + count k es

-- Every npc stands under its own id, and no two under one.
abbrev AllKeyed : List (ℕ × Npc) → Type 0
AllKeyed [] = Unit
AllKeyed (e ∷ es) = (e.1.object_id ≡ e.0) × (lookup e.0 es ≡ none) × AllKeyed es

pub record IsCounted (s : SpawnSystem) : Type 0 where
  pub keyed : AllKeyed s.npcs
  pub counted : (k : ℕ) → 0 < k → s.spawn_counts k ≡ count k s.npcs

-- The object is the one that the table has under its id, if it has one.
abbrev IsStored : SpawnObject → SpawnSystem → Type 0
IsStored (npc n) s = (m : Npc) → lookup n.object_id s.npcs ≡ some m → m ≡ n
IsStored (pc p) s = Unit
IsStored (projectile p) s = Unit
IsStored (other t) s = Unit

remove_key-AllKeyed : (k : ℕ) (es : List (ℕ × Npc)) → AllKeyed es → AllKeyed (remove_key k es)
unfolding remove_key
remove_key-AllKeyed k [] h = tt
remove_key-AllKeyed k (e ∷ es) h =
    ground (arith, remove_key-AllKeyed k es h.2, lookup-remove_key-none e.0 k es h.1)

-- An npc taken out counts for its spawner alone.
count-remove_key :
    (j k : ℕ) (es : List (ℕ × Npc)) (n : Npc)
    → AllKeyed es
    → lookup k es ≡ some n
    → count j es ≡ (if n.spawner_id == j then 1 else 0) + count j (remove_key k es)
unfolding lookup remove_key
count-remove_key j k [] n h e = cc
count-remove_key j k (x ∷ es) n h e =
    ground (arith, count-remove_key j k es n h.2, remove_key-missing k es)

pub increase_count_lem :
    (n : Npc) (counts : ℕ → ℕ) (k : ℕ)
    → 0 < k
    → increase_count n counts k ≡ (if n.spawner_id == k then 1 else 0) + counts k
unfolding increase_count
increase_count_lem n counts k h = ground arith

decrease_count_lem :
    (n : Npc) (counts : ℕ → ℕ) (k c : ℕ)
    → 0 < k
    → counts k ≡ (if n.spawner_id == k then 1 else 0) + c
    → decrease_count n counts k ≡ c
unfolding decrease_count
decrease_count_lem n counts k c h e = ground arith

spawn_npc-IsCounted : (n : Npc) (s : SpawnSystem) → IsCounted s → IsCounted (spawn_npc n s).1
unfolding spawn_npc
spawn_npc-IsCounted n s v = elim (Option-cases (lookup n.object_id s.npcs)) [
  | inr (m, e) ↦ rw (e, spawn_npc, emplace) v
  | inl e ↦ record {
    keyed = simp (e, spawn_npc, emplace, multicast) (refl, refl, v.keyed);
    counted = λ k h.
        simp (e, spawn_npc, emplace, multicast)
          (omega (arith, increase_count_lem n s.spawn_counts k h, v.counted k h));
  }
]

despawn_npc-IsCounted :
    (n : Npc) (s : SpawnSystem) → IsStored (npc n) s → IsCounted s → IsCounted (despawn_npc n s).1
unfolding despawn_npc
despawn_npc-IsCounted n s st v = elim (Option-cases (lookup n.object_id s.npcs)) [
  | inl e ↦ rw (e, despawn_npc) v
  | inr (m, e) ↦ record {
    keyed = simp (e, despawn_npc, multicast) (remove_key-AllKeyed n.object_id s.npcs v.keyed);
    counted = λ k h.
        simp (e, despawn_npc, multicast)
          (decrease_count_lem n s.spawn_counts k (count k (remove_key n.object_id s.npcs)) h (
            v.counted k h
            ∙ count-remove_key k n.object_id s.npcs n v.keyed (e ∙ ap some (st m e))));
  }
]

take_npcs-IsCounted : (ns : List Npc) (s : SpawnSystem) → IsCounted s → IsCounted (take_npcs ns s).1
unfolding take_npcs
take_npcs-IsCounted [] s v = v
take_npcs-IsCounted (n ∷ ns) s v = elim (Option-cases (lookup n.object_id s.npcs)) [
  | inr (m, e) ↦ rw (e, take_npcs) (take_npcs-IsCounted ns s v)
  | inl e ↦
      rw (e, take_npcs)
        (take_npcs-IsCounted ns
          (record s {
            npcs = (n.object_id, n) ∷ s.npcs;
            spawn_counts = increase_count n s.spawn_counts;
          })
          (record {
            keyed = (refl, e, v.keyed);
            counted = λ k h. omega (arith, increase_count_lem n s.spawn_counts k h, v.counted k h);
          }))
]

pub spawn_npcs-npcs :
    (ns : List Npc) (s : SpawnSystem)
    → ((spawn_npcs ns s).2.npcs ≡ (take_npcs ns s).1.npcs)
      × ((spawn_npcs ns s).2.spawn_counts ≡ (take_npcs ns s).1.spawn_counts)
unfolding spawn_npcs
spawn_npcs-npcs ns s = ground arith

-- A state with the same npcs and counts is counted too.
same-IsCounted :
    (s t : SpawnSystem)
    → t.npcs ≡ s.npcs
    → t.spawn_counts ≡ s.spawn_counts
    → IsCounted s
    → IsCounted t
same-IsCounted s t e f v = record {
  keyed = rw e v.keyed;
  counted = λ k h. rw (e, f) (v.counted k h);
}

added-IsCounted :
    (o : SpawnObject) (s : SpawnSystem) → IsCounted s → IsCounted (on_game_object_added o s)
unfolding on_game_object_added
added-IsCounted (npc n) s v = spawn_npc-IsCounted n s v
added-IsCounted (pc p) s v = same-IsCounted s _ (ground arith) (ground arith) v
added-IsCounted (projectile p) s v = same-IsCounted s _ (ground arith) (ground arith) v
added-IsCounted (other t) s v = v

removed-IsCounted :
    (o : SpawnObject) (s : SpawnSystem)
    → IsStored o s
    → IsCounted s
    → IsCounted (on_game_object_removed o s)
unfolding on_game_object_removed
removed-IsCounted (npc n) s st v = despawn_npc-IsCounted n s st v
removed-IsCounted (pc p) s st v = same-IsCounted s _ (ground arith) (ground arith) v
removed-IsCounted (projectile p) s st v = same-IsCounted s _ (ground arith) (ground arith) v
removed-IsCounted (other t) s st v = v

-- If each spawner's count is the number of its npcs in the table, and each npc stands under its own id
-- once, then this is so after any object is added, after any list of npcs is spawned, and after an object
-- is removed that is the one under its id or has no entry.
pub spawn_system-IsCounted :
    (o : SpawnObject) (ns : List Npc) (s : SpawnSystem)
    → IsStored o s
    → IsCounted s
    → IsCounted (on_game_object_added o s)
      × IsCounted (on_game_object_removed o s)
      × IsCounted (spawn_npcs ns s).2
spawn_system-IsCounted o ns s st v =
    let e = spawn_npcs-npcs ns s in
    (
      added-IsCounted o s v,
      removed-IsCounted o s st v,
      same-IsCounted (take_npcs ns s).1 (spawn_npcs ns s).2 e.0 e.1 (take_npcs-IsCounted ns s v),
    )
