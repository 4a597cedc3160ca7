-- ===== src/World/Session/Spawning/Hits.antt =====
-- An npc that a projectile hits.
use server.Base.{
  ℕ, zero, suc, ◌-◌, ◌*◌, ◌≡◌, ◌≢◌, ◌<◌, ◌≤◌, List, [], ◌∷◌, arith, inl, inr, Bool-cases, leb,
}
use server.World.SpawnSystem.{Projectile}
use server.World.Session.Spawning.{Arena, remove_id, hit_object}

-- The id is not among the section's objects.
abbrev pub IsGone : ℕ → List ℕ → Type 0
IsGone k [] = Unit
IsGone k (x ∷ xs) = (x ≢ k) × IsGone k xs

-- The same posted hit, run `k` times.
pub hits : ℕ → Projectile → ℕ → Arena → Arena
unfolding hit_object
hits zero p id a = a
hits (suc k) p id a = hits k p id (hit_object p id a)

remove_id-IsGone : (k : ℕ) (xs : List ℕ) → IsGone k (remove_id k xs)
unfolding remove_id
remove_id-IsGone k [] = tt
remove_id-IsGone k (x ∷ xs) = ground (arith, remove_id-IsGone k xs)

remove_id-kept : (j k : ℕ) (xs : List ℕ) → IsGone j xs → IsGone j (remove_id k xs)
unfolding remove_id
remove_id-kept j k [] h = tt
remove_id-kept j k (x ∷ xs) h = ground (arith, remove_id-kept j k xs h.1)

hit_object-hp :
    (p : Projectile) (id : ℕ) (a : Arena) → (hit_object p id a).hp id ≡ a.hp id - p.damage
unfolding hit_object
hit_object-hp p id a = ground arith

hit_object-IsGone :
    (p : Projectile) (id : ℕ) (a : Arena)
    → p.object_id ≢ 0
    → IsGone p.object_id (hit_object p id a).game_objects
unfolding hit_object
hit_object-IsGone p id a ne =
    let r = remove_id-IsGone p.object_id a.game_objects in
    ground (arith, r, remove_id-kept p.object_id id (remove_id p.object_id a.game_objects) r)

hit_object-kept :
    (p : Projectile) (id k : ℕ) (a : Arena)
    → IsGone k a.game_objects
    → IsGone k (hit_object p id a).game_objects
unfolding hit_object
hit_object-kept p id k a h =
    let r = remove_id-kept k p.object_id a.game_objects h in
    ground (
      arith,
      r,
      remove_id-kept k id (remove_id p.object_id a.game_objects) r,
      remove_id-kept k id a.game_objects h,
    )

hit_object-dead :
    (p : Projectile) (id : ℕ) (a : Arena)
    → id ≢ 0
    → a.hp id ≤ p.damage
    → IsGone id (hit_object p id a).game_objects
unfolding hit_object
hit_object-dead p id a ne le = ground (
  arith,
  remove_id-IsGone id (remove_id p.object_id a.game_objects),
  remove_id-IsGone id a.game_objects,
)

hits-stays :
    (k : ℕ) (p : Projectile) (id j : ℕ) (a : Arena)
    → IsGone j a.game_objects
    → IsGone j (hits k p id a).game_objects
unfolding hits
hits-stays zero p id j a h = h
hits-stays (suc k) p id j a h = hits-stays k p id j (hit_object p id a) (hit_object-kept p id j a h)

hits-hp :
    (k : ℕ) (p : Projectile) (id : ℕ) (a : Arena) → (hits k p id a).hp id ≡ a.hp id - k * p.damage
unfolding hits
hits-hp zero p id a = ground arith
hits-hp (suc k) p id a = ground (arith, hits-hp k p id (hit_object p id a), hit_object-hp p id a)

hits-dead :
    (k : ℕ) (p : Projectile) (id : ℕ) (a : Arena)
    → id ≢ 0
    → a.hp id ≤ k * p.damage
    → 0 < k
    → IsGone id (hits k p id a).game_objects
unfolding hits
hits-dead zero p id a ne le h = absurd (omega arith)
hits-dead (suc zero) p id a ne le h = hit_object-dead p id a ne (ground arith)
hits-dead (suc (suc k)) p id a ne le h = elim (Bool-cases (leb (a.hp id) p.damage)) [
  | inl e ↦
      hits-stays (suc k) p id id (hit_object p id a) (hit_object-dead p id a ne (ground arith))
  | inr e ↦
      hits-dead (suc k) p id (hit_object p id a) ne (ground (arith, hit_object-hp p id a))
        (omega arith)
]

-- A hit that is posted more than once, as it is if requests come before the projectile has gone, takes the
-- projectile out of the section once but does its damage each time; the npc is out as soon as the damage of
-- all is not less than its `hp`.
pub hits_lem :
    (k : ℕ) (p : Projectile) (id : ℕ) (a : Arena)
    → p.object_id ≢ 0
    → id ≢ 0
    → let a' = hits (suc k) p id a in
      (a'.hp id ≡ a.hp id - suc k * p.damage)
      × IsGone p.object_id a'.game_objects
      × (a.hp id ≤ suc k * p.damage → IsGone id a'.game_objects)
unfolding hits
hits_lem k p id a np ni = (
  hits-hp (suc k) p id a,
  hits-stays k p id p.object_id (hit_object p id a) (hit_object-IsGone p id a np),
  λ le. hits-dead (suc k) p id a ni le (omega arith),
)
