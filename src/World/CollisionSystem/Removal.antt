-- ===== src/World/CollisionSystem/Removal.antt =====
-- What the removal of an object does to the collision states.
use server.Base.{
  ℕ, ◌≡◌, ◌≢◌, refl, sym, ap, subst, ◌∙◌, List, [], ◌∷◌, ◌++◌, some, none, arith, ◌⊎◌, inl, inr,
  if◌then◌else◌, ◌==◌, ◌&&◌, lookup, remove_key, eq→==, lookup-remove_key,
}
use server.World.CollisionSystem.{
  leave, Objects, States, collision_state, remove_collision_state, set_collision_state, leave_all,
  on_game_object_removed,
}
use server.World.CollisionSystem.Pairs.{collision_state-remove, collision_state-set}

module _ (o : Objects) (object : ℕ) where
  -- None of the components belongs to the object.
  abbrev AllOthers : List (ℕ × ℕ) → Type 0
  AllOthers [] = Unit
  AllOthers (e ∷ es) = (o.owner e.1 ≢ object) × AllOthers es

  -- The component is none of these.
  abbrev IsNoneOf : ℕ → List (ℕ × ℕ) → Type 0
  IsNoneOf x [] = Unit
  IsNoneOf x (e ∷ es) = (x ≢ e.1) × IsNoneOf x es

  -- None of the components has a state of the object.
  abbrev AllCleared : States → List (ℕ × ℕ) → Type 0
  AllCleared w [] = Unit
  AllCleared w (e ∷ es) = (collision_state e.1 (o.object_id object) w ≡ none) × AllCleared w es

  abbrev step : ℕ → ℕ → States → States
  step c other w =
      let id = o.object_id object in
      elim (collision_state c id w) [
        | none ↦ w
        | some st ↦ remove_collision_state c id (set_collision_state o c id other leave w)
      ]

  step_lem :
      (x k c other : ℕ) (w : States)
      → collision_state x k (step c other w)
        ≡ (if (c == x) && (o.object_id object == k) then none else collision_state x k w)
  step_lem x k c other w =
      let id = o.object_id object in
      ground (
        arith,
        collision_state-remove x k c id (set_collision_state o c id other leave w),
        collision_state-set o x k c id other leave w,
      )

  -- The loop clears the components in front of the object's, and leaves all other entries.
  leave_all_other :
      (other : ℕ) (before : List (ℕ × ℕ)) (e : ℕ × ℕ) (after : List (ℕ × ℕ)) (w : States) (x k : ℕ)
      → o.owner e.1 ≡ object
      → IsNoneOf x before ⊎ (k ≢ o.object_id object)
      → collision_state x k (leave_all o object other (before ++ e ∷ after) w)
        ≡ collision_state x k w
  unfolding leave_all
  leave_all_other other [] e after w x k own n = ground arith
  leave_all_other other (b ∷ before) e after w x k own (inl n) = ground (
    arith,
    leave_all_other other before e after (step b.1 other w) x k own (inl n.1),
    step_lem x k b.1 other w,
  )
  leave_all_other other (b ∷ before) e after w x k own (inr n) = ground (
    arith,
    leave_all_other other before e after (step b.1 other w) x k own (inr n),
    step_lem x k b.1 other w,
  )

  leave_all-none :
      (other : ℕ) (es : List (ℕ × ℕ)) (w : States) (x : ℕ)
      → collision_state x (o.object_id object) w ≡ none
      → collision_state x (o.object_id object) (leave_all o object other es w) ≡ none
  unfolding leave_all
  leave_all-none other [] w x h = h
  leave_all-none other (b ∷ es) w x h = ground (
    arith,
    leave_all-none other es (step b.1 other w) x,
    step_lem x (o.object_id object) b.1 other w,
  )

  leave_all-AllCleared :
      (other : ℕ) (before : List (ℕ × ℕ)) (e : ℕ × ℕ) (after : List (ℕ × ℕ)) (w : States)
      → AllOthers before
      → AllCleared (leave_all o object other (before ++ e ∷ after) w) before
  unfolding leave_all
  leave_all-AllCleared other [] e after w a = tt
  leave_all-AllCleared other (b ∷ before) e after w a =
      let id = o.object_id object in
      let none_left : collision_state b.1 id (step b.1 other w) ≡ none =
        ground (arith, step_lem b.1 id b.1 other w) in
      let next : leave_all o object other (b ∷ (before ++ e ∷ after)) w
          ≡ leave_all o object other (before ++ e ∷ after) (step b.1 other w) =
        ground arith in
      subst (λ v. AllCleared v (b ∷ before)) (sym next)
        (
          leave_all-none other (before ++ e ∷ after) (step b.1 other w) b.1 none_left,
          leave_all-AllCleared other before e after (step b.1 other w) a.1,
        )

-- When an object that is in the table is removed, its entry goes, and the components in front of it lose
-- their state of it. Every other entry stays as it was: the components behind it still have a state of an
-- object that is gone, and so has the object's own component of them.
on_game_object_removed-states :
    (o : Objects) (object c : ℕ) (before after : List (ℕ × ℕ)) (e : ℕ × ℕ) (w : States)
    → AllOthers o object before
    → o.owner e.1 ≡ object
    → lookup (o.object_id object) (before ++ e ∷ after) ≡ some c
    → let r = on_game_object_removed o object (before ++ e ∷ after) w in
      (lookup (o.object_id object) r.0 ≡ none)
      × AllCleared o object r.1 before
      × ((x k : ℕ)
          → IsNoneOf o object x before ⊎ (k ≢ o.object_id object)
          → collision_state x k r.1 ≡ collision_state x k w)
unfolding on_game_object_removed
on_game_object_removed-states o object c before after e w a own found =
    let id = o.object_id object in
    let table = before ++ e ∷ after in
    let gone : lookup id (remove_key id table) ≡ none =
      lookup-remove_key id id table
      ∙ ap (λ b. if b then none else lookup id table) (eq→== id id refl) in
    rw (found, on_game_object_removed)
      (
        gone,
        leave_all-AllCleared o object c before e after w a,
        λ x k n. leave_all_other o object c before e after w x k own n,
      )
