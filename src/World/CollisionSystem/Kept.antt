-- ===== src/World/CollisionSystem/Kept.antt =====
-- Which entries of the collision states stay and which are ticked, over a list of components.
use server.Base.{ℕ, ◌≡◌, ◌≢◌, sym, ap, ◌∙◌, List, [], ◌∷◌, none}
use server.World.CollisionSystem.{Objects, States, collision_state, owner_id, is_colliding}
use server.World.CollisionSystem.Pairs.{next_state}

module _ (o : Objects) where
  -- Neither the component nor the id of its owner is among the others.
  abbrev pub IsApart : ℕ → List ℕ → Type 0
  IsApart c [] = Unit
  IsApart c (d ∷ ds) = (c ≢ d) × (owner_id o c ≢ owner_id o d) × IsApart c ds

  abbrev pub AllApart : List ℕ → Type 0
  AllApart [] = Unit
  AllApart (c ∷ cs) = IsApart c cs × AllApart cs

  -- If one of two has no state of the other, nor has the other of it.
  abbrev pub IsMutual : States → ℕ → List ℕ → Type 0
  IsMutual w l [] = Unit
  IsMutual w l (r ∷ rs) =
      (collision_state l (owner_id o r) w ≡ none → collision_state r (owner_id o l) w ≡ none)
      × IsMutual w l rs

  abbrev pub AllMutual : States → List ℕ → Type 0
  AllMutual w [] = Unit
  AllMutual w (l ∷ rs) = IsMutual w l rs × AllMutual w rs

  -- The states of two are as the rule says, from the states before.
  abbrev pub IsTicked : States → States → ℕ → List ℕ → Type 0
  IsTicked w w' l [] = Unit
  IsTicked w w' l (r ∷ rs) =
      (collision_state l (owner_id o r) w'
        ≡ next_state o (is_colliding o l r) (collision_state l (owner_id o r) w))
      × (collision_state r (owner_id o l) w'
          ≡ next_state o (is_colliding o l r) (collision_state r (owner_id o l) w))
      × IsTicked w w' l rs

  abbrev pub AllTicked : States → States → List ℕ → Type 0
  AllTicked w w' [] = Unit
  AllTicked w w' (l ∷ rs) = IsTicked w w' l rs × AllTicked w w' rs

  -- The entries between `l` and the others are the same.
  abbrev pub IsKept : States → States → ℕ → List ℕ → Type 0
  IsKept w w' l [] = Unit
  IsKept w w' l (r ∷ rs) =
      (collision_state l (owner_id o r) w' ≡ collision_state l (owner_id o r) w)
      × (collision_state r (owner_id o l) w' ≡ collision_state r (owner_id o l) w)
      × IsKept w w' l rs

  abbrev pub AllKept : States → States → List ℕ → Type 0
  AllKept w w' [] = Unit
  AllKept w w' (l ∷ rs) = IsKept w w' l rs × AllKept w w' rs

  pub IsMutual-IsKept :
      (w w' : States) (l : ℕ) (rs : List ℕ) → IsKept w w' l rs → IsMutual w l rs → IsMutual w' l rs
  IsMutual-IsKept w w' l [] k m = tt
  IsMutual-IsKept w w' l (r ∷ rs) k m =
      (λ e. k.1 ∙ m.0 (sym k.0 ∙ e), IsMutual-IsKept w w' l rs k.2 m.1)

  pub AllMutual-AllKept :
      (w w' : States) (rs : List ℕ) → AllKept w w' rs → AllMutual w rs → AllMutual w' rs
  AllMutual-AllKept w w' [] k m = tt
  AllMutual-AllKept w w' (r ∷ rs) k m =
      (IsMutual-IsKept w w' r rs k.0 m.0, AllMutual-AllKept w w' rs k.1 m.1)

  -- What was ticked stays so if the later steps keep it, and what was kept before is ticked from there.
  pub IsTicked-IsKept :
      (w w1 w2 : States) (l : ℕ) (rs : List ℕ)
      → IsTicked w w1 l rs
      → IsKept w1 w2 l rs
      → IsTicked w w2 l rs
  IsTicked-IsKept w w1 w2 l [] t k = tt
  IsTicked-IsKept w w1 w2 l (r ∷ rs) t k =
      (k.0 ∙ t.0, k.1 ∙ t.1, IsTicked-IsKept w w1 w2 l rs t.2 k.2)

  pub IsKept-IsTicked :
      (w w1 w2 : States) (l : ℕ) (rs : List ℕ)
      → IsKept w w1 l rs
      → IsTicked w1 w2 l rs
      → IsTicked w w2 l rs
  IsKept-IsTicked w w1 w2 l [] k t = tt
  IsKept-IsTicked w w1 w2 l (r ∷ rs) k t = (
    t.0 ∙ ap (next_state o (is_colliding o l r)) k.0,
    t.1 ∙ ap (next_state o (is_colliding o l r)) k.1,
    IsKept-IsTicked w w1 w2 l rs k.2 t.2,
  )

  pub AllKept-AllTicked :
      (w w1 w2 : States) (rs : List ℕ) → AllKept w w1 rs → AllTicked w1 w2 rs → AllTicked w w2 rs
  AllKept-AllTicked w w1 w2 [] k t = tt
  AllKept-AllTicked w w1 w2 (r ∷ rs) k t =
      (IsKept-IsTicked w w1 w2 r rs k.0 t.0, AllKept-AllTicked w w1 w2 rs k.1 t.1)

  -- The entry of `x` under `k` is not one between `l` and another, or between any two.
  abbrev pub Avoids : ℕ → ℕ → ℕ → List ℕ → Type 0
  Avoids x k l [] = Unit
  Avoids x k l (r ∷ rs) = (x ≡ l → k ≢ owner_id o r) × (x ≡ r → k ≢ owner_id o l) × Avoids x k l rs

  abbrev pub AvoidsAll : ℕ → ℕ → List ℕ → Type 0
  AvoidsAll x k [] = Unit
  AvoidsAll x k (l ∷ rs) = Avoids x k l rs × AvoidsAll x k rs
