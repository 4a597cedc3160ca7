-- ===== src/World/CollisionSystem/Ticking.antt =====
-- What a tick does to all pairs of components.
use server.Base.{ℕ, ◌≡◌, ◌≢◌, refl, sym, ◌∙◌, List, [], ◌∷◌}
use server.World.CollisionSystem.{
  Objects, States, collision_state, owner_id, is_colliding, tick_pair, tick_row, tick_all,
  with_colliders, on_tick,
}
use server.World.CollisionSystem.Pairs.{
  next_state-none, tick_pair_left, tick_pair_right, tick_pair_other,
}
use server.World.CollisionSystem.Kept.{
  IsApart, AllApart, IsMutual, AllMutual, IsTicked, AllTicked, IsKept, AllKept, IsMutual-IsKept,
  AllMutual-AllKept, IsTicked-IsKept, IsKept-IsTicked, AllKept-AllTicked, Avoids, AvoidsAll,
}

module _ (o : Objects) where
  tick_row_other :
      (l : ℕ) (rs : List ℕ) (w : States) (x k : ℕ)
      → IsApart o l rs
      → Avoids o x k l rs
      → collision_state x k (tick_row o l rs w) ≡ collision_state x k w
  unfolding tick_row
  tick_row_other l [] w x k a v = refl
  tick_row_other l (r ∷ rs) w x k (p, q, a) (u, u', v) =
      tick_row_other l rs (tick_pair o l r w) x k a v ∙ tick_pair_other o l r w p x k u u'

  tick_all_other :
      (cs : List ℕ) (w : States) (x k : ℕ)
      → AllApart o cs
      → AvoidsAll o x k cs
      → collision_state x k (tick_all o cs w) ≡ collision_state x k w
  unfolding tick_all
  tick_all_other [] w x k a v = refl
  tick_all_other (l ∷ rs) w x k a v =
      tick_all_other rs (tick_row o l rs w) x k a.1 v.1 ∙ tick_row_other l rs w x k a.0 v.0

  -- The entries of one component, under ids of others than `l`'s row, and under `l`'s id.
  Avoids-front :
      (l r : ℕ) (rs : List ℕ) → IsApart o r rs → IsApart o l rs → Avoids o l (owner_id o r) l rs
  Avoids-front l r [] b a = tt
  Avoids-front l r (s ∷ rs) (u, v, b) (p, q, a) =
      (λ e. v, λ e. absurd (p e), Avoids-front l r rs b a)

  Avoids-back : (l r : ℕ) (rs : List ℕ) → l ≢ r → IsApart o r rs → Avoids o r (owner_id o l) l rs
  Avoids-back l r [] p b = tt
  Avoids-back l r (s ∷ rs) p (u, v, b) =
      (λ e. absurd (p (sym e)), λ e. absurd (u e), Avoids-back l r rs p b)

  Avoids-others : (l x k : ℕ) (rs : List ℕ) → l ≢ x → owner_id o l ≢ k → Avoids o x k l rs
  Avoids-others l x k [] p q = tt
  Avoids-others l x k (s ∷ rs) p q =
      (λ e. absurd (p (sym e)), λ e f. q (sym f), Avoids-others l x k rs p q)

  Avoids-component : (l x k : ℕ) (rs : List ℕ) → x ≢ l → IsApart o x rs → Avoids o x k l rs
  Avoids-component l x k [] p b = tt
  Avoids-component l x k (s ∷ rs) p (u, v, b) =
      (λ e. absurd (p e), λ e. absurd (u e), Avoids-component l x k rs p b)

  AvoidsAll-component : (x k : ℕ) (rs : List ℕ) → IsApart o x rs → AvoidsAll o x k rs
  AvoidsAll-component x k [] b = tt
  AvoidsAll-component x k (s ∷ rs) (u, v, b) =
      (Avoids-component s x k rs u b, AvoidsAll-component x k rs b)

  Avoids-id :
      (l y x : ℕ) (rs : List ℕ)
      → owner_id o y ≢ owner_id o l
      → IsApart o y rs
      → Avoids o x (owner_id o y) l rs
  Avoids-id l y x [] p b = tt
  Avoids-id l y x (s ∷ rs) p (u, v, b) = (λ e. v, λ e. p, Avoids-id l y x rs p b)

  AvoidsAll-id : (y x : ℕ) (rs : List ℕ) → IsApart o y rs → AvoidsAll o x (owner_id o y) rs
  AvoidsAll-id y x [] b = tt
  AvoidsAll-id y x (s ∷ rs) (u, v, b) = (Avoids-id s y x rs v b, AvoidsAll-id y x rs b)

  tick_pair-IsKept :
      (l r : ℕ) (rs : List ℕ) (w : States)
      → l ≢ r
      → IsApart o l rs
      → IsApart o r rs
      → IsKept o w (tick_pair o l r w) l rs
  tick_pair-IsKept l r [] w p a b = tt
  tick_pair-IsKept l r (s ∷ rs) w p (p', q', a) (u, v, b) = (
    tick_pair_other o l r w p l (owner_id o s) (λ e f. v (sym f)) (λ e. absurd (p e)),
    tick_pair_other o l r w p s (owner_id o l) (λ e. absurd (p' (sym e))) (λ e. absurd (u (sym e))),
    tick_pair-IsKept l r rs w p a b,
  )

  tick_row-IsTicked :
      (l : ℕ) (rs : List ℕ) (w : States)
      → IsApart o l rs
      → AllApart o rs
      → IsMutual o w l rs
      → IsTicked o w (tick_row o l rs w) l rs
  unfolding tick_row
  tick_row-IsTicked l [] w a d m = tt
  tick_row-IsTicked l (r ∷ rs) w (p, q, a) (b, d) m =
      let w' = tick_pair o l r w in
      let k = tick_pair-IsKept l r rs w p a b in
      (
        tick_row_other l rs w' l (owner_id o r) a (Avoids-front l r rs b a)
            ∙ tick_pair_left o l r w p,
        tick_row_other l rs w' r (owner_id o l) a (Avoids-back l r rs p b)
            ∙ tick_pair_right o l r w p m.0,
        IsKept-IsTicked o w w' (tick_row o l rs w') l rs k
            (tick_row-IsTicked l rs w' a d (IsMutual-IsKept o w w' l rs k m.1)),
      )

  tick_row-IsKept :
      (l : ℕ) (rs : List ℕ) (w : States) (s : ℕ) (ts : List ℕ)
      → IsApart o l rs
      → l ≢ s
      → owner_id o l ≢ owner_id o s
      → IsApart o l ts
      → IsKept o w (tick_row o l rs w) s ts
  tick_row-IsKept l rs w s [] a p q b = tt
  tick_row-IsKept l rs w s (t ∷ ts) a p q (u, v, b) = (
    tick_row_other l rs w s (owner_id o t) a (Avoids-others l s (owner_id o t) rs p v),
    tick_row_other l rs w t (owner_id o s) a (Avoids-others l t (owner_id o s) rs u q),
    tick_row-IsKept l rs w s ts a p q b,
  )

  tick_row-AllKept :
      (l : ℕ) (rs : List ℕ) (w : States) (ts : List ℕ)
      → IsApart o l rs
      → IsApart o l ts
      → AllKept o w (tick_row o l rs w) ts
  tick_row-AllKept l rs w [] a b = tt
  tick_row-AllKept l rs w (t ∷ ts) a (u, v, b) =
      (tick_row-IsKept l rs w t ts a u v b, tick_row-AllKept l rs w ts a b)

  tick_all-IsKept :
      (cs : List ℕ) (w : States) (l : ℕ) (rs : List ℕ)
      → AllApart o cs
      → IsApart o l cs
      → IsKept o w (tick_all o cs w) l rs
  tick_all-IsKept cs w l [] d a = tt
  tick_all-IsKept cs w l (r ∷ rs) d a = (
    tick_all_other cs w l (owner_id o r) d (AvoidsAll-component l (owner_id o r) cs a),
    tick_all_other cs w r (owner_id o l) d (AvoidsAll-id l r cs a),
    tick_all-IsKept cs w l rs d a,
  )

  tick_all-AllTicked :
      (cs : List ℕ) (w : States)
      → AllApart o cs
      → AllMutual o w cs
      → AllTicked o w (tick_all o cs w) cs
  unfolding tick_all
  tick_all-AllTicked [] w d m = tt
  tick_all-AllTicked (l ∷ rs) w (a, d) m =
      let w' = tick_row o l rs w in
      let k = tick_row-AllKept l rs w rs a a in
      (
        IsTicked-IsKept o w w' (tick_all o rs w') l rs (tick_row-IsTicked l rs w a d m.0)
            (tick_all-IsKept rs w' l rs d a),
        AllKept-AllTicked o w w' (tick_all o rs w') rs k
            (tick_all-AllTicked rs w' d (AllMutual-AllKept o w w' rs k m.1)),
      )

IsTicked-IsMutual :
    (o : Objects) (w w' : States) (l : ℕ) (rs : List ℕ) → IsTicked o w w' l rs → IsMutual o w' l rs
IsTicked-IsMutual o w w' l [] t = tt
IsTicked-IsMutual o w w' l (r ∷ rs) (p, q, t) = (
  λ e. q ∙ next_state-none o (is_colliding o l r) _ _ (sym p ∙ e),
  IsTicked-IsMutual o w w' l rs t,
)

AllTicked-AllMutual :
    (o : Objects) (w w' : States) (cs : List ℕ) → AllTicked o w w' cs → AllMutual o w' cs
AllTicked-AllMutual o w w' [] t = tt
AllTicked-AllMutual o w w' (l ∷ rs) t =
    (IsTicked-IsMutual o w w' l rs t.0, AllTicked-AllMutual o w w' rs t.1)

-- The components that have colliders are different, with different ids; of two of them, if the one that
-- comes first has no state of the other, nor has the other of it. Then after a tick this is still so, and
-- each of any two has a state of the other exactly if they collide: `enter` if it had none before, else
-- `continue`.
pub on_tick-AllTicked :
    (o : Objects) (table : List (ℕ × ℕ)) (w : States)
    → AllApart o (with_colliders o table)
    → AllMutual o w (with_colliders o table)
    → AllMutual o (on_tick o table w) (with_colliders o table)
      × AllTicked o w (on_tick o table w) (with_colliders o table)
unfolding on_tick
on_tick-AllTicked o table w d m =
    let cs = with_colliders o table in
    let t = tick_all-AllTicked o cs w d m in (AllTicked-AllMutual o w (tick_all o cs w) cs t, t)
