-- ===== src/System/Future/Schedules.antt =====
-- The producer and the consumer of a future, which share its state: AsyncMessage runs its function, sets the
-- result and goes; the consumer calls Then and Catch and lets its Future go. The consumer's steps leave the
-- program's state alone. Whether the state itself is touched by both at once is not modelled.
use server.Base.{
  ap, ◌∙◌, ℕ, ◌-◌, ◌==◌, ◌≡◌, refl, if◌then◌else◌, List, [], ◌∷◌, ◌++◌, some, Bool, true, false,
}
use server.System.Future.{
  actor_null, standard, foreign, Handler, after_handler, Variant, result, exception, returned,
  thrown, finished, terminated, catch_exception, Returned, FutureState, when_result, Exit, System,
  destroy_with, destroy, set_result, set_exception_callback, future_state, then_, execute,
}

-- The shared pointer's count, and what came of each destruction, in order.
pub record Shared (V E A S : Type 0) : Type 0 where
  pub state : FutureState V E A S
  pub owners : ℕ
  pub world : S
  pub exits : List (Exit V E A S)

pub data Step (V E A S : Type 0) : Type 0 where
  execute_message : (A → S → Returned V E S) → A → Step V E A S
  call_then : (V → S → Returned V E S) → Step V E A S
  call_catch : Handler E S → Step V E A S
  release : Step V E A S

module _ {V : Type 0} {E : Type 0} {A : Type 0} {S : Type 0} (sys : System V E A S) (init : V) where
  unfoldable pub step : Step V E A S → Shared V E A S → Shared V E A S
  unfolding execute set_result then_ set_exception_callback destroy
  step (execute_message f a) c =
      let (r, s) = execute f a c.world in record c { state = set_result r c.state; world = s }
  step (call_then g) c = record c { state = then_ init g c.state }
  step (call_catch h) c = record c { state = set_exception_callback h c.state }
  step release c =
      if c.owners == 1
      then record c { owners = 0; exits = c.exits ++ destroy sys c.state c.world ∷ [] }
      else record c { owners = c.owners - 1 }

  unfoldable pub run : List (Step V E A S) → Shared V E A S → Shared V E A S
  unfolding step
  run [] c = c
  run (x ∷ xs) c = run xs (step x c)

-- Who goes next, and the other when one has ended.
pub interleave {ℓ} : {X : Type ℓ} → List Bool → List X → List X → List X
interleave bs [] ys = ys
interleave bs (x ∷ xs) [] = x ∷ xs
interleave [] (x ∷ xs) (y ∷ ys) = x ∷ xs ++ y ∷ ys
interleave (true ∷ bs) (x ∷ xs) (y ∷ ys) = x ∷ interleave bs xs (y ∷ ys)
interleave (false ∷ bs) (x ∷ xs) (y ∷ ys) = y ∷ interleave bs (x ∷ xs) ys

module _ {V : Type 0} {E : Type 0} {A : Type 0} {S : Type 0} (sys : System V E A S) (init : V) where
  unfoldable pub shared : S → Shared V E A S
  unfolding future_state
  shared s = record { state = future_state init; owners = 2; world = s; exits = [] }

  interleave-destroy :
      (bs : List Bool) (f : A → S → Returned V E S) (a : A) (g : V → S → Returned V E S)
      (h : Handler E S) (s : S)
      → let (r, s') = execute f a s in
        let producer = execute_message f a ∷ release ∷ [] in
        let consumer = call_then g ∷ call_catch h ∷ release ∷ [] in
        (run sys init (interleave bs producer consumer) (shared s)).exits
        ≡ destroy_with sys r (when_result r (some h) g (future_state init)) s' ∷ []
  unfolding interleave run shared
  interleave-destroy [] f a g h s = refl
  interleave-destroy (true ∷ []) f a g h s = refl
  interleave-destroy (true ∷ true ∷ bs) f a g h s = refl
  interleave-destroy (true ∷ false ∷ []) f a g h s = refl
  interleave-destroy (true ∷ false ∷ true ∷ bs) f a g h s = refl
  interleave-destroy (true ∷ false ∷ false ∷ []) f a g h s = refl
  interleave-destroy (true ∷ false ∷ false ∷ true ∷ bs) f a g h s = refl
  interleave-destroy (true ∷ false ∷ false ∷ false ∷ bs) f a g h s = refl
  interleave-destroy (false ∷ []) f a g h s = refl
  interleave-destroy (false ∷ true ∷ []) f a g h s = refl
  interleave-destroy (false ∷ true ∷ true ∷ bs) f a g h s = refl
  interleave-destroy (false ∷ true ∷ false ∷ []) f a g h s = refl
  interleave-destroy (false ∷ true ∷ false ∷ true ∷ bs) f a g h s = refl
  interleave-destroy (false ∷ true ∷ false ∷ false ∷ bs) f a g h s = refl
  interleave-destroy (false ∷ false ∷ []) f a g h s = refl
  interleave-destroy (false ∷ false ∷ true ∷ []) f a g h s = refl
  interleave-destroy (false ∷ false ∷ true ∷ true ∷ bs) f a g h s = refl
  interleave-destroy (false ∷ false ∷ true ∷ false ∷ bs) f a g h s = refl
  interleave-destroy (false ∷ false ∷ false ∷ bs) f a g h s = refl

-- What is to come of a message and a consumer with a function and a handler.
abbrev pub settled :
    {V : Type 0} {E : Type 0} {A : Type 0} {S : Type 0}
    → (V → S → Returned V E S)
    → Handler E S
    → Returned V E S
    → Exit V E A S
settled g h (returned v s) = elim (g v s) [ returned w s' ↦ finished s' | thrown e s' ↦ terminated ]
settled g h (thrown actor_null s) = after_handler (λ s'. finished s') (h actor_null s)
settled g h (thrown (standard e) s) = after_handler (λ s'. finished s') (h (standard e) s)
settled g h (thrown foreign s) = terminated

module _ {V : Type 0} {E : Type 0} {A : Type 0} {S : Type 0} (sys : System V E A S) (init : V) where
  execute-settled :
      (f : A → S → Returned V E S) (a : A) (g : V → S → Returned V E S) (h : Handler E S) (s : S)
      → destroy_with sys
          (execute f a s).0
          (when_result (execute f a s).0 (some h) g (future_state init))
          (execute f a s).1
        ≡ settled g h (f a s)
  unfolding execute destroy_with future_state catch_exception
  execute-settled f a g h s = by_cases (f a s)
    where
      by_cases :
          (r : Returned V E S)
          → let (x, s') : Variant V E × S = elim r [
            | returned v s' ↦ (result v, s')
            | thrown e s' ↦ (exception e, s')
          ] in
            destroy_with sys x (when_result x (some h) g (future_state init)) s' ≡ settled g h r
      by_cases (returned v s') = refl
      by_cases (thrown actor_null s') = refl
      by_cases (thrown (standard e) s') = refl
      by_cases (thrown foreign s') = refl

  -- However the message and the consumer's three steps interleave, the state is destroyed once, when both
  -- have let go. If the message's function returned, the consumer's function has run on what it returned, and
  -- the process ends if that throws; if it threw a std::exception, the consumer's handler has run on it, and
  -- the process ends if that throws; if it threw a value of another type, the process ends.
  pub interleave-exits :
      (bs : List Bool) (f : A → S → Returned V E S) (a : A) (g : V → S → Returned V E S)
      (h : Handler E S) (s : S)
      → let producer = execute_message f a ∷ release ∷ [] in
        let consumer = call_then g ∷ call_catch h ∷ release ∷ [] in
        (run sys init (interleave bs producer consumer) (shared sys init s)).exits
        ≡ settled g h (f a s) ∷ []
  interleave-exits bs f a g h s =
      interleave-destroy sys init bs f a g h s
      ∙ ap (λ (x : Exit V E A S). x ∷ []) (execute-settled f a g h s)
