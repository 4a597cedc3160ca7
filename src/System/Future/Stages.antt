-- ===== src/System/Future/Stages.antt =====
-- Chains of stages: which functions run, on what.
use server.Base.{some, none, ◌≡◌, refl, ◌∙◌, List, [], ◌∷◌, Option}
use server.System.Future.{
  Exception, actor_null, standard, foreign, Handler, after_handler, Variant, result, exception,
  Returned, returned, thrown, FutureState, no_callback, when_result, when_result_and_post, Exit,
  finished, terminated, System, catch_exception, destroy_with, destroy, result_, set_result,
  future_state,
}

-- `future.THEN(f).Catch(h).THEN(g)...`: of each stage the function and the handler that Catch gave.
abbrev pub Stage : Type 0 → Type 0 → Type 0 → Type 0
Stage V E S = (V → S → Returned V E S) × Option (Handler E S)

module _ {V : Type 0} {E : Type 0} {A : Type 0} {S : Type 0} (init : V) where
  unfoldable pub chain : List (Stage V E S) → FutureState V E A S
  unfolding future_state
  chain [] = future_state init
  chain (x ∷ xs) = when_result (result init) x.1 x.0 (chain xs)

-- What is to be expected of the functions: each gets what the one before returned, and the program ends if one
-- throws.
module _ {V : Type 0} {E : Type 0} {A : Type 0} {S : Type 0} where
  unfoldable pub run_all : List (Stage V E S) → V → S → Exit V E A S
  run_all [] v s = finished s
  run_all (x ∷ xs) v s = elim (x.0 v s) [
    | returned v' s' ↦ run_all xs v' s'
    | thrown e s' ↦ terminated
  ]

module _ {V : Type 0} {E : Type 0} {A : Type 0} {S : Type 0} (sys : System V E A S) where
  -- The result that is set last is the one that counts.
  destroy-set_result :
      (x : Variant V E) (t : FutureState V E A S) (s : S)
      → destroy sys (set_result x t) s ≡ destroy_with sys x t s
  unfolding destroy set_result
  destroy-set_result (result v) (no_callback r c) s = refl
  destroy-set_result (exception e) (no_callback r c) s = refl
  destroy-set_result (result v) (when_result r c f t) s = refl
  destroy-set_result (exception e) (when_result r c f t) s = refl
  destroy-set_result (result v) (when_result_and_post r c f t) s = refl
  destroy-set_result (exception e) (when_result_and_post r c f t) s = refl

module _ {V : Type 0} {E : Type 0} {A : Type 0} {S : Type 0} (sys : System V E A S) (init : V) where
  result_-chain : (xs : List (Stage V E S)) → result_ (chain {A = A} init xs) ≡ result init
  unfolding chain result_
  result_-chain [] = refl
  result_-chain (x ∷ xs) = refl

  destroy_with-result :
      (xs : List (Stage V E S)) (v : V) (s : S)
      → destroy_with sys (result v) (chain init xs) s ≡ run_all xs v s
  unfolding chain destroy_with run_all
  destroy_with-result [] v s = refl
  destroy_with-result (x ∷ xs) v s =
      elim (x.0 v s)
        as (λ r.
          ◌≡◌ {A = Exit V E A S}
            (elim r [
              | returned v' s' ↦ destroy_with sys (result v') (chain init xs) s'
              | thrown e s' ↦ terminated
            ])
            (elim r [ returned v' s' ↦ run_all xs v' s' | thrown e s' ↦ terminated ])) [
              | returned v' s' ↦ destroy_with-result xs v' s'
              | thrown e s' ↦ refl
            ]

  destroy-abandoned :
      (xs : List (Stage V E S)) (s : S) → destroy sys (chain init xs) s ≡ run_all xs init s
  unfolding destroy
  destroy-abandoned xs s = rw (result_-chain xs) (destroy_with-result xs init s)

  destroy-exception :
      (x : Stage V E S) (xs : List (Stage V E S)) (e : Exception E) (s : S)
      → destroy sys (set_result (exception e) (chain init (x ∷ xs))) s
        ≡ after_handler (λ s'. run_all xs init s') (catch_exception sys x.1 e s)
  unfolding destroy set_result destroy_with chain
  destroy-exception x xs e s = same_after (catch_exception sys x.1 e s)
    where
      same_after :
          (o : Option S)
          → after_handler (λ s'. destroy sys (chain init xs) s') o
            ≡ after_handler (λ s'. run_all xs init s') o
      same_after none = refl
      same_after (some s') = destroy-abandoned xs s'

  -- A chain whose future has a result runs its functions in order, each on what the one before returned, and
  -- so do all functions, from a value without initialiser on, if the future goes with no result at all. After
  -- a std::exception the first stage's handler runs on it, and then the later stages, but not the first, run
  -- on a value without initialiser; if the handler throws, the process ends. With no handler another exception
  -- than ActorNullException is logged, that one is not, and the later stages run in the same way. After a
  -- thrown value of another type the process ends.
  pub destroy-chain :
      (f : V → S → Returned V E S) (h : Handler E S) (xs : List (Stage V E S)) (v : V) (e : E)
      (c : Option (Handler E S)) (s : S)
      → let after = λ (c : Option (Handler E S)) (e : Exception E).
        destroy sys (set_result (exception e) (chain init ((f, c) ∷ xs))) s in
        (destroy sys (set_result (result v) (chain init xs)) s ≡ run_all xs v s)
        × (destroy sys (chain init xs) s ≡ run_all xs init s)
        × (after (some h) (standard e)
            ≡ after_handler (λ s'. run_all xs init s') (h (standard e) s))
        × (after (some h) actor_null ≡ after_handler (λ s'. run_all xs init s') (h actor_null s))
        × (after none (standard e) ≡ run_all xs init (sys.log_error e s))
        × (after none actor_null ≡ run_all xs init s)
        × (after c foreign ≡ terminated)
  unfolding catch_exception
  destroy-chain f h xs v e c s = (
    destroy-set_result sys (result v) (chain init xs) s ∙ destroy_with-result xs v s,
    destroy-abandoned xs s,
    destroy-exception (f, some h) xs (standard e) s,
    destroy-exception (f, some h) xs actor_null s,
    destroy-exception (f, none) xs (standard e) s,
    destroy-exception (f, none) xs actor_null s,
    destroy-exception (f, c) xs foreign s,
  )
