-- ===== src/System/Future/Tests.antt =====
-- Chains of two stages on numbers; the state lists what was
-- noted.
use server.Base.{
  Option, ℕ, ◌+◌, ◌==◌, ◌≡◌, refl, if◌then◌else◌, List, [], ◌∷◌, some, none, true, false,
}
use server.System.Future.{
  Exception, actor_null, standard, foreign, Handler, after_handler, terminated, result, exception,
  Returned, returned, finished, System, destroy, set_result, future_state, then_post,
}
use server.System.Future.Stages.{Stage, chain, run_all, destroy-chain}
use server.System.Future.Schedules.{
  run, execute_message, call_then, call_catch, release, interleave, shared, settled,
  interleave-exits,
}

abbrev notes : System ℕ ℕ ℕ (List ℕ)
notes = record {
  actor = λ v. if v == 0 then none else some v;
  is_synchronized = λ a s. false;
  log_error = λ e s. e ∷ s;
}

abbrev note : ℕ → List ℕ → Returned ℕ ℕ (List ℕ)
note v s = returned (v + 1) (v ∷ s)

abbrev more : Handler ℕ (List ℕ)
more e s = elim e [ actor_null ↦ none | standard n ↦ some ((n + 100) ∷ s) | foreign ↦ none ]

abbrev stages : List (Stage ℕ ℕ (List ℕ))
stages = (note, some more) ∷ (note, none) ∷ []

destroy-chain_example :
    let after = λ (c : Option (Handler ℕ (List ℕ))) (e : Exception ℕ).
      destroy notes (set_result (exception e) (chain 0 ((note, c) ∷ stages))) [] in
    (destroy notes (set_result (result 5) (chain 0 stages)) [] ≡ run_all stages 5 [])
    × (destroy notes (chain 0 stages) [] ≡ run_all stages 0 [])
    × (after (some more) (standard 7)
        ≡ after_handler (λ s'. run_all stages 0 s') (more (standard 7) []))
    × (after (some more) actor_null
        ≡ after_handler (λ s'. run_all stages 0 s') (more actor_null []))
    × (after none (standard 7) ≡ run_all stages 0 (7 ∷ []))
    × (after none actor_null ≡ run_all stages 0 [])
    × (after none foreign ≡ terminated)
destroy-chain_example = destroy-chain notes 0 note more stages 5 7 none []

both_run : destroy notes (set_result (result 5) (chain 0 stages)) [] ≡ finished (6 ∷ 5 ∷ [])
unfolding destroy set_result chain
both_run = refl

-- The second stage runs on 0 although the first threw.
second_runs :
    destroy notes (set_result (exception (standard 7)) (chain 0 stages)) []
    ≡ finished (0 ∷ 107 ∷ [])
unfolding destroy set_result chain
second_runs = refl

-- A null pointer posts nothing; else the message is left for the actor.
null_actor : destroy notes (then_post 0 note (future_state 0)) [] ≡ finished []
unfolding destroy then_post future_state
null_actor = refl

interleave-exits_example :
    (run notes 0
      (interleave
        (true ∷ false ∷ true ∷ [])
        (execute_message note 4 ∷ release ∷ [])
        (call_then note ∷ call_catch more ∷ release ∷ []))
      (shared notes 0 [])).exits
    ≡ settled note more (note 4 []) ∷ []
interleave-exits_example = interleave-exits notes 0 (true ∷ false ∷ true ∷ []) note 4 note more []
