-- ===== src/System/Future.antt =====
-- Futures and what runs when they complete: Source/Core/System/FutureState.h, Future.h, FutureController.hpp,
-- Thenable.h and .hpp, and AsyncMessage of Actor.hpp. A state runs its callback when it is destroyed, that
-- is when the last shared pointer to it goes: nothing else than `func_` and the state of the next stage is
-- owned by a callback, so that the states of a chain form one value. Results of all stages are in one type V,
-- whose value without initialiser is `init`; S is the state of the program.
pub mod Stages
pub mod Schedules
mod Tests
use server.Base.{ℕ, suc, Bool, true, false, Option, some, none, if◌then◌else◌}

-- What is thrown: an ActorNullException, another std::exception, or a value of any other type.
pub data Exception (E : Type 0) : Type 0 where
  actor_null : Exception E
  standard : E → Exception E
  foreign : Exception E

-- What Catch is given; none if it throws itself.
abbrev pub Handler : Type 0 → Type 0 → Type 0
Handler E S = Exception E → S → Option S

-- `std::variant<T, std::exception_ptr>`
pub data Variant (V E : Type 0) : Type 0 where
  result : V → Variant V E
  exception : Exception E → Variant V E

-- How a call of `func_` ends.
pub data Returned (V E S : Type 0) : Type 0 where
  returned : V → S → Returned V E S
  thrown : Exception E → S → Returned V E S

-- `FutureState`: `result_` and `exception_callback_`, and by the kind of `callback_` its `func_` and the
-- state that it completes: none, WhenResult or WhenResultAndPost.
pub data FutureState (V E A S : Type 0) : Type 0 where
  no_callback : Variant V E → Option (Handler E S) → FutureState V E A S
  when_result :
      Variant V E
      → Option (Handler E S)
      → (V → S → Returned V E S)
      → FutureState V E A S
      → FutureState V E A S
  when_result_and_post :
      Variant V E
      → Option (Handler E S)
      → (A → S → Returned V E S)
      → FutureState V E A S
      → FutureState V E A S

-- What a destruction comes to: it ends; it ends with a message posted to an actor that is still to run; or an
-- exception leaves a destructor, which ends the process.
pub data Exit (V E A S : Type 0) : Type 0 where
  finished : S → Exit V E A S
  posted : A → (A → S → Returned V E S) → FutureState V E A S → S → Exit V E A S
  terminated : Exit V E A S

module _ {V : Type 0} {E : Type 0} {A : Type 0} {S : Type 0} where
  unfoldable pub result_ : FutureState V E A S → Variant V E
  result_ (no_callback r c) = r
  result_ (when_result r c f t) = r
  result_ (when_result_and_post r c f t) = r

  -- `SetResult` and `SetException`
  unfoldable pub set_result : Variant V E → FutureState V E A S → FutureState V E A S
  set_result x (no_callback r c) = no_callback x c
  set_result x (when_result r c f t) = when_result x c f t
  set_result x (when_result_and_post r c f t) = when_result_and_post x c f t

  -- `Catch`: of the parent's state.
  unfoldable pub set_exception_callback : Handler E S → FutureState V E A S → FutureState V E A S
  set_exception_callback h (no_callback r c) = no_callback r (some h)
  set_exception_callback h (when_result r c f t) = when_result r (some h) f t
  set_exception_callback h (when_result_and_post r c f t) = when_result_and_post r (some h) f t

-- The state of a new Future or Thenable, in which the variant holds its first alternative.
module _ {V : Type 0} {E : Type 0} {A : Type 0} {S : Type 0} (init : V) where
  unfoldable pub future_state : FutureState V E A S
  future_state = no_callback (result init) none

  -- `Then` and `ThenPost` of a state that has no callback.
  unfoldable pub then_ : (V → S → Returned V E S) → FutureState V E A S → FutureState V E A S
  unfolding future_state
  then_ f (no_callback r c) = when_result r c f future_state
  then_ f t = t

  unfoldable pub then_post : (A → S → Returned V E S) → FutureState V E A S → FutureState V E A S
  unfolding future_state
  then_post f (no_callback r c) = when_result_and_post r c f future_state
  then_post f t = t

-- The system: the actor that a result points to, whether the thread runs in the actor's channel, and what the
-- log makes of an exception.
pub record System (V E A S : Type 0) : Type 0 where
  pub actor : V → Option A
  pub is_synchronized : A → S → Bool
  pub log_error : E → S → S

-- What is left of a handler's call in a destructor: if it throws, the process ends.
abbrev pub after_handler :
    {V : Type 0} {E : Type 0} {A : Type 0} {S : Type 0}
    → (S → Exit V E A S)
    → Option S
    → Exit V E A S
after_handler next none = terminated
after_handler next (some s) = next s

module _ {V : Type 0} {E : Type 0} {A : Type 0} {S : Type 0} (sys : System V E A S) where
  -- `OnExceptionNoThrow`, of an ActorNullException, and `OnException`, of another std::exception.
  on_exception_no_throw : Option (Handler E S) → S → Option S
  on_exception_no_throw none s = some s
  on_exception_no_throw (some h) s = h actor_null s

  on_exception : Option (Handler E S) → E → S → Option S
  on_exception none e s = some (sys.log_error e s)
  on_exception (some h) e s = h (standard e) s

  -- The handlers of the destructor; what none of them catches leaves it.
  unfoldable pub catch_exception : Option (Handler E S) → Exception E → S → Option S
  unfolding on_exception_no_throw on_exception
  catch_exception c actor_null s = on_exception_no_throw c s
  catch_exception c (standard e) s = on_exception c e s
  catch_exception c foreign s = none

  -- The destructor of a state whose variant holds the first argument, its members with it. If the callback
  -- is not run, the state of the next stage goes with it as it is.
  unfoldable pub destroy_with : Variant V E → FutureState V E A S → S → Exit V E A S
  unfolding catch_exception result_
  destroy_with (result v) (no_callback r c) s = finished s
  destroy_with (exception e) (no_callback r c) s =
      after_handler (λ s'. finished s') (catch_exception c e s)
  destroy_with (result v) (when_result r c f t) s = elim (f v s) [
    | returned v' s' ↦ destroy_with (result v') t s'
    | thrown e s' ↦ terminated
  ]
  destroy_with (exception e) (when_result r c f t) s =
      after_handler (λ s'. destroy_with (result_ t) t s') (catch_exception c e s)
  destroy_with (result v) (when_result_and_post r c f t) s = elim (sys.actor v) [
    | none ↦ destroy_with (exception actor_null) t s
    | some a ↦ elim (sys.is_synchronized a s) [
      | false ↦ posted a f t s
      | true ↦ elim (f a s) [
        | returned v' s' ↦ destroy_with (result v') t s'
        | thrown e s' ↦ terminated
      ]
    ]
  ]
  destroy_with (exception e) (when_result_and_post r c f t) s =
      after_handler (λ s'. destroy_with (result_ t) t s') (catch_exception c e s)

  unfoldable pub destroy : FutureState V E A S → S → Exit V E A S
  unfolding destroy_with
  destroy t s = destroy_with (result_ t) t s

  -- `WhenResultAndPostBody`, when the actor runs the message; none if its function throws.
  unfoldable execute_body :
      A → (A → S → Returned V E S) → FutureState V E A S → S → Option (Exit V E A S)
  unfolding destroy_with
  execute_body a f t s = elim (f a s) [
    | returned v' s' ↦ some (destroy_with (result v') t s')
    | thrown e s' ↦ none
  ]

module _ {V : Type 0} {E : Type 0} {A : Type 0} {S : Type 0} where
  -- `AsyncMessage::Execute`, and the same in `FutureFactory::Create`: the result, or what was thrown.
  unfoldable pub execute : (A → S → Returned V E S) → A → S → Variant V E × S
  execute f a s = elim (f a s) [ returned v s' ↦ (result v, s') | thrown e s' ↦ (exception e, s') ]
