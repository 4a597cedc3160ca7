-- ===== src/World/LobbyGrpc/Calls.antt =====
-- The calls of one method of the lobby's service, AsyncCallDataImpl of LobbyGrpcService.cpp: each is the tag of
-- one operation of gRPC at a time, and Proceed runs when that operation has completed. The handler's future has
-- a result, or an exception whose text the answer carries.
use server.Base.{
  ◌⊎◌, inl, inr, ℕ_discrete, ℕ, zero, suc, ◌+◌, ◌≡◌, refl, ◌∙◌, Bool, true, false, List, [], ◌∷◌,
  ◌++◌, Option, some, none, if◌then◌else◌, arith,
}

-- `CREATE`, `PROCESS`, in which a call waits for a request, and `FINISH`.
pub data AsyncCallStatus : Type 0 where
  create process finish : AsyncCallStatus

-- A call, and whether gRPC has an operation under way of which it is the tag.
abbrev pub Call : Type 0
Call = AsyncCallStatus × Bool

-- What gRPC was asked: to wait for a request, and to send an answer, with OK or with INTERNAL.
pub data Operation (R : Type 0) : Type 0 where
  request : Operation R
  finish_ok : R → Operation R
  finish_internal : R → Operation R

-- A completion that is not `ok`: the loop goes on, and the call stays as it is, with no operation.
unfoldable pub pass_over : ℕ → List Call → List Call
pass_over i [] = []
pass_over zero ((status, b) ∷ cs) = (status, false) ∷ cs
pass_over (suc i) (c ∷ cs) = c ∷ pass_over i cs

module _ {R : Type 0} (new_response : R) where
  answer_of : Option R → Operation R
  answer_of none = finish_internal new_response
  answer_of (some r) = finish_ok r

  -- `Proceed` of the call at a place, where the handler comes to `response`: a new call waits for a request;
  -- of one that has its request the next call is made and waits, and this one's answer is sent; or the call is
  -- deleted. Of a call that is not the tag of an operation there is no completion.
  unfoldable pub proceed :
      ℕ → Option R → List Call × List (Operation R) → List Call × List (Operation R)
  unfolding answer_of
  proceed i response ([], os) = ([], os)
  proceed zero response ((create, b) ∷ cs, os) = ((process, true) ∷ cs, os ++ request ∷ [])
  proceed zero response ((process, true) ∷ cs, os) =
      ((finish, true) ∷ cs ++ (process, true) ∷ [], os ++ request ∷ answer_of response ∷ [])
  proceed zero response ((process, false) ∷ cs, os) = ((process, false) ∷ cs, os)
  proceed zero response ((finish, true) ∷ cs, os) = (cs, os)
  proceed zero response ((finish, false) ∷ cs, os) = ((finish, false) ∷ cs, os)
  proceed (suc i) response (c ∷ cs, os) =
      let (cs', os') = proceed i response (cs, os) in (c ∷ cs', os')

  -- `BeginAccept`: the first call.
  unfoldable pub begin_accept : List Call × List (Operation R)
  unfolding proceed
  begin_accept = proceed 0 none ((create, false) ∷ [], [])

  -- The loop over the completion queue: which call completed, whether it was `ok`, and what its handler comes
  -- to.
  unfoldable pub completions :
      List (ℕ × Bool × Option R) → List Call × List (Operation R) → List Call × List (Operation R)
  unfolding proceed pass_over
  completions [] s = s
  completions ((i, ok, response) ∷ es) s =
      completions es (if ok then proceed i response s else (pass_over i s.0, s.1))

-- The calls that wait for a request, those that would if gRPC had not failed them, and those that have not been
-- started.
unfoldable pub waiting : List Call → ℕ
waiting [] = 0
waiting ((create, b) ∷ cs) = waiting cs
waiting ((process, true) ∷ cs) = waiting cs + 1
waiting ((process, false) ∷ cs) = waiting cs
waiting ((finish, b) ∷ cs) = waiting cs

unfoldable pub lost : List Call → ℕ
lost [] = 0
lost ((create, b) ∷ cs) = lost cs
lost ((process, true) ∷ cs) = lost cs
lost ((process, false) ∷ cs) = lost cs + 1
lost ((finish, b) ∷ cs) = lost cs

created : List Call → ℕ
created [] = 0
created ((create, b) ∷ cs) = created cs + 1
created ((process, b) ∷ cs) = created cs
created ((finish, b) ∷ cs) = created cs

-- A call that waits, put behind the others.
behind :
    (cs : List Call)
    → let ds = cs ++ (process, true) ∷ [] in
      (waiting ds ≡ waiting cs + 1) × (lost ds ≡ lost cs) × (created ds ≡ created cs)
unfolding waiting lost created
behind [] = (refl, refl, refl)
behind ((create, b) ∷ cs) = let (w, l, c) = behind cs in (w, l, omega (arith, c))
behind ((process, true) ∷ cs) = let (w, l, c) = behind cs in (omega (arith, w), l, c)
behind ((process, false) ∷ cs) = let (w, l, c) = behind cs in (w, omega (arith, l), c)
behind ((finish, b) ∷ cs) = behind cs

unfoldable pub requests : {R : Type 0} → List (Operation R) → ℕ
requests [] = 0
requests (request ∷ os) = requests os + 1
requests (finish_ok r ∷ os) = requests os
requests (finish_internal r ∷ os) = requests os

unfoldable pub answers : {R : Type 0} → List (Operation R) → ℕ
answers [] = 0
answers (request ∷ os) = answers os
answers (finish_ok r ∷ os) = answers os + 1
answers (finish_internal r ∷ os) = answers os + 1

requests-append :
    {R : Type 0} (xs ys : List (Operation R)) → requests (xs ++ ys) ≡ requests xs + requests ys
unfolding requests
requests-append [] ys = omega arith
requests-append (request ∷ xs) ys = omega (arith, requests-append xs ys)
requests-append (finish_ok r ∷ xs) ys = requests-append xs ys
requests-append (finish_internal r ∷ xs) ys = requests-append xs ys

answers-append :
    {R : Type 0} (xs ys : List (Operation R)) → answers (xs ++ ys) ≡ answers xs + answers ys
unfolding answers
answers-append [] ys = omega arith
answers-append (request ∷ xs) ys = answers-append xs ys
answers-append (finish_ok r ∷ xs) ys = omega (arith, answers-append xs ys)
answers-append (finish_internal r ∷ xs) ys = omega (arith, answers-append xs ys)

pass_over-Keeps :
    (i : ℕ) (cs : List Call)
    → created cs ≡ 0
    → let ds = pass_over i cs in (waiting ds + lost ds ≡ waiting cs + lost cs) × (created ds ≡ 0)
unfolding pass_over waiting lost created
pass_over-Keeps i [] h = (refl, refl)
pass_over-Keeps i ((create, b) ∷ cs) h = absurd (omega (arith, h))
pass_over-Keeps zero ((process, true) ∷ cs) h = (omega arith, h)
pass_over-Keeps zero ((process, false) ∷ cs) h = (refl, h)
pass_over-Keeps zero ((finish, b) ∷ cs) h = (refl, h)
pass_over-Keeps (suc i) ((process, true) ∷ cs) h =
    let (w, c) = pass_over-Keeps i cs h in (omega (arith, w), c)
pass_over-Keeps (suc i) ((process, false) ∷ cs) h =
    let (w, c) = pass_over-Keeps i cs h in (omega (arith, w), c)
pass_over-Keeps (suc i) ((finish, b) ∷ cs) h = pass_over-Keeps i cs h

module _ {R : Type 0} (new_response : R) where
  -- What every completion keeps of the calls and the operations.
  abbrev IsServing : List Call × List (Operation R) → Type 0
  IsServing (cs, os) =
      (waiting cs + lost cs ≡ 1) × (created cs ≡ 0) × (requests os ≡ answers os + 1)

  -- What becomes of the operations.
  answered :
      (os : List (Operation R)) (a : Operation R)
      → answers (a ∷ []) ≡ 1
      → requests (os ++ request ∷ a ∷ []) + answers os
        ≡ requests os + answers (os ++ request ∷ a ∷ [])
  unfolding requests answers
  answered os request h = absurd (omega arith)
  answered os (finish_ok r) h = omega (
    arith,
    requests-append os (request ∷ finish_ok r ∷ []),
    answers-append os (request ∷ finish_ok r ∷ []),
  )
  answered os (finish_internal r) h = omega (
    arith,
    requests-append os (request ∷ finish_internal r ∷ []),
    answers-append os (request ∷ finish_internal r ∷ []),
  )

  -- What a completion keeps, of any calls that were all started.
  abbrev Keeps : List Call × List (Operation R) → List Call × List (Operation R) → Type 0
  Keeps (cs, os) (cs', os') =
      (waiting cs' + lost cs' ≡ waiting cs + lost cs)
      × (created cs' ≡ 0)
      × (requests os' + answers os ≡ requests os + answers os')

  proceed-Keeps :
      (i : ℕ) (response : Option R) (cs : List Call) (os : List (Operation R))
      → created cs ≡ 0
      → Keeps (cs, os) (proceed new_response i response (cs, os))
  unfolding proceed waiting lost answers created
  proceed-Keeps i response [] os h = (refl, refl, refl)
  proceed-Keeps i response ((create, b) ∷ cs) os h = absurd (omega (arith, h))
  proceed-Keeps zero none ((process, true) ∷ cs) os h =
      let (w, l, c) = behind cs in
      (omega (arith, w, l), c ∙ h, answered os (finish_internal new_response) refl)
  proceed-Keeps zero (some r) ((process, true) ∷ cs) os h =
      let (w, l, c) = behind cs in (omega (arith, w, l), c ∙ h, answered os (finish_ok r) refl)
  proceed-Keeps zero response ((process, false) ∷ cs) os h = (refl, h, refl)
  proceed-Keeps zero response ((finish, true) ∷ cs) os h = (refl, h, refl)
  proceed-Keeps zero response ((finish, false) ∷ cs) os h = (refl, h, refl)
  proceed-Keeps (suc i) response ((process, true) ∷ cs) os h =
      let (w, c, a) = proceed-Keeps i response cs os h in (omega (arith, w), c, a)
  proceed-Keeps (suc i) response ((process, false) ∷ cs) os h =
      let (w, c, a) = proceed-Keeps i response cs os h in (omega (arith, w), c, a)
  proceed-Keeps (suc i) response ((finish, b) ∷ cs) os h = proceed-Keeps i response cs os h

  completions-IsServing :
      (es : List (ℕ × Bool × Option R)) (s : List Call × List (Operation R))
      → IsServing s
      → IsServing (completions new_response es s)
  unfolding completions
  completions-IsServing [] s h = h
  completions-IsServing ((i, true, response) ∷ es) s h =
      completions-IsServing es (proceed new_response i response s) (
        let (w, c, a) = proceed-Keeps i response s.0 s.1 h.1 in (w ∙ h.0, c, omega (arith, a, h.2)))
  completions-IsServing ((i, false, response) ∷ es) s h =
      completions-IsServing es (pass_over i s.0, s.1)
        (let (w, c) = pass_over-Keeps i s.0 h.1 in (w ∙ h.0, c, h.2))

  -- Whatever completes, in whatever order, there was asked for one request more than answers were sent; and
  -- either one call of the method waits for a request, or none does and there is one whose completion was not
  -- ok when it waited.
  pub completions-begin_accept :
      (es : List (ℕ × Bool × Option R))
      → let (cs, os) = completions new_response es (begin_accept new_response) in
        (requests os ≡ answers os + 1)
        × (((waiting cs ≡ 1) × (lost cs ≡ 0)) ⊎ ((waiting cs ≡ 0) × (lost cs ≡ 1)))
  unfolding begin_accept waiting lost requests answers created
  completions-begin_accept es =
      let (w, c, r) = completions-IsServing es (begin_accept new_response) (refl, refl, refl) in
      let cs = (completions new_response es (begin_accept new_response)).0 in
      (
        r,
        elim (ℕ_discrete (waiting cs) 0) [
          | yes e ↦ inr (e, omega (arith, w, e))
          | no e ↦ inl (omega (arith, w, e), omega (arith, w, e))
        ],
      )
