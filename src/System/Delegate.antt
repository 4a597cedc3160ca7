-- ===== src/System/Delegate.antt =====
-- The delegates of Source/Core/System/Delegate.h. A callback acts on a state `S` of the program; `alive`
-- says whether an object that a weak pointer names still exists in it, and a Callback* is a number. A
-- callback that changes the delegate that is running it is left out, as is Execute with no callback,
-- which has no defined result.
mod Tests
use server.Base.{
  ℕ, ◌≡◌, refl, Bool, true, false, List, [], ◌∷◌, ◌++◌, length, Option, some, none, if◌then◌else◌,
  ◌==◌, eq→==, length-append, arith,
}

-- A function, and the member functions that WeakLambda and StrongLambda call on their owner.
pub data Callback (A S : Type 0) : Type 0 where
  function : (A → S → S) → Callback A S
  weak_lambda : ℕ → (ℕ → A → S → S) → Callback A S
  strong_lambda : Option ℕ → (ℕ → A → S → S) → Callback A S

module _ {A : Type 0} {S : Type 0} (alive : ℕ → S → Bool) where
  call : Callback A S → A → S → S
  call (function f) args s = f args s
  call (weak_lambda owner inner_invocable) args s =
      if alive owner s then inner_invocable owner args s else s
  call (strong_lambda none inner_invocable) args s = s
  call (strong_lambda (some owner) inner_invocable) args s = inner_invocable owner args s

  -- `ExecuteIfBound`
  unfoldable execute_if_bound : Option (Callback A S) → A → S → S
  unfolding call
  execute_if_bound none args s = s
  execute_if_bound (some c) args s = call c args s

  unfoldable pub broadcast : List (ℕ × Callback A S) → A → S → S
  unfolding call
  broadcast [] args s = s
  broadcast (c ∷ callbacks) args s = broadcast callbacks args (call c.1 args s)

module _ {A : Type 0} {S : Type 0} where
  -- `BindFunction`, `BindWeak` and `BindSP` of a MulticastDelegate; `p` is where `new` puts the callback.
  bind : ℕ → Callback A S → List (ℕ × Callback A S) → ℕ × List (ℕ × Callback A S)
  bind p c callbacks = (p, callbacks ++ (p, c) ∷ [])

  remove_if : ℕ → List (ℕ × Callback A S) → List (ℕ × Callback A S)
  remove_if p [] = []
  remove_if p (c ∷ callbacks) =
      let rest = remove_if p callbacks in if c.0 == p then rest else c ∷ rest

  -- `Remove`: the new end is the old one if nothing was removed.
  unfoldable pub remove : ℕ → List (ℕ × Callback A S) → Bool × List (ℕ × Callback A S)
  unfolding remove_if
  remove p callbacks =
      let kept = remove_if p callbacks in
      if length kept == length callbacks then (false, callbacks) else (true, kept)

  -- No callback is at `p`.
  IsFree : ℕ → List (ℕ × Callback A S) → Type 0
  IsFree p callbacks = remove_if p callbacks ≡ callbacks

  remove_if-append :
      (p : ℕ) (xs ys : List (ℕ × Callback A S))
      → remove_if p (xs ++ ys) ≡ remove_if p xs ++ remove_if p ys
  unfolding remove_if
  remove_if-append p [] ys = refl
  remove_if-append p (x ∷ xs) ys = ground (arith, remove_if-append p xs ys)

  remove_if-between :
      (p : ℕ) (c : Callback A S) (xs ys : List (ℕ × Callback A S))
      → IsFree p xs
      → IsFree p ys
      → remove_if p (xs ++ (p, c) ∷ ys) ≡ xs ++ ys
  unfolding IsFree remove_if
  remove_if-between p c xs ys hx hy =
      rw (remove_if-append p xs ((p, c) ∷ ys), hx, eq→== p p refl, hy) refl

  length-between :
      (x : ℕ × Callback A S) (xs ys : List (ℕ × Callback A S))
      → (length (xs ++ ys) == length (xs ++ x ∷ ys)) ≡ false
  length-between x xs ys = rw (length-append xs ys, length-append xs (x ∷ ys)) ground arith

module _ {A : Type 0} {S : Type 0} (alive : ℕ → S → Bool) where
  broadcast-append :
      (xs ys : List (ℕ × Callback A S)) (args : A) (s : S)
      → broadcast alive (xs ++ ys) args s ≡ broadcast alive ys args (broadcast alive xs args s)
  unfolding broadcast
  broadcast-append [] ys args s = refl
  broadcast-append (x ∷ xs) ys args s = broadcast-append xs ys args (call alive x.1 args s)

  -- If a callback is the only one at its place, Broadcast calls it between those before and behind
  -- it, in order; Remove takes out it alone and returns true, and a second Remove returns false.
  -- Afterwards Broadcast calls the others, in order.
  broadcast-remove :
      (p : ℕ) (c : Callback A S) (xs ys : List (ℕ × Callback A S))
      → IsFree p xs
      → IsFree p ys
      → (remove p (xs ++ (p, c) ∷ ys) ≡ (true, xs ++ ys))
        × (remove p (xs ++ ys) ≡ (false, xs ++ ys))
        × ((args : A) (s : S)
            → let s' = broadcast alive xs args s in
              (broadcast alive (xs ++ (p, c) ∷ ys) args s
                ≡ broadcast alive ys args (call alive c args s'))
              × (broadcast alive (xs ++ ys) args s ≡ broadcast alive ys args s'))
  unfolding remove IsFree broadcast
  broadcast-remove p c xs ys hx hy = (
    rw (remove_if-between p c xs ys hx hy, length-between (p, c) xs ys) refl,
    rw (remove_if-append p xs ys, hx, hy, eq→== (length (xs ++ ys)) (length (xs ++ ys)) refl) refl,
    λ args s. (broadcast-append xs ((p, c) ∷ ys) args s, broadcast-append xs ys args s),
  )
