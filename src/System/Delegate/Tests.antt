-- ===== src/System/Delegate/Tests.antt =====
-- Callbacks that note what they are called with; of the owners only 5 still exists.
use server.Base.{ℕ, ◌+◌, ◌≡◌, refl, Bool, List, [], ◌∷◌, ◌==◌, none}
use server.System.Delegate.{Callback, function, weak_lambda, strong_lambda, broadcast, remove}

abbrev callbacks : List (ℕ × Callback ℕ (List ℕ))
callbacks =
    (1, function (λ x s. x ∷ s))
    ∷ (2, weak_lambda 5 (λ owner x s. (owner + x) ∷ s))
    ∷ (3, weak_lambda 6 (λ owner x s. (owner + x) ∷ s))
    ∷ (4, strong_lambda none (λ owner x s. (owner + x) ∷ s))
    ∷ []

abbrev exists : ℕ → List ℕ → Bool
exists owner s = owner == 5

-- The expired and the null owner are passed over; then the first callback is removed.
callbacks_called : broadcast exists callbacks 42 [] ≡ 47 ∷ 42 ∷ []
unfolding broadcast
callbacks_called = refl

callbacks_left : broadcast exists (remove 1 callbacks).1 42 [] ≡ 47 ∷ []
unfolding broadcast remove
callbacks_left = refl
