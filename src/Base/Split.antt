-- ===== src/Base/Split.antt =====
-- Lists cut in two: `take` and `drop` against `++`.
use Prim.Native.Nat.{ℕ, zero, suc, ◌+◌, ◌-◌, ◌≤◌}
use mathlib.Core.Path.{◌≡◌, refl, ap, sym, ◌∙◌}
use mathlib.Core.List.{List, [], ◌∷◌, ◌++◌}
use native.Mathlib.Omega.{arith}
use server.Base.Lists.{length, take, drop}

module _ {ℓ} {A : Type ℓ} where
  pub take-length_append : (xs ys : List A) → take (length xs) (xs ++ ys) ≡ xs
  take-length_append [] ys = refl
  take-length_append (x ∷ xs) ys = ap (◌∷◌ x) (take-length_append xs ys)

  pub drop-length_append : (xs ys : List A) → drop (length xs) (xs ++ ys) ≡ ys
  drop-length_append [] ys = refl
  drop-length_append (x ∷ xs) ys = drop-length_append xs ys

  pub take-append_le : (n : ℕ) (xs ys : List A) → n ≤ length xs → take n (xs ++ ys) ≡ take n xs
  take-append_le zero xs ys h = refl
  take-append_le (suc n) [] ys h = absurd (omega arith)
  take-append_le (suc n) (x ∷ xs) ys h = ap (◌∷◌ x) (take-append_le n xs ys (omega arith))

  pub drop-append_le :
      (n : ℕ) (xs ys : List A) → n ≤ length xs → drop n (xs ++ ys) ≡ drop n xs ++ ys
  drop-append_le zero xs ys h = refl
  drop-append_le (suc n) [] ys h = absurd (omega arith)
  drop-append_le (suc n) (x ∷ xs) ys h = drop-append_le n xs ys (omega arith)

  pub take_all : (n : ℕ) (xs : List A) → length xs ≤ n → take n xs ≡ xs
  take_all zero [] h = refl
  take_all zero (x ∷ xs) h = absurd (omega arith)
  take_all (suc n) [] h = refl
  take_all (suc n) (x ∷ xs) h = ap (◌∷◌ x) (take_all n xs (omega arith))

  pub drop_all : (n : ℕ) (xs : List A) → length xs ≤ n → drop n xs ≡ []
  drop_all zero [] h = refl
  drop_all zero (x ∷ xs) h = absurd (omega arith)
  drop_all (suc n) [] h = refl
  drop_all (suc n) (x ∷ xs) h = drop_all n xs (omega arith)

  -- Two ways to cut one list: the longer front part begins with the shorter.
  pub append_split :
      (k c f bs : List A)
      → f ++ bs ≡ k ++ c
      → length k ≤ length f
      → (x : List A) × (f ≡ k ++ x) × (c ≡ x ++ bs)
  append_split [] c f bs e h = (f, refl, sym e)
  append_split (a ∷ k) c [] bs e h = absurd (omega arith)
  append_split (a ∷ k) c (b ∷ f) bs e h =
      let (x, p, q) = append_split k c f bs (cc) (omega arith) in (x, cc, q)

  pub drop-take : (s e : ℕ) (xs : List A) → drop s (take e xs) ≡ take (e - s) (drop s xs)
  drop-take zero e xs = let h : e ≡ e - zero = omega arith in ap (λ n. take n xs) h
  drop-take (suc s) zero [] = sym (take_all (zero - suc s) [] (omega arith))
  drop-take (suc s) zero (x ∷ xs) =
      let e : zero - suc s ≡ 0 = omega arith in ap (λ n. take n (drop s xs)) (sym e)
  drop-take (suc s) (suc e) [] = sym (take_all (suc e - suc s) [] (omega arith))
  drop-take (suc s) (suc e) (x ∷ xs) =
      let e' : e - s ≡ suc e - suc s = omega arith in
      drop-take s e xs ∙ ap (λ n. take n (drop s xs)) e'

  pub drop-drop : (m n : ℕ) (xs : List A) → drop n (drop m xs) ≡ drop (m + n) xs
  drop-drop zero n xs = let h : n ≡ zero + n = omega arith in ap (λ k. drop k xs) h
  drop-drop (suc m) n [] = drop_all n [] (omega arith) ∙ sym (drop_all (suc m + n) [] (omega arith))
  drop-drop (suc m) n (x ∷ xs) =
      let e : suc (m + n) ≡ suc m + n = omega arith in
      drop-drop m n xs ∙ ap (λ k. drop k (x ∷ xs)) e

  pub take-append_exact : (n : ℕ) (xs ys : List A) → length xs ≡ n → take n (xs ++ ys) ≡ xs
  take-append_exact n xs ys e = ap (λ k. take k (xs ++ ys)) (sym e) ∙ take-length_append xs ys

  -- A front part, and the rest of a longer one.
  pub take-append-take :
      (n k : ℕ) (xs : List A) → n ≤ k → take n xs ++ take (k - n) (drop n xs) ≡ take k xs
  take-append-take zero k xs h = let e : k - zero ≡ k = omega arith in ap (λ j. take j xs) e
  take-append-take (suc n) zero xs h = absurd (omega arith)
  take-append-take (suc n) (suc k) [] h = take_all (suc k - suc n) [] (omega arith)
  take-append-take (suc n) (suc k) (x ∷ xs) h =
      let e : suc k - suc n ≡ k - n = omega arith in
      ap (◌∷◌ x)
        (ap (λ j. take n xs ++ take j (drop n xs)) e ∙ take-append-take n k xs (omega arith))
