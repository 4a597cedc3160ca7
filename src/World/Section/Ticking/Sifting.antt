-- ===== src/World/Section/Ticking/Sifting.antt =====
-- Lists of objects without those whose time is over.
use server.Base.{
  ℕ, ◌≡◌, refl, sym, ap, ◌∙◌, subst, Bool, true, List, [], ◌∷◌, ◌++◌, arith, ◌==◌, inl, inr,
  Bool-cases,
}
use server.World.Section.{GameObject, contains, erase}
use server.World.Section.Ticking.{expired, live}

abbrev pub erase_all : List ℕ → List ℕ → List ℕ
erase_all [] l = l
erase_all (h ∷ hs) l = erase_all hs (erase h l)

module _ (is_expired : ℕ → GameObject → Bool) (now : ℕ) (heap : ℕ → GameObject) where
  abbrev out : List ℕ → List ℕ
  out = expired is_expired now heap

  abbrev stay : List ℕ → List ℕ
  stay = live is_expired now heap

  -- Every one of the second list whose time is over is in the first.
  abbrev Covers : List ℕ → List ℕ → Type 0
  Covers es [] = Unit
  Covers es (x ∷ xs) = (is_expired now (heap x) ≡ true → contains x es ≡ true) × Covers es xs

  abbrev AllOver : List ℕ → Type 0
  AllOver [] = Unit
  AllOver (x ∷ xs) = (is_expired now (heap x) ≡ true) × AllOver xs

  stay-erase : (h : ℕ) (l : List ℕ) → is_expired now (heap h) ≡ true → stay (erase h l) ≡ stay l
  unfolding live erase
  stay-erase h [] e = refl
  stay-erase h (x ∷ l) e = ground (arith, stay-erase h l e)

  Covers-erase : (h : ℕ) (es l : List ℕ) → Covers (h ∷ es) l → Covers es (erase h l)
  unfolding erase contains
  Covers-erase h es [] c = tt
  Covers-erase h es (x ∷ l) c = elim (Bool-cases (x == h)) [
    | inl e ↦ rw (e, erase) (Covers-erase h es l c.1)
    | inr e ↦ rw (e, erase) (λ p. ground (arith, c.0 p), Covers-erase h es l c.1)
  ]

  stay_all : (l : List ℕ) → Covers [] l → l ≡ stay l
  unfolding live contains
  stay_all [] c = refl
  stay_all (x ∷ l) c = elim (Bool-cases (is_expired now (heap x))) [
    | inl e ↦ let v = c.0 e in cc v
    | inr e ↦ rw (e, live) (ap (◌∷◌ x) (stay_all l c.1))
  ]

  erase_all-stay : (es l : List ℕ) → AllOver es → Covers es l → erase_all es l ≡ stay l
  erase_all-stay [] l o c = stay_all l c
  erase_all-stay (h ∷ es) l o c =
      erase_all-stay es (erase h l) o.1 (Covers-erase h es l c) ∙ stay-erase h l o.0

  AllOver-out : (xs : List ℕ) → AllOver (out xs)
  unfolding expired
  AllOver-out [] = tt
  AllOver-out (x ∷ xs) = elim (Bool-cases (is_expired now (heap x))) [
    | inl e ↦ rw (e, expired) (e, AllOver-out xs)
    | inr e ↦ rw (e, expired) (AllOver-out xs)
  ]

  AllOver-append : (xs ys : List ℕ) → AllOver xs → AllOver ys → AllOver (xs ++ ys)
  AllOver-append [] ys a b = b
  AllOver-append (x ∷ xs) ys a b = (a.0, AllOver-append xs ys a.1 b)

  Covers-mono :
      (es fs l : List ℕ)
      → ((x : ℕ) → contains x es ≡ true → contains x fs ≡ true)
      → Covers es l
      → Covers fs l
  Covers-mono es fs [] f c = tt
  Covers-mono es fs (x ∷ l) f c = (λ p. f x (c.0 p), Covers-mono es fs l f c.1)

  contains-append : (x : ℕ) (es fs : List ℕ) → contains x es ≡ true → contains x (es ++ fs) ≡ true
  unfolding contains
  contains-append x [] fs e = cc
  contains-append x (y ∷ es) fs e = ground (arith, contains-append x es fs)

  contains-cons : (y x : ℕ) (es : List ℕ) → contains x es ≡ true → contains x (y ∷ es) ≡ true
  unfolding contains
  contains-cons y x es e = ground arith

  Covers-out : (xs : List ℕ) → Covers (out xs) xs
  unfolding expired contains
  Covers-out [] = tt
  Covers-out (x ∷ xs) = elim (Bool-cases (is_expired now (heap x))) [
    | inl e ↦
        let q : out (x ∷ xs) ≡ x ∷ out xs = rw (e, expired) refl in
        subst (λ l. Covers l (x ∷ xs)) (sym q)
          (
            λ p. ground arith,
            Covers-mono (out xs) (x ∷ out xs) xs (λ z. contains-cons x z (out xs)) (Covers-out xs),
          )
    | inr e ↦
        let q : out (x ∷ xs) ≡ out xs = rw (e, expired) refl in
        subst (λ l. Covers l (x ∷ xs)) (sym q) (λ p. let v = sym e ∙ p in cc v, Covers-out xs)
  ]

  Covers-append : (es xs ys : List ℕ) → Covers es xs → Covers es ys → Covers es (xs ++ ys)
  Covers-append es [] ys a b = b
  Covers-append es (x ∷ xs) ys a b = (a.0, Covers-append es xs ys a.1 b)

  Covers-stay : (es ys : List ℕ) → Covers es (stay ys)
  unfolding live
  Covers-stay es [] = tt
  Covers-stay es (y ∷ ys) = elim (Bool-cases (is_expired now (heap y))) [
    | inl e ↦ rw (e, live) (Covers-stay es ys)
    | inr e ↦ rw (e, live) (λ p. let v = sym e ∙ p in cc v, Covers-stay es ys)
  ]

  stay-append : (xs ys : List ℕ) → stay (xs ++ ys) ≡ stay xs ++ stay ys
  unfolding live
  stay-append [] ys = refl
  stay-append (x ∷ xs) ys = ground (arith, stay-append xs ys)

  stay-stay : (ys : List ℕ) → stay (stay ys) ≡ stay ys
  unfolding live
  stay-stay [] = refl
  stay-stay (y ∷ ys) = elim (Bool-cases (is_expired now (heap y))) [
    | inl e ↦ rw (e, live) (stay-stay ys)
    | inr e ↦ rw (e, live) (rw (e, live) (ap (◌∷◌ y) (stay-stay ys)))
  ]

  -- The objects that go, taken out of those that were ticked and those that were waiting and stay.
  pub erase_all-out :
      (xs ys : List ℕ) → erase_all (out xs ++ out ys) (xs ++ stay ys) ≡ stay xs ++ stay ys
  erase_all-out xs ys =
      erase_all-stay (out xs ++ out ys) (xs ++ stay ys)
        (AllOver-append (out xs) (out ys) (AllOver-out xs) (AllOver-out ys))
        (Covers-append (out xs ++ out ys) xs (stay ys)
          (Covers-mono (out xs) (out xs ++ out ys) xs (λ x. contains-append x (out xs) (out ys))
            (Covers-out xs))
          (Covers-stay (out xs ++ out ys) ys))
      ∙ stay-append xs (stay ys)
      ∙ ap (λ l. stay xs ++ l) (stay-stay ys)
