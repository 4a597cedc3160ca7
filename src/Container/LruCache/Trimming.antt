-- ===== src/Container/LruCache/Trimming.antt =====
-- The list of the cache without its last element.
use server.Base.{
  ℕ, suc, ◌≡◌, ◌≢◌, refl, sym, ap, ◌∙◌, List, [], ◌∷◌, some, length, take, arith, ℕ_discrete, eq→==,
  ne→not-==, some-injective, subst,
}
use server.Container.LruCache.{Node, back, pop_back}
use server.Container.LruCache.Abstract.{entries}
use server.Container.LruCache.Lists.{iterator_of, IsNew, IsFree, AllDistinct, AllBelow}

module _ {V : Type 0} where
  -- The list without its last element.
  pub record Popped (m : ℕ) (n : Node V) (ns : List (Node V)) : Type 0 where
    pub last : back ns ≡ some n
    pub listed : entries (pop_back ns) ≡ take m (entries ns)
    pub gone : IsNew n.key (pop_back ns)
    pub kept : (j : ℕ) → j ≢ n.key → iterator_of j (pop_back ns) ≡ iterator_of j ns
    pub shorter : length (pop_back ns) ≡ m
    pub distinct : AllDistinct (pop_back ns)
    pub below : (b : ℕ) → AllBelow b ns → AllBelow b (pop_back ns)

  back-IsNew : (k : ℕ) (n : Node V) (ns : List (Node V)) → back ns ≡ some n → IsNew k ns → n.key ≢ k
  unfolding back
  back-IsNew k n [] e f = cc e
  back-IsNew k n (m ∷ []) e f = λ q. f.0 (ap (λ x. x.key) (some-injective m n e) ∙ q)
  back-IsNew k n (m ∷ l ∷ ns) e f = back-IsNew k n (l ∷ ns) e f.1

  IsNew-pop_back : (k : ℕ) (ns : List (Node V)) → IsNew k ns → IsNew k (pop_back ns)
  unfolding pop_back
  IsNew-pop_back k [] f = tt
  IsNew-pop_back k (m ∷ []) f = tt
  IsNew-pop_back k (m ∷ l ∷ ns) f = (f.0, IsNew-pop_back k (l ∷ ns) f.1)

  IsFree-pop_back : (i : ℕ) (ns : List (Node V)) → IsFree i ns → IsFree i (pop_back ns)
  unfolding pop_back
  IsFree-pop_back i [] f = tt
  IsFree-pop_back i (m ∷ []) f = tt
  IsFree-pop_back i (m ∷ l ∷ ns) f = (f.0, IsFree-pop_back i (l ∷ ns) f.1)

  pop_back-Popped :
      (m : Node V) (ns : List (Node V))
      → AllDistinct (m ∷ ns)
      → (n : Node V) × Popped (length ns) n (m ∷ ns)
  unfolding back pop_back entries iterator_of
  pop_back-Popped m [] d = (
    m,
    record {
      last = refl;
      listed = refl;
      gone = tt;
      kept = λ j ne. sym (rw (ne→not-== m.key j (λ p. ne (sym p))) refl);
      shorter = refl;
      distinct = tt;
      below = λ b f. tt;
    },
  )
  pop_back-Popped m (l ∷ ns) d =
      let (n, r) = pop_back-Popped l ns d.1 in
      (
        n,
        record {
          last = r.last;
          listed = ap (λ x. (m.key, m.value) ∷ x) r.listed;
          gone = ((λ q. back-IsNew m.key n (l ∷ ns) r.last d.0.0 (sym q)), r.gone);
          kept = λ j ne. elim (ℕ_discrete m.key j) [
            | yes p ↦ rw (eq→== m.key j p) refl
            | no p ↦ rw (ne→not-== m.key j p) (r.kept j ne)
          ];
          shorter = ap suc r.shorter;
          distinct = (
            (IsNew-pop_back m.key (l ∷ ns) d.0.0, IsFree-pop_back m.iterator (l ∷ ns) d.0.1),
            r.distinct,
          );
          below = λ b f. (f.0, r.below b f.1);
        },
      )

  pub pop_back-some :
      (k : ℕ) (ns : List (Node V))
      → length ns ≡ suc k
      → AllDistinct ns
      → (n : Node V) × Popped k n ns
  pop_back-some k [] e d = absurd (omega (arith, e))
  pop_back-some k (m ∷ ns) e d =
      let (n, r) = pop_back-Popped m ns d in
      (n, subst (λ j. Popped j n (m ∷ ns)) (omega (arith, e)) r)
