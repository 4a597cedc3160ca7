-- ===== src/Container/LruCache/Lists.antt =====
-- The elements of the cache's list, by key and by iterator.
use server.Base.{
  ℕ, suc, ◌+◌, ◌<◌, ◌≡◌, ◌≢◌, refl, sym, ap, ◌∙◌, List, [], ◌∷◌, Option, some, none, length, ◌==◌,
  if◌then◌else◌, arith, ℕ_discrete, eq→==, ne→not-==, some-injective, subst,
}
use server.Container.LruCache.{Node, element, erase_at}
use server.Container.LruCache.Abstract.{entries, find, remove}

module _ {V : Type 0} where
  -- The iterator of the first element of a key.
  unfoldable pub iterator_of : ℕ → List (Node V) → Option ℕ
  iterator_of k [] = none
  iterator_of k (n ∷ ns) = if n.key == k then some n.iterator else iterator_of k ns

  -- No element has the key, or the iterator; keys and iterators are distinct; the iterators are below.
  abbrev pub IsNew : ℕ → List (Node V) → Type 0
  IsNew k [] = Unit
  IsNew k (n ∷ ns) = (n.key ≢ k) × IsNew k ns

  abbrev pub IsFree : ℕ → List (Node V) → Type 0
  IsFree i [] = Unit
  IsFree i (n ∷ ns) = (n.iterator ≢ i) × IsFree i ns

  abbrev pub AllDistinct : List (Node V) → Type 0
  AllDistinct [] = Unit
  AllDistinct (n ∷ ns) = (IsNew n.key ns × IsFree n.iterator ns) × AllDistinct ns

  abbrev pub AllBelow : ℕ → List (Node V) → Type 0
  AllBelow b [] = Unit
  AllBelow b (n ∷ ns) = (n.iterator < b) × AllBelow b ns

  iterator_of-IsFree : (k i : ℕ) (ns : List (Node V)) → IsFree i ns → iterator_of k ns ≢ some i
  unfolding iterator_of
  iterator_of-IsFree k i [] f e = cc e
  iterator_of-IsFree k i (n ∷ ns) f e = elim (ℕ_discrete n.key k) [
    | yes same ↦ f.0 (some-injective _ _ (rw (eq→== n.key k same, iterator_of) at e))
    | no other ↦ iterator_of-IsFree k i ns f.1 (rw (ne→not-== n.key k other, iterator_of) at e)
  ]

  pub iterator_of-none :
      (k : ℕ) (ns : List (Node V))
      → iterator_of k ns ≡ none
      → IsNew k ns × (find k (entries ns) ≡ none)
  unfolding iterator_of find entries
  iterator_of-none k [] e = (tt, refl)
  iterator_of-none k (n ∷ ns) e = elim (ℕ_discrete n.key k) [
    | yes same ↦ cc (rw (eq→== n.key k same, iterator_of) at e)
    | no other ↦
        let r = iterator_of-none k ns (rw (ne→not-== n.key k other, iterator_of) at e) in
        ((other, r.0), rw (ne→not-== n.key k other) (r.1))
  ]

  pub IsNew-iterator_of : (k : ℕ) (ns : List (Node V)) → IsNew k ns → iterator_of k ns ≡ none
  unfolding iterator_of
  IsNew-iterator_of k [] f = refl
  IsNew-iterator_of k (n ∷ ns) f = rw (ne→not-== n.key k f.0) (IsNew-iterator_of k ns f.1)

  -- The element of a key, from its iterator.
  pub element-iterator_of :
      (k i : ℕ) (ns : List (Node V))
      → AllDistinct ns
      → iterator_of k ns ≡ some i
      → (n : Node V) × (element i ns ≡ some n)
        × (n.key ≡ k)
        × (n.iterator ≡ i)
        × (find k (entries ns) ≡ some n.value)
  unfolding iterator_of element find entries
  element-iterator_of k i [] d e = cc e
  element-iterator_of k i (n ∷ ns) d e = elim (ℕ_discrete n.key k) [
    | yes same ↦
        let q : n.iterator ≡ i = some-injective _ _ (rw (eq→== n.key k same, iterator_of) at e) in
        (n, rw (eq→== n.iterator i q) refl, same, q, rw (eq→== n.key k same) refl)
    | no other ↦
        let e' : iterator_of k ns ≡ some i = rw (ne→not-== n.key k other, iterator_of) at e in
        let (m, a, b, c, f) = element-iterator_of k i ns d.1 e' in
        let apart : n.iterator ≢ i =
          λ q. iterator_of-IsFree k n.iterator ns d.0.1 (e' ∙ ap {B = Option ℕ} some (sym q)) in
        (m, rw (ne→not-== n.iterator i apart) a, b, c, rw (ne→not-== n.key k other) f)
  ]

  IsNew-erase_at : (k i : ℕ) (ns : List (Node V)) → IsNew k ns → IsNew k (erase_at i ns)
  unfolding erase_at
  IsNew-erase_at k i [] f = tt
  IsNew-erase_at k i (n ∷ ns) f = elim (ℕ_discrete n.iterator i) [
    | yes same ↦ rw (eq→== n.iterator i same, erase_at) f.1
    | no other ↦ rw (ne→not-== n.iterator i other, erase_at) (f.0, IsNew-erase_at k i ns f.1)
  ]

  IsFree-erase_at : (j i : ℕ) (ns : List (Node V)) → IsFree j ns → IsFree j (erase_at i ns)
  unfolding erase_at
  IsFree-erase_at j i [] f = tt
  IsFree-erase_at j i (n ∷ ns) f = elim (ℕ_discrete n.iterator i) [
    | yes same ↦ rw (eq→== n.iterator i same, erase_at) f.1
    | no other ↦ rw (ne→not-== n.iterator i other, erase_at) (f.0, IsFree-erase_at j i ns f.1)
  ]

  pub AllBelow-erase_at :
      (b i : ℕ) (ns : List (Node V)) → AllBelow b ns → AllBelow b (erase_at i ns)
  unfolding erase_at
  AllBelow-erase_at b i [] f = tt
  AllBelow-erase_at b i (n ∷ ns) f = elim (ℕ_discrete n.iterator i) [
    | yes same ↦ rw (eq→== n.iterator i same, erase_at) f.1
    | no other ↦ rw (ne→not-== n.iterator i other, erase_at) (f.0, AllBelow-erase_at b i ns f.1)
  ]

  pub AllDistinct-erase_at :
      (i : ℕ) (ns : List (Node V)) → AllDistinct ns → AllDistinct (erase_at i ns)
  unfolding erase_at
  AllDistinct-erase_at i [] d = tt
  AllDistinct-erase_at i (n ∷ ns) d = elim (ℕ_discrete n.iterator i) [
    | yes same ↦ rw (eq→== n.iterator i same, erase_at) d.1
    | no other ↦
        rw (ne→not-== n.iterator i other, erase_at)
          (
            (IsNew-erase_at n.key i ns d.0.0, IsFree-erase_at n.iterator i ns d.0.1),
            AllDistinct-erase_at i ns d.1,
          )
  ]

  pub IsFree-AllBelow : (b : ℕ) (ns : List (Node V)) → AllBelow b ns → IsFree b ns
  IsFree-AllBelow b [] f = tt
  IsFree-AllBelow b (n ∷ ns) f = (omega (arith, f.0), IsFree-AllBelow b ns f.1)

  pub AllBelow-suc : (b : ℕ) (ns : List (Node V)) → AllBelow b ns → AllBelow (b + 1) ns
  AllBelow-suc b [] f = tt
  AllBelow-suc b (n ∷ ns) f = (omega (arith, f.0), AllBelow-suc b ns f.1)

  -- What erasing the element of a key leaves: the other entries, without the key.
  pub record Erased (k i : ℕ) (ns : List (Node V)) : Type 0 where
    pub listed : entries (erase_at i ns) ≡ remove k (entries ns)
    pub gone : IsNew k (erase_at i ns)
    pub freed : IsFree i (erase_at i ns)
    pub kept : (j : ℕ) → j ≢ k → iterator_of j (erase_at i ns) ≡ iterator_of j ns
    pub shorter : length ns ≡ suc (length (erase_at i ns))

  pub erase_at-Erased :
      (k i : ℕ) (ns : List (Node V)) → AllDistinct ns → iterator_of k ns ≡ some i → Erased k i ns
  unfolding iterator_of erase_at remove entries
  erase_at-Erased k i [] d e = cc e
  erase_at-Erased k i (n ∷ ns) d e = elim (ℕ_discrete n.key k) [
    | yes same ↦
        let q : n.iterator ≡ i = some-injective _ _ (rw (eq→== n.key k same, iterator_of) at e) in
        let here = eq→== n.iterator i q in
        record {
          listed = rw (here, eq→== n.key k same) refl;
          gone = rw (here, erase_at) (subst (λ x. IsNew x ns) same d.0.0);
          freed = rw (here, erase_at) (subst (λ x. IsFree x ns) q d.0.1);
          kept = λ j ne. rw (here, ne→not-== n.key j (λ p. ne (sym p ∙ same))) refl;
          shorter = rw here refl;
        }
    | no other ↦
        let e' : iterator_of k ns ≡ some i = rw (ne→not-== n.key k other, iterator_of) at e in
        let r = erase_at-Erased k i ns d.1 e' in
        let ne : n.iterator ≢ i =
          λ q. iterator_of-IsFree k n.iterator ns d.0.1 (e' ∙ ap {B = Option ℕ} some (sym q)) in
        let apart = ne→not-== n.iterator i ne in
        record {
          listed = rw (apart, ne→not-== n.key k other) (ap (λ l. (n.key, n.value) ∷ l) r.listed);
          gone = rw (apart, erase_at) (other, r.gone);
          freed = rw (apart, erase_at) (ne, r.freed);
          kept = λ j ne. elim (ℕ_discrete n.key j) [
            | yes p ↦ rw (apart, eq→== n.key j p) refl
            | no there ↦ rw (apart, ne→not-== n.key j there) (r.kept j ne)
          ];
          shorter = rw apart (ap suc r.shorter);
        }
  ]

  pub remove-IsNew : (k : ℕ) (ns : List (Node V)) → IsNew k ns → remove k (entries ns) ≡ entries ns
  unfolding remove entries
  remove-IsNew k [] f = refl
  remove-IsNew k (n ∷ ns) f =
      rw (ne→not-== n.key k f.0) (ap (λ l. (n.key, n.value) ∷ l) (remove-IsNew k ns f.1))

  pub element-AllBelow :
      (b i : ℕ) (ns : List (Node V)) {n : Node V}
      → AllBelow b ns
      → element i ns ≡ some n
      → n.iterator < b
  unfolding element
  element-AllBelow b i [] f e = cc e
  element-AllBelow b i (m ∷ ns) {n} f e = elim (ℕ_discrete m.iterator i) [
    | yes p ↦
        let q : m ≡ n = some-injective _ _ (rw (eq→== m.iterator i p, element) at e) in
        subst (λ x. x.iterator < b) q f.0
    | no p ↦ element-AllBelow b i ns f.1 (rw (ne→not-== m.iterator i p, element) at e)
  ]
