-- ===== src/World/Session/Queue.antt =====
-- The queue of a session's actions.
use server.Base.{
  ℕ, ◌+◌, ◌*◌, ◌≡◌, ◌≢◌, refl, ap, List, [], ◌∷◌, ◌++◌, Option, some, none, arith, ◌⊎◌, inl, inr,
  Bool-cases, ◌==◌, if◌then◌else◌, leb,
}
use server.World.Session.{
  ClientAction, WorldSession, take_action, consume_action, unexpired, on_section_tick, issue_action,
}

-- No action has the type; and all have it.
abbrev pub HasNone : ℕ → List ClientAction → Type 0
HasNone type [] = Unit
HasNone type (a ∷ rest) = (a.action_type ≢ type) × HasNone type rest

abbrev pub AllType : ℕ → List ClientAction → Type 0
AllType type [] = Unit
AllType type (a ∷ rest) = (a.action_type ≡ type) × AllType type rest

-- `a` is the first action of the type, between the others.
pub record IsFirst (type : ℕ) (before : List ClientAction) (a : ClientAction) : Type 0 where
  pub typed : a.action_type ≡ type
  pub none_before : HasNone type before

take_action-cases :
    (type : ℕ) (queue : List ClientAction)
    → ((take_action type queue ≡ none) × HasNone type queue)
      ⊎ ((before : List ClientAction) × (a : ClientAction) × (after : List ClientAction) × (queue
            ≡ before ++ (a ∷ after))
          × IsFirst type before a
          × (take_action type queue ≡ some (a, before ++ after)))
unfolding take_action
take_action-cases type [] = inl (refl, tt)
take_action-cases type (x ∷ queue) = elim (Bool-cases (x.action_type == type)) [
  | inl e ↦ inr ([], x, queue, refl, record { typed = ground arith; none_before = tt }, rw e refl)
  | inr e ↦ elim (take_action-cases type queue) [
    | inl (n, h) ↦ inl (rw (e, n, take_action) refl, (ground arith, h))
    | inr (before, a, after, q, f, t) ↦ inr (
      x ∷ before,
      a,
      after,
      ap (◌∷◌ x) q,
      record { typed = f.typed; none_before = (ground arith, f.none_before) },
      rw (e, t, take_action) refl,
    )
  ]
]

-- `ConsumeAction` fails and changes nothing if no action of the queue has the type. Otherwise it hands out
-- the first that has it and takes just that one out of the queue.
pub consume_action_lem :
    (type : ℕ) (s : WorldSession)
    → ((consume_action type s ≡ (none, s)) × HasNone type s.action_queue)
      ⊎ ((before : List ClientAction) × (a : ClientAction) × (after : List ClientAction)
          × (s.action_queue ≡ before ++ (a ∷ after))
          × IsFirst type before a
          × (consume_action type s ≡ (some a, record s { action_queue = before ++ after })))
unfolding consume_action
consume_action_lem type s = elim (take_action-cases type s.action_queue) [
  | inl (n, h) ↦ inl (rw (n, consume_action) refl, h)
  | inr (before, a, after, q, f, t) ↦ inr (before, a, after, q, f, rw (t, consume_action) refl)
]

-- The first list is the second with elements left out.
pub data IsSublist : List ℕ → List ℕ → Type 0 where
  done : IsSublist [] []
  keep : (x : ℕ) {xs ys : List ℕ} → IsSublist xs ys → IsSublist (x ∷ xs) (x ∷ ys)
  skip : (x : ℕ) {xs ys : List ℕ} → IsSublist xs ys → IsSublist xs (x ∷ ys)

IsSublist-refl : (xs : List ℕ) → IsSublist xs xs
IsSublist-refl [] = done
IsSublist-refl (x ∷ xs) = keep x (IsSublist-refl xs)

pub IsSublist-trans : {xs ys zs : List ℕ} → IsSublist xs ys → IsSublist ys zs → IsSublist xs zs
IsSublist-trans p done = p
IsSublist-trans (keep x p) (keep y q) = keep x (IsSublist-trans p q)
IsSublist-trans (skip x p) (keep y q) = skip x (IsSublist-trans p q)
IsSublist-trans p (skip z q) = skip z (IsSublist-trans p q)

pub IsSublist-append :
    (ps : List ℕ) {xs ys : List ℕ} → IsSublist xs ys → IsSublist (ps ++ xs) (ps ++ ys)
IsSublist-append [] s = s
IsSublist-append (p ∷ ps) s = keep p (IsSublist-append ps s)

pub IsSublist-snoc :
    (x : ℕ) {xs ys : List ℕ} → IsSublist xs ys → IsSublist (xs ++ x ∷ []) (ys ++ x ∷ [])
IsSublist-snoc x done = keep x done
IsSublist-snoc x (keep y s) = keep y (IsSublist-snoc x s)
IsSublist-snoc x (skip y s) = skip y (IsSublist-snoc x s)

IsSublist-nil : (ys : List ℕ) → IsSublist [] ys
IsSublist-nil [] = done
IsSublist-nil (y ∷ ys) = skip y (IsSublist-nil ys)

pub IsSublist-front : (xs ys : List ℕ) → IsSublist xs (xs ++ ys)
IsSublist-front [] ys = IsSublist-nil ys
IsSublist-front (x ∷ xs) ys = keep x (IsSublist-front xs ys)

-- The ids of actions.
abbrev pub ids : List ClientAction → List ℕ
ids [] = []
ids (a ∷ rest) = a.action_id ∷ ids rest

pub unexpired-IsSublist :
    (tick : ℕ) (queue : List ClientAction) → IsSublist (ids (unexpired tick queue)) (ids queue)
unfolding unexpired
unexpired-IsSublist tick [] = done
unexpired-IsSublist tick (a ∷ queue) = elim (Bool-cases (leb a.expire_time tick)) [
  | inl e ↦ rw e (skip a.action_id (unexpired-IsSublist tick queue))
  | inr e ↦ rw e (keep a.action_id (unexpired-IsSublist tick queue))
]

pub unexpired-AllType :
    (tick type : ℕ) (queue : List ClientAction)
    → AllType type queue
    → AllType type (unexpired tick queue)
unfolding unexpired
unexpired-AllType tick type [] h = tt
unexpired-AllType tick type (a ∷ queue) h = ground (arith, unexpired-AllType tick type queue h.1)

take_action-unexpired-snoc :
    (type tick : ℕ) (queue : List ClientAction) (a : ClientAction)
    → HasNone type queue
    → a.action_type ≡ type
    → (elim (take_action type (unexpired tick (queue ++ a ∷ []))) as (λ r. Option ClientAction) [
      | none ↦ none
      | some (b, rest) ↦ some b
    ])
      ≡ (if leb a.expire_time tick then none else some a)
unfolding take_action unexpired
take_action-unexpired-snoc type tick [] a h e = ground arith
take_action-unexpired-snoc type tick (x ∷ queue) a h e =
    ground (arith, take_action-unexpired-snoc type tick queue a h.1 e)

-- With none of its type in the queue, an action that is issued can be consumed after a later tick of the
-- section, as it was issued, if the tick comes before the action's time is up; else there is none.
consume_action-on_section_tick-issue_action :
    (issue : ℕ → ℕ) (now type ms tick : ℕ) (s : WorldSession)
    → HasNone type s.action_queue
    → (consume_action type (on_section_tick tick (issue_action issue now type ms s))).0 ≡ (
        if leb (now + ms * 1000000) tick
        then none
        else some (record {
          action_id = issue s.issued;
          action_type = type;
          action_time = now;
          expire_time = now + ms * 1000000;
        }))
unfolding consume_action on_section_tick issue_action
consume_action-on_section_tick-issue_action issue now type ms tick s h = ground (
  arith,
  take_action-unexpired-snoc type tick s.action_queue
      (record {
        action_id = issue s.issued;
        action_type = type;
        action_time = now;
        expire_time = now + ms * 1000000;
      })
      h,
)
