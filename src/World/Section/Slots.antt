-- ===== src/World/Section/Slots.antt =====
-- The slots of a section: what entering and leaving does to the sessions in them.
use server.Base.{
  suc, ◌≡◌, refl, sym, ap, true, false, List, [], ◌∷◌, ◌++◌, some, none, length, Option-cases,
  ℕ_discrete, some-injective, ◌⊎◌, inl, inr, ne→not-==, eq→==,
}
use server.World.Section.{Session, Slot, sessions, enter_slot, leave_slot}

-- The flag of a slot says whether it holds a session.
abbrev IsSlot : Slot → Type 0
IsSlot x =
    ((x.occupied ≡ false) × (x.session ≡ none))
    ⊎ ((s : Session) × (x.occupied ≡ true) × (x.session ≡ some s))

abbrev pub AllSlots : List Slot → Type 0
AllSlots [] = Unit
AllSlots (x ∷ xs) = IsSlot x × AllSlots xs

-- The sessions around one.
pub data Around (ss : List Session) (s : Session) (ts : List Session) : Type 0 where
  around :
      (before after : List Session)
      → ss ≡ before ++ after
      → ts ≡ before ++ s ∷ after
      → Around ss s ts

Around-cons :
    {ss : List Session} {s : Session} {ts : List Session} (x : Session)
    → Around ss s ts
    → Around (x ∷ ss) s (x ∷ ts)
Around-cons x (around before after e f) =
    around (x ∷ before) after (ap (λ l. x ∷ l) e) (ap (λ l. x ∷ l) f)

pub enter_slot-Around :
    (s : Session) (xs : List Slot) {ys : List Slot}
    → AllSlots xs
    → enter_slot s xs ≡ some ys
    → Around (sessions xs) s (sessions ys) × AllSlots ys × (length ys ≡ length xs)
unfolding enter_slot sessions
enter_slot-Around s [] v e = cc e
enter_slot-Around s (x ∷ xs) {ys} v e = elim v.0 [
  | inl (f, n) ↦
      let made : ys ≡ record { occupied = true; session = some s } ∷ xs =
        sym (some-injective _ _ (rw (f, enter_slot) at e)) in
      rw (made, n, sessions) (around [] (sessions xs) refl refl, (inr (s, refl, refl), v.1), refl)
  | inr (t, f, h) ↦ elim (Option-cases (enter_slot s xs)) [
    | inl full ↦ cc (rw (f, full, enter_slot) at e)
    | inr (zs, entered) ↦
        let (a, w, l) = enter_slot-Around s xs v.1 entered in
        let made : ys ≡ x ∷ zs = sym (some-injective _ _ (rw (f, entered, enter_slot) at e)) in
        rw made (rw (h, sessions) (Around-cons t a), (v.0, w), ap suc l)
  ]
]

-- With no free slot every slot holds a session.
pub enter_slot-none :
    (s : Session) (xs : List Slot)
    → AllSlots xs
    → enter_slot s xs ≡ none
    → length (sessions xs) ≡ length xs
unfolding enter_slot sessions
enter_slot-none s [] v e = refl
enter_slot-none s (x ∷ xs) v e = elim v.0 [
  | inl (f, n) ↦ cc (rw (f, enter_slot) at e)
  | inr (t, f, h) ↦ elim (Option-cases (enter_slot s xs)) [
    | inl full ↦ rw (h, sessions) (ap suc (enter_slot-none s xs v.1 full))
    | inr (zs, entered) ↦ cc (rw (f, entered, enter_slot) at e)
  ]
]

pub leave_slot-Around :
    (s : Session) (xs : List Slot) {ys : List Slot}
    → AllSlots xs
    → leave_slot s xs ≡ some ys
    → (t : Session) × (t.handle ≡ s.handle)
      × Around (sessions ys) t (sessions xs)
      × AllSlots ys
      × (length ys ≡ length xs)
unfolding leave_slot sessions
leave_slot-Around s [] v e = cc e
leave_slot-Around s (x ∷ xs) {ys} v e = elim v.0 [
  | inl (f, n) ↦ elim (Option-cases (leave_slot s xs)) [
    | inl absent ↦ cc (rw (n, absent, leave_slot) at e)
    | inr (zs, left) ↦
        let (t, same, a, w, l) = leave_slot-Around s xs v.1 left in
        let made : ys ≡ x ∷ zs = sym (some-injective _ _ (rw (n, left, leave_slot) at e)) in
        rw made (t, same, rw (n, sessions) a, (v.0, w), ap suc l)
  ]
  | inr (t, f, h) ↦ elim (ℕ_discrete t.handle s.handle) [
    | yes same ↦
        let made : ys ≡ record { occupied = false; session = none } ∷ xs =
          sym (some-injective _ _ (rw (h, eq→== t.handle s.handle same, leave_slot) at e)) in
        rw (made, h, sessions)
          (t, same, around [] (sessions xs) refl refl, (inl (refl, refl), v.1), refl)
    | no other ↦ elim (Option-cases (leave_slot s xs)) [
      | inl absent ↦ cc (rw (h, ne→not-== t.handle s.handle other, absent, leave_slot) at e)
      | inr (zs, left) ↦
          let (u, same, a, w, l) = leave_slot-Around s xs v.1 left in
          let made : ys ≡ x ∷ zs = sym (
            some-injective _ _
              (rw (h, ne→not-== t.handle s.handle other, left, leave_slot) at e)) in
          rw made (u, same, rw (h, sessions) (Around-cons t a), (v.0, w), ap suc l)
    ]
  ]
]
