-- ===== src/World/Section/Leaving.antt =====
-- LeaveSession keeps the section's invariant.
use server.Base.{
  ℕ, ◌+◌, ◌-◌, ◌%◌, ◌≡◌, ◌≢◌, refl, sym, ap, ◌∙◌, subst, List, [], ◌∷◌, Option, some, none, length,
  arith, Option-cases, some-injective, ◌⊎◌, inl, inr, ℕ_discrete, eq→==, ne→not-==,
}
use server.Network.Packet.{size_mod}
use server.World.Section.{
  Session, Slot, Section, sessions, leave_slot, leave_session, next_owner, hand_over, disown,
  despawn_object, on_ownership_changed, emit,
}
use server.World.Section.Slots.{Around, around, leave_slot-Around}
use server.World.Section.Members.{
  IsFresh, AllDistinct, IsPointer, Has, IsSection, AllDistinct-split, IsPointer-middle, Has-split,
  next_owner-Has, next_owner-none, despawn_object-SameMembers,
}
use server.World.Section.Entering.{Around-length, length-sessions}

-- Who owns a section after `hand_over`: who did before, or the next owner; nobody, if there is none.
abbrev HandedOver : ℕ → Section → Section → Type 0
HandedOver id c d =
    (d.slots ≡ c.slots)
    × (d.session_count ≡ c.session_count)
    × ((u : Session) → d.owner ≡ some u → (c.owner ≡ some u) ⊎ (next_owner id c.slots ≡ some u))
    × (d.owner ≡ none → next_owner id c.slots ≡ none)

hand_over-HandedOver : (s : Session) (c : Section) → HandedOver s.session_id c (hand_over s c)
unfolding hand_over on_ownership_changed emit
hand_over-HandedOver s c = elim (Option-cases c.owner) [
  | inr (t, h) ↦ rw (h, hand_over) (refl, refl, (λ u e. inl (sym h ∙ e)), λ e. cc (h, e))
  | inl n ↦ elim (Option-cases (next_owner s.session_id c.slots)) [
    | inl m ↦ rw (n, m, hand_over) (refl, refl, (λ u e. inl (sym n ∙ e)), λ e. refl)
    | inr (t, m) ↦ rw (n, m, hand_over) (refl, refl, (λ u e. inr e), λ e. cc e)
  ]
]

disown-some :
    (s : Session) (o : Option Session) (u : Session)
    → disown s o ≡ some u
    → (o ≡ some u) × (u.handle ≢ s.handle)
unfolding disown
disown-some s none u e = cc e
disown-some s (some t) u e = elim (ℕ_discrete t.handle s.handle) [
  | yes same ↦ cc (rw (eq→== t.handle s.handle same, disown) at e)
  | no other ↦
      let k : t ≡ u = some-injective t u (rw (ne→not-== t.handle s.handle other, disown) at e) in
      (ap {B = Option Session} some k, λ q. other (ap (λ r. r.handle) k ∙ q))
]

leave_session-none :
    (s : Session) (c : Section) → leave_slot s c.slots ≡ none → leave_session s c ≡ hand_over s c
unfolding leave_session
leave_session-none s c e = rw (e, leave_session) refl

pub leave_session-some :
    (s : Session) (c : Section) {ys : List Slot}
    → leave_slot s c.slots ≡ some ys
    → let d = leave_session s c in
      (d.slots ≡ ys)
      × (d.session_count ≡ (c.session_count + size_mod - 1) % size_mod)
      × ((u : Session)
          → d.owner ≡ some u
          → ((c.owner ≡ some u) × (u.handle ≢ s.handle)) ⊎ (next_owner s.session_id ys ≡ some u))
      × (d.owner ≡ none → next_owner s.session_id ys ≡ none)
unfolding leave_session
leave_session-some s c {ys} e =
    let left : Section = record c {
      slots = ys;
      owner = disown s c.owner;
      session_count = (c.session_count + size_mod - 1) % size_mod;
    } in
    let f = despawn_object-SameMembers s.pc left in
    let (sl, cn, ow, un) = hand_over-HandedOver s (despawn_object s.pc left) in
    rw (e, leave_session)
      (
        sl ∙ f.0,
        cn ∙ f.1,
        (λ u k. elim (ow u k) [
          | inl o ↦ inl (disown-some s c.owner u (sym f.2 ∙ o))
          | inr m ↦ inr (rw f.0 at m)
        ]),
        λ k. rw f.0 at (un k),
      )

-- Without a slot to clear, the session is not there.
leave_slot-none : (s : Session) (xs : List Slot) → leave_slot s xs ≡ none → ¬ Has s (sessions xs)
unfolding leave_slot sessions
leave_slot-none s [] e h = h
leave_slot-none s (x ∷ xs) e h = elim (Option-cases x.session) [
  | inl n ↦ elim (Option-cases (leave_slot s xs)) [
    | inl absent ↦ leave_slot-none s xs absent (rw (n, sessions) at h)
    | inr (ys, left) ↦ cc (rw (n, left, leave_slot) at e)
  ]
  | inr (t, k) ↦ elim (ℕ_discrete t.handle s.handle) [
    | yes same ↦ cc (rw (k, eq→== t.handle s.handle same, leave_slot) at e)
    | no other ↦ elim (Option-cases (leave_slot s xs)) [
      | inl absent ↦
          let g : Has s (t ∷ sessions xs) = rw (k, sessions) at h in
          elim g [ inl q ↦ other (ap (λ r. r.handle) q) | inr r ↦ leave_slot-none s xs absent r ]
      | inr (ys, left) ↦ cc (rw (k, ne→not-== t.handle s.handle other, left, leave_slot) at e)
    ]
  ]
]

-- A session leaves that is not in the section: nothing changes.
hand_over-IsSection : (s : Session) (c : Section) → IsSection c → hand_over s c ≡ c
unfolding hand_over
hand_over-IsSection s c v = elim (Option-cases c.owner) [
  | inr (t, h) ↦ ground (arith, h)
  | inl n ↦ elim (Option-cases (next_owner s.session_id c.slots)) [
    | inl m ↦ ground (arith, n, m)
    | inr (t, m) ↦ absurd (rw (v.unowned n) at (next_owner-Has s.session_id c.slots t m))
  ]
]

-- The session of the pointer that left, and the ids of those that stay.
left_behind :
    {ss ts : List Session} {s t : Session}
    → Around ss t ts
    → t.handle ≡ s.handle
    → IsPointer s ts
    → AllDistinct ts
    → (t ≡ s) × IsFresh s.session_id ss × AllDistinct ss
left_behind {ss} {s} {t} (around before after e f) same p d =
    let q : t ≡ s = IsPointer-middle s t before after (subst (IsPointer s) f p) same in
    let r = AllDistinct-split t before after (subst AllDistinct f d) in
    (
      q,
      subst (λ u. IsFresh u.session_id ss) q (subst (IsFresh t.session_id) (sym e) r.0),
      subst AllDistinct (sym e) r.1,
    )

still_there :
    {ss ts : List Session} {s : Session} (u : Session)
    → Around ss s ts
    → u.handle ≢ s.handle
    → Has u ts
    → Has u ss
still_there {s} u (around before after e f) other h =
    elim (Has-split u s before after (subst (Has u) f h)) [
      | inl q ↦ absurd (other (ap (λ r. r.handle) (sym q)))
      | inr k ↦ subst (Has u) (sym e) k
    ]

-- A session leaves: the section keeps its invariant, so that it has an owner among its members as
-- long as it has members. The session is no longer among them, and the others are the same and in the
-- same order; or it was not there, and nothing changes.
pub leave_session-IsSection :
    (s : Session) (c : Section)
    → IsSection c
    → IsPointer s (sessions c.slots)
    → let c' = leave_session s c in
      IsSection c'
      × ((¬ Has s (sessions c.slots) × (c' ≡ c)) ⊎ Around (sessions c'.slots) s (sessions c.slots))
leave_session-IsSection s c v p = elim (Option-cases (leave_slot s c.slots)) [
  | inl absent ↦
      let same = leave_session-none s c absent ∙ hand_over-IsSection s c v in
      (subst IsSection (sym same) v, inl (leave_slot-none s c.slots absent, same))
  | inr (ys, left) ↦
      let (t, q, a, w, l) = leave_slot-Around s c.slots v.slots left in
      let (sl, cn, ow, un) = leave_session-some s c left in
      let (e, fresh, distinct) = left_behind a q p v.distinct in
      let b : Around (sessions ys) s (sessions c.slots) =
        subst (λ u. Around (sessions ys) u (sessions c.slots)) e a in
      (
        record {
          slots = rw sl w;
          sized = ap length sl ∙ l ∙ v.sized;
          counted =
              cn
              ∙ omega (arith, v.counted, Around-length b, length-sessions c.slots, v.sized)
              ∙ sym (ap (λ z. length (sessions z)) sl);
          distinct = rw sl distinct;
          unowned = λ k. ap sessions sl ∙ next_owner-none s.session_id ys fresh (un k);
          owned = λ u k. elim (ow u k) [
            | inl o ↦ rw sl (still_there u b o.1 (v.owned u o.0))
            | inr m ↦ rw sl (next_owner-Has s.session_id ys u m)
          ];
        },
        inr (rw sl b),
      )
]
