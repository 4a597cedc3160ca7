-- ===== src/World/Section/Entering.antt =====
-- EnterSession keeps the section's invariant.
use server.Base.{
  ℕ, suc, ◌+◌, ◌%◌, ◌≤◌, ◌≡◌, refl, sym, ap, ◌∙◌, subst, List, [], ◌∷◌, Option, some, none, length,
  length-append, arith, Option-cases, some-injective, ◌⊎◌, inl, inr,
}
use server.Network.Packet.{size_mod}
use server.World.Section.{
  Session, Slot, Section, sessions, enter_slot, enter_session, on_ownership_changed, emit,
}
use server.World.Section.Slots.{Around, around, enter_slot-Around, enter_slot-none}
use server.World.Section.Members.{
  IsFresh, AllDistinct, Has, IsSection, AllDistinct-join, Has-middle, Has-join,
  spawn_object-SameMembers,
}

-- What EnterSession leaves in the fields of the membership, when it finds a slot.
enter_session-some :
    (issue : ℕ → ℕ) (now : ℕ) (s : Session) (c : Section) {ys : List Slot}
    → enter_slot s c.slots ≡ some ys
    → let c' = enter_session issue now s c in
      (c'.slots ≡ ys)
      × (c'.session_count ≡ (c.session_count + 1) % size_mod)
      × (c.owner ≡ none → c'.owner ≡ some s)
      × ((t : Session) → c.owner ≡ some t → c'.owner ≡ some t)
unfolding enter_session on_ownership_changed emit
enter_session-some issue now s c {ys} e = elim (Option-cases c.owner) [
  | inl n ↦
      let f =
        spawn_object-SameMembers issue now s.pc (on_ownership_changed none (taken (some s))) in
      rw (e, n, enter_session) (f.0, f.1, (λ k. f.2), λ t k. cc k)
  | inr (t, h) ↦
      let f = spawn_object-SameMembers issue now s.pc (taken (some t)) in
      rw (e, h, enter_session) (f.0, f.1, (λ k. cc k), λ u k. f.2 ∙ k)
]
  where
    taken : Option Session → Section
    taken o = record c { slots = ys; session_count = (c.session_count + 1) % size_mod; owner = o }

enter_session-none :
    (issue : ℕ → ℕ) (now : ℕ) (s : Session) (c : Section)
    → enter_slot s c.slots ≡ none
    → enter_session issue now s c ≡ c
unfolding enter_session
enter_session-none issue now s c e = rw (e, enter_session) refl

Around-AllDistinct :
    {ss ts : List Session} {s : Session}
    → Around ss s ts
    → IsFresh s.session_id ss
    → AllDistinct ss
    → AllDistinct ts
Around-AllDistinct {s} (around before after e f) g d =
    subst AllDistinct (sym f)
      (AllDistinct-join s before after (subst (IsFresh s.session_id) e g) (subst AllDistinct e d))

Around-Has : {ss ts : List Session} {s : Session} → Around ss s ts → Has s ts
Around-Has {s} (around before after e f) = subst (Has s) (sym f) (Has-middle s before after)

Around-keeps :
    {ss ts : List Session} {s : Session} (u : Session) → Around ss s ts → Has u ss → Has u ts
Around-keeps {s} u (around before after e f) h =
    subst (Has u) (sym f) (Has-join u s before after (subst (Has u) e h))

pub Around-length :
    {ss ts : List Session} {s : Session} → Around ss s ts → length ts ≡ suc (length ss)
Around-length {s} (around before after e f) =
    omega (
      arith,
      ap length e,
      ap length f,
      length-append before (s ∷ after),
      length-append before after,
    )

pub length-sessions : (xs : List Slot) → length (sessions xs) ≤ length xs
unfolding sessions
length-sessions [] = omega arith
length-sessions (x ∷ xs) = elim (Option-cases x.session) [
  | inl n ↦ rw (n, sessions) (omega (arith, length-sessions xs))
  | inr (t, h) ↦ rw (h, sessions) (omega (arith, length-sessions xs))
]

-- A session of a new id enters: the section keeps its invariant, and the session is among its
-- members, which are otherwise the same and in the same order; or all 1024 slots are taken, and
-- nothing changes.
pub enter_session-IsSection :
    (issue : ℕ → ℕ) (now : ℕ) (s : Session) (c : Section)
    → IsSection c
    → IsFresh s.session_id (sessions c.slots)
    → let c' = enter_session issue now s c in
      IsSection c'
      × (((length (sessions c.slots) ≡ 1024) × (c' ≡ c))
          ⊎ Around (sessions c.slots) s (sessions c'.slots))
enter_session-IsSection issue now s c v fresh = elim (Option-cases (enter_slot s c.slots)) [
  | inl full ↦
      let same = enter_session-none issue now s c full in
      (subst IsSection (sym same) v, inl (enter_slot-none s c.slots v.slots full ∙ v.sized, same))
  | inr (ys, entered) ↦
      let (a, w, l) = enter_slot-Around s c.slots v.slots entered in
      let (sl, cn, first, kept) = enter_session-some issue now s c entered in
      let b : Around (sessions c.slots) s (sessions (enter_session issue now s c).slots) =
        rw sl a in
      (
        record {
          slots = rw sl w;
          sized = ap length sl ∙ l ∙ v.sized;
          counted =
              cn ∙ omega (arith, v.counted, Around-length b, length-sessions c.slots, v.sized);
          distinct = Around-AllDistinct b fresh v.distinct;
          unowned = λ e. elim (Option-cases c.owner) [
            | inl n ↦ cc (first n, e)
            | inr (t, h) ↦ cc (kept t h, e)
          ];
          owned = λ u e. elim (Option-cases c.owner) [
            | inl n ↦
                subst (λ x. Has x (sessions (enter_session issue now s c).slots))
                  (some-injective s u (sym (first n) ∙ e)) (Around-Has b)
            | inr (t, h) ↦ Around-keeps u b (v.owned u (h ∙ sym (kept t h) ∙ e))
          ];
        },
        inr b,
      )
]
