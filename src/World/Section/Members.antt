-- ===== src/World/Section/Members.antt =====
-- Who is in a section, and who owns it: the invariant that entering and leaving keep.
use server.Base.{
  ℕ, ◌≡◌, ◌≢◌, refl, sym, List, [], ◌∷◌, ◌++◌, Option, some, none, length, arith, Option-cases,
  ℕ_discrete, some-injective, ◌⊎◌, inl, inr, ne→not-==, eq→==,
}
use server.World.Section.{
  Session, Slot, Section, sessions, next_owner, spawn_object, despawn_object, on_ownership_changed,
  emit, add_game_object, remove_game_object,
}
use server.World.Section.Slots.{AllSlots}

-- No session has the id; the ids are distinct; a session of the same pointer is the same session.
abbrev pub IsFresh : ℕ → List Session → Type 0
IsFresh id [] = Unit
IsFresh id (t ∷ ts) = (t.session_id ≢ id) × IsFresh id ts

abbrev pub AllDistinct : List Session → Type 0
AllDistinct [] = Unit
AllDistinct (t ∷ ts) = IsFresh t.session_id ts × AllDistinct ts

abbrev pub IsPointer : Session → List Session → Type 0
IsPointer s [] = Unit
IsPointer s (t ∷ ts) = (t.handle ≡ s.handle → t ≡ s) × IsPointer s ts

-- The session of the pointer is there.
abbrev pub Has : Session → List Session → Type 0
Has s [] = ⊥
Has s (t ∷ ts) = (t ≡ s) ⊎ Has s ts

pub record IsSection (c : Section) : Type 0 where
  pub slots : AllSlots c.slots
  pub sized : length c.slots ≡ 1024
  pub counted : c.session_count ≡ length (sessions c.slots)
  pub distinct : AllDistinct (sessions c.slots)
  pub unowned : c.owner ≡ none → sessions c.slots ≡ []
  pub owned : (s : Session) → c.owner ≡ some s → Has s (sessions c.slots)

IsFresh-split :
    (id : ℕ) (s : Session) (before after : List Session)
    → IsFresh id (before ++ s ∷ after)
    → (s.session_id ≢ id) × IsFresh id (before ++ after)
IsFresh-split id s [] after f = f
IsFresh-split id s (t ∷ before) after f =
    let r = IsFresh-split id s before after f.1 in (r.0, (f.0, r.1))

IsFresh-join :
    (id : ℕ) (s : Session) (before after : List Session)
    → s.session_id ≢ id
    → IsFresh id (before ++ after)
    → IsFresh id (before ++ s ∷ after)
IsFresh-join id s [] after ne f = (ne, f)
IsFresh-join id s (t ∷ before) after ne f = (f.0, IsFresh-join id s before after ne f.1)

pub AllDistinct-split :
    (s : Session) (before after : List Session)
    → AllDistinct (before ++ s ∷ after)
    → IsFresh s.session_id (before ++ after) × AllDistinct (before ++ after)
AllDistinct-split s [] after d = d
AllDistinct-split s (t ∷ before) after d =
    let f = IsFresh-split t.session_id s before after d.0 in
    let r = AllDistinct-split s before after d.1 in ((λ e. f.0 (sym e), r.0), (f.1, r.1))

pub AllDistinct-join :
    (s : Session) (before after : List Session)
    → IsFresh s.session_id (before ++ after)
    → AllDistinct (before ++ after)
    → AllDistinct (before ++ s ∷ after)
AllDistinct-join s [] after f d = (f, d)
AllDistinct-join s (t ∷ before) after f d = (
  IsFresh-join t.session_id s before after (λ e. f.0 (sym e)) d.0,
  AllDistinct-join s before after f.1 d.1,
)

pub Has-middle : (s : Session) (before after : List Session) → Has s (before ++ s ∷ after)
Has-middle s [] after = inl refl
Has-middle s (t ∷ before) after = inr (Has-middle s before after)

pub Has-join :
    (u s : Session) (before after : List Session)
    → Has u (before ++ after)
    → Has u (before ++ s ∷ after)
Has-join u s [] after h = inr h
Has-join u s (t ∷ before) after (inl e) = inl e
Has-join u s (t ∷ before) after (inr h) = inr (Has-join u s before after h)

pub Has-split :
    (u s : Session) (before after : List Session)
    → Has u (before ++ s ∷ after)
    → (s ≡ u) ⊎ Has u (before ++ after)
Has-split u s [] after h = h
Has-split u s (t ∷ before) after (inl e) = inr (inl e)
Has-split u s (t ∷ before) after (inr h) = elim (Has-split u s before after h) [
  | inl e ↦ inl e
  | inr k ↦ inr (inr k)
]

pub IsPointer-middle :
    (s t : Session) (before after : List Session)
    → IsPointer s (before ++ t ∷ after)
    → t.handle ≡ s.handle
    → t ≡ s
IsPointer-middle s t [] after p e = p.0 e
IsPointer-middle s t (u ∷ before) after p e = IsPointer-middle s t before after p.1 e

-- The next owner is in a slot; there is one, when there are sessions and none has the id.
pub next_owner-Has :
    (id : ℕ) (xs : List Slot) (s : Session) → next_owner id xs ≡ some s → Has s (sessions xs)
unfolding next_owner sessions
next_owner-Has id [] s e = cc e
next_owner-Has id (x ∷ xs) s e = elim (Option-cases x.session) [
  | inl n ↦ rw (n, sessions) (next_owner-Has id xs s (rw (n, next_owner) at e))
  | inr (t, h) ↦ elim (ℕ_discrete t.session_id id) [
    | yes same ↦
        rw (h, sessions)
          (inr (next_owner-Has id xs s (rw (h, eq→== t.session_id id same, next_owner) at e)))
    | no other ↦
        rw (h, sessions)
          (inl (some-injective t s (rw (h, ne→not-== t.session_id id other, next_owner) at e)))
  ]
]

pub next_owner-none :
    (id : ℕ) (xs : List Slot)
    → IsFresh id (sessions xs)
    → next_owner id xs ≡ none
    → sessions xs ≡ []
unfolding next_owner sessions
next_owner-none id [] f e = refl
next_owner-none id (x ∷ xs) f e = elim (Option-cases x.session) [
  | inl n ↦
      rw (n, sessions) (next_owner-none id xs (rw (n, sessions) at f) (rw (n, next_owner) at e))
  | inr (t, h) ↦
      let g : IsFresh id (t ∷ sessions xs) = rw (h, sessions) at f in
      cc (rw (h, ne→not-== t.session_id id g.0, next_owner) at e)
]

-- What spawning, despawning and telling the owner leave as it is.
abbrev SameMembers : Section → Section → Type 0
SameMembers d c = (d.slots ≡ c.slots) × (d.session_count ≡ c.session_count) × (d.owner ≡ c.owner)

pub spawn_object-SameMembers :
    (issue : ℕ → ℕ) (now : ℕ) (h : Option ℕ) (c : Section)
    → SameMembers (spawn_object issue now h c) c
unfolding spawn_object add_game_object emit
spawn_object-SameMembers issue now none c = (refl, refl, refl)
spawn_object-SameMembers issue now (some h) c = ground arith

pub despawn_object-SameMembers : (h : Option ℕ) (c : Section) → SameMembers (despawn_object h c) c
unfolding despawn_object remove_game_object emit
despawn_object-SameMembers none c = (refl, refl, refl)
despawn_object-SameMembers (some h) c = ground arith

on_ownership_changed-SameMembers :
    (prev : Option Session) (c : Section) → SameMembers (on_ownership_changed prev c) c
unfolding on_ownership_changed emit
on_ownership_changed-SameMembers prev c = (refl, refl, refl)
