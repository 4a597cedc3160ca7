-- ===== src/World/Section/Reach.antt =====
-- Whom Multicast reaches.
use server.Base.{
  ℕ, zero, suc, ◌+◌, ◌<◌, ◌≡◌, ◌≢◌, refl, ap, ◌∙◌, true, false, List, [], ◌∷◌, ◌++◌, some, none,
  length, length-append, take, arith, append-nil, ne→not-==, eq→==, map, ℕ_discrete,
}
use server.Network.Packet.{size_mod}
use server.World.Section.{
  Session, Slot, Section, sessions, others, leave_slot, leave_session, multicast, multicast_from,
  send_to, emit, Event, sent,
}
use server.World.Section.Leaving.{leave_session-some}

-- Sessions in slots one after another, before other slots.
abbrev pub taken : Session → Slot
taken s = record { occupied = true; session = some s }

abbrev pub free : Slot
free = record { occupied = false; session = none }

abbrev pub packed : List Session → List Slot → List Slot
packed [] rest = rest
packed (s ∷ ss) rest = taken s ∷ packed ss rest

abbrev NotPointer : Session → List Session → Type 0
NotPointer s [] = Unit
NotPointer s (t ∷ ts) = (t.handle ≢ s.handle) × NotPointer s ts

packed-append :
    (ss ts : List Session) (rest : List Slot) → packed (ss ++ ts) rest ≡ packed ss (packed ts rest)
packed-append [] ts rest = refl
packed-append (s ∷ ss) ts rest = ap (λ l. taken s ∷ l) (packed-append ss ts rest)

sessions-packed :
    (ss : List Session) (n m : ℕ) (rest : List Slot)
    → m ≡ length ss + n
    → sessions (take m (packed ss rest)) ≡ ss ++ sessions (take n rest)
unfolding sessions
sessions-packed [] n m rest e = ap (λ k. sessions (take k rest)) (omega (arith, e))
sessions-packed (s ∷ ss) n zero rest e = absurd (omega (arith, e))
sessions-packed (s ∷ ss) n (suc m) rest e =
    ap (λ l. s ∷ l) (sessions-packed ss n m rest (omega (arith, e)))

leave_slot-packed :
    (s : Session) (before : List Session) (rest : List Slot)
    → NotPointer s before
    → leave_slot s (packed before (taken s ∷ rest)) ≡ some (packed before (free ∷ rest))
unfolding leave_slot
leave_slot-packed s [] rest p = rw (eq→== s.handle s.handle refl) refl
leave_slot-packed s (t ∷ before) rest p =
    rw (ne→not-== t.handle s.handle p.0, leave_slot-packed s before rest p.1) refl

-- What is sent, session by session: nothing to one with the id of the source, and otherwise the message.
pub data Reaches (message source : ℕ) : List Session → List Event → Type 0 where
  nobody : Reaches message source [] []
  passed_over :
      {s : Session} {ss : List Session} {es : List Event}
      → s.session_id ≡ source
      → Reaches message source ss es
      → Reaches message source (s ∷ ss) es
  reached :
      {s : Session} {ss : List Session} {es : List Event}
      → s.session_id ≢ source
      → Reaches message source ss es
      → Reaches message source (s ∷ ss) (sent s message ∷ es)

others-Reaches :
    (message source : ℕ) (ss : List Session)
    → Reaches message source ss (send_to message (others source ss))
unfolding others
others-Reaches message source [] = nobody
others-Reaches message source (s ∷ ss) = elim (ℕ_discrete s.session_id source) [
  | yes e ↦ rw (eq→== s.session_id source e) (passed_over e (others-Reaches message source ss))
  | no n ↦ rw (ne→not-== s.session_id source n) (reached n (others-Reaches message source ss))
]

send_to-map : (message : ℕ) (ss : List Session) → send_to message ss ≡ map (λ s. sent s message) ss
send_to-map message [] = refl
send_to-map message (s ∷ ss) = ap (λ l. sent s message ∷ l) (send_to-map message ss)

-- If the sessions `ss` are in the first slots and the session count is their number, Multicast adds to the
-- events that the message is sent to each of them once, in the order of the slots; with a source it adds
-- the same for those whose id is not the source, and nothing for the others.
pub multicast-packed :
    (message source : ℕ) (ss : List Session) (rest : List Slot) (c : Section)
    → c.slots ≡ packed ss rest
    → c.session_count ≡ length ss
    → ((multicast message c).events ≡ c.events ++ map (λ s. sent s message) ss)
      × ((es : List Event) × ((multicast_from message source c).events ≡ c.events ++ es)
          × Reaches message source ss es)
unfolding multicast multicast_from emit
multicast-packed message source ss rest c e n = (
  ap (λ l. c.events ++ send_to message l) in_slots
      ∙ ap (λ l. c.events ++ l) (send_to-map message ss),
  (
    send_to message (others source ss),
    ap (λ l. c.events ++ send_to message (others source l)) in_slots,
    others-Reaches message source ss,
  ),
)
  where
    in_slots : sessions (take c.session_count c.slots) ≡ ss
    in_slots =
        ap (λ l. sessions (take c.session_count l)) e
        ∙ sessions-packed ss 0 c.session_count rest (omega (arith, n))
        ∙ append-nil ss

-- The sessions are in the first slots, and one that is not the last leaves. From then on Multicast
-- sends to the sessions but the last of them, which is in the section still.
multicast-leave_session :
    (message : ℕ) (before after : List Session) (s last : Session) (rest : List Slot) (c : Section)
    → c.slots ≡ packed (before ++ (s ∷ (after ++ last ∷ []))) rest
    → c.session_count ≡ length (before ++ (s ∷ (after ++ last ∷ [])))
    → c.session_count < size_mod
    → NotPointer s before
    → let c' = leave_session s c in
      ((multicast message c').events ≡ c'.events ++ send_to message (before ++ after))
      × (c'.slots ≡ packed before (free ∷ packed (after ++ last ∷ []) rest))
unfolding multicast emit sessions
multicast-leave_session message before after s last rest c e n small p =
    let c' = leave_session s c in (ap (λ l. c'.events ++ send_to message l) reached, left.0)
  where
    behind : List Slot
    behind = packed (after ++ last ∷ []) rest

    cleared : leave_slot s c.slots ≡ some (packed before (free ∷ behind))
    cleared =
        ap (leave_slot s) (e ∙ packed-append before (s ∷ (after ++ last ∷ [])) rest)
        ∙ leave_slot-packed s before behind p

    left :
        ((leave_session s c).slots ≡ packed before (free ∷ behind))
        × ((leave_session s c).session_count ≡ length before + suc (length after))
    left =
        let (sl, cn, o, u) = leave_session-some s c cleared in
        (
          sl,
          cn
              ∙ omega (
                arith,
                n,
                small,
                length-append before (s ∷ (after ++ last ∷ [])),
                length-append after (last ∷ []),
              ),
        )

    reached :
        sessions (take (leave_session s c).session_count (leave_session s c).slots)
        ≡ before ++ after
    reached =
        ap (λ l. sessions (take (leave_session s c).session_count l)) left.0
        ∙ sessions-packed before (suc (length after)) (leave_session s c).session_count
            (free ∷ behind) left.1
        ∙ ap (λ l. before ++ l)
            (ap (λ l. sessions (take (length after) l)) (packed-append after (last ∷ []) rest)
              ∙ sessions-packed after 0 (length after) (taken last ∷ rest) (omega arith)
              ∙ append-nil after)
