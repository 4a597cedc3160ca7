-- ===== src/World/Section/Tests.antt =====
-- A section with three sessions in its first slots.
use server.Base.{
  ◌+◌, Bool, leb, ℕ, zero, ◌≡◌, refl, List, [], ◌∷◌, ◌++◌, some, length, replicate,
  length-replicate, arith, ap, suc, ◌⊎◌, inl, inr, sym, some-injective,
}
use server.World.Section.Ticking.{on_tick, expired, live}
use server.World.Section.Ticking.Expiry.{AllGone}
use server.World.Section.Ticking.Survivors.{on_tick-survivors}
use server.World.Section.{
  GameObject, find_object, Session, Slot, Section, sessions, enter_session, leave_session,
  multicast, multicast_from, Event, sent,
}
use server.World.Section.Slots.{AllSlots, Around}
use server.World.Section.Members.{IsSection, Has}
use server.World.Section.Entering.{enter_session-IsSection}
use server.World.Section.Leaving.{leave_session-IsSection}
use server.World.Section.Reach.{packed, free, multicast-packed, Reaches}

abbrev session : ℕ → Session
session n = record { handle = n; session_id = n; character_id = n; pc = some n }

abbrev free_slots : ℕ → List Slot
free_slots n = replicate n free

abbrev three : Section
three = record {
  section_id = 1;
  session_count = 3;
  owner = some (session 1);
  slots = packed (session 1 ∷ session 2 ∷ session 3 ∷ []) (free_slots 1021);
  game_objects = [];
  all_tick = [];
  await_first_tick = [];
  heap = λ h. record { object_id = 0; section_id = 0; created_tick = 0 };
  issued = 0;
  events = [];
}

free-AllSlots : (n : ℕ) → AllSlots (free_slots n)
free-AllSlots zero = tt
free-AllSlots (suc n) = (inl (refl, refl), free-AllSlots n)

free-sessions : (n : ℕ) → sessions (free_slots n) ≡ []
unfolding sessions
free-sessions zero = refl
free-sessions (suc n) = free-sessions n

three-sessions : sessions three.slots ≡ session 1 ∷ session 2 ∷ session 3 ∷ []
unfolding sessions
three-sessions = ap (λ l. session 1 ∷ session 2 ∷ session 3 ∷ l) (free-sessions 1021)

three-IsSection : IsSection three
three-IsSection = record {
  slots = (inr (_, refl, refl), (inr (_, refl, refl), (inr (_, refl, refl), free-AllSlots 1021)));
  sized = ap (λ n. suc (suc (suc n))) (length-replicate 1021 free);
  counted = sym (ap length three-sessions);
  distinct = rw three-sessions ((omega arith, (omega arith, tt)), ((omega arith, tt), (tt, tt)));
  unowned = λ e. cc e;
  owned = λ s e. rw three-sessions (inl (some-injective (session 1) s e));
}

enter_session-IsSection_example :
    IsSection (enter_session (λ n. n) 0 (session 4) three)
    × (((length (sessions three.slots) ≡ 1024)
          × (enter_session (λ n. n) 0 (session 4) three ≡ three))
        ⊎ Around
            (sessions three.slots)
            (session 4)
            (sessions (enter_session (λ n. n) 0 (session 4) three).slots))
enter_session-IsSection_example =
    enter_session-IsSection (λ n. n) 0 (session 4) three three-IsSection
      (rw three-sessions (omega arith, (omega arith, (omega arith, tt))))

leave_session-IsSection_example :
    IsSection (leave_session (session 1) three)
    × ((¬ Has (session 1) (sessions three.slots) × (leave_session (session 1) three ≡ three))
        ⊎ Around
            (sessions (leave_session (session 1) three).slots)
            (session 1)
            (sessions three.slots))
leave_session-IsSection_example = leave_session-IsSection (session 1) three three-IsSection (
    rw three-sessions
      ((λ e. refl), ((λ e. absurd (omega (arith, e))), ((λ e. absurd (omega (arith, e))), tt))))

multicast-packed_example :
    ((multicast 7 three).events
      ≡ three.events ++ sent (session 1) 7 ∷ sent (session 2) 7 ∷ sent (session 3) 7 ∷ [])
    × ((es : List Event) × ((multicast_from 7 2 three).events ≡ three.events ++ es)
        × Reaches 7 2 (session 1 ∷ session 2 ∷ session 3 ∷ []) es)
multicast-packed_example =
    multicast-packed 7 2 (session 1 ∷ session 2 ∷ session 3 ∷ []) (free_slots 1021) three refl refl

-- Object 5 is past its time, object 6 is not, and object 7 waits.
abbrev ticked : Section
ticked = record three {
  game_objects = (5, 5) ∷ (6, 6) ∷ (7, 7) ∷ [];
  all_tick = 5 ∷ 6 ∷ [];
  await_first_tick = 7 ∷ [];
  heap = λ h. record { object_id = h; section_id = 1; created_tick = h };
}

abbrev is_old : ℕ → GameObject → Bool
is_old now o = leb (o.created_tick + 4) now

on_tick-survivors_example :
    let c' = on_tick is_old 9 ticked in
    (c'.all_tick
      ≡ live is_old 9 ticked.heap ticked.all_tick
        ++ live is_old 9 ticked.heap ticked.await_first_tick)
    × (c'.await_first_tick ≡ [])
    × AllGone c' (
        expired is_old 9 ticked.heap ticked.all_tick
        ++ expired is_old 9 ticked.heap ticked.await_first_tick)
unfolding find_object
on_tick-survivors_example =
    on_tick-survivors is_old 9 ticked
      ((λ e. absurd (omega (arith, e)), refl), ((λ e. absurd (omega (arith, e)), refl), tt))
      ((λ e. absurd (omega (arith, e)), refl), tt)
