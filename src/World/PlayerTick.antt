-- ===== src/World/PlayerTick.antt =====
-- The sessions that tick: the actor PlayerTick of Source/Server/World/PlayerTick.cpp. A shared pointer
-- to a session is an Option of its address, and the session's `session_id()` is a parameter.
mod Tests
use server.Base.{
  ℕ, ◌+◌, ◌≡◌, refl, sym, ap, ◌∙◌, List, [], ◌∷◌, ◌++◌, Option, some, none, arith, Bool, true,
  false, inl, inr, Option-cases, if◌then◌else◌, ◌==◌, lookup, emplace, remove_key,
  lookup-remove_key,
}

pub record PlayerTick : Type 0 where
  world_session_map : List (ℕ × ℕ)
  pub world_sessions : List ℕ

unfoldable pub player_tick : PlayerTick
player_tick = record { world_session_map = []; world_sessions = [] }

-- `std::remove` with the `erase` of what it leaves at the end.
remove : ℕ → List ℕ → List ℕ
remove s [] = []
remove s (x ∷ xs) = let rest = remove s xs in if x == s then rest else x ∷ rest

-- `BeginTick` and `EndTick`, as they are posted to the actor.
pub data Post : Type 0 where
  begin_tick : Option ℕ → Post
  end_tick : Option ℕ → Post

module _ (session_id : ℕ → ℕ) where
  add_session : Option ℕ → PlayerTick → PlayerTick
  unfolding emplace
  add_session none t = t
  add_session (some s) t =
      let (inserted, m) = emplace (session_id s) s t.world_session_map in
      if inserted
      then record { world_session_map = m; world_sessions = t.world_sessions ++ s ∷ [] }
      else record t { world_session_map = m }

  remove_session : Option ℕ → PlayerTick → PlayerTick
  unfolding remove_key remove
  remove_session none t = t
  remove_session (some s) t = record {
    world_session_map = remove_key (session_id s) t.world_session_map;
    world_sessions = remove s t.world_sessions;
  }

  receive : Post → PlayerTick → PlayerTick
  unfolding add_session remove_session
  receive (begin_tick s) t = add_session s t
  receive (end_tick s) t = remove_session s t

  pub receive_all : List Post → PlayerTick → PlayerTick
  unfolding receive
  receive_all [] t = t
  receive_all (p ∷ ps) t = receive_all ps (receive p t)

-- How often a session is listed, and how often it should be: what its last post says, if it has one.
unfoldable pub times : ℕ → List ℕ → ℕ
times s [] = 0
times s (x ∷ xs) = let rest = times s xs in if x == s then rest + 1 else rest

wanted_by : Post → ℕ → ℕ → ℕ
wanted_by (begin_tick none) s n = n
wanted_by (begin_tick (some a)) s n = if a == s then 1 else n
wanted_by (end_tick none) s n = n
wanted_by (end_tick (some a)) s n = if a == s then 0 else n

pub wanted : List Post → ℕ → ℕ → ℕ
unfolding wanted_by
wanted [] s n = n
wanted (p ∷ ps) s n = wanted ps s (wanted_by p s n)

abbrev present : Option ℕ → ℕ
present none = 0
present (some s) = 1

-- The list and the map agree: a session is listed once if its id is a key, else never.
unfoldable pub IsTicking : (ℕ → ℕ) → PlayerTick → Type 0
unfolding times lookup
IsTicking session_id t =
    (s : ℕ) → times s t.world_sessions ≡ present (lookup (session_id s) t.world_session_map)

times-append :
    (s a : ℕ) (xs : List ℕ)
    → times s (xs ++ a ∷ []) ≡ (if a == s then times s xs + 1 else times s xs)
unfolding times
times-append s a [] = ground arith
times-append s a (x ∷ xs) = ground (arith, times-append s a xs)

times-remove : (s a : ℕ) (xs : List ℕ) → times s (remove a xs) ≡ (if a == s then 0 else times s xs)
unfolding times remove
times-remove s a [] = ground arith
times-remove s a (x ∷ xs) = ground (arith, times-remove s a xs)

module _ (session_id : ℕ → ℕ) (distinct : (s a : ℕ) → session_id s ≡ session_id a → s ≡ a) where
  same_session : (s a : ℕ) → (session_id a == session_id s) ≡ (a == s)
  same_session s a = ground (arith, distinct a s)

  listed-present :
      (a s : ℕ) (t : PlayerTick) {o : Option ℕ}
      → IsTicking session_id t
      → lookup (session_id a) t.world_session_map ≡ o
      → a ≡ s
      → times s t.world_sessions ≡ present o
  unfolding IsTicking
  listed-present a s t h e same = ap (λ x. times x t.world_sessions) (sym same) ∙ h a ∙ ap present e

  add_session-times :
      (a s : ℕ) (t : PlayerTick)
      → IsTicking session_id t
      → times s (add_session session_id (some a) t).world_sessions
        ≡ (if a == s then 1 else times s t.world_sessions)
  unfolding add_session emplace
  add_session-times a s t h = elim (Option-cases (lookup (session_id a) t.world_session_map)) [
    | inl n ↦
        rw (n, add_session, emplace, times-append s a t.world_sessions) ground
          (arith, listed-present a s t h n)
    | inr (b, e) ↦ rw (e, add_session, emplace) (ground (arith, listed-present a s t h e))
  ]

  present-same :
      (a s : ℕ) (m : List (ℕ × ℕ)) {o : Option ℕ}
      → lookup (session_id a) m ≡ o
      → a ≡ s
      → present (lookup (session_id s) m) ≡ present o
  present-same a s m e same = ap (λ x. present (lookup (session_id x) m)) (sym same) ∙ ap present e

  add_session-lookup :
      (a s : ℕ) (t : PlayerTick)
      → present (lookup (session_id s) (add_session session_id (some a) t).world_session_map)
        ≡ (if a == s then 1 else present (lookup (session_id s) t.world_session_map))
  unfolding add_session emplace lookup
  add_session-lookup a s t = elim (Option-cases (lookup (session_id a) t.world_session_map)) [
    | inl n ↦ rw (n, add_session, emplace, same_session s a) ground arith
    | inr (b, e) ↦
        rw (e, add_session, emplace) (ground (arith, present-same a s t.world_session_map e))
  ]

  receive-IsTicking :
      (p : Post) (t : PlayerTick)
      → IsTicking session_id t
      → IsTicking session_id (receive session_id p t)
  unfolding IsTicking receive remove_session
  receive-IsTicking (begin_tick none) t h s = h s
  receive-IsTicking (begin_tick (some a)) t h s =
      ground (arith, add_session-times a s t h, add_session-lookup a s t, h s)
  receive-IsTicking (end_tick none) t h s = h s
  receive-IsTicking (end_tick (some a)) t h s = ground (
    arith,
    h s,
    times-remove s a t.world_sessions,
    lookup-remove_key (session_id s) (session_id a) t.world_session_map,
    same_session s a,
  )

  receive-times :
      (p : Post) (t : PlayerTick) (s : ℕ)
      → IsTicking session_id t
      → times s (receive session_id p t).world_sessions ≡ wanted_by p s (times s t.world_sessions)
  unfolding receive remove_session wanted_by
  receive-times (begin_tick none) t s h = refl
  receive-times (begin_tick (some a)) t s h = add_session-times a s t h
  receive-times (end_tick none) t s h = refl
  receive-times (end_tick (some a)) t s h = times-remove s a t.world_sessions

  -- If different sessions have different ids and the list and the map agree at first, then after any
  -- posts a session is listed once if the last post of it is BeginTick, never if it is EndTick, and as
  -- often as at first if there is none; and the list and the map agree.
  pub receive_all-wanted :
      (ps : List Post) (t : PlayerTick)
      → IsTicking session_id t
      → IsTicking session_id (receive_all session_id ps t)
        × ((s : ℕ)
            → times s (receive_all session_id ps t).world_sessions
              ≡ wanted ps s (times s t.world_sessions))
  unfolding receive_all wanted
  receive_all-wanted [] t h = (h, λ s. refl)
  receive_all-wanted (p ∷ ps) t h =
      let (kept, listed) =
        receive_all-wanted ps (receive session_id p t) (receive-IsTicking p t h) in
      (kept, λ s. listed s ∙ ap (wanted ps s) (receive-times p t s h))
