-- ===== src/World/Session/Visits.antt =====
-- A session's way into a section and out of it.
use server.Base.{ℕ, ◌≡◌, ◌≢◌, ◌<◌, refl, true, false, [], ◌∷◌, ◌++◌, some, none, arith}
use server.World.Session.{
  WorldSession, Pose, client_enter_map_notify, enter_section, read_pose, set_client, leave_notify,
  on_section_entered, on_section_left,
}
use server.World.Session.Handlers.{on_recv_client_enter_map_req}

-- A session that is in no section and asks for a map twice, before the section has been entered, asks to enter
-- both maps. If the section was entered in between, the second request changes nothing.
enter_map-enter_map :
    (m n : ℕ) (p q : Pose) (c : ℕ) (s : WorldSession)
    → s.section ≡ none
    → 0 < m
    → 0 < n
    → let s' = on_recv_client_enter_map_req m p s in
      ((on_recv_client_enter_map_req n q s').calls
        ≡ (((s.calls ++ read_pose p ∷ []) ++ enter_section m ∷ []) ++ read_pose q ∷ [])
          ++ enter_section n ∷ [])
      × (on_recv_client_enter_map_req n q (on_section_entered (some c) s')
          ≡ on_section_entered (some c) s')
unfolding on_recv_client_enter_map_req on_section_entered
enter_map-enter_map m n p q c s e h k = (ground arith, ground arith)

-- A session that has entered a section, told its client and given itself to the character, is in none when it
-- is told that it left that section, and others there are told. That it left another section, or left once
-- more, changes nothing.
on_section_left-on_section_entered :
    (c d : ℕ) (s : WorldSession)
    → c ≢ d
    → let s' = on_section_entered (some c) s in
      let s'' = on_section_left c s' in
      (s'.section ≡ some c)
      × (s'.sent ≡ s.sent ++ client_enter_map_notify c ∷ [])
      × (on_section_left d s' ≡ s')
      × (s''.section ≡ none)
      × (s''.calls
          ≡ ((s.calls ++ set_client true ∷ []) ++ set_client false ∷ [])
            ++ leave_notify c s.character_id ∷ [])
      × (on_section_left c s'' ≡ s'')
unfolding on_section_left on_section_entered
on_section_left-on_section_entered c d s ne =
    (refl, refl, ground arith, ground arith, ground arith, ground arith)
