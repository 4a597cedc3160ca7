-- ===== src/World/Session/Attacks.antt =====
-- The base attacks of a session over any sequence of requests, and the projectiles that they pay for.
use server.Base.{
  ℕ, zero, suc, ◌+◌, ◌≡◌, refl, ap, ◌∙◌, Bool, false, List, [], ◌∷◌, ◌++◌, Option, some, none, inl,
  inr, Bool-cases, Option-cases, ◌==◌, if◌then◌else◌, leb, ltb, append-nil,
}
use server.World.Session.{
  ClientAction, ClientActionReq, Pose, Call, post_spawn_object, WorldSession, base_attack_action,
  consume_action, unexpired, on_section_tick, on_section_entered, on_section_left, on_disconnected,
  is_section,
}
use server.World.Session.Handlers.{
  SpawnProjectileReq, Flight, on_verify_client_action, on_recv_client_action_req,
  on_recv_client_move_req, on_recv_change_server_tick_interval_req, on_recv_client_enter_map_req,
  on_recv_spawn_projectile_on_section_req,
}
use server.World.Session.Queue.{HasNone, AllType, consume_action_lem, IsSublist, ids}

pub data Request : Type 0 where
  client_action : ℕ → ClientActionReq → Request
  spawn_projectile : ℕ → SpawnProjectileReq → Request
  client_move : Pose → ℕ → Request
  change_tick_interval : ℕ → Request
  enter_map : ℕ → Pose → Request
  section_tick : ℕ → Request
  section_entered : Option ℕ → Request
  section_left : ℕ → Request
  disconnected : Request

-- The arithmetic on floats, and the ids.
pub record Rules : Type 0 where
  pub issue : ℕ → ℕ
  pub too_early : ℕ → ℕ → Bool
  pub expected : ℕ → ℕ → ℕ → ℕ
  pub flight : Flight

-- The ids of the projectiles that the section is asked to spawn.
abbrev pub shots : List Call → List ℕ
shots [] = []
shots (post_spawn_object p m ∷ cs) = p.object_id ∷ shots cs
shots (c ∷ cs) = shots cs

module _ (r : Rules) where
  unfoldable pub handle : Request → WorldSession → WorldSession
  unfolding on_recv_client_action_req on_recv_spawn_projectile_on_section_req
      on_recv_client_move_req on_recv_change_server_tick_interval_req on_recv_client_enter_map_req
  handle (client_action now msg) = on_recv_client_action_req r.issue r.too_early r.expected now msg
  handle (spawn_projectile now msg) = on_recv_spawn_projectile_on_section_req r.flight now msg
  handle (client_move pose t) = on_recv_client_move_req pose t
  handle (change_tick_interval i) = on_recv_change_server_tick_interval_req i
  handle (enter_map m pose) = on_recv_client_enter_map_req m pose
  handle (section_tick t) = on_section_tick t
  handle (section_entered c) = on_section_entered c
  handle (section_left c) = on_section_left c
  handle disconnected = on_disconnected

  unfoldable pub run : List Request → WorldSession → WorldSession
  unfolding handle
  run [] s = s
  run (q ∷ qs) s = run qs (handle q s)

  -- The ticks of the base attacks that are accepted: those at which an action is issued.
  unfoldable pub accepted : List Request → WorldSession → List ℕ
  unfolding handle
  accepted [] s = []
  accepted (q ∷ qs) s =
      let s' = handle q s in
      let rest = accepted qs s' in
      if s'.issued == s.issued then rest else s'.last_base_attack_tick ∷ rest

  -- The first `n` ids.
  abbrev pub issued_ids : ℕ → List ℕ
  issued_ids zero = []
  issued_ids (suc n) = issued_ids n ++ r.issue n ∷ []

  pub record IsLedger (s : WorldSession) : Type 0 where
    pub typed : AllType base_attack_action s.action_queue
    pub listed : IsSublist (shots s.calls ++ ids s.action_queue) (issued_ids s.issued)

shots-append : (cs ds : List Call) → shots (cs ++ ds) ≡ shots cs ++ shots ds
shots-append [] ds = refl
shots-append (post_spawn_object p m ∷ cs) ds = ap (◌∷◌ p.object_id) (shots-append cs ds)
shots-append (c ∷ cs) ds = shots-append cs ds

abbrev IsQuiet : Call → Type 0
IsQuiet c = shots (c ∷ []) ≡ []

shots-quiet : (cs : List Call) (c : Call) → IsQuiet c → shots (cs ++ c ∷ []) ≡ shots cs
shots-quiet cs c q = shots-append cs (c ∷ []) ∙ ap (λ l. shots cs ++ l) q ∙ append-nil (shots cs)

module _ (r : Rules) where
  -- What a request can do to the queue, the ids, the last attack and the shots.
  pub data Effect (s s' : WorldSession) : Type 0 where
    quiet :
        s'.action_queue ≡ s.action_queue
        → s'.issued ≡ s.issued
        → s'.last_base_attack_tick ≡ s.last_base_attack_tick
        → shots s'.calls ≡ shots s.calls
        → Effect s s'
    expired :
        (tick : ℕ)
        → s'.action_queue ≡ unexpired tick s.action_queue
        → s'.issued ≡ s.issued
        → s'.last_base_attack_tick ≡ s.last_base_attack_tick
        → shots s'.calls ≡ shots s.calls
        → Effect s s'
    attacked :
        (a : ClientAction)
        → a.action_id ≡ r.issue s.issued
        → a.action_type ≡ base_attack_action
        → r.too_early s'.last_base_attack_tick s.last_base_attack_tick ≡ false
        → s'.action_queue ≡ s.action_queue ++ a ∷ []
        → s'.issued ≡ s.issued + 1
        → shots s'.calls ≡ shots s.calls
        → Effect s s'
    shot :
        (before : List ClientAction) (a : ClientAction) (after : List ClientAction)
        → s.action_queue ≡ before ++ (a ∷ after)
        → HasNone base_attack_action before
        → s'.action_queue ≡ before ++ after
        → s'.issued ≡ s.issued
        → s'.last_base_attack_tick ≡ s.last_base_attack_tick
        → shots s'.calls ≡ shots s.calls ++ a.action_id ∷ []
        → Effect s s'

  client_action-Effect :
      (now : ℕ) (msg : ClientActionReq) (s : WorldSession)
      → Effect s (handle r (client_action now msg) s)
  unfolding handle on_recv_client_action_req
  client_action-Effect now msg s = elim (Option-cases s.section) [
    | inl e ↦ rw (e, on_recv_client_action_req) (quiet refl refl refl refl)
    | inr (section, e) ↦ elim (Bool-cases (msg.action_type == base_attack_action)) [
      | inr f ↦
          rw (e, f, on_recv_client_action_req, on_verify_client_action)
            (quiet refl refl refl (shots-quiet s.calls _ refl))
      | inl f ↦ elim (Bool-cases (r.too_early now s.last_base_attack_tick)) [
        | inl g ↦
            rw (e, f, g, on_recv_client_action_req, on_verify_client_action)
              (quiet refl refl refl refl)
        | inr g ↦
            rw (e, f, g, on_recv_client_action_req, on_verify_client_action)
              (attacked _ refl refl g refl refl (shots-quiet s.calls _ refl))
      ]
    ]
  ]

  spawn_projectile-Effect :
      (now : ℕ) (msg : SpawnProjectileReq) (s : WorldSession)
      → Effect s (handle r (spawn_projectile now msg) s)
  unfolding handle on_recv_spawn_projectile_on_section_req
  spawn_projectile-Effect now msg s = elim (Option-cases s.section) [
    | inl e ↦ rw (e, on_recv_spawn_projectile_on_section_req) (quiet refl refl refl refl)
    | inr (section, e) ↦
        elim (Bool-cases
          (r.flight.is_valid_projectile (r.flight.expected_position now) msg.character_pose)) [
            | inr v ↦ rw (e, v, on_recv_spawn_projectile_on_section_req) (quiet refl refl refl refl)
            | inl v ↦ elim (Bool-cases (r.flight.is_bad_speed msg.projectile_speed)) [
              | inl b ↦
                  rw (e, v, b, on_recv_spawn_projectile_on_section_req) (quiet refl refl refl refl)
              | inr b ↦ elim (consume_action_lem base_attack_action s) [
                | inl (c, h) ↦
                    rw (e, v, b, on_recv_spawn_projectile_on_section_req, c)
                      (quiet refl refl refl refl)
                | inr (before, a, after, q, f, c) ↦
                    rw (e, v, b, on_recv_spawn_projectile_on_section_req, c)
                      (shot before a after q f.none_before (ap (λ x. x.1.action_queue) c)
                        (ap (λ x. x.1.issued) c) (ap (λ x. x.1.last_base_attack_tick) c)
                        (shots-append (consume_action base_attack_action s).1.calls _
                          ∙ ap (λ x. shots x.1.calls ++ a.action_id ∷ []) c))
              ]
            ]
          ]
  ]

  -- Every request has such an effect.
  pub handle-Effect : (q : Request) (s : WorldSession) → Effect s (handle r q s)
  unfolding handle on_recv_client_move_req on_recv_change_server_tick_interval_req
      on_recv_client_enter_map_req on_section_tick on_section_entered on_section_left
      on_disconnected
  handle-Effect (client_action now msg) s = client_action-Effect now msg s
  handle-Effect (spawn_projectile now msg) s = spawn_projectile-Effect now msg s
  handle-Effect (client_move pose t) s = elim (Option-cases s.section) [
    | inl e ↦ rw (e, on_recv_client_move_req) (quiet refl refl refl refl)
    | inr (section, e) ↦
        rw (e, on_recv_client_move_req)
          (quiet refl refl refl (shots-quiet (s.calls ++ _) _ refl ∙ shots-quiet s.calls _ refl))
  ]
  handle-Effect (change_tick_interval i) s = elim (Bool-cases (leb i 0)) [
    | inl e ↦ rw (e, on_recv_change_server_tick_interval_req) (quiet refl refl refl refl)
    | inr e ↦
        rw (e, on_recv_change_server_tick_interval_req)
          (quiet refl refl refl (shots-quiet s.calls _ refl))
  ]
  handle-Effect (enter_map m pose) s = elim (Option-cases s.section) [
    | inr (section, e) ↦ rw (e, on_recv_client_enter_map_req) (quiet refl refl refl refl)
    | inl e ↦ elim (Bool-cases (ltb 0 m)) [
      | inr f ↦ rw (e, f, on_recv_client_enter_map_req) (quiet refl refl refl refl)
      | inl f ↦
          rw (e, f, on_recv_client_enter_map_req)
            (quiet refl refl refl (shots-quiet (s.calls ++ _) _ refl ∙ shots-quiet s.calls _ refl))
    ]
  ]
  handle-Effect (section_tick t) s = expired t refl refl refl refl
  handle-Effect (section_entered none) s = quiet refl refl refl refl
  handle-Effect (section_entered (some c)) s = quiet refl refl refl (shots-quiet s.calls _ refl)
  handle-Effect (section_left c) s = elim (Bool-cases (is_section c s.section)) [
    | inr e ↦ rw (e, on_section_left) (quiet refl refl refl refl)
    | inl e ↦
        rw (e, on_section_left)
          (quiet refl refl refl (shots-quiet (s.calls ++ _) _ refl ∙ shots-quiet s.calls _ refl))
  ]
  handle-Effect disconnected s = elim (Option-cases s.section) [
    | inl e ↦ rw (e, on_disconnected) (quiet refl refl refl (shots-quiet s.calls _ refl))
    | inr (section, e) ↦
        rw (e, on_disconnected)
          (quiet refl refl refl (shots-quiet (s.calls ++ _) _ refl ∙ shots-quiet s.calls _ refl))
  ]
