-- ===== src/World/Session/Handlers.antt =====
-- What a session does with its player's requests: the handlers of
-- Source/Server/Session/WorldSession.cpp that need no other server.
use server.Base.{ℕ, Bool, true, false, List, some, none, ltb, leb, if◌then◌else◌, ◌==◌}
use server.World.SpawnSystem.{Projectile, Vec3}
use server.World.Session.{
  ClientAction, Result, success, not_found, invalid_cooldown, invalid_request, base_attack_action,
  Pose, ClientActionReq, ClientActionRes, client_move_res, client_action_res,
  change_server_tick_interval_res, spawn_projectile_on_section_res, enter_section, read_pose,
  post_read_pose, post_spawn_object, move_notify, action_notify, set_tick_interval, WorldSession,
  send, call, issue_action, consume_action,
}

is_success : Result → Bool
is_success success = true
is_success other = false

-- `too_early now last` is `diff_seconds < 0`, and `expected t now last` the time stamp that the reply has.
module _ (issue : ℕ → ℕ) (too_early : ℕ → ℕ → Bool) (expected : ℕ → ℕ → ℕ → ℕ) where
  -- `OnVerifyClientAction`
  unfoldable pub on_verify_client_action :
      ℕ → ClientActionReq → WorldSession → ClientActionRes × WorldSession
  unfolding issue_action
  on_verify_client_action now msg s =
      let stamp = expected msg.attack_timestamp now s.last_base_attack_tick in
      if msg.action_type == base_attack_action
      then (if too_early now s.last_base_attack_tick
          then (
            record { result = invalid_cooldown; attack_timestamp = stamp; client_timestamp = 0 },
            s,
          )
          else (
            record { result = success; attack_timestamp = stamp; client_timestamp = 0 },
            record (issue_action issue now base_attack_action 50000 s) {
              last_base_attack_tick = now;
            },
          ))
      else (record { result = success; attack_timestamp = 0; client_timestamp = 0 }, s)

  -- `OnRecvClientActionReq`
  unfoldable pub on_recv_client_action_req : ℕ → ClientActionReq → WorldSession → WorldSession
  unfolding on_verify_client_action send call is_success
  on_recv_client_action_req now msg s = elim s.section [
    | none ↦ s
    | some section ↦
        let (res, s') = on_verify_client_action now msg s in
        let s'' =
          send (client_action_res (record res { client_timestamp = msg.client_timestamp })) s' in
        if is_success res.result then call (action_notify s.character_id msg) s'' else s''
  ]

-- `OnRecvClientMoveReq`
unfoldable pub on_recv_client_move_req : Pose → ℕ → WorldSession → WorldSession
unfolding send call
on_recv_client_move_req pose client_timestamp s = elim s.section [
  | none ↦ s
  | some section ↦
      send (client_move_res client_timestamp)
        (call (move_notify s.character_id pose) (call (post_read_pose pose) s))
]

-- `OnRecvChangeServerTickIntervalReq`; an interval that is not positive is 0 here.
unfoldable pub on_recv_change_server_tick_interval_req : ℕ → WorldSession → WorldSession
unfolding send call
on_recv_change_server_tick_interval_req interval s =
    if leb interval 0
    then s
    else send (change_server_tick_interval_res interval) (call (set_tick_interval interval) s)

-- `OnRecvClientEnterMapReq`; a map's number that is not positive is 0 here.
unfoldable pub on_recv_client_enter_map_req : ℕ → Pose → WorldSession → WorldSession
unfolding call
on_recv_client_enter_map_req map_uid pose s = elim s.section [
  | some section ↦ s
  | none ↦ if ltb 0 map_uid then call (enter_section map_uid) (call (read_pose pose) s) else s
]

-- `world::SpawnProjectileOnSectionReq`: the pose of the character, that of the projectile, its speed.
pub record SpawnProjectileReq : Type 0 where
  pub character_pose : Pose
  pub pose : Pose
  pub projectile_speed : ℕ

-- The arithmetic: `GetExpectedPosition` at a tick, `IsValidProjectile`, the test of the speed, the
-- projectile's position moved by as much as the character's expected one differs from its pose, the rotation
-- of a pose, `ForwardVectorFromEuler`, and `simulate_trajectory`.
pub record Flight : Type 0 where
  pub expected_position : ℕ → Vec3
  pub is_valid_projectile : Vec3 → Pose → Bool
  pub is_bad_speed : ℕ → Bool
  pub adjusted : Vec3 → Pose → Pose → Vec3
  pub rotation_of : Pose → Vec3
  pub forward : Vec3 → Vec3
  pub simulate_trajectory : Projectile → List Vec3

-- 5000.f, as its bits.
abbrev pub projectile_speed : ℕ
projectile_speed = 0x459C4000

module _ (f : Flight) where
  -- The projectile that an action pays for.
  new_projectile : ClientAction → ℕ → Vec3 → SpawnProjectileReq → Projectile
  new_projectile action player_character_id expected msg = record {
    object_id = action.action_id;
    trigger_id = player_character_id;
    action_id = 0;
    damage = 20;
    position = f.adjusted expected msg.character_pose msg.pose;
    rotation = f.rotation_of msg.pose;
    direction = f.forward (f.rotation_of msg.pose);
    initial_speed = projectile_speed;
    lifetime_seconds = 30;
  }

  -- `OnRecvSpawnProjectileOnSectionReq`
  unfoldable pub on_recv_spawn_projectile_on_section_req :
      ℕ → SpawnProjectileReq → WorldSession → WorldSession
  unfolding send call consume_action new_projectile
  on_recv_spawn_projectile_on_section_req now msg s =
      let refused = send (spawn_projectile_on_section_res invalid_request none) s in
      let expected = f.expected_position now in
      let (found, s') = consume_action base_attack_action s in
      elim s.section [
        | none ↦ send (spawn_projectile_on_section_res not_found none) s
        | some section ↦
            if f.is_valid_projectile expected msg.character_pose
            then (if f.is_bad_speed msg.projectile_speed then refused else elim found [
              | none ↦ refused
              | some action ↦
                  let projectile = new_projectile action s.player_character_id expected msg in
                  call
                    (post_spawn_object projectile (
                      spawn_projectile_on_section_res success
                        (some (projectile.object_id, f.simulate_trajectory projectile))))
                    s'
            ])
            else refused
      ]
