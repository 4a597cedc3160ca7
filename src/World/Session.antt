-- ===== src/World/Session.antt =====
-- A player's session with the world server: Source/Server/Session/WorldSession.cpp. The session's own
-- replies are `sent`; what it asks of its section, of the repository of sections and of the connection is
-- `calls`, in order. Floats are bit patterns, and the arithmetic on them parameters. `issue n` is the n-th id
-- of `UniqueId::Issue`, and a section a handle.
pub mod Handlers
pub mod Spawning
pub mod Login
pub mod Queue
pub mod Attacks
pub mod Ledger
pub mod Visits
mod Tests
use server.Base.{
  ℕ, ◌+◌, ◌*◌, Bool, true, false, List, [], ◌∷◌, ◌++◌, Option, some, none, leb, if◌then◌else◌, ◌==◌,
}
use server.World.SpawnSystem.{Projectile, Vec3}

-- `types::Result`
pub data Result : Type 0 where
  success : Result
  not_found : Result
  unauthorized : Result
  internal_error : Result
  invalid_cooldown : Result
  invalid_request : Result
  database_error : Result

-- `types::ClientAction::kBaseAttackAction`
abbrev pub base_attack_action : ℕ
base_attack_action = 4

pub record ClientAction : Type 0 where
  pub action_id : ℕ
  pub action_type : ℕ
  pub action_time : ℕ
  pub expire_time : ℕ

-- A pose, as it stands in a message.
abbrev pub Pose : Type 0
Pose = ℕ

-- `world::ClientActionReq`: the type of its action, and both time stamps.
pub record ClientActionReq : Type 0 where
  pub action_type : ℕ
  pub attack_timestamp : ℕ
  pub client_timestamp : ℕ

pub record ClientActionRes : Type 0 where
  pub result : Result
  pub attack_timestamp : ℕ
  pub client_timestamp : ℕ

pub data Message : Type 0 where
  client_enter_map_notify : ℕ → Message
  client_move_res : ℕ → Message
  client_action_res : ClientActionRes → Message
  change_server_tick_interval_res : ℕ → Message
  spawn_projectile_on_section_res : Result → Option (ℕ × List Vec3) → Message

-- What is asked of others. `post_read_pose` and `post_spawn_object`, which then sends its message, are
-- posted to the section.
pub data Call : Type 0 where
  end_tick : Call
  leave_section : ℕ → Call
  enter_section : ℕ → Call
  set_client : Bool → Call
  read_pose : Pose → Call
  post_read_pose : Pose → Call
  post_spawn_object : Projectile → Message → Call
  leave_notify : ℕ → ℕ → Call
  move_notify : ℕ → Pose → Call
  action_notify : ℕ → ClientActionReq → Call
  set_tick_interval : ℕ → Call

pub record WorldSession : Type 0 where
  pub session_id : ℕ
  pub character_id : ℕ
  pub player_character_id : ℕ
  pub last_base_attack_tick : ℕ
  pub section : Option ℕ
  pub action_queue : List ClientAction
  pub issued : ℕ
  pub sent : List Message
  pub calls : List Call

pub send : Message → WorldSession → WorldSession
send m s = record s { sent = s.sent ++ m ∷ [] }

pub call : Call → WorldSession → WorldSession
call c s = record s { calls = s.calls ++ c ∷ [] }

-- `AddMilliseconds` of a tick, which counts nanoseconds.
add_milliseconds : ℕ → ℕ → ℕ
add_milliseconds ms tick = tick + ms * 1000000

-- `IssueAction`
pub issue_action : (ℕ → ℕ) → ℕ → ℕ → ℕ → WorldSession → WorldSession
unfolding add_milliseconds
issue_action issue now type expire_ms s =
    let action : ClientAction = record {
      action_id = issue s.issued;
      action_type = type;
      action_time = now;
      expire_time = add_milliseconds expire_ms now;
    } in
    record s { action_queue = s.action_queue ++ action ∷ []; issued = s.issued + 1 }

-- `ConsumeAction`: the first of the type, and the queue without it.
pub take_action : ℕ → List ClientAction → Option (ClientAction × List ClientAction)
take_action type [] = none
take_action type (a ∷ queue) =
    if a.action_type == type
    then some (a, queue)
    else elim (take_action type queue) [ none ↦ none | some (b, bs) ↦ some (b, a ∷ bs) ]

pub consume_action : ℕ → WorldSession → Option ClientAction × WorldSession
unfolding take_action
consume_action type s = elim (take_action type s.action_queue) [
  | none ↦ (none, s)
  | some (a, queue) ↦ (some a, record s { action_queue = queue })
]

-- `OnSectionTick`
pub unexpired : ℕ → List ClientAction → List ClientAction
unexpired tick [] = []
unexpired tick (a ∷ queue) =
    let rest = unexpired tick queue in if leb a.expire_time tick then rest else a ∷ rest

pub on_section_tick : ℕ → WorldSession → WorldSession
unfolding unexpired
on_section_tick tick s = record s { action_queue = unexpired tick s.action_queue }

-- `OnDisconnected`; a section's handle stands for its map.
unfoldable pub on_disconnected : WorldSession → WorldSession
unfolding call
on_disconnected s =
    let s' = call end_tick s in
    elim s.section [ none ↦ s' | some section ↦ call (leave_section section) s' ]

-- `OnSectionEntered`
pub on_section_entered : Option ℕ → WorldSession → WorldSession
unfolding call send
on_section_entered none s = s
on_section_entered (some section) s =
    send (client_enter_map_notify section)
      (call (set_client true) (record s { section = some section }))

pub is_section : ℕ → Option ℕ → Bool
is_section section none = false
is_section section (some t) = t == section

-- `OnSectionLeft`
pub on_section_left : ℕ → WorldSession → WorldSession
unfolding call is_section
on_section_left section s =
    if is_section section s.section
    then call (leave_notify section s.character_id)
        (call (set_client false) (record s { section = none }))
    else s
