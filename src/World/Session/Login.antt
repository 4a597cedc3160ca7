-- ===== src/World/Session/Login.antt =====
-- How a connection to the world server becomes a player's session, and how a server registers:
-- OnRecvHelloWorldServer and OnRegisterServerReq of Source/Server/Session/WorldSession.cpp, with
-- Source/Server/World/PlayerTick.h and PlayerTick.cpp. The lobby's answer over gRPC and the database are
-- parameters.
use server.Base.{
  ℕ, ◌≡◌, ◌≢◌, ◌<◌, refl, Bool, true, false, List, [], ◌∷◌, ◌++◌, Option, some, none, arith, ◌⊎◌,
  inl, inr, if◌then◌else◌, leb, ◌||◌, Option-cases, Bool-cases, max,
}
use server.World.Session.{Result, success, database_error}

-- A number that is not positive is 0 here.
pub record HelloWorldServer : Type 0 where
  pub user_id : List ℕ
  pub access_token : List ℕ
  pub playing_server_id : ℕ
  pub playing_character_id : ℕ

pub record HelloWorldClient : Type 0 where
  pub map_uid : ℕ
  pub server_tick_interval_ms : ℕ

-- The session, whether it ticks, and the interval: it is `static` in a header, so that PlayerTick.cpp
-- and WorldSession.cpp have a copy each.
pub record Visitor : Type 0 where
  pub connected : Bool
  pub account_id : ℕ
  pub character_id : ℕ
  pub ticking : Bool
  pub player_tick_interval : ℕ
  pub session_tick_interval : ℕ
  pub sent : List HelloWorldClient

pub is_empty : List ℕ → Bool
is_empty [] = true
is_empty (c ∷ cs) = false

-- `Player::LoadFromDb`
load_from_db : Visitor → Bool
load_from_db v = true

-- `SetServerTickInterVal`
pub set_server_tick_interval : ℕ → Visitor → Visitor
set_server_tick_interval interval v = record v { player_tick_interval = max 0 interval }

-- What OnRecvHelloWorldServer posts when the lobby has answered.
pub greet : ℕ → ℕ → Visitor → Visitor
unfolding load_from_db
greet character_id account_id v =
    let v' = record v { account_id = account_id; character_id = character_id } in
    if load_from_db v'
    then record v' {
      ticking = true;
      sent =
          v'.sent
          ++ record { map_uid = 1; server_tick_interval_ms = v'.session_tick_interval } ∷ [];
    }
    else record v' { connected = false }

-- `OnRecvHelloWorldServer`; `login msg` is the account's id if the lobby's answer is ok.
pub on_recv_hello_world_server :
    (HelloWorldServer → Option ℕ) → HelloWorldServer → Visitor → Visitor
unfolding greet is_empty
on_recv_hello_world_server login msg v =
    if ((is_empty msg.access_token || is_empty msg.user_id) || leb msg.playing_server_id 0)
      || leb msg.playing_character_id 0
    then record v { connected = false }
    else elim (login msg) [
      | none ↦ record v { connected = false }
      | some account_id ↦ greet msg.playing_character_id account_id v
    ]

-- `OnRegisterServerReq`: `upsert` and `select` are the results of both procedures, `fetched` the row.
unfoldable on_register_server_req : Bool → Bool → Option ℕ → Result × ℕ
on_register_server_req upsert select fetched =
    if upsert
    then (if select
        then elim fetched [ none ↦ (database_error, 0) | some server_id ↦ (success, server_id) ]
        else (database_error, 0))
    else (database_error, 0)

is_empty-true : (t : List ℕ) → is_empty t ≡ true → t ≡ []
unfolding is_empty
is_empty-true [] e = refl
is_empty-true (c ∷ t) e = cc

is_empty-false : (t : List ℕ) → is_empty t ≡ false → t ≢ []
unfolding is_empty
is_empty-false [] e q = cc
is_empty-false (c ∷ t) e q = cc

-- A connected visitor stays connected exactly if its message has both texts and both numbers and the lobby
-- accepts it. It then has the account and the character, ticks, and is sent one greeting, whose interval is
-- the same whatever interval was set before. Otherwise it is sent nothing.
pub on_recv_hello_world_server_lem :
    (login : HelloWorldServer → Option ℕ) (msg : HelloWorldServer) (interval : ℕ) (v : Visitor)
    → v.connected ≡ true
    → let v' = on_recv_hello_world_server login msg (set_server_tick_interval interval v) in
      ((account_id : ℕ) × ((msg.user_id ≢ [])
          × (msg.access_token ≢ [])
          × (0 < msg.playing_server_id)
          × (0 < msg.playing_character_id)
          × (login msg ≡ some account_id))
        × (v' ≡ record v {
          account_id = account_id;
          character_id = msg.playing_character_id;
          ticking = true;
          player_tick_interval = max 0 interval;
          sent =
              v.sent
              ++ record { map_uid = 1; server_tick_interval_ms = v.session_tick_interval } ∷ [];
        }))
      ⊎ (((msg.user_id ≡ [])
            ⊎ (msg.access_token ≡ [])
            ⊎ (msg.playing_server_id ≡ 0)
            ⊎ (msg.playing_character_id ≡ 0)
            ⊎ (login msg ≡ none))
          × (v' ≡ record v { connected = false; player_tick_interval = max 0 interval }))
unfolding on_recv_hello_world_server set_server_tick_interval
on_recv_hello_world_server_lem login msg interval v h = elim (Bool-cases (is_empty msg.user_id)) [
  | inl u ↦ inr (inl (is_empty-true msg.user_id u), ground arith)
  | inr u ↦ elim (Bool-cases (is_empty msg.access_token)) [
    | inl t ↦ inr (inr (inl (is_empty-true msg.access_token t)), ground arith)
    | inr t ↦ elim (Bool-cases (leb msg.playing_server_id 0)) [
      | inl s ↦ inr (inr (inr (inl (ground arith))), ground arith)
      | inr s ↦ elim (Bool-cases (leb msg.playing_character_id 0)) [
        | inl c ↦ inr (inr (inr (inr (inl (ground arith)))), ground arith)
        | inr c ↦ elim (Option-cases (login msg)) [
          | inl l ↦ inr (inr (inr (inr (inr l))), ground arith)
          | inr (account_id, l) ↦ inl (
            account_id,
            (
              is_empty-false msg.user_id u,
              is_empty-false msg.access_token t,
              ground arith,
              ground arith,
              l,
            ),
            ground arith,
          )
        ]
      ]
    ]
  ]
]
