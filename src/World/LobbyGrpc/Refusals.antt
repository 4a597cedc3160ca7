-- ===== src/World/LobbyGrpc/Refusals.antt =====
-- What a world server makes of a login that the lobby refuses.
use server.Base.{
  ℕ, ◌≡◌, ◌≢◌, ◌<◌, ◌≤◌, refl, ap, ◌∙◌, true, [], ◌∷◌, ◌++◌, length, Option, some, arith, ◌⊎◌, inl,
  inr, max,
}
use server.World.Session.Login.{
  HelloWorldServer, Visitor, on_recv_hello_world_server, on_recv_hello_world_server_lem,
  set_server_tick_interval,
}
use server.World.LobbyGrpc.{
  Database, LoginRequest, not_found, success, answer, answer-cases, character_login-answer,
  first_account, call_character_login, ok, login,
}

-- The request that a message of a client leads to.
abbrev pub request_of : HelloWorldServer → LoginRequest
request_of msg = record {
  access_token = msg.access_token;
  playing_server_id = msg.playing_server_id;
  playing_character_id = msg.playing_character_id;
}

login-some :
    (db : Database) (msg : HelloWorldServer)
    → length msg.access_token ≤ 256
    → login true db msg
      ≡ some
          (answer db
            (request_of msg)
            (first_account (db.select_by_token msg.access_token))).0.account_id
unfolding login call_character_login ok
login-some db msg short =
    rw (login, call_character_login, character_login-answer db (request_of msg) short) refl

-- The visitor that is greeted with this account.
abbrev pub greeted : HelloWorldServer → ℕ → Visitor → ℕ → Visitor
greeted msg interval v account = record v {
  account_id = account;
  character_id = msg.playing_character_id;
  ticking = true;
  player_tick_interval = max 0 interval;
  sent = v.sent ++ record { map_uid = 1; server_tick_interval_ms = v.session_tick_interval } ∷ [];
}

refused-account :
    (db : Database) (req : LoginRequest) (found : Option ℕ)
    → let res = (answer db req found).0 in
      (res.result ≡ success) ⊎ (res ≡ record { result = not_found; account_id = 0 })
refused-account db req found = elim (answer-cases db req found) [
  | inl (id, _, _, e, _) ↦ inl (ap (λ r. r.result) e)
  | inr (e, _) ↦ inr e
]

-- A message with both texts, a token of at most 256 characters and both numbers positive makes a connected
-- visitor a player if an answer of the lobby arrives, whatever it is: the visitor stays connected, ticks, is
-- greeted, and has the account of the answer. This is a success, or kNotFound with the account 0.
pub login-greets :
    (db : Database) (msg : HelloWorldServer) (interval : ℕ) (v : Visitor)
    → v.connected ≡ true
    → msg.user_id ≢ []
    → msg.access_token ≢ []
    → length msg.access_token ≤ 256
    → 0 < msg.playing_server_id
    → 0 < msg.playing_character_id
    → let res =
        (answer db (request_of msg) (first_account (db.select_by_token msg.access_token))).0 in
      (on_recv_hello_world_server (login true db) msg (set_server_tick_interval interval v)
        ≡ greeted msg interval v res.account_id)
      × ((res.result ≡ success) ⊎ (res ≡ record { result = not_found; account_id = 0 }))
login-greets db msg interval v now user token short server character =
    let l = login-some db msg short in
    (
      elim (on_recv_hello_world_server_lem (login true db) msg interval v now) [
        | inl (account, (_, _, _, _, k), e) ↦
            let same : account ≡ _ = cc (k, l) in e ∙ ap (greeted msg interval v) same
        | inr (inl u, e) ↦ absurd (user u)
        | inr (inr (inl t), e) ↦ absurd (token t)
        | inr (inr (inr (inl s)), e) ↦ absurd (omega arith)
        | inr (inr (inr (inr (inl c))), e) ↦ absurd (omega arith)
        | inr (inr (inr (inr (inr k))), e) ↦ cc (k, l)
      ],
      refused-account db (request_of msg) _,
    )
