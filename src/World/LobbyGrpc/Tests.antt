-- ===== src/World/LobbyGrpc/Tests.antt =====
-- A lobby whose database knows no token, and three completions.
use server.Base.{
  Bool, Option, List, ℕ, ◌+◌, ◌≡◌, refl, true, false, [], ◌∷◌, none, some, arith, ◌⊎◌,
}
use server.World.Session.Login.{
  HelloWorldServer, Visitor, on_recv_hello_world_server, set_server_tick_interval,
}
use server.World.LobbyGrpc.{Database, success, not_found, answer, first_account, login}
use server.World.LobbyGrpc.Refusals.{request_of, login-greets, greeted}
use server.World.LobbyGrpc.Calls.{
  completions, begin_accept, waiting, lost, requests, answers, completions-begin_accept,
}

abbrev no_accounts : Database
no_accounts = record {
  select_by_token = λ t. some [];
  check_character = λ a s c. true;
  upsert_server = λ a t. true;
  fresh = [];
}

abbrev message : HelloWorldServer
message = record {
  user_id = b'u' ∷ [];
  access_token = b't' ∷ [];
  playing_server_id = 1;
  playing_character_id = 4;
}

abbrev visitor : Visitor
visitor = record {
  connected = true;
  account_id = 0;
  character_id = 0;
  ticking = false;
  player_tick_interval = 50;
  session_tick_interval = 50;
  sent = [];
}

login-greets_example :
    let res = (answer no_accounts (request_of message) (first_account (some []))).0 in
    (on_recv_hello_world_server
        (login true no_accounts)
        message
        (set_server_tick_interval 20 visitor)
      ≡ greeted message 20 visitor res.account_id)
    × ((res.result ≡ success) ⊎ (res ≡ record { result = not_found; account_id = 0 }))
login-greets_example =
    login-greets no_accounts message 20 visitor refl (λ e. cc e) (λ e. cc e) (omega arith)
      (omega arith) (omega arith)

abbrev events : List (ℕ × Bool × Option ℕ)
events = (0, true, some 5) ∷ (0, true, none) ∷ (0, false, none) ∷ []

completions-begin_accept_example :
    let (cs, os) = completions 9 events (begin_accept 9) in
    (requests os ≡ answers os + 1)
    × (((waiting cs ≡ 1) × (lost cs ≡ 0)) ⊎ ((waiting cs ≡ 0) × (lost cs ≡ 1)))
completions-begin_accept_example = completions-begin_accept 9 events

-- The call that waits is passed over, and no other is made.
none_waits : waiting (completions 9 events (begin_accept 9)).0 ≡ 0
unfolding completions begin_accept waiting
none_waits = refl
