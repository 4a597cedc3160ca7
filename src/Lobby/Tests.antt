-- ===== src/Lobby/Tests.antt =====
-- A database that has everything and stores under 5, and a web service that knows one token.
use server.Base.{length, ◌≤◌, arith, ◌≡◌, ◌≢◌, ◌↔◌, refl, true, [], ◌∷◌, ◌++◌, some, none}
use server.Lobby.Models.{Text, Account, GameServer, TokenInfo, Database, load_server}
use server.Lobby.Authenticator.{
  user_id, username, WebService, http_ok, consume_token, consume_token-some,
}
use server.Lobby.{
  success, create_character_res, play_start_character_res, LobbySession, on_hello_server,
  on_create_character_req, on_play_start_character_req,
}
use server.Lobby.Accounts.{Settles, on_hello_server-Settles}
use server.Lobby.Characters.{created, CanCreate, play_start-create}

abbrev web : WebService
web = record {
  Json = Text;
  post = λ token. (200, token);
  parse = λ body. some body;
  try_get_text = λ json field. json;
}

abbrev info : TokenInfo
info = record { user_id = 1 ∷ []; username = 1 ∷ []; access_token = 1 ∷ [] }

consume_token-some_example : (consume_token web (1 ∷ []) ≡ some info) ↔ (
    ((web.post (1 ∷ [])).0 ≡ http_ok)
    × ((json : web.Json) × (web.parse (web.post (1 ∷ [])).1 ≡ some json)
        × (web.try_get_text json user_id ≡ info.user_id)
        × (web.try_get_text json username ≡ info.username))
    × (info.user_id ≢ [])
    × (info.username ≢ [])
    × (info.access_token ≡ 1 ∷ []))
consume_token-some_example = consume_token-some web (1 ∷ []) info

abbrev game_server : GameServer
game_server = record {
  server_id = 3;
  server_type = 1;
  server_address = 9 ∷ [];
  level_map_name = [];
}

abbrev database : Database
database = record {
  upsert_account = λ a. some 4;
  select_account =
      λ id. some (record { account_id = 4; username = 1 ∷ []; access_token = 1 ∷ [] } ∷ []);
  upsert_character = λ c. some 5;
  select_characters = λ a s. some [];
  check_character_name = λ name. true;
  select_server = λ id. some (game_server ∷ []);
  select_servers = λ t. none;
}

abbrev account : Account
account = record { account_id = 4; user_id = 1 ∷ []; username = 1 ∷ []; access_token = 1 ∷ [] }

abbrev session : LobbySession
session = record { connected = true; account = some account; characters = []; sent = [] }

on_hello_server-Settles_example :
    Settles database (some info) session (on_hello_server database (some info) session)
on_hello_server-Settles_example = on_hello_server-Settles database (some info) session refl

can_create :
    (name : Text) → length name ≤ 128 → CanCreate database account name 3 5 game_server session
unfolding load_server
can_create name short = record {
  short = short;
  connected = refl;
  loaded = refl;
  unused = refl;
  server = refl;
  stored = refl;
}

play_start-create_example :
    (s' : LobbySession) × (on_create_character_req database (7 ∷ []) 3 session ≡ some s')
    × ((on_play_start_character_req database 5 3 s').sent
        ≡ (session.sent ++ create_character_res success (some (created 5 account (7 ∷ []) 3)) ∷ [])
          ++ play_start_character_res success
              (some (game_server.server_address, game_server.server_id, 5))
            ∷ [])
play_start-create_example =
    play_start-create database account 7 [] 3 5 game_server session
      (can_create (7 ∷ []) (omega arith))
