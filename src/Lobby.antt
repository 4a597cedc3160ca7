-- ===== src/Lobby.antt =====
-- The lobby server: a player's session with it (Source/Server/Session/LobbySession.cpp), over the models
-- of the database and the authenticator.
pub mod Models
pub mod Authenticator
pub mod Accounts
pub mod Characters
mod Tests
use server.Base.{
  ℕ, Bool, true, false, List, [], ◌∷◌, ◌++◌, Option, some, none, if◌then◌else◌, ◌==◌, lookup,
  assign, map,
}
use server.Lobby.Models.{
  Text, is_empty, Account, Character, GameServer, TokenInfo, Database, upsert_account,
  load_account_row, upsert_character, load_characters, is_character_exists, load_server,
  load_servers,
}

pub data Result : Type 0 where
  success : Result
  not_found : Result
  invalid_request : Result
  duplicated_name : Result

pub record ServerInfo : Type 0 where
  pub server_id : ℕ
  pub server_address : Text
  current_player_num : ℕ

pub data Message : Type 0 where
  hello_client : Message
  hello_client_ack : Account → Message
  world_server_info_res : List ServerInfo → Message
  create_character_res : Result → Option Character → Message
  get_character_list_res : Result → List Character → Message
  play_start_character_res : Result → Option (Text × ℕ × ℕ) → Message

-- `connected` is whether `connection_` is set. Times are left out.
pub record LobbySession : Type 0 where
  pub connected : Bool
  pub account : Option Account
  pub characters : List (ℕ × Character)
  pub sent : List Message

-- `Session::Send` and `Session::Disconnect`
unfoldable pub send : Message → LobbySession → LobbySession
send m s = if s.connected then record s { sent = s.sent ++ m ∷ [] } else s

disconnect : LobbySession → LobbySession
disconnect s = record s { connected = false }

-- `OnConnected`
unfoldable on_connected : LobbySession → LobbySession
unfolding send
on_connected s = send hello_client s

-- `AddCharacter`, `GetCharacter` and `IsAccountLoaded`
add_character : Option Character → LobbySession → LobbySession
unfolding assign
add_character none s = s
add_character (some c) s = record s { characters = assign c.character_id c s.characters }

pub get_character : ℕ → LobbySession → Option Character
unfolding lookup
get_character id s = lookup id s.characters

abbrev pub is_account_loaded : LobbySession → Bool
is_account_loaded s = elim s.account [ none ↦ false | some a ↦ true ]

-- The session's account, or a new one.
abbrev pub new_account : Option Account → Account
new_account none = record { account_id = 0; user_id = []; username = []; access_token = [] }
new_account (some a) = a

module _ (db : Database) where
  -- `LoadAccount`: the account stands in the session whether or not it could be loaded.
  load_account : TokenInfo → LobbySession → Option (Bool × LobbySession)
  unfolding upsert_account load_account_row
  load_account info s =
      let a = record (new_account s.account) {
        user_id = info.user_id;
        username = info.username;
        access_token = info.access_token;
      } in
      elim (upsert_account db a) [
        | none ↦ none
        | some (stored, b) ↦ elim stored [
          | false ↦ some (false, record s { account = some b })
          | true ↦ elim (load_account_row db b) [
            | none ↦ none
            | some (loaded, c) ↦ some (loaded, record s { account = some c })
          ]
        ]
      ]

  -- `OnHelloServer`, with what `ConsumeToken` returned; none if the process ends.
  pub on_hello_server : Option TokenInfo → LobbySession → Option LobbySession
  unfolding load_account send disconnect
  on_hello_server none s = some (disconnect s)
  on_hello_server (some info) s = elim (load_account info s) [
    | none ↦ none
    | some (loaded, s') ↦ elim loaded [
      | true ↦ some (elim s'.account [ none ↦ s' | some a ↦ send (hello_client_ack a) s' ])
      | false ↦ some (disconnect s')
    ]
  ]

  -- `OnWorldServerInfoReq`; `kWorldServer` is a parameter of the type.
  unfoldable on_world_server_info_req : ℕ → LobbySession → LobbySession
  unfolding send load_servers
  on_world_server_info_req world_server s =
      let info : GameServer → ServerInfo = λ g. record {
        server_id = g.server_id;
        server_address = g.server_address;
        current_player_num = 0;
      } in
      send (world_server_info_res (map info (load_servers db world_server))) s

  -- The part of `OnCreateCharacterReq` behind the test of the name; none if the process ends.
  create_named : Account → Text → ℕ → LobbySession → Option LobbySession
  unfolding send add_character is_character_exists load_server upsert_character
  create_named account name server_id s =
      let character : Character = record {
        character_id = 0;
        account_id = account.account_id;
        server_id = server_id;
        character_name = name;
        level = 1;
        exp = 0;
      } in
      elim (is_character_exists db name) [
        | none ↦ none
        | some exists ↦ elim exists [
          | true ↦ some (send (create_character_res duplicated_name none) s)
          | false ↦ elim (load_server db server_id) [
            | none ↦ some (send (create_character_res not_found none) s)
            | some g ↦ elim (upsert_character db character) [
              | none ↦ none
              | some (stored, c) ↦ elim stored [
                | true ↦
                    some (add_character (some c) (send (create_character_res success (some c)) s))
                | false ↦ some s
              ]
            ]
          ]
        ]
      ]

  -- `OnCreateCharacterReq`: after the reply to an empty name it goes on.
  unfoldable pub on_create_character_req : Text → ℕ → LobbySession → Option LobbySession
  unfolding create_named
  on_create_character_req name server_id s = elim s.account [
    | none ↦ some s
    | some account ↦
        create_named account name server_id
          (if is_empty name then send (create_character_res invalid_request none) s else s)
  ]

  -- `OnGetCharacterListReq`
  add_characters : List Character → LobbySession → LobbySession
  unfolding add_character
  add_characters [] s = s
  add_characters (c ∷ cs) s = add_characters cs (add_character (some c) s)

  unfoldable on_get_character_list_req : ℕ → LobbySession → LobbySession
  unfolding add_characters send load_characters
  on_get_character_list_req server_id s = elim s.account [
    | none ↦ s
    | some account ↦
        let cs = load_characters db account.account_id server_id in
        send (get_character_list_res success cs) (add_characters cs s)
  ]

  -- `OnPlayStartCharacterReq`
  unfoldable pub on_play_start_character_req : ℕ → ℕ → LobbySession → LobbySession
  unfolding send get_character load_server
  on_play_start_character_req character_id server_id s =
      let refuse = λ (r : Result). send (play_start_character_res r none) s in
      if is_account_loaded s
      then elim (get_character character_id s) [
        | none ↦ refuse not_found
        | some c ↦
            if c.server_id == server_id
            then elim (load_server db server_id) [
              | none ↦ refuse not_found
              | some g ↦
                  send
                    (play_start_character_res success
                      (some (g.server_address, g.server_id, c.character_id)))
                    s
            ]
            else refuse invalid_request
      ]
      else s
