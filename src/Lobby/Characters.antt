-- ===== src/Lobby/Characters.antt =====
-- Creating a character and playing it.
use server.Base.{
  ℕ, ◌≡◌, refl, true, [], ◌∷◌, ◌++◌, Option, some, none, arith, inl, inr, Option-cases, Bool-cases,
  ◌↔◌, ◌==◌, length, ◌<◌, ◌≤◌, assign,
}
use server.Lobby.Models.{Text, Account, Character, GameServer, Database, load_server}
use server.Lobby.{
  Result, success, not_found, invalid_request, create_character_res, play_start_character_res,
  LobbySession, on_create_character_req, on_play_start_character_req, get_character,
}

-- The character that is stored, and as it is when it has its id.
abbrev pub created : ℕ → Account → Text → ℕ → Character
created id account name server_id = record {
  character_id = id;
  account_id = account.account_id;
  server_id = server_id;
  character_name = name;
  level = 1;
  exp = 0;
}

-- All that lets a character be created: a connected session with an account, a name of at most 128
-- characters that nobody has, a server that exists, and a database that stores it under an id.
pub record CanCreate (db : Database) (account : Account) (name : Text) (server_id id : ℕ)
    (g : GameServer) (s : LobbySession) : Type 0 where
  pub connected : s.connected ≡ true
  pub loaded : s.account ≡ some account
  pub short : length name ≤ 128
  pub unused : db.check_character_name name ≡ true
  pub server : load_server db server_id ≡ some g
  pub stored : db.upsert_character (created 0 account name server_id) ≡ some id

create :
    (db : Database) (account : Account) (c : ℕ) (cs : Text) (server_id id : ℕ) (g : GameServer)
    (s : LobbySession)
    → CanCreate db account (c ∷ cs) server_id id g s
    → on_create_character_req db (c ∷ cs) server_id s
      ≡ some (record s {
        characters = assign id (created id account (c ∷ cs) server_id) s.characters;
        sent =
            s.sent
            ++ create_character_res success (some (created id account (c ∷ cs) server_id)) ∷ [];
      })
unfolding on_create_character_req
create db account c cs server_id id g s v = ground arith

-- Of a connected session with an account, a character that is created, with a name of 1 to 128 characters
-- that nobody has, on a server that exists, and that the database stores under an id, can be played on its
-- server: the replies are the character with its id, and the server's address.
pub play_start-create :
    (db : Database) (account : Account) (c : ℕ) (cs : Text) (server_id id : ℕ) (g : GameServer)
    (s : LobbySession)
    → CanCreate db account (c ∷ cs) server_id id g s
    → (s' : LobbySession) × (on_create_character_req db (c ∷ cs) server_id s ≡ some s')
      × ((on_play_start_character_req db id server_id s').sent
          ≡ (s.sent
              ++ create_character_res success (some (created id account (c ∷ cs) server_id)) ∷ [])
            ++ play_start_character_res success (some (g.server_address, g.server_id, id)) ∷ [])
unfolding on_play_start_character_req on_create_character_req
play_start-create db account c cs server_id id g s v =
    let played = create db account c cs server_id id g s v in (_, played, ground arith)

-- A longer name ends the process, whoever has it.
on_create_character_req-long :
    (db : Database) (account : Account) (name : Text) (server_id : ℕ) (s : LobbySession)
    → s.account ≡ some account
    → 128 < length name
    → on_create_character_req db name server_id s ≡ none
unfolding on_create_character_req
on_create_character_req-long db account name server_id s e long = ground arith

-- An empty name is refused, and then the character is created all the same: the client gets two replies.
on_create_character_req-empty :
    (db : Database) (account : Account) (server_id id : ℕ) (g : GameServer) (s : LobbySession)
    → CanCreate db account [] server_id id g s
    → on_create_character_req db [] server_id s
      ≡ some (record s {
        characters = assign id (created id account [] server_id) s.characters;
        sent =
            (s.sent ++ create_character_res invalid_request none ∷ [])
            ++ create_character_res success (some (created id account [] server_id)) ∷ [];
      })
unfolding on_create_character_req
on_create_character_req-empty db account server_id id g s v = ground arith

-- To a connected session with an account, a request to play a character has one reply, and changes nothing
-- else. It succeeds exactly if the session has the character, on that server, and the server exists.
on_play_start_character_req-success :
    (db : Database) (account : Account) (id server_id : ℕ) (s : LobbySession)
    → s.connected ≡ true
    → s.account ≡ some account
    → (r : Result) × (x : Option (Text × ℕ × ℕ)) × (on_play_start_character_req db id server_id s
        ≡ record s { sent = s.sent ++ play_start_character_res r x ∷ [] })
      × ((r ≡ success) ↔ (
          (c : Character) × (g : GameServer) × (get_character id s ≡ some c)
          × (c.server_id ≡ server_id)
          × (load_server db server_id ≡ some g)))
unfolding on_play_start_character_req get_character
on_play_start_character_req-success db account id server_id s h a =
    elim (Option-cases (get_character id s)) [
      | inl n ↦
          (not_found, none, ground arith, (λ e. cc e, λ (c, g, e, f, l). absurd (ground arith)))
      | inr (c, n) ↦ elim (Bool-cases (c.server_id == server_id)) [
        | inr m ↦ (
          invalid_request,
          none,
          ground arith,
          (λ e. cc e, λ (d, g, e, f, l). absurd (ground arith)),
        )
        | inl m ↦ elim (Option-cases (load_server db server_id)) [
          | inl l ↦
              (not_found, none, ground arith, (λ e. cc e, λ (d, g, e, f, k). absurd (ground arith)))
          | inr (g, l) ↦ (
            success,
            some (g.server_address, g.server_id, c.character_id),
            ground arith,
            (λ e. (c, g, n, ground arith, l), λ e. refl),
          )
        ]
      ]
    ]
