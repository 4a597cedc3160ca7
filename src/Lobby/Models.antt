-- ===== src/Lobby/Models.antt =====
-- The rows of the lobby's database and how they are read and written: Source/Server/Model/Account.cpp,
-- Character.cpp and Server.cpp. A stored procedure is a parameter: what its execution, its out parameter and
-- the rows that it selects are. Times are left out; a text is its characters. A text longer than the array
-- of characters that is made of it ends the process (Sql/Arrays), here none.
use server.Base.{
  ℕ, Bool, true, false, not, List, [], ◌∷◌, Option, some, none, length, ltb, if◌then◌else◌,
}

abbrev pub Text : Type 0
Text = List ℕ

abbrev pub is_empty : Text → Bool
is_empty [] = true
is_empty (c ∷ cs) = false

pub record Account : Type 0 where
  pub account_id : ℕ
  pub user_id : Text
  pub username : Text
  pub access_token : Text

pub record Character : Type 0 where
  pub character_id : ℕ
  pub account_id : ℕ
  pub server_id : ℕ
  pub character_name : Text
  pub level : ℕ
  pub exp : ℕ

pub record GameServer : Type 0 where
  pub server_id : ℕ
  pub server_type : ℕ
  pub server_address : Text
  pub level_map_name : Text

pub record TokenInfo : Type 0 where
  pub user_id : Text
  pub username : Text
  pub access_token : Text

-- The columns that `usp_SelectAccountByUserId` selects.
pub record AccountRow : Type 0 where
  pub account_id : ℕ
  pub username : Text
  pub access_token : Text

-- The stored procedures: none if `Execute` fails.
pub record Database : Type 0 where
  pub upsert_account : Account → Option ℕ
  pub select_account : Text → Option (List AccountRow)
  pub upsert_character : Character → Option ℕ
  pub select_characters : ℕ → ℕ → Option (List Character)
  pub check_character_name : Text → Bool
  pub select_server : ℕ → Option (List GameServer)
  pub select_servers : ℕ → Option (List GameServer)

-- `Account::UpsertToDb` and `Account::LoadFromDb`
unfoldable pub stored_account : Database → Account → Bool × Account
stored_account db a = elim (db.upsert_account a) [
  | none ↦ (false, a)
  | some id ↦ (true, record a { account_id = id })
]

unfoldable pub upsert_account : Database → Account → Option (Bool × Account)
unfolding stored_account
upsert_account db a =
    if ltb 128 (length a.user_id)
    then none
    else if ltb 128 (length a.username)
    then none
    else if ltb 256 (length a.access_token)
    then none
    else some (stored_account db a)

unfoldable pub selected_account : Database → Account → Bool × Account
selected_account db a = elim (db.select_account a.user_id) [
  | none ↦ (false, a)
  | some rows ↦ elim rows [
    | [] ↦ (false, a)
    | row ∷ rest ↦ (
      true,
      record a {
        account_id = row.account_id;
        username = row.username;
        access_token = row.access_token;
      },
    )
  ]
]

unfoldable pub load_account_row : Database → Account → Option (Bool × Account)
unfolding selected_account
load_account_row db a = if ltb 128 (length a.user_id) then none else some (selected_account db a)

-- `Character::UpsertToDb`, `LoadByAccountIdAndServerId` and `IsCharacterExists`
unfoldable pub stored_character : Database → Character → Bool × Character
stored_character db c = elim (db.upsert_character c) [
  | none ↦ (false, c)
  | some id ↦ (true, record c { character_id = id })
]

unfoldable pub upsert_character : Database → Character → Option (Bool × Character)
unfolding stored_character
upsert_character db c =
    if ltb 128 (length c.character_name) then none else some (stored_character db c)

unfoldable pub load_characters : Database → ℕ → ℕ → List Character
load_characters db account_id server_id = elim (db.select_characters account_id server_id) [
  | none ↦ []
  | some rows ↦ rows
]

unfoldable pub is_character_exists : Database → Text → Option Bool
is_character_exists db name =
    if ltb 128 (length name) then none else some (not (db.check_character_name name))

-- `Server::LoadByServerId` and `Server::LoadByType`
unfoldable pub load_server : Database → ℕ → Option GameServer
load_server db server_id = elim (db.select_server server_id) [
  | none ↦ none
  | some rows ↦ elim rows [ [] ↦ none | row ∷ rest ↦ some row ]
]

unfoldable pub load_servers : Database → ℕ → List GameServer
load_servers db server_type = elim (db.select_servers server_type) [ none ↦ [] | some rows ↦ rows ]
