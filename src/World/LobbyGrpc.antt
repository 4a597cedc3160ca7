-- ===== src/World/LobbyGrpc.antt =====
-- The lobby's service for the world server: the handlers and the calls of LobbyGrpcService.cpp, the result of a
-- call in LobbyGrpcClient.h and .cpp, both in Source/Server/InterServer, and what Account.cpp and Character.cpp
-- of Source/Server/Model read for them. gRPC is a parameter: whether an answer of the lobby arrives. So are the
-- stored procedures; times are left out. A process that the C library ends is none.
pub mod Calls
pub mod Refusals
mod Tests
use server.Base.{
  ℕ, ◌≡◌, ◌≢◌, ◌<◌, ◌≤◌, ◌==◌, refl, ap, ◌∙◌, Bool, true, false, not, List, [], ◌∷◌, ◌++◌, length,
  Option, some, none, if◌then◌else◌, arith, ◌⊎◌, inl, inr, Option-cases, Bool-cases,
}
use server.Sql.Arrays.{CharArray, char_array_of, char_array_of-none, char_array_of-some}
use server.World.Session.Login.{
  HelloWorldServer, HelloWorldClient, Visitor, on_recv_hello_world_server, greet,
}

pub data Result : Type 0 where
  success database_error not_found : Result

pub record LoginRequest : Type 0 where
  pub access_token : List ℕ
  pub playing_server_id : ℕ
  pub playing_character_id : ℕ

-- `CharacterLoginResponse`; a new message has no account and the first of the results.
pub record LoginResponse : Type 0 where
  pub result : Result
  pub account_id : ℕ

abbrev login_response : LoginResponse
login_response = record { result = success; account_id = 0 }

-- The rows' accounts of `usp_SelectAccountByAccessToken`, none if Execute fails; whether Execute of
-- `usp_CheckCharacterExists` and `usp_UpdateAccountLogin` succeeds; what `new` leaves in an array's memory.
pub record Database : Type 0 where
  pub select_by_token : List ℕ → Option (List ℕ)
  pub check_character : ℕ → ℕ → ℕ → Bool
  pub upsert_server : List ℕ → ℕ → Bool
  pub fresh : List ℕ

-- The row that FetchResult reads.
unfoldable pub first_account : Option (List ℕ) → Option ℕ
first_account none = none
first_account (some []) = none
first_account (some (id ∷ rest)) = some id

-- `Account::LoadByAccessToken`: the token goes through an array of 256 characters.
load_by_access_token : Database → List ℕ → Option (Option ℕ)
unfolding first_account
load_by_access_token db token = elim (char_array_of db.fresh 256 token) [
  | none ↦ none
  | some a ↦ some (first_account (db.select_by_token token))
]

-- `Character::IsCharacterExists` by ids, of which the procedure returns 0 if there is the character.
unfoldable pub is_character_exists : Database → ℕ → ℕ → ℕ → Bool
is_character_exists db account_id server_id character_id =
    not (db.check_character account_id server_id character_id)

-- `LobbyServiceCallbackImpl::CharacterLogin`, with the accounts whose login is stored: what it answers by the
-- account of the token, and the whole.
unfoldable pub answer : Database → LoginRequest → Option ℕ → LoginResponse × List ℕ
unfolding is_character_exists
answer db req none = (record login_response { result = not_found }, [])
answer db req (some account_id) =
    if is_character_exists db account_id req.playing_server_id req.playing_character_id
    then (record login_response { result = not_found }, [])
    else (record login_response { account_id = account_id }, account_id ∷ [])

pub character_login : Database → LoginRequest → Option (LoginResponse × List ℕ)
unfolding load_by_access_token answer
character_login db req = elim (load_by_access_token db req.access_token) [
  | none ↦ none
  | some found ↦ some (answer db req found)
]

-- `RegisterServer` and its reply's result.
unfoldable register_server : Database → List ℕ → ℕ → Result
register_server db server_address server_type =
    if db.upsert_server server_address server_type then success else database_error

-- `GrpcCallResult`; `ok` is that of the status, not the response's result.
pub record GrpcCallResult : Type 0 where
  pub response : LoginResponse
  status_ok : Bool

unfoldable pub ok : GrpcCallResult → Bool
ok r = r.status_ok

-- What the client's call comes to: the handler's response with an OK status if the answer arrives, else a status
-- that is not OK and a new response. A lobby whose process ends gives no answer.
unfoldable pub call_character_login : Bool → Database → LoginRequest → GrpcCallResult
unfolding character_login
call_character_login arrives db req = elim (character_login db req) [
  | none ↦ record { response = login_response; status_ok = false }
  | some (res, stored) ↦
      if arrives
      then record { response = res; status_ok = true }
      else record { response = login_response; status_ok = false }
]

-- What OnRecvHelloWorldServer asks and takes from the answer: the parameter `login` of World/Session/Login.
unfoldable pub login : Bool → Database → HelloWorldServer → Option ℕ
unfolding call_character_login ok
login arrives db msg =
    let r = call_character_login arrives db (record {
      access_token = msg.access_token;
      playing_server_id = msg.playing_server_id;
      playing_character_id = msg.playing_character_id;
    }) in
    if ok r then some r.response.account_id else none

pub character_login-answer :
    (db : Database) (req : LoginRequest)
    → length req.access_token ≤ 256
    → character_login db req
      ≡ some (answer db req (first_account (db.select_by_token req.access_token)))
unfolding character_login
character_login-answer db req short =
    rw
      (
        character_login,
        load_by_access_token,
        char_array_of-some db.fresh req.access_token 256 short,
      )
      refl

pub answer-cases :
    (db : Database) (req : LoginRequest) (found : Option ℕ)
    → let (res, stored) = answer db req found in
      ((id : ℕ) × (found ≡ some id)
        × (db.check_character id req.playing_server_id req.playing_character_id ≡ true)
        × (res ≡ record { result = success; account_id = id })
        × (stored ≡ id ∷ []))
      ⊎ ((res ≡ record { result = not_found; account_id = 0 }) × (stored ≡ []))
unfolding answer
answer-cases db req none = inr (refl, refl)
answer-cases db req (some id) =
    elim (Bool-cases (db.check_character id req.playing_server_id req.playing_character_id)) [
      | inl c ↦ inl (id, refl, c, rw c refl, rw c refl)
      | inr c ↦ inr (rw c refl, rw c refl)
    ]

-- A login whose token is longer than 256 characters ends the lobby's process. Any other is answered: with the
-- account of the token, whose login is stored, if there is that account and it has the character on the server;
-- with kNotFound and account 0 else.
character_login_lem :
    (db : Database) (req : LoginRequest)
    → (256 < length req.access_token → character_login db req ≡ none)
      × (length req.access_token ≤ 256
          → (res : LoginResponse) × (stored : List ℕ) × (character_login db req
              ≡ some (res, stored))
            × (((id : ℕ) × (first_account (db.select_by_token req.access_token) ≡ some id)
                  × (db.check_character id req.playing_server_id req.playing_character_id ≡ true)
                  × (res ≡ record { result = success; account_id = id })
                  × (stored ≡ id ∷ []))
                ⊎ ((res ≡ record { result = not_found; account_id = 0 }) × (stored ≡ []))))
unfolding answer character_login
character_login_lem db req =
    let found = first_account (db.select_by_token req.access_token) in
    let (res, stored) = answer db req found in
    (
      λ long.
          rw
            (
              character_login,
              load_by_access_token,
              char_array_of-none db.fresh req.access_token 256 long,
            )
            refl,
      λ short. (res, stored, character_login-answer db req short, answer-cases db req found),
    )
