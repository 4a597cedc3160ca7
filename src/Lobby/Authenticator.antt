-- ===== src/Lobby/Authenticator.antt =====
-- The validation of an access token by the web service: Source/Server/Authenticator/Authenticator.cpp. The
-- exchange with the service and the parser of its replies are parameters.
use server.Base.{
  ℕ, ◌≡◌, ◌≢◌, refl, false, [], ◌∷◌, Option, some, none, if◌then◌else◌, ◌==◌, arith, ◌↔◌, inl, inr,
  Option-cases,
}
use server.Lobby.Models.{Text, is_empty, TokenInfo}

pub data Field : Type 0 where
  user_id : Field
  username : Field

-- `Send` of the request with the token: the status and the body; `TryParse`; and `TryGetValue` of a text,
-- which is empty if the field is missing.
pub record WebService : Type 1 where
  pub Json : Type 0
  pub post : Text → ℕ × Text
  pub parse : Text → Option Json
  pub try_get_text : Json → Field → Text

abbrev pub http_ok : ℕ
http_ok = 200

-- `ConsumeToken`
pub consume_token : WebService → Text → Option TokenInfo
consume_token web access_token =
    let (status, body) = web.post access_token in
    if status == http_ok
    then elim (web.parse body) [
      | none ↦ none
      | some json ↦
          let id = web.try_get_text json user_id in
          let name = web.try_get_text json username in
          if is_empty id
          then none
          else if is_empty name
          then none
          else some (record { user_id = id; username = name; access_token = access_token })
    ]
    else none

is_empty_nil : (t : Text) → is_empty t ≡ false → t ≢ []
is_empty_nil [] e q = cc
is_empty_nil (c ∷ t) e q = cc

is_empty_cons : (t : Text) → t ≢ [] → is_empty t ≡ false
is_empty_cons [] ne = absurd (ne refl)
is_empty_cons (c ∷ t) ne = refl

-- The other conditions, when the reply has been parsed.
consume_token-parsed :
    (web : WebService) (token : Text) (info : TokenInfo) (json : web.Json)
    → web.parse (web.post token).1 ≡ some json
    → consume_token web token ≡ some info
    → ((web.post token).0 ≡ http_ok)
      × (web.try_get_text json user_id ≡ info.user_id)
      × (web.try_get_text json username ≡ info.username)
      × (is_empty info.user_id ≡ false)
      × (is_empty info.username ≡ false)
      × (info.access_token ≡ token)
unfolding consume_token
consume_token-parsed web token info json e h =
    (ground arith, ground arith, ground arith, ground arith, ground arith, ground arith)

-- `ConsumeToken` returns a player exactly if the service replies 200 with a body that can be parsed and has
-- both texts, none of them empty; the player then has these texts and the token.
pub consume_token-some :
    (web : WebService) (token : Text) (info : TokenInfo)
    → (consume_token web token ≡ some info) ↔ (
        ((web.post token).0 ≡ http_ok)
        × ((json : web.Json) × (web.parse (web.post token).1 ≡ some json)
            × (web.try_get_text json user_id ≡ info.user_id)
            × (web.try_get_text json username ≡ info.username))
        × (info.user_id ≢ [])
        × (info.username ≢ [])
        × (info.access_token ≡ token))
unfolding consume_token
consume_token-some web token info = (to, from)
  where
    to :
        consume_token web token ≡ some info
        → ((web.post token).0 ≡ http_ok)
          × ((json : web.Json) × (web.parse (web.post token).1 ≡ some json)
              × (web.try_get_text json user_id ≡ info.user_id)
              × (web.try_get_text json username ≡ info.username))
          × (info.user_id ≢ [])
          × (info.username ≢ [])
          × (info.access_token ≡ token)
    to h = elim (Option-cases (web.parse (web.post token).1)) [
      | inl n ↦ absurd (ground arith)
      | inr (json, e) ↦
          let (a, b, c, d, f, g) = consume_token-parsed web token info json e h in
          (a, (json, e, b, c), is_empty_nil info.user_id d, is_empty_nil info.username f, g)
    ]

    from :
        ((web.post token).0 ≡ http_ok)
          × ((json : web.Json) × (web.parse (web.post token).1 ≡ some json)
              × (web.try_get_text json user_id ≡ info.user_id)
              × (web.try_get_text json username ≡ info.username))
          × (info.user_id ≢ [])
          × (info.username ≢ [])
          × (info.access_token ≡ token)
        → consume_token web token ≡ some info
    from (a, (json, e, b, c), d, f, g) =
        ground (arith, is_empty_cons info.user_id d, is_empty_cons info.username f)
