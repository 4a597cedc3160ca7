-- ===== src/Lobby/Accounts.antt =====
-- What becomes of a session that presents a token.
use server.Base.{
  ℕ, ◌≡◌, refl, true, false, List, [], ◌∷◌, ◌++◌, Option, some, none, arith, ◌⊎◌, inl, inr,
  Option-cases, length, ◌<◌, ◌≤◌, dec_lt,
}
use server.Lobby.Models.{Account, AccountRow, TokenInfo, Database}
use server.Lobby.{hello_client_ack, LobbySession, on_hello_server, new_account}

-- The session has the account of the token's player, as the database has it, and says so to the client.
pub record IsLoggedIn (db : Database) (info : TokenInfo) (s s' : LobbySession) : Type 0 where
  pub account : Account
  pub row : AccountRow
  pub rest : List AccountRow
  selected : db.select_account info.user_id ≡ some (row ∷ rest)
  pub held : s'.account ≡ some account
  pub user : account.user_id ≡ info.user_id
  pub id : account.account_id ≡ row.account_id
  pub name : account.username ≡ row.username
  pub connected : s'.connected ≡ true
  pub sent : s'.sent ≡ s.sent ++ hello_client_ack account ∷ []

abbrev pub IsTurnedAway : LobbySession → LobbySession → Type 0
IsTurnedAway s s' = (s'.connected ≡ false) × (s'.sent ≡ s.sent) × (s'.characters ≡ s.characters)

abbrev pub presented : Option Account → TokenInfo → Account
presented a info = record (new_account a) {
  user_id = info.user_id;
  username = info.username;
  access_token = info.access_token;
}

-- The array of characters is too short for a text of the token's player.
abbrev pub IsTooLong : TokenInfo → Type 0
IsTooLong info =
    (128 < length info.user_id) ⊎ (128 < length info.username) ⊎ (256 < length info.access_token)

abbrev pub Fits : TokenInfo → Type 0
Fits info =
    (length info.user_id ≤ 128) × (length info.username ≤ 128) × (length info.access_token ≤ 256)

-- Why a session is turned away.
abbrev pub IsRefused : Database → Option TokenInfo → Option Account → Type 0
IsRefused db token a =
    (token ≡ none)
    ⊎ ((info : TokenInfo) × (token ≡ some info)
        × Fits info
        × ((db.upsert_account (presented a info) ≡ none)
            ⊎ (db.select_account info.user_id ≡ none)
            ⊎ (db.select_account info.user_id ≡ some [])))

-- How a presented token ends.
abbrev pub Settles : Database → Option TokenInfo → LobbySession → Option LobbySession → Type 0
Settles db token s r =
    ((info : TokenInfo) × (s' : LobbySession) × (token ≡ some info)
      × (r ≡ some s')
      × Fits info
      × IsLoggedIn db info s s')
    ⊎ ((s' : LobbySession) × (r ≡ some s') × IsTurnedAway s s' × IsRefused db token s.account)
    ⊎ ((info : TokenInfo) × (token ≡ some info) × (r ≡ none) × IsTooLong info)

module _ (db : Database) (info : TokenInfo) (s : LobbySession) where
  too_long_lem : IsTooLong info → on_hello_server db (some info) s ≡ none
  unfolding on_hello_server
  too_long_lem (inl h) = ground arith
  too_long_lem (inr (inl h)) = ground arith
  too_long_lem (inr (inr h)) = ground arith

  fits_lem : Fits info ⊎ IsTooLong info
  fits_lem = elim (dec_lt 128 (length info.user_id)) [
    | yes u ↦ inr (inl u)
    | no u ↦ elim (dec_lt 128 (length info.username)) [
      | yes n ↦ inr (inr (inl n))
      | no n ↦ elim (dec_lt 256 (length info.access_token)) [
        | yes t ↦ inr (inr (inr t))
        | no t ↦ inl (omega (arith, u), omega (arith, n), omega (arith, t))
      ]
    ]
  ]

  abbrev away : Account → LobbySession
  away a = record s { connected = false; account = some a }

  not_stored :
      Fits info
      → db.upsert_account (presented s.account info) ≡ none
      → on_hello_server db (some info) s ≡ some (away (presented s.account info))
  unfolding on_hello_server
  not_stored (a, b, c) u = ground arith

  not_selected :
      (id : ℕ)
      → Fits info
      → db.upsert_account (presented s.account info) ≡ some id
      → (db.select_account info.user_id ≡ none) ⊎ (db.select_account info.user_id ≡ some [])
      → on_hello_server db (some info) s
        ≡ some (away (record (presented s.account info) { account_id = id }))
  unfolding on_hello_server
  not_selected id (a, b, c) u (inl n) = ground arith
  not_selected id (a, b, c) u (inr n) = ground arith

  -- The account as the database has it.
  abbrev held_account : AccountRow → Account
  held_account row = record (presented s.account info) {
    account_id = row.account_id;
    username = row.username;
    access_token = row.access_token;
  }

  logged_in :
      (id : ℕ) (row : AccountRow) (rest : List AccountRow)
      → Fits info
      → s.connected ≡ true
      → db.upsert_account (presented s.account info) ≡ some id
      → db.select_account info.user_id ≡ some (row ∷ rest)
      → on_hello_server db (some info) s
        ≡ some (record s {
          account = some (held_account row);
          sent = s.sent ++ hello_client_ack (held_account row) ∷ [];
        })
  unfolding on_hello_server
  logged_in id row rest (a, b, c) h u n = ground arith

-- A session that is connected and presents a token is logged in, if the authenticator accepts it and the
-- database has a row of the player; or it is disconnected and told nothing, because the token is refused, the
-- account cannot be written, or no row of the player is selected; or the process ends, and it does exactly if
-- the token is accepted and the player's id or name has more than 128 characters or the token more than 256.
pub on_hello_server-Settles :
    (db : Database) (token : Option TokenInfo) (s : LobbySession)
    → s.connected ≡ true
    → Settles db token s (on_hello_server db token s)
unfolding on_hello_server
on_hello_server-Settles db none s h =
    inr (inl (record s { connected = false }, refl, (refl, refl, refl), inl refl))
on_hello_server-Settles db (some i) s h = elim (fits_lem db i s) [
  | inr long ↦ inr (inr (i, refl, too_long_lem db i s long, long))
  | inl fits ↦ elim (Option-cases (db.upsert_account (presented s.account i))) [
    | inl u ↦
        inr (inl (_, not_stored db i s fits u, (refl, refl, refl), inr (i, refl, fits, inl u)))
    | inr (id, u) ↦ elim (Option-cases (db.select_account i.user_id)) [
      | inl n ↦ turned id fits u (inl n)
      | inr (rows, n) ↦ rows_lem rows id fits u n
    ]
  ]
]
  where
    turned :
        (id : ℕ)
        → Fits i
        → db.upsert_account (presented s.account i) ≡ some id
        → (db.select_account i.user_id ≡ none) ⊎ (db.select_account i.user_id ≡ some [])
        → Settles db (some i) s (on_hello_server db (some i) s)
    turned id fits u n =
        inr
          (inl (_, not_selected db i s id fits u n, (refl, refl, refl), inr (i, refl, fits, inr n)))

    rows_lem :
        (rows : List AccountRow) (id : ℕ)
        → Fits i
        → db.upsert_account (presented s.account i) ≡ some id
        → db.select_account i.user_id ≡ some rows
        → Settles db (some i) s (on_hello_server db (some i) s)
    rows_lem [] id fits u n = turned id fits u (inr n)
    rows_lem (row ∷ rest) id fits u n = inl (
      i,
      _,
      refl,
      logged_in db i s id row rest fits h u n,
      fits,
      record {
        account = held_account db i s row;
        row = row;
        rest = rest;
        selected = n;
        held = refl;
        user = refl;
        id = refl;
        name = refl;
        connected = h;
        sent = refl;
      },
    )
