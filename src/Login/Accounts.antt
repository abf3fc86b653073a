-- ===== src/Login/Accounts.antt =====
-- The repository of accounts: src/db/player.js (SQLite) and the accounts part of
-- src/db/repo/postgres.js. A document is its identity fields and the rest, which only
-- DEFAULT_PLAYER fills; both are numbers and texts, and a text that is missing or null is `none`.
pub mod Ids
pub mod Keys
pub mod Documents
use free_fire.Prelude.{
  ℕ, ◌+◌, String, Bool, true, false, Option, none, some, List, [], ◌∷◌, ◌++◌, find, if◌then◌else◌,
  ◌==◌, ltb, or_else,
}

pub record Doc (R : Type 0) : Type 0 where
  pub uid : ℕ
  pub account_id : ℕ
  pub open_id : Option ℕ
  pub open_id_type : Option String
  pub nickname : Option String
  pub region : Option String
  pub language : Option String
  pub device_id : Option String
  pub client_version : Option String
  pub level : Option ℕ
  pub clan_id : ℕ
  pub banned : Bool
  pub token : Option ℕ
  pub token_created_at : ℕ
  pub created_at : ℕ
  pub last_login_at : ℕ
  pub rest : R

-- The column `state`: '{}', a document, or text that is no JSON
pub data State (R : Type 0) : Type 0 where
  empty corrupt : State R
  stored : Doc R → State R

-- The columns `created_at` and `raw_login`, which nothing reads, are left out.
pub record Row (R : Type 0) : Type 0 where
  pub account_id : ℕ
  pub open_id : ℕ
  pub open_id_type : Option String
  pub nickname : Option String
  pub region : Option String
  pub language : Option String
  pub device_id : Option String
  pub client_version : Option String
  pub level : ℕ
  pub clan_id : ℕ
  pub token : Option ℕ
  pub token_created_at : ℕ
  pub last_login_at : ℕ
  pub state : State R

-- `open_id` of a request
pub data OpenId : Type 0 where
  missing blank : OpenId
  given : ℕ → OpenId

abbrev pub derive_open_id : ℕ → OpenId → ℕ
derive_open_id guest (given i) = i
derive_open_id guest _ = guest

-- The fields of a request; `none` is a text that is missing or "", of `open_id_type` only one that is
-- missing.
pub record LoginReq : Type 0 where
  pub open_id : OpenId
  pub open_id_type : Option String
  pub nickname : Option String
  pub region : Option String
  pub language : Option String
  pub device_id : Option String
  pub client_version : Option String

abbrev pub kept : {A : Type 0} → Option A → Option A → Option A
kept none old = old
kept (some a) old = some a

abbrev pub otherwise : {A : Type 0} → Option A → A → A
otherwise none a = a
otherwise (some b) a = b

-- The identity columns of a row are laid over its document.
abbrev pub overlay : {R : Type 0} → Row R → Doc R → Doc R
overlay row acc = record acc {
  uid = row.account_id;
  account_id = row.account_id;
  open_id = some row.open_id;
  token = kept row.token acc.token;
  token_created_at = row.token_created_at;
}

-- `rowToAccount` of postgres.js; `initial` is DEFAULT_PLAYER().
abbrev pub row_to_account : {R : Type 0} → Doc R → Row R → Doc R
row_to_account initial row =
    overlay row (elim row.state [ empty ↦ initial | corrupt ↦ initial | stored acc ↦ acc ])

-- `rowToAccount` of player.js; `bare` is the document without fields that '{}' parses to.
abbrev pub sqlite_row_to_account : {R : Type 0} → Doc R → Doc R → Row R → Doc R
sqlite_row_to_account initial bare row =
    overlay row (elim row.state [ empty ↦ bare | corrupt ↦ initial | stored acc ↦ acc ])

abbrev pub has_token : {R : Type 0} → ℕ → Row R → Bool
has_token token row = elim row.token [ none ↦ false | some t ↦ t == token ]

-- `read` is the `rowToAccount` of the repository.
unfoldable pub get_by :
    {R : Type 0} → (Row R → Doc R) → (Row R → Bool) → List (Row R) → Option (Doc R)
get_by read p [] = none
get_by read p (row ∷ rows) = if p row then some (read row) else get_by read p rows

unfoldable pub get_by_token : {R : Type 0} → (Row R → Doc R) → ℕ → List (Row R) → Option (Doc R)
unfolding get_by
get_by_token read token rows = if token == 0 then none else get_by read (has_token token) rows

unfoldable pub get_by_id : {R : Type 0} → (Row R → Doc R) → ℕ → List (Row R) → Option (Doc R)
unfolding get_by
get_by_id read uid rows = if uid == 0 then none else get_by read (λ row. row.account_id == uid) rows

unfoldable pub get_by_open_id : {R : Type 0} → (Row R → Doc R) → ℕ → List (Row R) → Option (Doc R)
unfolding get_by
get_by_open_id read open_id rows =
    if open_id == 0 then none else get_by read (λ row. row.open_id == open_id) rows

-- The columns that `save` writes, with the document as the state.
abbrev pub denorm : {R : Type 0} → Doc R → Row R → Row R
denorm acc row = record row {
  open_id_type = acc.open_id_type;
  nickname = acc.nickname;
  region = acc.region;
  language = acc.language;
  device_id = acc.device_id;
  client_version = acc.client_version;
  level = otherwise acc.level 1;
  clan_id = acc.clan_id;
  last_login_at = acc.last_login_at;
  token = acc.token;
  token_created_at = acc.token_created_at;
  state = stored acc;
}

-- The document that is written, and returned.
abbrev pub stamped : {R : Type 0} → ℕ → Doc R → Doc R
stamped now acc =
    let id = or_else acc.uid acc.account_id in
    record acc { uid = id; account_id = id; last_login_at = or_else acc.last_login_at now }

unfoldable pub update_row : {R : Type 0} → Doc R → List (Row R) → List (Row R)
update_row acc [] = []
update_row acc (row ∷ rows) =
    (if row.account_id == acc.uid then denorm acc row else row) ∷ update_row acc rows

-- `none` is the error for an account without an id.
unfoldable pub save : {R : Type 0} → ℕ → Doc R → List (Row R) → Option (Doc R × List (Row R))
unfolding update_row
save now acc rows =
    if or_else acc.uid acc.account_id == 0
    then none
    else some (stamped now acc, update_row (stamped now acc) rows)

abbrev pub refreshed : {R : Type 0} → LoginReq → Doc R → Doc R
refreshed req acc = record acc {
  open_id_type = kept req.open_id_type acc.open_id_type;
  nickname = kept req.nickname acc.nickname;
  region = kept req.region acc.region;
  language = kept req.language acc.language;
  device_id = kept req.device_id acc.device_id;
  client_version = kept req.client_version acc.client_version;
}

abbrev pub placeholder : {R : Type 0} → ℕ → ℕ → ℕ → LoginReq → Row R
placeholder id open_id now req = record {
  account_id = id;
  open_id = open_id;
  open_id_type = req.open_id_type;
  nickname = some (otherwise req.nickname "Player");
  region = req.region;
  language = req.language;
  device_id = req.device_id;
  client_version = req.client_version;
  level = 100;
  clan_id = 0;
  token = none;
  token_created_at = 0;
  last_login_at = now;
  state = empty;
}

abbrev pub created : {R : Type 0} → Doc R → ℕ → ℕ → ℕ → LoginReq → Doc R
created initial id open_id now req = record initial {
  uid = id;
  account_id = id;
  open_id = some open_id;
  open_id_type = req.open_id_type;
  nickname = kept req.nickname initial.nickname;
  region = req.region;
  language = req.language;
  device_id = req.device_id;
  client_version = req.client_version;
  created_at = now;
  last_login_at = now;
}

-- `id` is the account_id that the insertion generates.
unfoldable pub create_from_login :
    {R : Type 0}
    → (Row R → Doc R)
    → Doc R
    → ℕ
    → ℕ
    → ℕ
    → LoginReq
    → List (Row R)
    → Option (Doc R × List (Row R))
unfolding get_by save
create_from_login read initial guest id now req rows =
    let open_id = derive_open_id guest req.open_id in
    elim (get_by read (λ row. row.open_id == open_id) rows) [
      | some acc ↦ save now (refreshed req acc) rows
      | none ↦
          save now (created initial id open_id now req)
            (rows ++ placeholder id open_id now req ∷ [])
    ]
