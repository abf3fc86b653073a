-- ===== src/Auth/Login.antt =====
-- The sign-in with Discord (auth/login-server/src/login-flow.js) with `nextUid` and `withUidRetry` of
-- auth/shared/src/ids.js. What is random or may be stale is an argument.
pub mod Attempts
use free_fire.Prelude.{
  ℕ, zero, suc, ◌+◌, String, Bool, true, false, Option, none, some, List, [], ◌∷◌, ◌++◌, any,
  if◌then◌else◌, ◌==◌,
}
use mathlib.Core.Option
use free_fire.Auth.Guests.{Guest, find_by_dc_id, insert_user, update_discord_fields}
use free_fire.Auth.Tokens.{TokenSet, issue_tokens}

pub record DiscordUser : Type 0 where
  pub id : ℕ
  pub username : String
  pub email : String

-- A row of the accounts table
pub record AccountRow : Type 0 where
  pub open_id : ℕ
  pub uid : ℕ
  pub banned : Bool
  pub authorized : Bool

pub record AuthDb : Type 0 where
  pub guests : List Guest
  pub accounts : List AccountRow

abbrev pub first_uid : ℕ
first_uid = 10000001

-- `nextUid`, of what the MAX query returned
abbrev pub next_uid : Option ℕ → ℕ
next_uid none = first_uid
next_uid (some m) = m + 1

abbrev pub new_guest : DiscordUser → ℕ → ℕ → Guest
new_guest user open_id uid = record {
  open_id = open_id;
  uid = uid;
  dc_id = user.id;
  dc_handle = user.username;
  dc_email = user.email;
  renovation = false;
  access_token = none;
  refresh_token = none;
  access_expiry = none;
  refresh_expiry = none;
  create_time = none;
}

-- The accounts table is keyed by `open_id`; `none` is the unique violation.
unfoldable pub insert_account : ℕ → ℕ → List AccountRow → Option (List AccountRow)
insert_account open_id uid rows =
    if any (λ r. r.open_id == open_id) rows
    then none
    else some
        (rows ++ record { open_id = open_id; uid = uid; banned = false; authorized = true } ∷ [])

-- What the attempts meet: the open id that each draws, and the largest uid that each has read, which
-- other sign-ins may have outrun.
pub record Draws : Type 0 where
  pub open_id : ℕ → ℕ
  pub max_uid : ℕ → Option ℕ

-- The attempts of `withUidRetry` from the `i`-th on; `none` is the last conflict, thrown on. A guest
-- row stays where the account row fails.
unfoldable pub provision : Draws → DiscordUser → ℕ → ℕ → AuthDb → Option Guest × AuthDb
provision d user zero i db = (none, db)
provision d user (suc n) i db =
    let g = new_guest user (d.open_id i) (next_uid (d.max_uid i)) in
    elim (insert_user g db.guests) [
      | none ↦ provision d user n (suc i) db
      | some gs ↦ elim (insert_account g.open_id g.uid db.accounts) [
        | none ↦ provision d user n (suc i) (record db { guests = gs })
        | some rows ↦ (some g, record { guests = gs; accounts = rows })
      ]
    ]

abbrev pub uid_attempts : ℕ
uid_attempts = 5

-- The fields of the URL that goes back to the game, with the payload of its signed request.
pub record Redirect : Type 0 where
  pub uid : ℕ
  pub open_id : ℕ
  pub issued_at : ℕ
  pub access_token : ℕ
  pub data_access_expiration : ℕ

pub data Flow : Type 0 where
  signed_in : Redirect → Flow
  blocked thrown : Flow

abbrev pub finish : ℕ → ℕ → ℕ → Guest → AuthDb → Flow × AuthDb
finish access refresh now g db =
    let (tokens, gs) = issue_tokens access refresh now g.open_id db.guests in
    (
      signed_in (record {
        uid = g.uid;
        open_id = g.open_id;
        issued_at = tokens.create_time;
        access_token = tokens.access_token;
        data_access_expiration = tokens.create_time + 5183716;
      }),
      record db { guests = gs },
    )

abbrev pub returning : ℕ → ℕ → ℕ → DiscordUser → Guest → AuthDb → Flow × AuthDb
returning access refresh now user g db =
    let updated : AuthDb = record db {
      guests = update_discord_fields g.open_id user.username user.email db.guests;
    } in
    if g.renovation then (blocked, updated) else finish access refresh now g updated

abbrev pub provisioned : ℕ → ℕ → ℕ → Option Guest × AuthDb → Flow × AuthDb
provisioned access refresh now (none, db) = (thrown, db)
provisioned access refresh now (some g, db) = finish access refresh now g db

unfoldable pub complete_discord_login : ℕ → ℕ → ℕ → Draws → DiscordUser → AuthDb → Flow × AuthDb
unfolding provision
complete_discord_login access refresh now d user db = elim (find_by_dc_id user.id db.guests) [
  | none ↦ provisioned access refresh now (provision d user uid_attempts 0 db)
  | some g ↦ returning access refresh now user g db
]
