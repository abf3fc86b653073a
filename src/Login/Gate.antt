-- ===== src/Login/Gate.antt =====
-- The login gate (src/handlers/_authGate.js) over the auth store (src/db/authStore.js), which reads
-- the tables of the auth servers.
pub mod Admission
use free_fire.Prelude.{
  ℕ, String, Bool, true, false, ◌||◌, ◌&&◌, not, Option, none, some, List, [], ◌∷◌, any, find,
  if◌then◌else◌, ◌==◌, str_eq,
}
use free_fire.Auth.Guests.{Guest, holds, find_by_open_id}
use free_fire.Auth.Login.{AuthDb, AccountRow}

-- `config.auth`
pub record Settings : Type 0 where
  pub allowed_versions : List String
  pub allowed_signatures : List String
  pub enforce_registration : Bool
  pub enforce_login_token : Bool
  pub allow_guest : Bool
  pub guest_open_id : ℕ
  pub enforce_bans : Bool

pub data Reason : Type 0 where
  wrong_version wrong_signature unregistered blocked wrong_token banned_here banned_there : Reason

pub record Decision : Type 0 where
  pub status : ℕ
  pub reason : Reason
  pub kick : Bool
  pub force_close : Bool

-- What a query of the auth store meets.
pub data Outcome : Type 0 where
  answers no_schema fails : Outcome

pub record AuthStore : Type 0 where
  pub enabled : Bool
  pub outcome : Outcome
  pub db : AuthDb

-- `runQuery`, of what the query selects; `none` is the error that it throws.
unfoldable pub run_query {ℓ} :
    {A : Type ℓ} → (AuthDb → Option A) → AuthStore → Option (Option A) × AuthStore
run_query select s = elim s.outcome [
  | answers ↦ (some (select s.db), s)
  | no_schema ↦ (some none, record s { enabled = false })
  | fails ↦ (none, s)
]

unfoldable pub guest_by_open_id : ℕ → AuthStore → Option (Option Guest) × AuthStore
unfolding run_query
guest_by_open_id open_id s =
    if not s.enabled || open_id == 0
    then (some none, s)
    else run_query (λ db. find_by_open_id open_id db.guests) s

unfoldable pub account_by_open_id : ℕ → AuthStore → Option (Option AccountRow) × AuthStore
unfolding run_query
account_by_open_id open_id s =
    if not s.enabled || open_id == 0
    then (some none, s)
    else run_query (λ db. find (λ r. r.open_id == open_id) db.accounts) s

abbrev pub is_listed : List String → String → Bool
is_listed allowed v = any (str_eq v) allowed

abbrev pub is_off : List String → Bool
is_off [] = true
is_off (v ∷ vs) = false

abbrev pub refusal : Reason → Bool → Bool → Option Decision
refusal reason kick force_close =
    some (record { status = 403; reason = reason; kick = kick; force_close = force_close })

unfoldable pub check_version : Settings → String → Option Decision
check_version c v =
    if is_off c.allowed_versions || is_listed c.allowed_versions v
    then none
    else refusal wrong_version false false

unfoldable pub check_signature : Settings → String → Option Decision
check_signature c sig =
    if is_off c.allowed_signatures || is_listed c.allowed_signatures sig
    then none
    else refusal wrong_signature true true

-- A query that throws lets the login pass.
abbrev pub judge_guest :
    Settings → ℕ → Option (Option Guest) × AuthStore → Option Decision × AuthStore
judge_guest c token (none, s) = (none, s)
judge_guest c token (some none, s) = (refusal unregistered false false, s)
judge_guest c token (some (some g), s) =
    if g.renovation
    then (refusal blocked true false, s)
    else if c.enforce_login_token && (token == 0 || not (holds g.access_token token))
    then (refusal wrong_token true false, s)
    else (none, s)

unfoldable pub check_registration : Settings → ℕ → ℕ → AuthStore → Option Decision × AuthStore
unfolding guest_by_open_id
check_registration c open_id token s =
    if not c.enforce_registration || not s.enabled || (c.allow_guest && open_id == c.guest_open_id)
    then (none, s)
    else judge_guest c token (guest_by_open_id open_id s)

abbrev pub judge_account : Option (Option AccountRow) × AuthStore → Option Decision × AuthStore
judge_account (some (some a), s) =
    if a.banned || not a.authorized then (refusal banned_there true false, s) else (none, s)
judge_account (_, s) = (none, s)

-- `banned` is the flag of the game's own account, false where it has none.
unfoldable pub check_ban : Settings → ℕ → Bool → AuthStore → Option Decision × AuthStore
unfolding account_by_open_id
check_ban c open_id banned s =
    if not c.enforce_bans
    then (none, s)
    else if banned
    then (refusal banned_here true false, s)
    else if not s.enabled || open_id == 0
    then (none, s)
    else judge_account (account_by_open_id open_id s)

unfoldable pub run_login_gate :
    Settings → String → String → ℕ → ℕ → AuthStore → Option Decision × AuthStore
unfolding check_version check_signature check_registration
run_login_gate c version signature open_id token s = elim (check_version c version) [
  | some d ↦ (some d, s)
  | none ↦ elim (check_signature c signature) [
    | some d ↦ (some d, s)
    | none ↦ check_registration c open_id token s
  ]
]

-- What a rejection does: the status, the account for which a SessionRevoke is published, and whether
-- the socket is destroyed.
pub record Rejection : Type 0 where
  pub status : ℕ
  pub revoked : Option ℕ
  pub destroyed : Bool

-- `revoke`; 0 is a uid that the caller did not pass.
abbrev pub revoke : Bool → ℕ → Option ℕ
revoke bus uid = if uid == 0 || not bus then none else some uid

unfoldable pub reject : Bool → Decision → ℕ → Rejection
reject bus d uid = record {
  status = if d.status == 0 then 403 else d.status;
  revoked = if d.kick then revoke bus uid else none;
  destroyed = d.force_close;
}
