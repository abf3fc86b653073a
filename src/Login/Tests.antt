-- ===== src/Login/Tests.antt =====
-- Concrete runs of src/handlers and the repository of accounts.
use free_fire.Prelude.{ℕ, ◌≡◌, ◌≢◌, refl, true, false, none, some, List, [], ◌∷◌, arith}
use mathlib.Core.Option
use free_fire.Auth.Guests.{Guest, find_by_open_id, clear_tokens}
use free_fire.Auth.Tokens.{issue_tokens}
use free_fire.Login.Gate.{
  Settings, AuthStore, answers, no_schema, wrong_token, refusal, check_registration, run_login_gate,
  check_version, check_signature, check_ban, account_by_open_id, run_query,
}
use free_fire.Login.Gate.Admission.{check_registration-tokens}
use free_fire.Login.Accounts.{
  Doc, Row, LoginReq, missing, given, get_by, get_by_id, get_by_token, get_by_open_id,
  row_to_account, stamped, update_row, save, create_from_login, placeholder, created, denorm,
}
use free_fire.Login.Accounts.Keys.{Op, registers, saves, run, create_from_login-again}
use free_fire.Login.Accounts.Documents.{row_of, save-get_by_id, save-get_by_token}
use free_fire.Login.Handlers.{
  Server, Tables, LoginRes, logged_in, login_res, handle_major_login, handle_login,
}
use free_fire.Login.Handlers.Rows.{unique_ids}
use free_fire.Login.Handlers.Outcomes.{handle_major_login-token, handle_login-banned}

abbrev initial : Doc ℕ
initial = record {
  uid = 0;
  account_id = 0;
  open_id = none;
  open_id_type = none;
  nickname = some "Player";
  region = none;
  language = none;
  device_id = none;
  client_version = none;
  level = some 100;
  clan_id = 0;
  banned = false;
  token = none;
  token_created_at = 0;
  created_at = 0;
  last_login_at = 0;
  rest = 7;
}

abbrev request : LoginReq
request = record {
  open_id = given 501;
  open_id_type = none;
  nickname = some "alice";
  region = some "BR";
  language = none;
  device_id = none;
  client_version = some "1.43";
}

abbrev other_request : LoginReq
other_request = record request { open_id = missing }

abbrev account : Doc ℕ
account = created initial 5 501 1000 request

abbrev row : Row ℕ
row = denorm (stamped 1000 account) (placeholder 5 501 1000 request)

abbrev ops : List (Op ℕ)
ops = registers 6 2000 other_request ∷ saves 3000 (record account { nickname = some "bob" }) ∷ []

create_from_login-again_example :
    Option.map
      (λ r. r.0.uid)
      (create_from_login
        (row_to_account initial)
        initial
        900
        8
        4000
        request
        (run (row_to_account initial) initial 900 ops (row ∷ [])))
    ≡ some 5
create_from_login-again_example =
    create_from_login-again (row_to_account initial) initial 900 5 8 1000 4000 request request []
      (row ∷ []) (stamped 1000 account) ops (λ r. (refl, refl))
      (unfold create_from_login in unfold get_by in unfold save in unfold update_row in refl) refl

abbrev signed_in : Doc ℕ
signed_in = record account { token = some 31 }

-- A new account's document, which has no token.
save-get_by_id_example :
    let after = update_row (stamped 5000 account) (row ∷ []) in
    (save 5000 account (row ∷ []) ≡ some (stamped 5000 account, after))
    × (get_by_id (row_to_account initial) 5 after ≡ some (stamped 5000 account))
save-get_by_id_example =
    save-get_by_id initial account row 5000 (row ∷ []) (omega arith) (unfold row_of in refl) refl

save-get_by_token_example :
    get_by_token (row_to_account initial) 31 (update_row (stamped 5000 signed_in) (row ∷ []))
    ≡ some (stamped 5000 signed_in)
save-get_by_token_example =
    save-get_by_token initial signed_in row 5000 31 (row ∷ []) (omega arith) (unfold row_of in refl)
      refl refl

abbrev settings : Settings
settings = record {
  allowed_versions = [];
  allowed_signatures = "abc" ∷ [];
  enforce_registration = true;
  enforce_login_token = true;
  allow_guest = true;
  guest_open_id = 900;
  enforce_bans = true;
}

abbrev guest : Guest
guest = record {
  open_id = 501;
  uid = 10000001;
  dc_id = 77;
  dc_handle = "alice";
  dc_email = "";
  renovation = false;
  access_token = none;
  refresh_token = none;
  access_expiry = none;
  refresh_expiry = none;
  create_time = none;
}

abbrev store : AuthStore
store = record {
  enabled = true;
  outcome = answers;
  db = record { guests = guest ∷ []; accounts = [] };
}

check_registration-tokens_example :
    let issued : AuthStore = record store {
      db = record store.db { guests = (issue_tokens 31 32 100 501 (guest ∷ [])).1 };
    } in
    let cleared : AuthStore = record store {
      db = record store.db { guests = clear_tokens 501 (guest ∷ []) };
    } in
    (check_registration settings 501 33 issued ≡ (refusal wrong_token true false, issued))
    × (check_registration settings 501 33 cleared ≡ (refusal wrong_token true false, cleared))
check_registration-tokens_example =
    check_registration-tokens settings 31 32 100 33 guest store refl refl refl refl (omega arith)
      (omega arith) (omega arith) refl (unfold find_by_open_id in refl)

abbrev no_schema_store : AuthStore
no_schema_store = record store { outcome = no_schema }

abbrev lenient : Settings
lenient = record settings { enforce_registration = false }

abbrev server : Server ℕ
server = record { settings = lenient; bus = true; read = row_to_account initial; initial = initial }

abbrev tables : List (Row ℕ) → Tables ℕ
tables rows = record { store = store; rows = rows }

handle_major_login-token_example :
    Option.map
      (λ a. a.uid)
      (get_by_token
        (row_to_account initial)
        31
        (handle_major_login server 6000 6 31 "abc" 0 request (tables (row ∷ []))).1.rows)
    ≡ some 5
handle_major_login-token_example =
    handle_major_login-token server 6000 6 31 "abc" 0 request (tables (row ∷ []))
      (login_res 31 account) (stamped 1000 account) refl (unfold unique_ids in refl)
      (unfold get_by_open_id in unfold get_by in refl) (omega arith) (omega arith) refl
      (unfold handle_major_login in
        unfold run_login_gate in
        unfold check_version in
        unfold check_signature in
        unfold check_registration in
        unfold check_ban in
        unfold account_by_open_id in
        unfold run_query in
        unfold get_by_open_id in unfold get_by in unfold save in unfold update_row in refl)

abbrev banned_row : Row ℕ
banned_row = denorm (record account { banned = true }) row

abbrev banned_account : Doc ℕ
banned_account = row_to_account initial banned_row

handle_login-banned_example :
    let t = tables (banned_row ∷ []) in
    let major = handle_major_login server 6000 6 31 "abc" 0 request t in
    let older = handle_login server 6000 6 31 request t in
    ((res : LoginRes) → major.0 ≢ logged_in res)
    × (major.1.rows ≡ banned_row ∷ [])
    × (res : LoginRes) × (older.0 ≡ logged_in res)
    × (res.account_id ≡ 5)
    × (Option.map (λ a. a.uid) (get_by_token (row_to_account initial) 31 older.1.rows) ≡ some 5)
handle_login-banned_example =
    handle_login-banned server 6000 6 31 "abc" 0 request (tables (banned_row ∷ [])) banned_account
      refl refl (unfold unique_ids in refl) (unfold get_by_open_id in unfold get_by in refl) refl
      (omega arith) (omega arith) refl
