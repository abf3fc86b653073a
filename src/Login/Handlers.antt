-- ===== src/Login/Handlers.antt =====
-- The handlers of MajorLogin and MajorRegister (src/handlers/MajorLogin.js,
-- src/handlers/MajorRegister.js) and of the older Login (src/handlers/Login.js).
pub mod Rows
pub mod Outcomes
use free_fire.Prelude.{ℕ, String, Bool, true, false, Option, none, some, List, if◌then◌else◌, ◌==◌}
use free_fire.Login.Gate.{
  Settings, Decision, AuthStore, Rejection, run_login_gate, check_registration, check_ban, reject,
}
use free_fire.Login.Accounts.{
  Doc, Row, LoginReq, derive_open_id, kept, otherwise, get_by_open_id, save, create_from_login,
}

-- What the handlers work on: the gate's settings, whether the bus is up, `rowToAccount` and
-- DEFAULT_PLAYER of the repository.
pub record Server (R : Type 0) : Type 0 where
  pub settings : Settings
  pub bus : Bool
  pub read : Row R → Doc R
  pub initial : Doc R

pub record Tables (R : Type 0) : Type 0 where
  pub store : AuthStore
  pub rows : List (Row R)

pub record LoginRes : Type 0 where
  pub account_id : ℕ
  pub region : String
  pub ip_region : String
  pub token : ℕ
  pub ttl : ℕ

pub data Reply : Type 0 where
  rejected : Rejection → Reply
  not_registered failed : Reply
  logged_in : LoginRes → Reply
  registered : ℕ → Reply

abbrev pub with_store : {R : Type 0} → AuthStore → Tables R → Tables R
with_store store t = record t { store = store }

-- The account with the new token
abbrev pub with_login : {R : Type 0} → ℕ → ℕ → LoginReq → Doc R → Doc R
with_login token now req acc = record acc {
  token = some token;
  token_created_at = now;
  device_id = kept req.device_id acc.device_id;
  client_version = kept req.client_version acc.client_version;
}

abbrev pub default_region : String
default_region = "BR"

abbrev pub token_ttl : ℕ
token_ttl = 28800

abbrev pub login_res : {R : Type 0} → ℕ → Doc R → LoginRes
login_res token acc = record {
  account_id = acc.uid;
  region = otherwise acc.region "";
  ip_region = otherwise acc.region default_region;
  token = token;
  ttl = token_ttl;
}

abbrev pub saved : {R : Type 0} → ℕ → Tables R → Option (Doc R × List (Row R)) → Reply × Tables R
saved token t none = (failed, t)
saved token t (some (acc, rows)) = (logged_in (login_res token acc), record t { rows = rows })

-- After the gate and with the account found.
abbrev pub admit :
    {R : Type 0}
    → Server R
    → ℕ
    → ℕ
    → ℕ
    → LoginReq
    → Doc R
    → Option Decision × AuthStore
    → Tables R
    → Reply × Tables R
admit srv now_ms now token req acc (some d, store) t =
    (rejected (reject srv.bus d acc.uid), with_store store t)
admit srv now_ms now token req acc (none, store) t =
    saved token (with_store store t) (save now_ms (with_login token now req acc) t.rows)

-- The gate's rejection is sent without a uid.
abbrev pub after_gate :
    {R : Type 0}
    → Server R
    → ℕ
    → ℕ
    → ℕ
    → LoginReq
    → ℕ
    → Option Decision × AuthStore
    → Tables R
    → Reply × Tables R
after_gate srv now_ms now token req open_id (some d, store) t =
    (rejected (reject srv.bus d 0), with_store store t)
after_gate srv now_ms now token req open_id (none, store) t =
    elim (get_by_open_id srv.read open_id t.rows) [
      | none ↦ (not_registered, with_store store t)
      | some acc ↦
          admit srv now_ms now token req acc (check_ban srv.settings open_id acc.banned store) t
    ]

-- `now_ms` is the clock of `save`, `now` the seconds; `token` is drawn.
unfoldable pub handle_major_login :
    {R : Type 0} → Server R → ℕ → ℕ → ℕ → String → ℕ → LoginReq → Tables R → Reply × Tables R
unfolding run_login_gate check_ban get_by_open_id save
handle_major_login srv now_ms now token signature login_token req t =
    let open_id = derive_open_id srv.settings.guest_open_id req.open_id in
    after_gate srv now_ms now token req open_id
      (run_login_gate srv.settings (otherwise req.client_version "") signature open_id login_token
        t.store)
      t

-- src/handlers/Login.js
unfoldable pub handle_login :
    {R : Type 0} → Server R → ℕ → ℕ → ℕ → LoginReq → Tables R → Reply × Tables R
unfolding get_by_open_id save
handle_login srv now_ms now token req t =
    elim (get_by_open_id srv.read (derive_open_id srv.settings.guest_open_id req.open_id) t.rows) [
      | none ↦ (not_registered, t)
      | some acc ↦ saved token t (save now_ms (with_login token now req acc) t.rows)
    ]

abbrev pub created_reply :
    {R : Type 0} → Tables R → Option (Doc R × List (Row R)) → Reply × Tables R
created_reply t none = (failed, t)
created_reply t (some (acc, rows)) = (registered acc.uid, record t { rows = rows })

abbrev pub after_ban :
    {R : Type 0}
    → Server R
    → ℕ
    → ℕ
    → LoginReq
    → Option Decision × AuthStore
    → Tables R
    → Reply × Tables R
after_ban srv now_ms id req (some d, store) t = (rejected (reject srv.bus d 0), with_store store t)
after_ban srv now_ms id req (none, store) t =
    created_reply (with_store store t)
      (create_from_login srv.read srv.initial srv.settings.guest_open_id id now_ms req t.rows)

abbrev pub after_registration :
    {R : Type 0}
    → Server R
    → ℕ
    → ℕ
    → LoginReq
    → ℕ
    → Option Decision × AuthStore
    → Tables R
    → Reply × Tables R
after_registration srv now_ms id req open_id (some d, store) t =
    (rejected (reject srv.bus d 0), with_store store t)
after_registration srv now_ms id req open_id (none, store) t =
    after_ban srv now_ms id req (check_ban srv.settings open_id false store) t

-- `login_token` is `access_token` or else `login_token` of the request, `id` what an insertion generates.
unfoldable pub handle_major_register :
    {R : Type 0} → Server R → ℕ → ℕ → ℕ → LoginReq → Tables R → Reply × Tables R
unfolding check_registration check_ban create_from_login
handle_major_register srv now_ms id login_token req t =
    let open_id = derive_open_id srv.settings.guest_open_id req.open_id in
    after_registration srv now_ms id req open_id
      (check_registration srv.settings open_id login_token t.store) t
