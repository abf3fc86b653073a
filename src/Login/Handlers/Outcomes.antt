-- ===== src/Login/Handlers/Outcomes.antt =====
-- What the login handlers answer and store (src/handlers/MajorLogin.js, src/handlers/Login.js,
-- src/handlers/MajorRegister.js).
use free_fire.Prelude.{
  ℕ, ◌≡◌, ◌≢◌, refl, ap, sym, ◌∙◌, String, Bool, true, Option, none, some, or_else, arith,
  if◌then◌else◌, Bool-cases, inl, inr,
}
use mathlib.Core.Option
use free_fire.Login.Gate.{Decision, AuthStore, run_login_gate, check_ban, reject}
use free_fire.Login.Accounts.{
  Doc, Row, LoginReq, derive_open_id, otherwise, get_by_open_id, get_by_token, row_to_account,
  stamped, update_row, save,
}
use free_fire.Login.Accounts.Documents.{
  row_of, no_other, is_token, save-get_by_id, save-get_by_token,
}
use free_fire.Login.Handlers.{
  Server, Tables, LoginRes, Reply, rejected, logged_in, handle_major_login, handle_login,
  after_gate, admit, saved, with_login, with_store, login_res,
}
use free_fire.Login.Handlers.Rows.{unique_ids, row_of-get_by, get_by-get_by_open_id}

-- What a reply with a token needs of the tables.
abbrev Stored : {R : Type 0} → Server R → ℕ → Reply × Tables R → Type 0
Stored srv token r =
    (res : LoginRes)
    → r.0 ≡ logged_in res
    → Option.map (λ a. a.uid) (get_by_token srv.read token r.1.rows) ≡ some res.account_id

-- What the save of a login writes, and that the new token finds it.
saved_login :
    {R : Type 0} (srv : Server R) (now_ms now token : ℕ) (req : LoginReq) (acc : Doc R)
    (row : Row R) (t : Tables R)
    → acc.uid ≢ 0
    → token ≢ 0
    → row_of acc.uid t.rows ≡ some row
    → acc.open_id ≡ some row.open_id
    → no_other token acc.uid t.rows ≡ true
    → let wanted = with_login token now req acc in
      let after = update_row (stamped now_ms wanted) t.rows in
      (save now_ms wanted t.rows ≡ some (stamped now_ms wanted, after))
      × (get_by_token (row_to_account srv.initial) token after ≡ some (stamped now_ms wanted))
saved_login srv now_ms now token req acc row t nz tz found o n =
    let same : or_else acc.uid acc.account_id ≡ acc.uid = ground arith in
    let wanted = with_login token now req acc in
    let hit : is_token token wanted.token ≡ true = ground arith in
    (
      (save-get_by_id srv.initial wanted row now_ms t.rows (rw same nz) (rw same found) o).0,
      save-get_by_token srv.initial wanted row now_ms token t.rows tz (rw same found) o (rw same n)
          ∙ ap (λ b. if b then some (stamped now_ms wanted) else none) hit,
    )

admit-Stored :
    {R : Type 0} (srv : Server R) (now_ms now token : ℕ) (req : LoginReq) (acc : Doc R)
    (row : Row R) (r : Option Decision × AuthStore) (t : Tables R)
    → srv.read ≡ row_to_account srv.initial
    → acc.uid ≢ 0
    → token ≢ 0
    → row_of acc.uid t.rows ≡ some row
    → acc.open_id ≡ some row.open_id
    → no_other token acc.uid t.rows ≡ true
    → Stored srv token (admit srv now_ms now token req acc r t)
admit-Stored srv now_ms now token req acc row (some d, store) t read nz tz found o n res h =
    absurd (ground arith)
admit-Stored srv now_ms now token req acc row (none, store) t read nz tz found o n res h =
    let (wrote, by_token) = saved_login srv now_ms now token req acc row t nz tz found o n in
    let reply : logged_in (login_res token (stamped now_ms (with_login token now req acc)))
        ≡ logged_in res =
      sym (ap (λ r. (saved token (with_store store t) r).0) wrote) ∙ h in
    ap
      (λ r.
        Option.map (λ a. a.uid)
          (get_by_token srv.read token (saved token (with_store store t) r).1.rows))
      wrote
    ∙ ap
        (λ read.
          Option.map (λ a. a.uid)
            (get_by_token read token
              (update_row (stamped now_ms (with_login token now req acc)) t.rows)))
        read
    ∙ ap (Option.map (λ a. a.uid)) by_token
    ∙ ap (λ r. some (elim r [ logged_in x ↦ x.account_id | _ ↦ 0 ])) reply

after_gate-Stored :
    {R : Type 0} (srv : Server R) (now_ms now token : ℕ) (req : LoginReq) (open_id : ℕ)
    (acc : Doc R) (r : Option Decision × AuthStore) (t : Tables R)
    → srv.read ≡ row_to_account srv.initial
    → unique_ids t.rows ≡ true
    → get_by_open_id srv.read open_id t.rows ≡ some acc
    → acc.uid ≢ 0
    → token ≢ 0
    → no_other token acc.uid t.rows ≡ true
    → Stored srv token (after_gate srv now_ms now token req open_id r t)
after_gate-Stored srv now_ms now token req open_id acc (some d, store) t read u found nz tz n =
    λ res h. absurd (ground arith)
after_gate-Stored srv now_ms now token req open_id acc (none, store) t read u found nz tz n =
    let (row, at, o, a) = row_of-get_by srv.initial acc open_id t.rows u (
      get_by-get_by_open_id (row_to_account srv.initial) acc open_id t.rows
        (sym (ap (λ f. get_by_open_id f open_id t.rows) read) ∙ found)) in
    rw (found, after_gate)
      (admit-Stored srv now_ms now token req acc row
        (check_ban srv.settings open_id acc.banned store) t read nz tz at o n)

reject-no_uid :
    (bus : Bool) (d : Decision)
    → d.status ≡ 403
    → reject bus d 0 ≡ record { status = 403; revoked = none; destroyed = d.force_close }
unfolding reject
reject-no_uid bus d st = elim (Bool-cases d.kick) [
  | inl e ↦ rw (st, e) refl
  | inr e ↦ rw (st, e) refl
]

-- A login that is answered with a token has stored it: where no two rows share an account id, the
-- account of the request's open id is not 0, and no other account has the new token, the repository
-- finds by this token the account that the answer names.
pub handle_major_login-token :
    {R : Type 0} (srv : Server R) (now_ms now token : ℕ) (signature : String) (login_token : ℕ)
    (req : LoginReq) (t : Tables R) (res : LoginRes) (acc : Doc R)
    → srv.read ≡ row_to_account srv.initial
    → unique_ids t.rows ≡ true
    → get_by_open_id srv.read (derive_open_id srv.settings.guest_open_id req.open_id) t.rows
      ≡ some acc
    → acc.uid ≢ 0
    → token ≢ 0
    → no_other token acc.uid t.rows ≡ true
    → (handle_major_login srv now_ms now token signature login_token req t).0 ≡ logged_in res
    → let after = (handle_major_login srv now_ms now token signature login_token req t).1.rows in
      Option.map (λ a. a.uid) (get_by_token srv.read token after) ≡ some res.account_id
unfolding handle_major_login
handle_major_login-token srv now_ms now token signature login_token req t res acc read u found nz tz
      n h =
    after_gate-Stored srv now_ms now token req _ acc _ t read u found nz tz n res h

after_gate-banned :
    {R : Type 0} (srv : Server R) (now_ms now token : ℕ) (req : LoginReq) (open_id : ℕ)
    (acc : Doc R) (r : Option Decision × AuthStore) (t : Tables R)
    → srv.settings.enforce_bans ≡ true
    → get_by_open_id srv.read open_id t.rows ≡ some acc
    → acc.banned ≡ true
    → let v = after_gate srv now_ms now token req open_id r t in
      ((res : LoginRes) → v.0 ≢ logged_in res) × (v.1.rows ≡ t.rows)
unfolding check_ban
after_gate-banned srv now_ms now token req open_id acc (some d, store) t eb found ban =
    (λ res h. cc, refl)
after_gate-banned srv now_ms now token req open_id acc (none, store) t eb found ban =
    rw (found, after_gate, eb, ban) ((λ res h. cc), refl)

handle_login-Stored :
    {R : Type 0} (srv : Server R) (now_ms now token : ℕ) (req : LoginReq) (acc : Doc R)
    (t : Tables R)
    → srv.read ≡ row_to_account srv.initial
    → unique_ids t.rows ≡ true
    → get_by_open_id srv.read (derive_open_id srv.settings.guest_open_id req.open_id) t.rows
      ≡ some acc
    → acc.uid ≢ 0
    → token ≢ 0
    → no_other token acc.uid t.rows ≡ true
    → let v = handle_login srv now_ms now token req t in
      (res : LoginRes) × (v.0 ≡ logged_in res)
      × (res.account_id ≡ acc.uid)
      × (Option.map (λ a. a.uid) (get_by_token srv.read token v.1.rows) ≡ some acc.uid)
unfolding handle_login
handle_login-Stored srv now_ms now token req acc t read u found nz tz n =
    let key = derive_open_id srv.settings.guest_open_id req.open_id in
    let (row, at, o, a) = row_of-get_by srv.initial acc key t.rows u (
      get_by-get_by_open_id (row_to_account srv.initial) acc key t.rows
        (sym (ap (λ f. get_by_open_id f key t.rows) read) ∙ found)) in
    let (wrote, by_token) = saved_login srv now_ms now token req acc row t nz tz at o n in
    let same : or_else acc.uid acc.account_id ≡ acc.uid = ground arith in
    let uid_of : Option (Doc _) → Option ℕ = Option.map (λ a. a.uid) in
    let step : handle_login srv now_ms now token req t
        ≡ saved token t (save now_ms (with_login token now req acc) t.rows) =
      rw (found, handle_login) refl in
    let done = step ∙ ap (saved token t) wrote in
    let after = update_row (stamped now_ms (with_login token now req acc)) t.rows in
    (
      login_res token (stamped now_ms (with_login token now req acc)),
      ap (λ v. v.0) done,
      same,
      ap (λ v. uid_of (get_by_token srv.read token v.1.rows)) done
          ∙ ap (λ f. uid_of (get_by_token f token after)) read
          ∙ ap uid_of by_token
          ∙ ap some same,
    )

-- Where bans are enforced, an account with the ban flag never gets a token from MajorLogin, whatever
-- the gate says, and its rows are left as they are. The older Login gives the same account a token,
-- with no two rows sharing an account id, the token not 0 and no other account's, and the uid not 0:
-- the repository then finds the banned account by it.
pub handle_login-banned :
    {R : Type 0} (srv : Server R) (now_ms now token : ℕ) (signature : String) (login_token : ℕ)
    (req : LoginReq) (t : Tables R) (acc : Doc R)
    → srv.settings.enforce_bans ≡ true
    → srv.read ≡ row_to_account srv.initial
    → unique_ids t.rows ≡ true
    → get_by_open_id srv.read (derive_open_id srv.settings.guest_open_id req.open_id) t.rows
      ≡ some acc
    → acc.banned ≡ true
    → acc.uid ≢ 0
    → token ≢ 0
    → no_other token acc.uid t.rows ≡ true
    → let major = handle_major_login srv now_ms now token signature login_token req t in
      let older = handle_login srv now_ms now token req t in
      ((res : LoginRes) → major.0 ≢ logged_in res)
      × (major.1.rows ≡ t.rows)
      × (res : LoginRes) × (older.0 ≡ logged_in res)
      × (res.account_id ≡ acc.uid)
      × (Option.map (λ a. a.uid) (get_by_token srv.read token older.1.rows) ≡ some acc.uid)
unfolding handle_major_login
handle_login-banned srv now_ms now token signature login_token req t acc eb read u found ban nz tz
      n =
    let (refused, kept) = after_gate-banned srv now_ms now token req _ acc _ t eb found ban in
    let (res, answered, named, stored) =
      handle_login-Stored srv now_ms now token req acc t read u found nz tz n in
    (refused, kept, res, answered, named, stored)

-- A request that the gate itself turns away has no uid to revoke: whatever the decision, no
-- SessionRevoke is published, and nothing is stored.
pub handle_major_login-gated :
    {R : Type 0} (srv : Server R) (now_ms now token : ℕ) (signature : String) (login_token : ℕ)
    (req : LoginReq) (t : Tables R) (d : Decision) (store : AuthStore)
    → run_login_gate srv.settings
        (otherwise req.client_version "")
        signature
        (derive_open_id srv.settings.guest_open_id req.open_id)
        login_token
        t.store
      ≡ (some d, store)
    → d.status ≡ 403
    → handle_major_login srv now_ms now token signature login_token req t ≡ (
      rejected (record { status = 403; revoked = none; destroyed = d.force_close }),
      with_store store t,
    )
unfolding handle_major_login
handle_major_login-gated srv now_ms now token signature login_token req t d store h st =
    ap
      (λ r.
        after_gate srv now_ms now token req (derive_open_id srv.settings.guest_open_id req.open_id)
          r t)
      h
    ∙ ap (λ x. (rejected x, with_store store t)) (reject-no_uid srv.bus d st)
