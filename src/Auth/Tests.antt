-- ===== src/Auth/Tests.antt =====
-- Concrete runs of auth/.
use free_fire.Prelude.{
  ◌≤◌, ◌+◌, ◌≡◌, refl, none, some, List, [], ◌∷◌, map, if◌then◌else◌, ◌==◌, arith,
}
use free_fire.Auth.Pairings.{Pairing, completed}
use free_fire.Auth.Pairings.Single.{
  Statement, creates, completes, deletes, sweeps, outcomes, creations, stored,
  outcomes-le-creations,
}
use free_fire.Auth.Pairings.Sessions.{RefinesSession, pairings-refine-sessions}
use free_fire.Auth.Guests.{Guest, find_by_dc_id, find_by_open_id, insert_user}
use free_fire.Auth.Guests.Keys.{keys_of}
use free_fire.Auth.Tokens.{issue_tokens, validate_access_token, validate_refresh_token}
use free_fire.Auth.Tokens.Lifetime.{with_tokens, until, issue_tokens-validate}
use free_fire.Auth.Login.{
  AuthDb, DiscordUser, Draws, Redirect, signed_in, complete_discord_login, insert_account,
  new_guest, provision, uid_attempts,
}
use free_fire.Auth.Login.Attempts.{attempted, account_of, provision-attempts}
use free_fire.Auth.Requests.{Request, signs_in, inspects, refreshes, logs_out, serve_all}
use free_fire.Auth.Requests.Returning.{sign_in-again}

-- Two polls both read a completed pairing; the second finds no row.
abbrev statements : List Statement
statements =
    creates "app" 900 5
    ∷ completes 7 "app/#ok"
    ∷ deletes completed
    ∷ deletes completed
    ∷ sweeps 2000
    ∷ []

outcomes-le-creations_example : outcomes statements none ≤ creations statements + stored none
outcomes-le-creations_example = outcomes-le-creations statements none

abbrev pairing : Pairing
pairing = record {
  status = completed;
  redirect_uri = "app";
  redirect_url = some "app/#ok";
  error = none;
  created_at = 5;
  expires_at = 900;
}

pairings-refine-sessions_example : RefinesSession 60 (some pairing)
pairings-refine-sessions_example = pairings-refine-sessions 60 (some pairing)

abbrev alice : DiscordUser
alice = record { id = 77; username = "alice"; email = "" }

abbrev bob : DiscordUser
bob = record { id = 78; username = "bob"; email = "" }

abbrev guest : Guest
guest = new_guest alice 501 10000001

abbrev db_of : List Guest → AuthDb
db_of gs = record { guests = gs; accounts = map account_of gs }

-- The first attempt has read a stale largest uid, the second has not.
abbrev draws : Draws
draws = record { open_id = λ i. 600 + i; max_uid = λ i. if i == 0 then none else some 10000001 }

provision-attempts_example :
    provision draws bob uid_attempts 0 (db_of (guest ∷ []))
    ≡ (some (attempted draws bob 1), db_of (guest ∷ attempted draws bob 1 ∷ []))
provision-attempts_example =
    provision-attempts draws bob (db_of (guest ∷ [])) 1 (omega arith)
      (λ m l. let first : m ≡ 0 = omega arith in rw first refl) refl refl

abbrev fresh : Draws
fresh = record { open_id = λ i. 600 + i; max_uid = λ i. some 10000001 }

abbrev requests : List Request
requests =
    signs_in 31 32 100 draws bob
    ∷ signs_in 33 34 101 draws alice
    ∷ inspects 102 31
    ∷ refreshes 35 103 34
    ∷ logs_out 31 32
    ∷ []

-- Bob is provisioned, and comes back under another name after others' requests and his own.
sign_in-again_example :
    let t = serve_all requests (complete_discord_login 41 42 90 draws bob (db_of (guest ∷ []))).1 in
    let renamed : DiscordUser = record { id = 78; username = "bobby"; email = "b" } in
    let again = complete_discord_login 43 44 500 fresh renamed t in
    (q : Redirect) × (again.0 ≡ signed_in q)
    × (q.uid ≡ 10000002)
    × (q.open_id ≡ 601)
    × (map keys_of again.1.guests ≡ map keys_of t.guests)
    × (again.1.accounts ≡ t.accounts)
sign_in-again_example =
    sign_in-again 41 42 90 draws bob (db_of (guest ∷ []))
      (record {
        uid = 10000002;
        open_id = 601;
        issued_at = 90;
        access_token = 41;
        data_access_expiration = 5183806;
      })
      requests 43 44 500 fresh "bobby" "b"
      (unfold complete_discord_login in
        unfold provision in
        unfold insert_user in
        unfold insert_account in unfold find_by_dc_id in unfold issue_tokens in refl)

issue_tokens-validate_example :
    let hs = (issue_tokens 31 32 100 501 (guest ∷ [])).1 in
    let h = with_tokens 31 32 100 guest in
    (validate_access_token 2000000 31 hs ≡ (until 2000000 1296100 h, hs))
    × (validate_refresh_token 2000000 32 hs ≡ (until 2000000 2592100 h, hs))
issue_tokens-validate_example =
    issue_tokens-validate 31 32 100 2000000 guest (guest ∷ []) (omega arith) (omega arith) refl refl
      (unfold find_by_open_id in refl) refl

abbrev signed_guest : Guest
signed_guest = with_tokens 31 32 100 guest
