-- ===== src/Auth/Requests/Returning.antt =====
-- A Discord user who signs in again (auth/login-server/src/login-flow.js).
use free_fire.Prelude.{
  ℕ, zero, suc, ◌≡◌, refl, ap, sym, ◌∙◌, String, Bool, true, false, Option, none, some, List, [],
  ◌∷◌, map, find, Bool-cases, Option-cases, inl, inr, arith,
}
use mathlib.Core.Option
use free_fire.Auth.Guests.{Guest, find_by_dc_id, insert_user, update_discord_fields, set_tokens}
use free_fire.Auth.Guests.Keys.{
  Keys, keys_of, with_dc_id, keys_of-insert_user, keys_of-update_guest, find_by_dc_id-keys_of,
  find_new,
}
use free_fire.Auth.Tokens.{issue_tokens}
use free_fire.Auth.Login.{
  AuthDb, DiscordUser, Draws, Redirect, signed_in, provision, complete_discord_login,
  insert_account, new_guest, next_uid, uid_attempts, provisioned, finish,
}
use free_fire.Auth.Requests.{Request, serve_all}
use free_fire.Auth.Requests.Keys.{serve_all-find}

abbrev Found : ℕ → AuthDb → Keys → Type 0
Found dc_id db k = find (with_dc_id dc_id) (map keys_of db.guests) ≡ some k

-- A guest that was provisioned is the one of its Discord user.
provision-Found :
    (d : Draws) (user : DiscordUser) (n i : ℕ) (db : AuthDb) (g : Guest)
    → (provision d user n i db).0 ≡ some g
    → (g.dc_id ≡ user.id)
      × (g.renovation ≡ false)
      × Found user.id (provision d user n i db).1 (keys_of g)
unfolding provision
provision-Found d user zero i db g h = cc
provision-Found d user (suc n) i db g h =
    let new = new_guest user (d.open_id i) (next_uid (d.max_uid i)) in
    elim (Option-cases (insert_user new db.guests)) [
      | inl e ↦ rw (e, provision) (provision-Found d user n (suc i) db g (rw (e, provision) at h))
      | inr (gs, e) ↦ elim (Option-cases (insert_account new.open_id new.uid db.accounts)) [
        | inl f ↦
            rw (e, f, provision)
              (provision-Found d user n (suc i) (record db { guests = gs }) g
                (rw (e, f, provision) at h))
        | inr (rows, f) ↦
            (let (free, grown) = keys_of-insert_user new db.guests gs e in
              let got : some new ≡ some g = rw (e, f, provision) at h in
              let same : new ≡ g = ap (λ o. elim o [ none ↦ new | some x ↦ x ]) got in
              (
                sym (ap (λ x. x.dc_id) same),
                sym (ap (λ x. x.renovation) same),
                rw (e, f, provision)
                    (ap (find (with_dc_id user.id)) grown
                      ∙ find_new (map keys_of db.guests) (keys_of new) free
                      ∙ ap (λ x. some (keys_of x)) same),
              ))
      ]
    ]

keys_of-finish :
    (access refresh now : ℕ) (g : Guest) (db : AuthDb)
    → map keys_of (finish access refresh now g db).1.guests ≡ map keys_of db.guests
unfolding issue_tokens set_tokens
keys_of-finish access refresh now g db = keys_of-update_guest g.open_id _ (λ g. refl) db.guests

same_keys :
    (k l : Keys)
    → k.open_id ≡ l.open_id
    → k.uid ≡ l.uid
    → k.dc_id ≡ l.dc_id
    → k.renovation ≡ l.renovation
    → k ≡ l
same_keys k l o u d r =
    ap (λ (x : ℕ). record k { open_id = x }) o
    ∙ ap (λ (x : ℕ). record k { open_id = l.open_id; uid = x }) u
    ∙ ap (λ (x : ℕ). record k { open_id = l.open_id; uid = l.uid; dc_id = x }) d
    ∙ ap (λ (x : Bool). record l { renovation = x }) r

find-holds : (p : Keys → Bool) (ks : List Keys) (k : Keys) → find p ks ≡ some k → p k ≡ true
find-holds p [] k h = absurd (ground arith)
find-holds p (j ∷ ks) k h = elim (Bool-cases (p j)) [
  | inl e ↦ ground arith
  | inr e ↦ find-holds p ks k (ground arith)
]

finish-Found :
    (access refresh now dc_id : ℕ) (g : Guest) (db : AuthDb) (r : Redirect)
    → Found dc_id db (keys_of g)
    → g.renovation ≡ false
    → (finish access refresh now g db).0 ≡ signed_in r
    → Found dc_id
        (finish access refresh now g db).1
        (record { open_id = r.open_id; uid = r.uid; dc_id = dc_id; renovation = false })
finish-Found access refresh now dc_id g db r found b h =
    let named : with_dc_id dc_id (keys_of g) ≡ true =
      find-holds (with_dc_id dc_id) (map keys_of db.guests) (keys_of g) found in
    ap (find (with_dc_id dc_id)) (keys_of-finish access refresh now g db)
    ∙ found
    ∙ ap some (
        same_keys (keys_of g) _ (ap (λ f. elim f [ signed_in x ↦ x.open_id | _ ↦ 0 ]) h)
          (ap (λ f. elim f [ signed_in x ↦ x.uid | _ ↦ 0 ]) h) (ground arith) b)

provisioned-Found :
    (access refresh now dc_id : ℕ) (v : Option Guest × AuthDb) (r : Redirect)
    → ((g : Guest) → v.0 ≡ some g → (g.renovation ≡ false) × Found dc_id v.1 (keys_of g))
    → (provisioned access refresh now v).0 ≡ signed_in r
    → Found dc_id
        (provisioned access refresh now v).1
        (record { open_id = r.open_id; uid = r.uid; dc_id = dc_id; renovation = false })
provisioned-Found access refresh now dc_id (none, db) r found h = cc
provisioned-Found access refresh now dc_id (some g, db) r found h =
    let (b, at) = found g refl in finish-Found access refresh now dc_id g db r at b h

updated : DiscordUser → Guest → AuthDb → AuthDb
updated user g db = record db {
  guests = update_discord_fields g.open_id user.username user.email db.guests;
}

updated-Found :
    (user : DiscordUser) (g : Guest) (db : AuthDb)
    → find_by_dc_id user.id db.guests ≡ some g
    → Found user.id (updated user g db) (keys_of g)
unfolding updated update_discord_fields
updated-Found user g db e =
    ap (find (with_dc_id user.id)) (keys_of-update_guest g.open_id _ (λ g. refl) db.guests)
    ∙ sym (find_by_dc_id-keys_of user.id db.guests)
    ∙ ap (Option.map keys_of) e

login-Found :
    (access refresh now : ℕ) (d : Draws) (user : DiscordUser) (db : AuthDb) (r : Redirect)
    → (complete_discord_login access refresh now d user db).0 ≡ signed_in r
    → Found user.id
        (complete_discord_login access refresh now d user db).1
        (record { open_id = r.open_id; uid = r.uid; dc_id = user.id; renovation = false })
unfolding complete_discord_login updated
login-Found access refresh now d user db r h =
    elim (Option-cases (find_by_dc_id user.id db.guests)) [
      | inl e ↦
          rw (e, complete_discord_login)
            (provisioned-Found access refresh now user.id (provision d user uid_attempts 0 db) r
              (λ g p. let (i, b, at) = provision-Found d user uid_attempts 0 db g p in (b, at))
              (rw (e, complete_discord_login) at h))
      | inr (g, e) ↦ elim (Bool-cases g.renovation) [
        | inl b ↦ absurd (ground arith)
        | inr b ↦
            rw (e, complete_discord_login, b)
              (finish-Found access refresh now user.id g (updated user g db) r
                (updated-Found user g db e) b (rw (e, complete_discord_login, b) at h))
      ]
    ]

known-login :
    (access refresh now : ℕ) (d : Draws) (user : DiscordUser) (db : AuthDb) (k : Keys)
    → k.renovation ≡ false
    → Found user.id db k
    → let v = complete_discord_login access refresh now d user db in
      (q : Redirect) × (v.0 ≡ signed_in q)
      × (q.uid ≡ k.uid)
      × (q.open_id ≡ k.open_id)
      × (map keys_of v.1.guests ≡ map keys_of db.guests)
      × (v.1.accounts ≡ db.accounts)
unfolding complete_discord_login updated update_discord_fields
known-login access refresh now d user db k b h =
    elim (Option-cases (find_by_dc_id user.id db.guests)) [
      | inl e ↦
          (let lost =
              sym (ap (Option.map keys_of) e) ∙ find_by_dc_id-keys_of user.id db.guests ∙ h in
            cc)
      | inr (g, e) ↦
          (let got : some (keys_of g) ≡ some k =
              sym (ap (Option.map keys_of) e) ∙ find_by_dc_id-keys_of user.id db.guests ∙ h in
            let same : keys_of g ≡ k = ap (λ o. elim o [ none ↦ k | some x ↦ x ]) got in
            let free : g.renovation ≡ false = ap (λ x. x.renovation) same ∙ b in
            rw (e, complete_discord_login, free)
              (
                _,
                refl,
                ap (λ x. x.uid) same,
                ap (λ x. x.open_id) same,
                keys_of-finish access refresh now g (updated user g db)
                    ∙ keys_of-update_guest g.open_id _ (λ g. refl) db.guests,
                refl,
              ))
    ]

-- Once a Discord user has signed in, then, whatever requests come in between, another sign-in of the
-- same Discord id goes through with the same uid and open id, whatever it draws and however the user's
-- name and address have changed, and adds neither a guest nor an account.
pub sign_in-again :
    (access refresh now : ℕ) (d : Draws) (user : DiscordUser) (db : AuthDb) (r : Redirect)
    (rs : List Request) (access2 refresh2 now2 : ℕ) (d2 : Draws) (handle email : String)
    → (complete_discord_login access refresh now d user db).0 ≡ signed_in r
    → let t = serve_all rs (complete_discord_login access refresh now d user db).1 in
      let user2 : DiscordUser = record { id = user.id; username = handle; email = email } in
      let again = complete_discord_login access2 refresh2 now2 d2 user2 t in
      (q : Redirect) × (again.0 ≡ signed_in q)
      × (q.uid ≡ r.uid)
      × (q.open_id ≡ r.open_id)
      × (map keys_of again.1.guests ≡ map keys_of t.guests)
      × (again.1.accounts ≡ t.accounts)
sign_in-again access refresh now d user db r rs access2 refresh2 now2 d2 handle email h =
    let first = (complete_discord_login access refresh now d user db).1 in
    known-login access2 refresh2 now2 d2 (record { id = user.id; username = handle; email = email })
      (serve_all rs first) _ refl
      (serve_all-find rs first user.id _ (login-Found access refresh now d user db r h))
