-- ===== src/Auth/Requests/Keys.antt =====
-- The keys of the guests over any requests to the login and connect servers
-- (auth/login-server/src/login-flow.js, auth/connect-server/src/routes/oauth.js).
use free_fire.Prelude.{
  ℕ, zero, suc, ◌≡◌, refl, sym, subst, Bool, true, false, ◌||◌, Option, none, some, List, [], ◌∷◌,
  ◌++◌, map, any, find, if◌then◌else◌, ◌==◌, Bool-cases, Option-cases, inl, inr,
}
use free_fire.Auth.Guests.{
  Guest, find_by_dc_id, insert_user, find_by_access_token, find_by_refresh_token,
  find_by_access_and_refresh_token, clear_tokens, update_discord_fields, set_tokens,
  set_access_token,
}
use free_fire.Auth.Guests.Keys.{
  Keys, keys_of, clash, with_dc_id, keys_of-insert_user, keys_of-update_guest, find-append,
}
use free_fire.Auth.Tokens.{
  Validation, valid, invalid, validate_access_token, validate_refresh_token, checked, is_over,
  refresh_access_token, issue_tokens,
}
use free_fire.Auth.Login.{
  AuthDb, DiscordUser, Draws, provision, complete_discord_login, insert_account, new_guest,
  next_uid, uid_attempts, returning, provisioned,
}
use free_fire.Auth.Requests.{
  Request, signs_in, inspects, exchanges, refreshes, logs_out, serve, serve_all, Response,
  exchanged, answer, rotated, inspect, exchange, token, logout,
}

-- What holds of the keys and survives a new guest whose keys are free survives every request.
module _ {P : List Keys → Type 0}
    (grows : (ks : List Keys) (k : Keys) → any (clash k) ks ≡ false → P ks → P (ks ++ k ∷ [])) where
  abbrev Holds : List Guest → Type 0
  Holds gs = P (map keys_of gs)

  Holds-kept : (gs hs : List Guest) → map keys_of hs ≡ map keys_of gs → Holds gs → Holds hs
  Holds-kept gs hs e h = subst P (sym e) h

  Holds-if :
      {A : Type 0} (b : Bool) (v w : A × List Guest)
      → Holds v.1
      → Holds w.1
      → Holds (if b then v else w).1
  Holds-if true v w h k = h
  Holds-if false v w h k = k

  Holds-set_tokens :
      (o a r x y c : ℕ) (gs : List Guest) → Holds gs → Holds (set_tokens o a r x y c gs)
  unfolding set_tokens
  Holds-set_tokens o a r x y c gs h = Holds-kept gs _ (keys_of-update_guest o _ (λ g. refl) gs) h

  Holds-clear_tokens : (o : ℕ) (gs : List Guest) → Holds gs → Holds (clear_tokens o gs)
  unfolding clear_tokens
  Holds-clear_tokens o gs h = Holds-kept gs _ (keys_of-update_guest o _ (λ g. refl) gs) h

  Holds-set_access_token :
      (o a x : ℕ) (gs : List Guest) → Holds gs → Holds (set_access_token o a x gs)
  unfolding set_access_token
  Holds-set_access_token o a x gs h = Holds-kept gs _ (keys_of-update_guest o _ (λ g. refl) gs) h

  Holds-insert_user :
      (g : Guest) (gs hs : List Guest) → insert_user g gs ≡ some hs → Holds gs → Holds hs
  Holds-insert_user g gs hs e h =
      let (free, grown) = keys_of-insert_user g gs hs e in
      subst P (sym grown) (grows (map keys_of gs) (keys_of g) free h)

  Holds-inserted :
      (d : Draws) (user : DiscordUser) (n i : ℕ) (db : AuthDb) (gs : List Guest)
      → insert_user (new_guest user (d.open_id i) (next_uid (d.max_uid i))) db.guests ≡ some gs
      → Holds db.guests
      → ((j : ℕ) (t : AuthDb) → Holds t.guests → Holds (provision d user n j t).1.guests)
      → Holds (provision d user (suc n) i db).1.guests
  unfolding provision
  Holds-inserted d user n i db gs e h rest =
      let g = new_guest user (d.open_id i) (next_uid (d.max_uid i)) in
      let k = Holds-insert_user g db.guests gs e h in
      elim (Option-cases (insert_account g.open_id g.uid db.accounts)) [
        | inl f ↦ rw (e, f, provision) (rest (suc i) (record db { guests = gs }) k)
        | inr (rows, f) ↦ rw (e, f, provision) k
      ]

  Holds-provision :
      (d : Draws) (user : DiscordUser) (n i : ℕ) (db : AuthDb)
      → Holds db.guests
      → Holds (provision d user n i db).1.guests
  unfolding provision
  Holds-provision d user zero i db h = h
  Holds-provision d user (suc n) i db h =
      let g = new_guest user (d.open_id i) (next_uid (d.max_uid i)) in
      elim (Option-cases (insert_user g db.guests)) [
        | inl e ↦ rw (e, provision) (Holds-provision d user n (suc i) db h)
        | inr (gs, e) ↦
            Holds-inserted d user n i db gs e h (λ j t u. Holds-provision d user n j t u)
      ]

  Holds-checked :
      (now : ℕ) (expiry : Guest → Option ℕ) (o : Option Guest) (gs : List Guest)
      → Holds gs
      → Holds (checked now expiry o gs).1
  Holds-checked now expiry none gs h = h
  Holds-checked now expiry (some g) gs h =
      Holds-if g.renovation _ _ (Holds-clear_tokens g.open_id gs h)
        (Holds-if (is_over now (expiry g)) _ _ h h)

  Holds-validate_access_token :
      (now t : ℕ) (gs : List Guest) → Holds gs → Holds (validate_access_token now t gs).1
  unfolding validate_access_token
  Holds-validate_access_token now t gs h =
      Holds-if (t == 0) _ _ h
        (Holds-checked now (λ g. g.access_expiry) (find_by_access_token t gs) gs h)

  Holds-validate_refresh_token :
      (now t : ℕ) (gs : List Guest) → Holds gs → Holds (validate_refresh_token now t gs).1
  unfolding validate_refresh_token
  Holds-validate_refresh_token now t gs h =
      Holds-if (t == 0) _ _ h
        (Holds-checked now (λ g. g.refresh_expiry) (find_by_refresh_token t gs) gs h)

  Holds-answer :
      (f : Guest → Response) (v : Validation × List Guest) → Holds v.1 → Holds (answer f v).1
  Holds-answer f (valid g, gs) h = h
  Holds-answer f (invalid r, gs) h = h

  Holds-rotated :
      (access now : ℕ) (v : Validation × List Guest) → Holds v.1 → Holds (rotated access now v).1
  unfolding refresh_access_token
  Holds-rotated access now (valid g, gs) h = Holds-set_access_token g.open_id access _ gs h
  Holds-rotated access now (invalid r, gs) h = h

  Holds-returning :
      (access refresh now : ℕ) (user : DiscordUser) (g : Guest) (db : AuthDb)
      → Holds db.guests
      → Holds (returning access refresh now user g db).1.guests
  unfolding issue_tokens update_discord_fields
  Holds-returning access refresh now user g db h =
      let k = Holds-kept db.guests _ (keys_of-update_guest g.open_id _ (λ g. refl) db.guests) h in
      elim (Bool-cases g.renovation) [
        | inl e ↦ rw e k
        | inr e ↦ rw e (Holds-set_tokens g.open_id access refresh _ _ _ _ k)
      ]

  Holds-provisioned :
      (access refresh now : ℕ) (r : Option Guest × AuthDb)
      → Holds r.1.guests
      → Holds (provisioned access refresh now r).1.guests
  unfolding issue_tokens
  Holds-provisioned access refresh now (none, db) h = h
  Holds-provisioned access refresh now (some g, db) h =
      Holds-set_tokens g.open_id access refresh _ _ _ db.guests h

  Holds-login :
      (access refresh now : ℕ) (d : Draws) (user : DiscordUser) (db : AuthDb)
      → Holds db.guests
      → Holds (complete_discord_login access refresh now d user db).1.guests
  unfolding complete_discord_login
  Holds-login access refresh now d user db h =
      elim (Option-cases (find_by_dc_id user.id db.guests)) [
        | inl e ↦
            rw (e, complete_discord_login)
              (Holds-provisioned access refresh now (provision d user uid_attempts 0 db)
                (Holds-provision d user uid_attempts 0 db h))
        | inr (g, e) ↦
            rw (e, complete_discord_login) (Holds-returning access refresh now user g db h)
      ]

  Holds-logout :
      (access refresh : ℕ) (gs : List Guest) → Holds gs → Holds (logout access refresh gs).1
  unfolding logout
  Holds-logout access refresh gs h = elim (Bool-cases (access == 0 || refresh == 0)) [
    | inl e ↦ rw e h
    | inr e ↦ elim (Option-cases (find_by_access_and_refresh_token access refresh gs)) [
      | inl f ↦ rw (e, f) h
      | inr (g, f) ↦ rw (e, f) (Holds-clear_tokens g.open_id gs h)
    ]
  ]

  Holds-serve : (r : Request) (db : AuthDb) → Holds db.guests → Holds (serve r db).guests
  unfolding serve inspect exchange token
  Holds-serve (signs_in access refresh now d user) db h = Holds-login access refresh now d user db h
  Holds-serve (inspects now t) db h =
      Holds-answer _ _ (Holds-validate_access_token now t db.guests h)
  Holds-serve (exchanges now t) db h =
      Holds-if (t == 0) _ _ h
        (Holds-answer exchanged _ (Holds-validate_access_token now t db.guests h))
  Holds-serve (refreshes access now t) db h =
      Holds-if (t == 0) _ _ h
        (Holds-rotated access now _ (Holds-validate_refresh_token now t db.guests h))
  Holds-serve (logs_out access refresh) db h = Holds-logout access refresh db.guests h

  Holds-serve_all :
      (rs : List Request) (db : AuthDb) → Holds db.guests → Holds (serve_all rs db).guests
  unfolding serve_all
  Holds-serve_all [] db h = h
  Holds-serve_all (r ∷ rs) db h = Holds-serve_all rs (serve r db) (Holds-serve r db h)

-- The guest of a Discord user keeps its keys over any requests.
pub serve_all-find :
    (rs : List Request) (db : AuthDb) (dc_id : ℕ) (k : Keys)
    → find (with_dc_id dc_id) (map keys_of db.guests) ≡ some k
    → find (with_dc_id dc_id) (map keys_of (serve_all rs db).guests) ≡ some k
serve_all-find rs db dc_id k h =
    Holds-serve_all {P = λ ks. find (with_dc_id dc_id) ks ≡ some k}
      (λ ks l free e. find-append (with_dc_id dc_id) ks (l ∷ []) k e) rs db h
