-- ===== src/Auth/Login/Attempts.antt =====
-- The attempts of a first sign-in (`withUidRetry` of auth/shared/src/ids.js).
use free_fire.Prelude.{
  ℕ, zero, suc, ◌+◌, ◌-◌, ◌≤◌, ap, ◌<◌, ◌≡◌, ◌∙◌, refl, Bool, true, false, Option, none, some, List,
  [], ◌∷◌, ◌++◌, any, ◌==◌, ltb, arith,
}
use free_fire.Auth.Guests.{
  Guest, has_open_id, clashes, insert_user, find_by_dc_id, larger, current_max_uid,
}
use free_fire.Auth.Login.{
  AuthDb, AccountRow, DiscordUser, Draws, new_guest, next_uid, provision, insert_account,
  uid_attempts,
}

-- The guest that an attempted tries to insert.
abbrev pub attempted : Draws → DiscordUser → ℕ → Guest
attempted d user i = new_guest user (d.open_id i) (next_uid (d.max_uid i))

abbrev pub has_account : ℕ → List AccountRow → Bool
has_account open_id rows = any (λ r. r.open_id == open_id) rows

abbrev pub account_of : Guest → AccountRow
account_of g = record { open_id = g.open_id; uid = g.uid; banned = false; authorized = true }

module _ (d : Draws) (user : DiscordUser) (db : AuthDb) where
  provision-free :
      (n i : ℕ)
      → any (clashes (attempted d user i)) db.guests ≡ false
      → has_account (d.open_id i) db.accounts ≡ false
      → provision d user (suc n) i db ≡ (
        some (attempted d user i),
        record {
          guests = db.guests ++ attempted d user i ∷ [];
          accounts = db.accounts ++ account_of (attempted d user i) ∷ [];
        },
      )
  unfolding provision insert_user insert_account
  provision-free n i free new = rw (free, new, provision) refl

  provision-taken :
      (n i : ℕ)
      → any (clashes (attempted d user i)) db.guests ≡ true
      → provision d user (suc n) i db ≡ provision d user n (suc i) db
  unfolding provision insert_user
  provision-taken n i taken = rw (taken, provision) refl

  provision-after :
      (n j i k e : ℕ)
      → k ≡ j + n
      → e ≡ i + j
      → ((m : ℕ) → i ≤ m → m < e → any (clashes (attempted d user m)) db.guests ≡ true)
      → provision d user k i db ≡ provision d user n e db
  provision-after n zero i k e a b taken =
      let a' : k ≡ n = omega arith in let b' : e ≡ i = omega arith in cc
  provision-after n (suc j) i k e a b taken =
      let a' : k ≡ suc (j + n) = omega arith in
      ap (λ l. provision d user l i db) a'
      ∙ provision-taken (j + n) i (taken i (omega arith) (omega arith))
      ∙ provision-after n j (suc i) (j + n) e refl (omega arith) (λ m l u. taken m (omega arith) u)

-- Where the attempts before the `j`-th of the five drew an open id or a uid that a guest has, and the
-- `j`-th a new open id and uid for a new Discord user, `provision` returns the guest of the `j`-th
-- attempted and adds exactly that guest and its account.
pub provision-attempts :
    (d : Draws) (user : DiscordUser) (db : AuthDb) (j : ℕ)
    → j < 5
    → ((m : ℕ) → m < j → any (clashes (attempted d user m)) db.guests ≡ true)
    → any (clashes (attempted d user j)) db.guests ≡ false
    → has_account (d.open_id j) db.accounts ≡ false
    → provision d user uid_attempts 0 db ≡ (
      some (attempted d user j),
      record {
        guests = db.guests ++ attempted d user j ∷ [];
        accounts = db.accounts ++ account_of (attempted d user j) ∷ [];
      },
    )
provision-attempts d user db j l taken free new =
    provision-after d user db (suc (4 - j)) j 0 5 j (omega arith) (omega arith) (λ m z u. taken m u)
    ∙ provision-free d user db (4 - j) j free new

abbrev below : ℕ → Option ℕ → Bool
below uid none = true
below uid (some m) = ltb m uid

below-larger :
    (uid a : ℕ) (o : Option ℕ)
    → ltb (larger a o) uid ≡ true
    → (ltb a uid ≡ true) × (below uid o ≡ true)
below-larger uid a none h = (h, refl)
below-larger uid a (some m) h = ground arith

below-next_uid : (o : Option ℕ) → below (next_uid o) o ≡ true
below-next_uid none = refl
below-next_uid (some m) = ground arith

any-clashes :
    (g : Guest) (gs : List Guest)
    → below g.uid (current_max_uid gs) ≡ true
    → any (has_open_id g.open_id) gs ≡ false
    → find_by_dc_id g.dc_id gs ≡ none
    → any (clashes g) gs ≡ false
unfolding find_by_dc_id current_max_uid
any-clashes g [] b o d = refl
any-clashes g (h ∷ gs) b o d =
    let below_rest = below-larger g.uid h.uid (current_max_uid gs) b in
    let d' : find_by_dc_id g.dc_id gs ≡ none = ground arith in
    let rest = any-clashes g gs below_rest.1 (ground arith) d' in
    let here : clashes g h ≡ false = ground (arith, below_rest.0) in rw (here, rest) refl

-- A first sign-in that meets no other, whose open id no guest and no account has, adds the guest and
-- the account at once, with the uid after the largest in use.
pub provision-alone :
    (d : Draws) (user : DiscordUser) (db : AuthDb)
    → d.max_uid 0 ≡ current_max_uid db.guests
    → any (has_open_id (d.open_id 0)) db.guests ≡ false
    → has_account (d.open_id 0) db.accounts ≡ false
    → find_by_dc_id user.id db.guests ≡ none
    → provision d user uid_attempts 0 db ≡ (
      some (attempted d user 0),
      record {
        guests = db.guests ++ attempted d user 0 ∷ [];
        accounts = db.accounts ++ account_of (attempted d user 0) ∷ [];
      },
    )
provision-alone d user db m o a new =
    provision-free d user db 4 0
      (any-clashes (attempted d user 0) db.guests
        (rw m (below-next_uid (current_max_uid db.guests))) o new)
      a
