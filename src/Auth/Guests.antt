-- ===== src/Auth/Guests.antt =====
-- The PostgreSQL guests repository (auth/shared/src/repositories/guests.pg.js). The table is the list
-- of its rows; `open_id`, `uid` and `dc_id` are unique (auth/shared/src/pg.js).
pub mod Keys
use free_fire.Prelude.{
  ℕ, ◌+◌, String, Bool, true, false, ◌||◌, ◌&&◌, Option, none, some, List, [], ◌∷◌, ◌++◌, map, any,
  find, if◌then◌else◌, ◌==◌, ltb,
}

pub record Guest : Type 0 where
  pub open_id : ℕ
  pub uid : ℕ
  pub dc_id : ℕ
  pub dc_handle : String
  pub dc_email : String
  pub renovation : Bool
  pub access_token : Option ℕ
  pub refresh_token : Option ℕ
  pub access_expiry : Option ℕ
  pub refresh_expiry : Option ℕ
  pub create_time : Option ℕ

abbrev pub holds : Option ℕ → ℕ → Bool
holds none token = false
holds (some t) token = t == token

abbrev pub has_open_id : ℕ → Guest → Bool
has_open_id open_id g = g.open_id == open_id

abbrev pub has_access : ℕ → Guest → Bool
has_access token g = holds g.access_token token

abbrev pub has_refresh : ℕ → Guest → Bool
has_refresh token g = holds g.refresh_token token

unfoldable pub find_by_dc_id : ℕ → List Guest → Option Guest
find_by_dc_id dc_id = find (λ g. g.dc_id == dc_id)

unfoldable pub find_by_open_id : ℕ → List Guest → Option Guest
find_by_open_id open_id = find (has_open_id open_id)

unfoldable pub find_by_access_token : ℕ → List Guest → Option Guest
find_by_access_token token gs = if token == 0 then none else find (has_access token) gs

unfoldable pub find_by_refresh_token : ℕ → List Guest → Option Guest
find_by_refresh_token token gs = if token == 0 then none else find (has_refresh token) gs

unfoldable pub find_by_access_and_refresh_token : ℕ → ℕ → List Guest → Option Guest
find_by_access_and_refresh_token access refresh gs =
    if access == 0 || refresh == 0
    then none
    else find (λ g. has_access access g && has_refresh refresh g) gs

-- A key of one is a key of the other: `open_id` PRIMARY KEY, `uid` UNIQUE and `dc_id` UNIQUE of the
-- table in auth/shared/src/pg.js.
abbrev pub clashes : Guest → Guest → Bool
clashes g h = g.open_id == h.open_id || g.uid == h.uid || g.dc_id == h.dc_id

-- What the table does with a new row; `none` is the unique violation.
abbrev pub insert_row : Guest → List Guest → Option (List Guest)
insert_row g gs = if any (clashes g) gs then none else some (gs ++ g ∷ [])

-- The INSERT of the document, whose `renovation` is given; it checks nothing itself, and a violation of
-- the table's keys is thrown on.
unfoldable pub insert_user : Guest → List Guest → Option (List Guest)
insert_user g gs = insert_row g gs

-- UPDATE ... WHERE open_id = $1
unfoldable pub update_guest : ℕ → (Guest → Guest) → List Guest → List Guest
update_guest open_id f [] = []
update_guest open_id f (g ∷ gs) =
    (if has_open_id open_id g then f g else g) ∷ update_guest open_id f gs

unfoldable pub update_discord_fields : ℕ → String → String → List Guest → List Guest
unfolding update_guest
update_discord_fields open_id handle email =
    update_guest open_id (λ g. record g { dc_handle = handle; dc_email = email })

unfoldable pub set_tokens : ℕ → ℕ → ℕ → ℕ → ℕ → ℕ → List Guest → List Guest
unfolding update_guest
set_tokens open_id access refresh access_expiry refresh_expiry create_time =
    update_guest open_id (λ g. record g {
      access_token = some access;
      refresh_token = some refresh;
      access_expiry = some access_expiry;
      refresh_expiry = some refresh_expiry;
      create_time = some create_time;
    })

unfoldable pub set_access_token : ℕ → ℕ → ℕ → List Guest → List Guest
unfolding update_guest
set_access_token open_id access access_expiry =
    update_guest open_id
      (λ g. record g { access_token = some access; access_expiry = some access_expiry })

unfoldable pub clear_tokens : ℕ → List Guest → List Guest
unfolding update_guest
clear_tokens open_id =
    update_guest open_id (λ g. record g { access_token = none; refresh_token = none })

abbrev pub larger : ℕ → Option ℕ → ℕ
larger a none = a
larger a (some b) = if ltb a b then b else a

-- `SELECT MAX(uid)`
unfoldable pub current_max_uid : List Guest → Option ℕ
current_max_uid [] = none
current_max_uid (g ∷ gs) = some (larger g.uid (current_max_uid gs))
