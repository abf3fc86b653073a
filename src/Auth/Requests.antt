-- ===== src/Auth/Requests.antt =====
-- The routes that use the guests: the sign-in, and /oauth/token, /oauth/token/inspect, /oauth/logout
-- and /oauth/token/facebook/exchange of auth/connect-server/src/routes/oauth.js. The rate limit is in
-- RateLimit.
pub mod Keys
pub mod Logout
pub mod Returning
use free_fire.Prelude.{ℕ, Bool, true, false, ◌||◌, Option, none, some, List, if◌then◌else◌, ◌==◌}
use free_fire.Auth.Guests.{Guest, find_by_access_and_refresh_token, clear_tokens}
use free_fire.Auth.Tokens.{
  validate_access_token, validate_refresh_token, refresh_access_token, Validation, valid, invalid,
}
use free_fire.Auth.Login.{AuthDb, DiscordUser, Draws, complete_discord_login}

pub data Response : Type 0 where
  invalid_grant : Response
  inspected : Guest → Response
  exchanged : Guest → Response
  refreshed : ℕ → ℕ → Guest → Response
  logged_out success : Response

abbrev pub answer : (Guest → Response) → Validation × List Guest → Response × List Guest
answer f (valid g, gs) = (f g, gs)
answer f (invalid r, gs) = (invalid_grant, gs)

unfoldable pub inspect : ℕ → ℕ → List Guest → Response × List Guest
inspect now token gs = answer inspected (validate_access_token now token gs)

unfoldable pub exchange : ℕ → ℕ → List Guest → Response × List Guest
exchange now token gs =
    if token == 0
    then (invalid_grant, gs)
    else answer exchanged (validate_access_token now token gs)

abbrev pub rotated : ℕ → ℕ → Validation × List Guest → Response × List Guest
rotated access now (invalid r, gs) = (invalid_grant, gs)
rotated access now (valid g, gs) =
    let (pair, hs) = refresh_access_token access now g.open_id gs in (refreshed pair.0 pair.1 g, hs)

-- POST /oauth/token, with the new access token that is drawn.
unfoldable pub token : ℕ → ℕ → ℕ → List Guest → Response × List Guest
token access now refresh gs =
    if refresh == 0
    then (invalid_grant, gs)
    else rotated access now (validate_refresh_token now refresh gs)

unfoldable pub logout : ℕ → ℕ → List Guest → Response × List Guest
logout access refresh gs =
    if access == 0 || refresh == 0
    then (success, gs)
    else (elim (find_by_access_and_refresh_token access refresh gs) [
      | none ↦ (success, gs)
      | some g ↦ (logged_out, clear_tokens g.open_id gs)
    ])

pub data Request : Type 0 where
  signs_in : ℕ → ℕ → ℕ → Draws → DiscordUser → Request
  inspects exchanges : ℕ → ℕ → Request
  refreshes : ℕ → ℕ → ℕ → Request
  logs_out : ℕ → ℕ → Request

abbrev on_guests : (List Guest → Response × List Guest) → AuthDb → AuthDb
on_guests f db = record db { guests = (f db.guests).1 }

unfoldable pub serve : Request → AuthDb → AuthDb
serve (signs_in access refresh now d user) db =
    (complete_discord_login access refresh now d user db).1
serve (inspects now t) db = on_guests (inspect now t) db
serve (exchanges now t) db = on_guests (exchange now t) db
serve (refreshes access now t) db = on_guests (token access now t) db
serve (logs_out access refresh) db = on_guests (logout access refresh) db

unfoldable pub serve_all : List Request → AuthDb → AuthDb
unfolding serve
serve_all List.[] db = db
serve_all (List.◌∷◌ r rs) db = serve_all rs (serve r db)
