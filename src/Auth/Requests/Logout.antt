-- ===== src/Auth/Requests/Logout.antt =====
-- What a logout does to the tokens (auth/connect-server/src/routes/oauth.js).
use free_fire.Prelude.{ℕ, ◌≡◌, refl, true, false, ◌&&◌, some, List, find, ◌==◌, arith, find-none}
use free_fire.Auth.Guests.{
  Guest, has_access, has_refresh, find_by_access_token, find_by_refresh_token,
  find_by_access_and_refresh_token, clear_tokens,
}
use free_fire.Auth.Tokens.{invalid, unknown, validate_access_token, validate_refresh_token}
use free_fire.Auth.Tokens.Lifetime.{no_other, any-update_guest}
use free_fire.Auth.Requests.{logged_out, logout}

-- A logout whose two tokens are one guest's, and no other guest's, revokes both: neither validates at
-- any later time.
pub logout-validate :
    (access refresh later : ℕ) (g : Guest) (gs : List Guest)
    → find_by_access_and_refresh_token access refresh gs ≡ some g
    → no_other (has_access access) g.open_id gs ≡ true
    → no_other (has_refresh refresh) g.open_id gs ≡ true
    → let (answer, hs) = logout access refresh gs in
      (answer ≡ logged_out)
      × (validate_access_token later access hs ≡ (invalid unknown, hs))
      × (validate_refresh_token later refresh hs ≡ (invalid unknown, hs))
unfolding logout find_by_access_and_refresh_token find_by_access_token find_by_refresh_token
    validate_access_token validate_refresh_token clear_tokens
logout-validate access refresh later g gs found a r =
    let a' : (access == 0) ≡ false = ground arith in
    let r' : (refresh == 0) ≡ false = ground arith in
    let found' : find (λ h. has_access access h && has_refresh refresh h) gs ≡ some g =
      ground arith in
    let gone = any-update_guest (has_access access) g.open_id _ (λ h. refl) gs a in
    let spent = any-update_guest (has_refresh refresh) g.open_id _ (λ h. refl) gs r in
    rw (a', r', found', find-none _ _ gone, find-none _ _ spent) (refl, refl, refl)
