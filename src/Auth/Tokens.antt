-- ===== src/Auth/Tokens.antt =====
-- Tokens (auth/shared/src/tokens.js). A fresh random token is an argument.
pub mod Lifetime
use free_fire.Prelude.{
  ℕ, ◌+◌, Bool, true, false, ◌||◌, Option, none, some, List, if◌then◌else◌, ◌==◌, ltb,
}
use free_fire.Auth.Guests.{
  Guest, find_by_access_token, find_by_refresh_token, set_tokens, set_access_token, clear_tokens,
}

abbrev pub access_ttl : ℕ
access_ttl = 1296000

abbrev pub refresh_ttl : ℕ
refresh_ttl = 2592000

pub record TokenSet : Type 0 where
  pub access_token : ℕ
  pub refresh_token : ℕ
  pub access_expiry : ℕ
  pub refresh_expiry : ℕ
  pub create_time : ℕ

unfoldable pub issue_tokens : ℕ → ℕ → ℕ → ℕ → List Guest → TokenSet × List Guest
unfolding set_tokens
issue_tokens access refresh now open_id gs = (
  record {
    access_token = access;
    refresh_token = refresh;
    access_expiry = now + access_ttl;
    refresh_expiry = now + refresh_ttl;
    create_time = now;
  },
  set_tokens open_id access refresh (now + access_ttl) (now + refresh_ttl) now gs,
)

unfoldable pub refresh_access_token : ℕ → ℕ → ℕ → List Guest → (ℕ × ℕ) × List Guest
unfolding set_access_token
refresh_access_token access now open_id gs =
    ((access, now + access_ttl), set_access_token open_id access (now + access_ttl) gs)

pub data Reason : Type 0 where
  missing unknown renovation expired : Reason

pub data Validation : Type 0 where
  valid : Guest → Validation
  invalid : Reason → Validation

-- `typeof expiry !== 'number' || now > expiry`
abbrev pub is_over : ℕ → Option ℕ → Bool
is_over now none = true
is_over now (some expiry) = ltb expiry now

abbrev pub checked : ℕ → (Guest → Option ℕ) → Option Guest → List Guest → Validation × List Guest
checked now expiry none gs = (invalid unknown, gs)
checked now expiry (some g) gs =
    if g.renovation
    then (invalid renovation, clear_tokens g.open_id gs)
    else if is_over now (expiry g)
    then (invalid expired, gs)
    else (valid g, gs)

-- A lookup blocked by renovation clears the tokens too.
unfoldable pub validate_access_token : ℕ → ℕ → List Guest → Validation × List Guest
validate_access_token now token gs =
    if token == 0
    then (invalid missing, gs)
    else checked now (λ g. g.access_expiry) (find_by_access_token token gs) gs

unfoldable pub validate_refresh_token : ℕ → ℕ → List Guest → Validation × List Guest
validate_refresh_token now token gs =
    if token == 0
    then (invalid missing, gs)
    else checked now (λ g. g.refresh_expiry) (find_by_refresh_token token gs) gs
