-- ===== src/Auth/Tokens/Lifetime.antt =====
-- How long a token is good (auth/shared/src/tokens.js, the logout of
-- auth/connect-server/src/routes/oauth.js).
use free_fire.Prelude.{
  ℕ, ◌+◌, ◌≡◌, ◌≢◌, ◌∙◌, refl, ap, Bool, true, false, not, ◌&&◌, some, List, [], ◌∷◌, any, find,
  if◌then◌else◌, ◌==◌, ltb, arith, Bool-cases, inl, inr,
}
use mathlib.Core.Option
use free_fire.Auth.Guests.{
  Guest, has_open_id, has_access, has_refresh, find_by_open_id, find_by_access_token,
  find_by_refresh_token, update_guest, set_tokens,
}
use free_fire.Auth.Tokens.{
  access_ttl, refresh_ttl, issue_tokens, Validation, valid, invalid, expired, validate_access_token,
  validate_refresh_token,
}

-- The guest with new tokens.
abbrev pub with_tokens : ℕ → ℕ → ℕ → Guest → Guest
with_tokens access refresh now g = record g {
  access_token = some access;
  refresh_token = some refresh;
  access_expiry = some (now + access_ttl);
  refresh_expiry = some (now + refresh_ttl);
  create_time = some now;
}

-- A test that only the new rows pass finds the updated guest.
find-update_guest :
    (p : Guest → Bool) (open_id : ℕ) (f : Guest → Guest)
    → ((g : Guest) → p (f g) ≡ true)
    → (gs : List Guest) → any p gs ≡ false
    → find p (update_guest open_id f gs) ≡ Option.map f (find_by_open_id open_id gs)
unfolding update_guest find_by_open_id
find-update_guest p open_id f new [] h = refl
find-update_guest p open_id f new (g ∷ gs) h = elim (Bool-cases (has_open_id open_id g)) [
  | inl e ↦ rw (e, new g) refl
  | inr e ↦
      let fails : p g ≡ false = ground arith in
      rw (e, fails, find-update_guest p open_id f new gs (ground arith)) refl
]

-- Only the guest with this open id passes a test.
abbrev pub no_other : (Guest → Bool) → ℕ → List Guest → Bool
no_other p open_id gs = not (any (λ g. not (has_open_id open_id g) && p g) gs)

pub any-update_guest :
    (p : Guest → Bool) (open_id : ℕ) (f : Guest → Guest)
    → ((g : Guest) → p (f g) ≡ false)
    → (gs : List Guest) → no_other p open_id gs ≡ true
    → any p (update_guest open_id f gs) ≡ false
unfolding update_guest
any-update_guest p open_id f gone [] h = refl
any-update_guest p open_id f gone (g ∷ gs) h = elim (Bool-cases (has_open_id open_id g)) [
  | inl e ↦ rw (e, gone g, any-update_guest p open_id f gone gs (ground arith)) refl
  | inr e ↦
      let fails : p g ≡ false = ground arith in
      rw (e, fails, any-update_guest p open_id f gone gs (ground arith)) refl
]

module _ (access refresh now : ℕ) (g : Guest) (gs : List Guest)
    (found : find_by_open_id g.open_id gs ≡ some g) where
  abbrev updated : List Guest
  updated = (issue_tokens access refresh now g.open_id gs).1

  find-issue_tokens :
      (p : Guest → Bool)
      → ((h : Guest) → p (with_tokens access refresh now h) ≡ true)
      → any p gs ≡ false
      → find p updated ≡ some (with_tokens access refresh now g)
  unfolding issue_tokens set_tokens
  find-issue_tokens p new h =
      find-update_guest p g.open_id (with_tokens access refresh now) new gs h
      ∙ ap (Option.map (with_tokens access refresh now)) found

abbrev pub until : ℕ → ℕ → Guest → Validation
until later end g = if ltb end later then invalid expired else valid g

if-pair :
    (b : Bool) (v w : Validation) (gs : List Guest)
    → ◌≡◌ {A = Validation × List Guest} (if b then (v, gs) else (w, gs)) (if b then v else w, gs)
if-pair true v w gs = refl
if-pair false v w gs = refl

-- Access and refresh tokens that no guest holds yet, issued to a guest who is not being renovated,
-- are good for that guest up to 1296000 and 2592000 seconds later, and expired from then on.
pub issue_tokens-validate :
    (access refresh now later : ℕ) (g : Guest) (gs : List Guest)
    → access ≢ 0
    → refresh ≢ 0
    → any (has_access access) gs ≡ false
    → any (has_refresh refresh) gs ≡ false
    → find_by_open_id g.open_id gs ≡ some g
    → g.renovation ≡ false
    → let hs = (issue_tokens access refresh now g.open_id gs).1 in
      let h = with_tokens access refresh now g in
      (validate_access_token later access hs ≡ (until later (now + 1296000) h, hs))
      × (validate_refresh_token later refresh hs ≡ (until later (now + 2592000) h, hs))
unfolding validate_access_token validate_refresh_token find_by_access_token find_by_refresh_token
issue_tokens-validate access refresh now later g gs a r fa fr found ok =
    let a' : (access == 0) ≡ false = ground arith in
    let r' : (refresh == 0) ≡ false = ground arith in
    (
      rw
          (
            a',
            find-issue_tokens access refresh now g gs found (has_access access) (λ h. ground arith)
                fa,
            ok,
          )
          (if-pair (ltb (now + 1296000) later) (invalid expired)
            (valid (with_tokens access refresh now (record g { renovation = false })))
            (issue_tokens access refresh now g.open_id gs).1),
      rw
          (
            r',
            find-issue_tokens access refresh now g gs found (has_refresh refresh)
                (λ h. ground arith) fr,
            ok,
          )
          (if-pair (ltb (now + 2592000) later) (invalid expired)
            (valid (with_tokens access refresh now (record g { renovation = false })))
            (issue_tokens access refresh now g.open_id gs).1),
    )
