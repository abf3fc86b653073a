-- ===== src/Login/Gate/Admission.antt =====
-- Whom the registration check admits (src/handlers/_authGate.js, src/db/authStore.js).
use free_fire.Prelude.{
  ℕ, ◌≡◌, ◌≢◌, refl, ap, ◌∙◌, true, false, ◌||◌, ◌&&◌, not, Option, none, some, List, [], ◌∷◌,
  if◌then◌else◌, ◌==◌, arith, Bool-cases, inl, inr,
}
use mathlib.Core.Option
use free_fire.Auth.Guests.{
  Guest, holds, has_open_id, find_by_open_id, update_guest, set_tokens, clear_tokens,
}
use free_fire.Auth.Tokens.{issue_tokens}
use free_fire.Auth.Tokens.Lifetime.{with_tokens}
use free_fire.Auth.Login.{AuthDb}
use free_fire.Login.Gate.{
  Settings, unregistered, wrong_token, AuthStore, answers, no_schema, run_query, guest_by_open_id,
  check_registration, judge_guest, refusal,
}

find_by_open_id-update_guest :
    (open_id : ℕ) (f : Guest → Guest)
    → ((g : Guest) → (f g).open_id ≡ g.open_id)
    → (gs : List Guest)
    → find_by_open_id open_id (update_guest open_id f gs)
      ≡ Option.map f (find_by_open_id open_id gs)
unfolding find_by_open_id update_guest
find_by_open_id-update_guest open_id f same [] = refl
find_by_open_id-update_guest open_id f same (g ∷ gs) = elim (Bool-cases (has_open_id open_id g)) [
  | inl e ↦ (let e' : has_open_id open_id (f g) ≡ true = rw (same g) e in rw (e, e') refl)
  | inr e ↦ rw (e, e) (find_by_open_id-update_guest open_id f same gs)
]

run_query-answers :
    {A : Type 0} (select : AuthDb → Option A) (s : AuthStore)
    → s.outcome ≡ answers
    → run_query select s ≡ (some (select s.db), s)
unfolding run_query
run_query-answers select s h = rw h refl

run_query-no_schema :
    {A : Type 0} (select : AuthDb → Option A) (s : AuthStore)
    → s.outcome ≡ no_schema
    → run_query select s ≡ (some none, record s { enabled = false })
unfolding run_query
run_query-no_schema select s h = rw h refl

-- A check that reaches the query is judged by what the query gives.
check_registration-query :
    (c : Settings) (open_id token : ℕ) (s : AuthStore)
    → c.enforce_registration ≡ true
    → s.enabled ≡ true
    → open_id ≢ 0
    → open_id ≢ c.guest_open_id
    → check_registration c open_id token s
      ≡ judge_guest c token (run_query (λ db. find_by_open_id open_id db.guests) s)
unfolding check_registration guest_by_open_id
check_registration-query c open_id token s er on o0 og =
    let o' : (not s.enabled || open_id == 0) ≡ false = ground arith in
    let pass : (not c.enforce_registration
          || not s.enabled
          || (c.allow_guest && open_id == c.guest_open_id))
        ≡ false =
      ground arith in
    simp (pass, o') refl

judge_guest-token :
    (c : Settings) (token access : ℕ) (h : Guest) (s : AuthStore)
    → access ≢ 0
    → c.enforce_login_token ≡ true
    → h.renovation ≡ false
    → h.access_token ≡ some access
    → judge_guest c token (some (some h), s)
      ≡ (if token == access then none else refusal wrong_token true false, s)
judge_guest-token c token access h s a0 et ren held = elim (Bool-cases (token == access)) [
  | inl e ↦
      (let ok : (token == 0 || not (holds h.access_token token)) ≡ false = rw held (ground arith) in
        simp (ren, et, ok, e) refl)
  | inr e ↦
      (let bad : (token == 0 || not (holds h.access_token token)) ≡ true = rw held (ground arith) in
        simp (ren, et, bad, e) refl)
]

judge_guest-no_token :
    (c : Settings) (token : ℕ) (h : Guest) (s : AuthStore)
    → c.enforce_login_token ≡ true
    → h.renovation ≡ false
    → h.access_token ≡ none
    → judge_guest c token (some (some h), s) ≡ (refusal wrong_token true false, s)
judge_guest-no_token c token h s et ren held =
    let bad : (token == 0 || not (holds h.access_token token)) ≡ true = rw held (ground arith) in
    simp (ren, et, bad) refl

check_registration-disabled :
    (c : Settings) (open_id token : ℕ) (s : AuthStore)
    → s.enabled ≡ false
    → check_registration c open_id token s ≡ (none, s)
unfolding check_registration
check_registration-disabled c open_id token s off =
    let pass : (not c.enforce_registration
          || not s.enabled
          || (c.allow_guest && open_id == c.guest_open_id))
        ≡ true =
      ground arith in
    simp pass refl

-- With registration and token enforced and the auth database answering, a guest whom the auth server
-- has just given tokens is admitted with that access token and refused with any other, and after
-- `clear_tokens`, which a logout calls, is refused with any token at all.
pub check_registration-tokens :
    (c : Settings) (access refresh now token : ℕ) (g : Guest) (s : AuthStore)
    → c.enforce_registration ≡ true
    → c.enforce_login_token ≡ true
    → s.enabled ≡ true
    → s.outcome ≡ answers
    → access ≢ 0
    → g.open_id ≢ 0
    → g.open_id ≢ c.guest_open_id
    → g.renovation ≡ false
    → find_by_open_id g.open_id s.db.guests ≡ some g
    → let issued : AuthStore = record s {
      db = record s.db { guests = (issue_tokens access refresh now g.open_id s.db.guests).1 };
    } in
      let cleared : AuthStore = record s {
        db = record s.db { guests = clear_tokens g.open_id s.db.guests };
      } in
      (check_registration c g.open_id token issued
        ≡ (if token == access then none else refusal wrong_token true false, issued))
      × (check_registration c g.open_id token cleared ≡ (refusal wrong_token true false, cleared))
unfolding issue_tokens set_tokens clear_tokens
check_registration-tokens c access refresh now token g s er et on ans a0 o0 og ren found =
    let issued : AuthStore = record s {
      db = record s.db { guests = (issue_tokens access refresh now g.open_id s.db.guests).1 };
    } in
    let cleared : AuthStore = record s {
      db = record s.db { guests = clear_tokens g.open_id s.db.guests };
    } in
    let found_issued =
      find_by_open_id-update_guest g.open_id _ (λ h. refl) s.db.guests ∙ ap (Option.map _) found in
    let found_cleared =
      find_by_open_id-update_guest g.open_id _ (λ h. refl) s.db.guests ∙ ap (Option.map _) found in
    (
      check_registration-query c g.open_id token issued er on o0 og
          ∙ ap (judge_guest c token) (
              run_query-answers (λ db. find_by_open_id g.open_id db.guests) issued ans
              ∙ ap (λ o. (some o, issued)) found_issued)
          ∙ judge_guest-token c token access (with_tokens access refresh now g) issued a0 et ren
              refl,
      check_registration-query c g.open_id token cleared er on o0 og
          ∙ ap (judge_guest c token) (
              run_query-answers (λ db. find_by_open_id g.open_id db.guests) cleared ans
              ∙ ap (λ o. (some o, cleared)) found_cleared)
          ∙ judge_guest-no_token c token (record g { access_token = none; refresh_token = none })
              cleared et ren refl,
    )

-- Where the schema of the auth server does not exist, the login that finds this out is refused as
-- unregistered, and every later one passes.
pub check_registration-no_schema :
    (c : Settings) (open_id token open_id' token' : ℕ) (s : AuthStore)
    → c.enforce_registration ≡ true
    → s.enabled ≡ true
    → s.outcome ≡ no_schema
    → open_id ≢ 0
    → open_id ≢ c.guest_open_id
    → let (first, t) = check_registration c open_id token s in
      (first ≡ refusal unregistered false false)
      × (check_registration c open_id' token' t ≡ (none, t))
unfolding check_registration
check_registration-no_schema c open_id token open_id' token' s er on ns o0 og =
    let down =
      check_registration-query c open_id token s er on o0 og
      ∙ ap (judge_guest c token)
          (run_query-no_schema (λ db. find_by_open_id open_id db.guests) s ns) in
    rw down
      (refl, check_registration-disabled c open_id' token' (record s { enabled = false }) refl)
