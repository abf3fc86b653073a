-- ===== src/Login/Accounts/Documents.antt =====
-- Saving and loading documents (src/db/player.js, src/db/repo/postgres.js).
use free_fire.Prelude.{
  ℕ, ◌≡◌, ◌≢◌, refl, ap, sym, ◌∙◌, Bool, true, false, Option, none, some, List, [], ◌∷◌, any, not,
  ◌&&◌, if◌then◌else◌, ◌==◌, or_else, arith, Bool-cases, inl, inr,
}
use free_fire.Login.Accounts.{
  Doc, Row, kept, row_to_account, has_token, get_by, get_by_id, get_by_token, denorm, stamped,
  update_row, save,
}

kept-same : {A : Type 0} (o : Option A) → kept o o ≡ o
kept-same none = refl
kept-same (some a) = refl

overlay-denorm :
    {R : Type 0} (initial acc : Doc R) (row : Row R)
    → acc.uid ≡ row.account_id
    → acc.account_id ≡ row.account_id
    → acc.open_id ≡ some row.open_id
    → row_to_account initial (denorm acc row) ≡ acc
overlay-denorm initial acc row u a o =
    let keys : ℕ → ℕ → Option ℕ → Option ℕ → Doc _ = λ uid account_id open_id token. record acc {
      uid = uid;
      account_id = account_id;
      open_id = open_id;
      token = token;
    } in
    ap (λ x. keys x row.account_id (some row.open_id) (kept acc.token acc.token)) (sym u)
    ∙ ap (λ x. keys acc.uid x (some row.open_id) (kept acc.token acc.token)) (sym a)
    ∙ ap (λ x. keys acc.uid acc.account_id x (kept acc.token acc.token)) (sym o)
    ∙ ap (λ x. keys acc.uid acc.account_id acc.open_id x) (kept-same acc.token)

-- The row of an account
unfoldable pub row_of : {R : Type 0} → ℕ → List (Row R) → Option (Row R)
row_of uid [] = none
row_of uid (row ∷ rows) = if row.account_id == uid then some row else row_of uid rows

get_by_id-update_row :
    {R : Type 0} (initial acc : Doc R) (row : Row R) (rows : List (Row R))
    → acc.account_id ≡ acc.uid
    → row_of acc.uid rows ≡ some row
    → acc.open_id ≡ some row.open_id
    → get_by (row_to_account initial) (λ r. r.account_id == acc.uid) (update_row acc rows)
      ≡ some acc
unfolding get_by update_row row_of
get_by_id-update_row initial acc row [] a h o = absurd (ground arith)
get_by_id-update_row initial acc row (r ∷ rows) a h o =
    elim (Bool-cases (r.account_id == acc.uid)) [
      | inl e ↦
          (let here : r ≡ row = ground arith in
            let u : acc.uid ≡ r.account_id = ground arith in
            rw (e, e)
              (ap some
                (overlay-denorm initial acc r u (a ∙ u) (o ∙ ap (λ x. some x.open_id) (sym here)))))
      | inr e ↦ rw (e, e) (get_by_id-update_row initial acc row rows a (ground arith) o)
    ]

-- No row of another account has this token.
abbrev pub no_other : {R : Type 0} → ℕ → ℕ → List (Row R) → Bool
no_other token uid rows = not (any (λ row. not (row.account_id == uid) && has_token token row) rows)

abbrev pub is_token : ℕ → Option ℕ → Bool
is_token token none = false
is_token token (some t) = t == token

has_token-denorm :
    {R : Type 0} (acc : Doc R) (token : ℕ) (r : Row R)
    → has_token token (denorm acc r) ≡ is_token token acc.token
has_token-denorm acc token r = go acc.token
  where
    go : (o : Option ℕ) → (elim o [ none ↦ false | some t ↦ t == token ]) ≡ is_token token o
    go none = refl
    go (some t) = refl

is_token-some : (token : ℕ) (o : Option ℕ) → is_token token o ≡ true → o ≡ some token
is_token-some token none h = cc
is_token-some token (some t) h = ground arith

update_row-no_other :
    {R : Type 0} (read : Row R → Doc R) (acc : Doc R) (token : ℕ) (rows : List (Row R))
    → no_other token acc.uid rows ≡ true
    → is_token token acc.token ≡ false
    → get_by read (has_token token) (update_row acc rows) ≡ none
unfolding get_by update_row
update_row-no_other read acc token [] n t = refl
update_row-no_other read acc token (r ∷ rows) n t = elim (Bool-cases (r.account_id == acc.uid)) [
  | inl e ↦
      (let off : has_token token (denorm acc r) ≡ false = has_token-denorm acc token r ∙ t in
        rw (e, off) (update_row-no_other read acc token rows (ground arith) t))
  | inr e ↦
      (let other : has_token token r ≡ false = ground arith in
        rw (e, other) (update_row-no_other read acc token rows (ground arith) t))
]

get_by_token-update_row :
    {R : Type 0} (initial acc : Doc R) (token : ℕ) (row : Row R) (rows : List (Row R))
    → acc.account_id ≡ acc.uid
    → acc.token ≡ some token
    → row_of acc.uid rows ≡ some row
    → acc.open_id ≡ some row.open_id
    → no_other token acc.uid rows ≡ true
    → get_by (row_to_account initial) (has_token token) (update_row acc rows) ≡ some acc
unfolding get_by update_row row_of
get_by_token-update_row initial acc token row [] a t h o n = absurd (ground arith)
get_by_token-update_row initial acc token row (r ∷ rows) a t h o n =
    elim (Bool-cases (r.account_id == acc.uid)) [
      | inl e ↦
          (let here : r ≡ row = ground arith in
            let u : acc.uid ≡ r.account_id = ground arith in
            let held : has_token token (denorm acc r) ≡ true = rw t (ground arith) in
            rw (e, held)
              (ap some
                (overlay-denorm initial acc r u (a ∙ u) (o ∙ ap (λ x. some x.open_id) (sym here)))))
      | inr e ↦
          (let other : has_token token r ≡ false = ground arith in
            rw (e, other)
              (get_by_token-update_row initial acc token row rows a t (ground arith) o
                (ground arith)))
    ]

-- A document that is saved over its own row, with a token or without, is written with its id and its
-- login time filled in, and is what loading by its id returns.
pub save-get_by_id :
    {R : Type 0} (initial acc : Doc R) (row : Row R) (now : ℕ) (rows : List (Row R))
    → let saved = stamped now acc in
      saved.uid ≢ 0
      → row_of saved.uid rows ≡ some row
      → acc.open_id ≡ some row.open_id
      → let after = update_row saved rows in
        (save now acc rows ≡ some (saved, after))
        × (get_by_id (row_to_account initial) saved.uid after ≡ some saved)
unfolding save get_by_id
save-get_by_id initial acc row now rows nz h o =
    let z : (or_else acc.uid acc.account_id == 0) ≡ false = ground arith in
    (rw z refl, rw z (get_by_id-update_row initial (stamped now acc) row rows refl h o))

-- After a document is saved over its own row, loading by a token that no other account's row has
-- returns it if this is its token, and nothing if it is not, so that a token it had before is void.
pub save-get_by_token :
    {R : Type 0} (initial acc : Doc R) (row : Row R) (now token : ℕ) (rows : List (Row R))
    → let saved = stamped now acc in
      token ≢ 0
      → row_of saved.uid rows ≡ some row
      → acc.open_id ≡ some row.open_id
      → no_other token saved.uid rows ≡ true
      → get_by_token (row_to_account initial) token (update_row saved rows)
        ≡ (if is_token token acc.token then some saved else none)
unfolding get_by_token
save-get_by_token initial acc row now token rows tz h o n =
    let z : (token == 0) ≡ false = ground arith in
    elim (Bool-cases (is_token token acc.token)) [
      | inl e ↦
          rw (z, e)
            (get_by_token-update_row initial (stamped now acc) token row rows refl
              (is_token-some token acc.token e) h o n)
      | inr e ↦
          rw (z, e) (update_row-no_other (row_to_account initial) (stamped now acc) token rows n e)
    ]
