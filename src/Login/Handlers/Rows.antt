-- ===== src/Login/Handlers/Rows.antt =====
-- What a lookup of the repository says of the rows (src/db/repo/postgres.js).
use free_fire.Prelude.{
  ℕ, ◌≡◌, refl, Bool, true, false, ◌&&◌, not, some, List, [], ◌∷◌, any, ◌==◌, arith, Bool-cases,
  inl, inr,
}
use free_fire.Login.Accounts.{Doc, Row, get_by, get_by_open_id, row_to_account}
use free_fire.Login.Accounts.Documents.{row_of}

-- No two rows have the same account id.
unfoldable pub unique_ids : {R : Type 0} → List (Row R) → Bool
unique_ids [] = true
unique_ids (row ∷ rows) = not (any (λ r. r.account_id == row.account_id) rows) && unique_ids rows

row_of-any :
    {R : Type 0} (uid : ℕ) (rows : List (Row R)) (row : Row R)
    → row_of uid rows ≡ some row
    → any (λ r. r.account_id == uid) rows ≡ true
unfolding row_of
row_of-any uid [] row h = absurd (ground arith)
row_of-any uid (r ∷ rows) row h = elim (Bool-cases (r.account_id == uid)) [
  | inl e ↦ rw e refl
  | inr e ↦ (let rest = row_of-any uid rows row (ground arith) in ground arith)
]

row_of-later :
    {R : Type 0} (uid : ℕ) (row r : Row R) (rows : List (Row R))
    → any (λ x. x.account_id == row.account_id) rows ≡ false
    → row_of uid rows ≡ some r
    → row_of uid (row ∷ rows) ≡ some r
unfolding row_of
row_of-later uid row r rows new h = elim (Bool-cases (row.account_id == uid)) [
  | inl e ↦
      (let same : row.account_id ≡ uid = ground arith in
        let there : any (λ x. x.account_id == row.account_id) rows ≡ true =
          rw same (row_of-any uid rows r h) in
        absurd (ground arith))
  | inr e ↦ rw e h
]

-- The row that a lookup by open id has read.
pub row_of-get_by :
    {R : Type 0} (initial acc : Doc R) (open_id : ℕ) (rows : List (Row R))
    → unique_ids rows ≡ true
    → get_by (row_to_account initial) (λ row. row.open_id == open_id) rows ≡ some acc
    → (row : Row R) × (row_of acc.uid rows ≡ some row)
      × (acc.open_id ≡ some row.open_id)
      × (acc.account_id ≡ acc.uid)
unfolding get_by unique_ids row_of
row_of-get_by initial acc open_id [] u h = absurd (ground arith)
row_of-get_by initial acc open_id (row ∷ rows) u h = elim (Bool-cases (row.open_id == open_id)) [
  | inl e ↦
      (let f : row_to_account initial row ≡ acc = ground arith in
        rw⁻¹ f (row, ground arith, refl, refl))
  | inr e ↦
      (let (r, found, o, a) =
          row_of-get_by initial acc open_id rows (ground arith) (ground arith) in
        (r, row_of-later acc.uid row r rows (ground arith) found, o, a))
]

pub get_by-get_by_open_id :
    {R : Type 0} (read : Row R → Doc R) (acc : Doc R) (open_id : ℕ) (rows : List (Row R))
    → get_by_open_id read open_id rows ≡ some acc
    → get_by read (λ row. row.open_id == open_id) rows ≡ some acc
unfolding get_by_open_id
get_by-get_by_open_id read acc open_id rows h = ground arith
