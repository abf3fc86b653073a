-- ===== src/Login/Accounts/Ids.antt =====
-- The account of an open id among the rows (src/db/player.js, src/db/repo/postgres.js).
use free_fire.Prelude.{
  ℕ, ◌≡◌, ◌≢◌, refl, Bool, true, Option, none, some, List, [], ◌∷◌, ◌++◌, if◌then◌else◌, ◌==◌,
  or_else, arith, Bool-cases, inl, inr,
}
use free_fire.Login.Accounts.{Doc, Row, stamped, update_row, save}

abbrev pub left_by : {R : Type 0} → List (Row R) → Option (Doc R × List (Row R)) → List (Row R)
left_by rows none = rows
left_by rows (some r) = r.1

abbrev pub has_open_id : {R : Type 0} → ℕ → Row R → Bool
has_open_id open_id row = row.open_id == open_id

-- The account of an open id
unfoldable pub id_of : {R : Type 0} → ℕ → List (Row R) → Option ℕ
id_of open_id [] = none
id_of open_id (row ∷ rows) =
    if has_open_id open_id row then some row.account_id else id_of open_id rows

pub id_of-update_row :
    {R : Type 0} (open_id : ℕ) (acc : Doc R) (rows : List (Row R))
    → id_of open_id (update_row acc rows) ≡ id_of open_id rows
unfolding id_of update_row
id_of-update_row open_id acc [] = refl
id_of-update_row open_id acc (row ∷ rows) = elim (Bool-cases (row.account_id == acc.uid)) [
  | inl e ↦ rw (e, id_of-update_row open_id acc rows) refl
  | inr e ↦ rw (e, id_of-update_row open_id acc rows) refl
]

pub id_of-append :
    {R : Type 0} (open_id uid : ℕ) (rows more : List (Row R))
    → id_of open_id rows ≡ some uid
    → id_of open_id (rows ++ more) ≡ some uid
unfolding id_of
id_of-append open_id uid [] more h = ground arith
id_of-append open_id uid (row ∷ rows) more h = elim (Bool-cases (has_open_id open_id row)) [
  | inl e ↦ ground arith
  | inr e ↦ rw e (id_of-append open_id uid rows more (ground arith))
]

pub left_by-save :
    {R : Type 0} (P : List (Row R) → Type 0) (now : ℕ) (acc : Doc R) (before rows : List (Row R))
    → P before
    → P (update_row (stamped now acc) rows)
    → P (left_by before (save now acc rows))
unfolding save
left_by-save P now acc before rows b u = elim (Bool-cases (or_else acc.uid acc.account_id == 0)) [
  | inl e ↦ rw e b
  | inr e ↦ rw e u
]

pub save-some :
    {R : Type 0} (now : ℕ) (a acc : Doc R) (rows more : List (Row R))
    → save now a rows ≡ some (acc, more)
    → (or_else a.uid a.account_id ≢ 0)
      × (stamped now a ≡ acc)
      × (update_row (stamped now a) rows ≡ more)
unfolding save
save-some now a acc rows more h = elim (Bool-cases (or_else a.uid a.account_id == 0)) [
  | inl e ↦ absurd (ground arith)
  | inr e ↦ ((λ z. ground arith), ground arith, ground arith)
]

pub id_of-append_new :
    {R : Type 0} (open_id : ℕ) (rows : List (Row R)) (row : Row R)
    → has_open_id open_id row ≡ true
    → id_of open_id rows ≡ none
    → id_of open_id (rows ++ row ∷ []) ≡ some row.account_id
unfolding id_of
id_of-append_new open_id [] row p h = rw p refl
id_of-append_new open_id (r ∷ rows) row p h = elim (Bool-cases (has_open_id open_id r)) [
  | inl e ↦ absurd (ground arith)
  | inr e ↦ rw e (id_of-append_new open_id rows row p (ground arith))
]
