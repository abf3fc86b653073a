-- ===== src/Login/Accounts/Keys.antt =====
-- One account per open id (src/db/player.js, src/db/repo/postgres.js).
use free_fire.Prelude.{
  ℕ, ◌≡◌, ◌≢◌, refl, ap, sym, ◌∙◌, none, some, List, [], ◌∷◌, ◌++◌, arith, Bool-cases, Option-cases,
  inl, inr,
}
use mathlib.Core.Option
use free_fire.Login.Accounts.{
  Doc, Row, LoginReq, derive_open_id, get_by, stamped, save, refreshed, placeholder, created,
  create_from_login,
}
use free_fire.Login.Accounts.Ids.{
  left_by, has_open_id, id_of, id_of-update_row, id_of-append, left_by-save, save-some,
  id_of-append_new,
}

-- What goes on between two logins; the id is the one that an insertion would generate.
pub data Op (R : Type 0) : Type 0 where
  registers : ℕ → ℕ → LoginReq → Op R
  saves : ℕ → Doc R → Op R

module _ {R : Type 0} (read : Row R → Doc R) (initial : Doc R) (guest : ℕ) where
  unfoldable pub run : List (Op R) → List (Row R) → List (Row R)
  unfolding create_from_login
  run [] rows = rows
  run (registers id now req ∷ ops) rows =
      run ops (left_by rows (create_from_login read initial guest id now req rows))
  run (saves now acc ∷ ops) rows = run ops (left_by rows (save now acc rows))

module _ {R : Type 0} (read : Row R → Doc R)
    (reads_id : (row : Row R)
      → ((read row).uid ≡ row.account_id) × ((read row).account_id ≡ row.account_id))
    (initial : Doc R) (guest : ℕ) where
  id_of-get_by :
      (open_id : ℕ) (rows : List (Row R))
      → Option.map (λ acc. acc.uid) (get_by read (has_open_id open_id) rows) ≡ id_of open_id rows
  unfolding get_by id_of
  id_of-get_by open_id [] = refl
  id_of-get_by open_id (row ∷ rows) = elim (Bool-cases (has_open_id open_id row)) [
    | inl e ↦ rw (e, (reads_id row).0) refl
    | inr e ↦ rw (e, id_of-get_by open_id rows) refl
  ]

  abbrev Owned : ℕ → ℕ → List (Row R) → Type 0
  Owned open_id uid rows = id_of open_id rows ≡ some uid

  Owned-save :
      (open_id uid now : ℕ) (acc : Doc R) (rows : List (Row R))
      → Owned open_id uid rows
      → Owned open_id uid (left_by rows (save now acc rows))
  Owned-save open_id uid now acc rows h =
      left_by-save (Owned open_id uid) now acc rows rows h
        (id_of-update_row open_id (stamped now acc) rows ∙ h)

  Owned-create :
      (open_id uid id now : ℕ) (req : LoginReq) (rows : List (Row R))
      → Owned open_id uid rows
      → Owned open_id uid (left_by rows (create_from_login read initial guest id now req rows))
  unfolding create_from_login
  Owned-create open_id uid id now req rows h =
      let key = derive_open_id guest req.open_id in
      elim (Option-cases (get_by read (has_open_id key) rows)) [
        | inr (acc, e) ↦
            rw (e, create_from_login) (Owned-save open_id uid now (refreshed req acc) rows h)
        | inl e ↦
            rw (e, create_from_login)
              (let acc = created initial id key now req in
                let more = rows ++ placeholder id key now req ∷ [] in
                left_by-save (Owned open_id uid) now acc rows more h (
                  id_of-update_row open_id (stamped now acc) more
                  ∙ id_of-append open_id uid rows (placeholder id key now req ∷ []) h))
      ]

  Owned-run :
      (open_id uid : ℕ) (ops : List (Op R)) (rows : List (Row R))
      → Owned open_id uid rows
      → Owned open_id uid (run read initial guest ops rows)
  unfolding run
  Owned-run open_id uid [] rows h = h
  Owned-run open_id uid (registers id now req ∷ ops) rows h =
      Owned-run open_id uid ops _ (Owned-create open_id uid id now req rows h)
  Owned-run open_id uid (saves now acc ∷ ops) rows h =
      Owned-run open_id uid ops _ (Owned-save open_id uid now acc rows h)

  -- where an account is found, its login refreshes and returns it
  create-Owned :
      (uid id now : ℕ) (req : LoginReq) (rows : List (Row R))
      → uid ≢ 0
      → Owned (derive_open_id guest req.open_id) uid rows
      → Option.map (λ r. r.0.uid) (create_from_login read initial guest id now req rows) ≡ some uid
  unfolding create_from_login save
  create-Owned uid id now req rows nz h =
      let key = derive_open_id guest req.open_id in
      elim (Option-cases (get_by read (has_open_id key) rows)) [
        | inl e ↦
            (let k = sym (ap (Option.map (λ acc. acc.uid)) e) ∙ id_of-get_by key rows ∙ h in
              absurd (ground (arith, k)))
        | inr (acc, e) ↦
            (let k = sym (ap (Option.map (λ acc. acc.uid)) e) ∙ id_of-get_by key rows ∙ h in
              let same : acc.uid ≡ uid = ground (arith, k) in
              rw (e, create_from_login) (ground arith))
      ]

  same_ids :
      (open_id : ℕ) (rows : List (Row R)) (acc : Doc R)
      → get_by read (has_open_id open_id) rows ≡ some acc
      → acc.account_id ≡ acc.uid
  unfolding get_by
  same_ids open_id [] acc h = absurd (ground arith)
  same_ids open_id (row ∷ rows) acc h = elim (Bool-cases (has_open_id open_id row)) [
    | inl e ↦
        (let f : read row ≡ acc = ground arith in rw⁻¹ f ((reads_id row).1 ∙ sym (reads_id row).0))
    | inr e ↦ same_ids open_id rows acc (ground arith)
  ]

  create-new :
      (id now : ℕ) (req : LoginReq) (rows : List (Row R))
      → let key = derive_open_id guest req.open_id in
        get_by read (has_open_id key) rows ≡ none
        → create_from_login read initial guest id now req rows
          ≡ save now (created initial id key now req) (rows ++ placeholder id key now req ∷ [])
  unfolding create_from_login
  create-new id now req rows e = rw (e, create_from_login) refl

  create-known :
      (id now : ℕ) (req : LoginReq) (rows : List (Row R)) (acc : Doc R)
      → get_by read (has_open_id (derive_open_id guest req.open_id)) rows ≡ some acc
      → create_from_login read initial guest id now req rows ≡ save now (refreshed req acc) rows
  unfolding create_from_login
  create-known id now req rows acc e = rw (e, create_from_login) refl

  Owned-created :
      (id now : ℕ) (req : LoginReq) (acc : Doc R) (rows more : List (Row R))
      → create_from_login read initial guest id now req rows ≡ some (acc, more)
      → (acc.uid ≢ 0) × Owned (derive_open_id guest req.open_id) acc.uid more
  Owned-created id now req acc rows more h =
      let key = derive_open_id guest req.open_id in
      elim (Option-cases (get_by read (has_open_id key) rows)) [
        | inl e ↦
            (let new = created initial id key now req in
              let (nz, same, rest) =
                save-some now new acc (rows ++ placeholder id key now req ∷ []) more
                  (sym (create-new id now req rows e) ∙ h) in
              let uid : acc.uid ≡ id = ap (λ a. a.uid) (sym same) ∙ ground arith in
              let absent : id_of key rows ≡ none =
                sym (id_of-get_by key rows) ∙ ap (Option.map (λ a. a.uid)) e in
              (
                (λ z. nz (ground arith)),
                ap (id_of key) (sym rest)
                    ∙ id_of-update_row key (stamped now new)
                        (rows ++ placeholder id key now req ∷ [])
                    ∙ id_of-append_new key rows (placeholder id key now req) (ground arith) absent
                    ∙ ap some (sym uid),
              ))
        | inr (old, e) ↦
            (let (nz, same, rest) =
                save-some now (refreshed req old) acc rows more
                  (sym (create-known id now req rows old e) ∙ h) in
              let ids = same_ids key rows old e in
              let uid : acc.uid ≡ old.uid = ap (λ a. a.uid) (sym same) ∙ ground arith in
              (
                (λ z. nz (ground arith)),
                ap (id_of key) (sym rest)
                    ∙ id_of-update_row key (stamped now (refreshed req old)) rows
                    ∙ sym (id_of-get_by key rows)
                    ∙ ap (Option.map (λ a. a.uid)) e
                    ∙ ap some (sym uid),
              ))
      ]

-- Once a login or registration with some open id went through, a later one with the same open id, or
-- with none where the first had none, returns an account with the same uid, whatever registrations
-- and saves came in between and whatever id an insertion would have generated.
pub create_from_login-again :
    {R : Type 0} (read : Row R → Doc R) (initial : Doc R) (guest id id' now later : ℕ)
    (req req' : LoginReq) (rows more : List (Row R)) (acc : Doc R) (ops : List (Op R))
    → ((row : Row R) → ((read row).uid ≡ row.account_id) × ((read row).account_id ≡ row.account_id))
    → create_from_login read initial guest id now req rows ≡ some (acc, more)
    → derive_open_id guest req.open_id ≡ derive_open_id guest req'.open_id
    → Option.map
        (λ r. r.0.uid)
        (create_from_login read initial guest id' later req' (run read initial guest ops more))
      ≡ some acc.uid
create_from_login-again read initial guest id id' now later req req' rows more acc ops reads first
      same =
    let (nz, owned) = Owned-created read reads initial guest id now req acc rows more first in
    let still =
      Owned-run read reads initial guest (derive_open_id guest req.open_id) acc.uid ops more
        owned in
    create-Owned read reads initial guest acc.uid id' later req' (run read initial guest ops more)
      nz (rw⁻¹ same still)
