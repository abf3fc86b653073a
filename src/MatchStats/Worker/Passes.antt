-- ===== src/MatchStats/Worker/Passes.antt =====
-- One pass over the players of a match result (src/servers/settlement.js).
use free_fire.Prelude.{
  ℕ, suc, ◌≡◌, refl, ap, sym, subst, ◌∙◌, Bool, true, false, not, ◌||◌, ◌&&◌, Option, none, some,
  List, [], ◌∷◌, if◌then◌else◌, ◌==◌, arith, Bool-cases, Option-cases, inl, inr, All,
}
use free_fire.PlayerStore.Settlement.{
  PlayerResult, Db, Connection, Settled, settle_match_result, is_settled, is_positive, to_int32,
}
use free_fire.PlayerStore.Settlement.Ledger.{
  Delivery, deliver, deliver_all, settled_stays_all, settled_again, now_settled,
}
use free_fire.MatchStats.{MatchResult}
use free_fire.MatchStats.Worker.{ledger_result, counted, after_one, settle_all}

-- Every player with an account has its row in the ledger.
abbrev pub AllSettled : ℕ → List MatchResult → Db → Type 0
AllSettled m prs db =
    All (λ pr. (pr.account_id == 0 || is_settled m pr.account_id db.results) ≡ true) prs

abbrev pub goes_through : Connection → Bool
goes_through c = not (c.insert_fails || c.update_fails || c.commit_fails)

settled_kept :
    (m : ℕ) (pr : MatchResult) (ds : List Delivery) (db : Db)
    → (pr.account_id == 0 || is_settled m pr.account_id db.results) ≡ true
    → (pr.account_id == 0 || is_settled m pr.account_id (deliver_all ds db).results) ≡ true
settled_kept m pr ds db h = elim (Bool-cases (pr.account_id == 0)) [
  | inl e ↦ rw e refl
  | inr e ↦
      (let k : is_settled m pr.account_id db.results ≡ true = ground arith in
        rw (e, settled_stays_all m pr.account_id ds db k) refl)
]

pub AllSettled-deliver_all :
    (m : ℕ) (prs : List MatchResult) (ds : List Delivery) (db : Db)
    → AllSettled m prs db
    → AllSettled m prs (deliver_all ds db)
AllSettled-deliver_all m [] ds db h = tt
AllSettled-deliver_all m (pr ∷ prs) ds db h =
    (settled_kept m pr ds db h.0, AllSettled-deliver_all m prs ds db h.1)

-- A pass over settled players whose statements go through changes nothing.
pub settle_all-AllSettled :
    (conn : ℕ → Connection) (i m : ℕ) (prs : List MatchResult) (db : Db)
    → ((j : ℕ) → goes_through (conn j) ≡ true)
    → AllSettled m prs db
    → settle_all conn i m prs db ≡ (some 0, db)
unfolding settle_all
settle_all-AllSettled conn i m [] db ok h = refl
settle_all-AllSettled conn i m (pr ∷ prs) db ok h = elim (Bool-cases (pr.account_id == 0)) [
  | inl e ↦ rw (e, settle_all) (settle_all-AllSettled conn (suc i) m prs db ok h.1)
  | inr e ↦
      (let through = ok i in
        let k : is_settled m pr.account_id db.results ≡ true = let h0 = h.0 in ground arith in
        let again =
          settled_again (conn i) m (ledger_result pr) db k (ground arith) (ground arith) in
        rw (e, again, settle_all-AllSettled conn (suc i) m prs db ok h.1, settle_all) refl)
]

settle_all-account :
    (conn : ℕ → Connection) (i m : ℕ) (pr : MatchResult) (prs : List MatchResult) (db : Db)
    → (pr.account_id == 0) ≡ false
    → settle_all conn i m (pr ∷ prs) db
      ≡ after_one
          (settle_match_result (conn i) m (ledger_result pr) db)
          (settle_all conn (suc i) m prs)
unfolding settle_all
settle_all-account conn i m pr prs db e = rw (e, settle_all) refl

settle_all-none :
    (conn : ℕ → Connection) (i m : ℕ) (pr : MatchResult) (prs : List MatchResult) (db : Db)
    → (pr.account_id == 0) ≡ true
    → settle_all conn i m (pr ∷ prs) db ≡ settle_all conn (suc i) m prs db
unfolding settle_all
settle_all-none conn i m pr prs db e = rw (e, settle_all) refl

settled_one :
    (m a : ℕ) (c : Connection) (pr : PlayerResult) (db : Db)
    → is_settled m a db.results ≡ true
    → is_settled m a (settle_match_result c m pr db).1.results ≡ true
settled_one m a c pr db h =
    unfold deliver_all in
    unfold deliver in
    settled_stays_all m a (record { connection = c; match_id = m; result = pr } ∷ []) db h

after_one-kept :
    (P : Db → Type 0) (rest : Db → Option ℕ × Db) (r : Option Settled × Db)
    → P r.1
    → ((t : Db) → P t → P (rest t).1)
    → P (after_one r rest).1
after_one-kept P rest (none, t) h f = h
after_one-kept P rest (some r, t) h f = f t h

settled_stays_pass :
    (conn : ℕ → Connection) (i m a : ℕ) (prs : List MatchResult) (db : Db)
    → is_settled m a db.results ≡ true
    → is_settled m a (settle_all conn i m prs db).1.results ≡ true
unfolding settle_all
settled_stays_pass conn i m a [] db h = h
settled_stays_pass conn i m a (pr ∷ prs) db h = elim (Bool-cases (pr.account_id == 0)) [
  | inl e ↦ rw (settle_all-none conn i m pr prs db e) (settled_stays_pass conn (suc i) m a prs db h)
  | inr e ↦ rw (settle_all-account conn i m pr prs db e) (
      after_one-kept (λ t. is_settled m a t.results ≡ true) (settle_all conn (suc i) m prs)
        (settle_match_result (conn i) m (ledger_result pr) db)
        (settled_one m a (conn i) (ledger_result pr) db h)
        (λ t k. settled_stays_pass conn (suc i) m a prs t k))
]

-- A pass that goes through has settled every player.
pub through-AllSettled :
    (conn : ℕ → Connection) (i m n : ℕ) (prs : List MatchResult) (db : Db)
    → (settle_all conn i m prs db).0 ≡ some n
    → AllSettled m prs (settle_all conn i m prs db).1
unfolding settle_all
through-AllSettled conn i m n [] db h = tt
through-AllSettled conn i m n (pr ∷ prs) db h = elim (Bool-cases (pr.account_id == 0)) [
  | inl e ↦
      (let skip = settle_all-none conn i m pr prs db e in
        subst (λ r. AllSettled m (pr ∷ prs) r.1) (sym skip)
          (rw e refl, through-AllSettled conn (suc i) m n prs db (sym (ap (λ r. r.0) skip) ∙ h)))
  | inr e ↦
      (let one = settle_match_result (conn i) m (ledger_result pr) db in
        let step = settle_all-account conn i m pr prs db e in
        let went = sym (ap (λ r. r.0) step) ∙ h in
        elim (Option-cases one.0) [
          | inl f ↦
              (let refused =
                  sym (ap (λ o. (after_one (o, one.1) (settle_all conn (suc i) m prs)).0) f)
                  ∙ went in
                absurd (ground (arith, refused)))
          | inr (out, f) ↦
              (let rest = settle_all conn (suc i) m prs one.1 in
                let pass : settle_all conn i m (pr ∷ prs) db ≡ (counted out rest.0, rest.1) =
                  step ∙ ap (λ o. after_one (o, one.1) (settle_all conn (suc i) m prs)) f in
                let settled =
                  settled_stays_pass conn (suc i) m pr.account_id prs one.1
                    (now_settled (conn i) m (ledger_result pr) db out f) in
                elim (Option-cases rest.0) [
                  | inl g ↦
                      (let refused = sym (ap (counted out) g) ∙ sym (ap (λ r. r.0) pass) ∙ h in
                        absurd (ground (arith, refused)))
                  | inr (k, g) ↦
                      subst (λ r. AllSettled m (pr ∷ prs) r.1) (sym pass)
                        (rw (e, settled) refl, through-AllSettled conn (suc i) m k prs one.1 g)
                ])
        ])
]

one_goes_through :
    (c : Connection) (m : ℕ) (pr : PlayerResult) (db : Db)
    → goes_through c ≡ true
    → (out : Settled) × ((settle_match_result c m pr db).0 ≡ some out)
unfolding settle_match_result
one_goes_through c m pr db ok =
    let fresh = not (is_settled m pr.account_id db.results) in
    let credited = fresh && is_positive (to_int32 pr.coins) in
    let nothing_fails : (c.insert_fails || (credited && c.update_fails) || c.commit_fails) ≡ false =
      ground arith in
    (record { fresh = fresh; credited = credited }, rw nothing_fails refl)

-- A pass whose statements all go through ends without an error.
pub pass_goes_through :
    (conn : ℕ → Connection) (i m : ℕ) (prs : List MatchResult) (db : Db)
    → ((j : ℕ) → goes_through (conn j) ≡ true)
    → (n : ℕ) × ((settle_all conn i m prs db).0 ≡ some n)
unfolding settle_all
pass_goes_through conn i m [] db ok = (0, refl)
pass_goes_through conn i m (pr ∷ prs) db ok = elim (Bool-cases (pr.account_id == 0)) [
  | inl e ↦
      (let (n, h) = pass_goes_through conn (suc i) m prs db ok in
        (n, ap (λ r. r.0) (settle_all-none conn i m pr prs db e) ∙ h))
  | inr e ↦
      (let one = settle_match_result (conn i) m (ledger_result pr) db in
        let (out, f) = one_goes_through (conn i) m (ledger_result pr) db (ok i) in
        let (n, h) = pass_goes_through conn (suc i) m prs one.1 ok in
        (
          (if out.credited then suc n else n),
          ap (λ r. r.0) (settle_all-account conn i m pr prs db e)
              ∙ ap (λ o. (after_one (o, one.1) (settle_all conn (suc i) m prs)).0) f
              ∙ ap (counted out) h,
        ))
]
