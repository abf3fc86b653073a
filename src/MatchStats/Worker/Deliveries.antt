-- ===== src/MatchStats/Worker/Deliveries.antt =====
-- Delivering a match result more than once (src/servers/settlement.js).
use free_fire.Prelude.{
  ℕ, ◌≡◌, ◌≢◌, refl, ap, sym, subst, ◌∙◌, Bool, true, false, Option, none, some, List, ◌==◌, arith,
}
use free_fire.Account.{Account}
use free_fire.PlayerStore.Settlement.{Db, Connection}
use free_fire.PlayerStore.Settlement.Ledger.{Delivery, deliver_all}
use free_fire.MatchStats.{MatchResult}
use free_fire.MatchStats.Worker.{
  settle_all, push_match_stats, StatsPush, pushed, handle_match_result,
}
use free_fire.MatchStats.Worker.Passes.{
  AllSettled, goes_through, AllSettled-deliver_all, settle_all-AllSettled, through-AllSettled,
  pass_goes_through,
}

pushed-some :
    (pushes : List StatsPush) (n : ℕ) (r : Option ℕ × Db)
    → r.0 ≡ some n
    → pushed pushes r ≡ (some (n, pushes), r.1)
pushed-some pushes n (none, t) h = absurd (ground arith)
pushed-some pushes n (some k, t) h = let same : k ≡ n = ground arith in rw same refl

pushed-through :
    (pushes : List StatsPush) (r : Option ℕ × Db) (out : ℕ × List StatsPush)
    → (pushed pushes r).0 ≡ some out
    → (n : ℕ) × (r.0 ≡ some n)
pushed-through pushes (none, t) out h = absurd (ground arith)
pushed-through pushes (some n, t) out h = (n, refl)

handle-settle_all :
    (conn : ℕ → Connection) (acct_of : ℕ → Account) (online : ℕ → Bool) (m : ℕ)
    (players : List MatchResult) (db : Db)
    → m ≢ 0
    → handle_match_result conn acct_of online m players db
      ≡ pushed (push_match_stats acct_of online m players players) (settle_all conn 0 m players db)
unfolding handle_match_result
handle-settle_all conn acct_of online m players db mz =
    let some_id : (m == 0) ≡ false = ground arith in rw some_id refl

-- A delivery of a match result whose statements all go through is handled, whatever earlier
-- deliveries left in the ledger, and leaves every player with an account settled.
pub handle_match_result-settles :
    (conn : ℕ → Connection) (acct_of : ℕ → Account) (online : ℕ → Bool) (m : ℕ)
    (players : List MatchResult) (db : Db)
    → m ≢ 0
    → ((j : ℕ) → goes_through (conn j) ≡ true)
    → let r = handle_match_result conn acct_of online m players db in
      ((n : ℕ) × (r.0 ≡ some (n, push_match_stats acct_of online m players players)))
      × AllSettled m players r.1
handle_match_result-settles conn acct_of online m players db mz ok =
    let (n, h) = pass_goes_through conn 0 m players db ok in
    let settled = through-AllSettled conn 0 m n players db h in
    let done =
      handle-settle_all conn acct_of online m players db mz
      ∙ pushed-some (push_match_stats acct_of online m players players) n
          (settle_all conn 0 m players db) h in
    ((n, ap (λ r. r.0) done), subst (λ r. AllSettled m players r.1) (sym done) settled)

-- When a match result has been handled, then, whatever is delivered after it, another delivery of it
-- whose statements all go through credits nobody and leaves the ledger and the balances as they are.
pub handle_match_result-again :
    (conn again : ℕ → Connection) (acct_of : ℕ → Account) (online : ℕ → Bool) (m : ℕ)
    (players : List MatchResult) (db : Db) (ds : List Delivery) (out : ℕ × List StatsPush)
    → m ≢ 0
    → (handle_match_result conn acct_of online m players db).0 ≡ some out
    → ((j : ℕ) → goes_through (again j) ≡ true)
    → let t = deliver_all ds (handle_match_result conn acct_of online m players db).1 in
      handle_match_result again acct_of online m players t
      ≡ (some (0, push_match_stats acct_of online m players players), t)
handle_match_result-again conn again acct_of online m players db ds out mz h ok =
    let pushes = push_match_stats acct_of online m players players in
    let pass = settle_all conn 0 m players db in
    let done = handle-settle_all conn acct_of online m players db mz in
    let (n, through) = pushed-through pushes pass out (sym (ap (λ r. r.0) done) ∙ h) in
    let settled = through-AllSettled conn 0 m n players db through in
    let after = deliver_all ds (handle_match_result conn acct_of online m players db).1 in
    let still : AllSettled m players after = AllSettled-deliver_all m players ds _ (
      subst (λ r. AllSettled m players r.1) (sym (done ∙ pushed-some pushes n pass through))
        settled) in
    handle-settle_all again acct_of online m players after mz
    ∙ ap (pushed pushes) (settle_all-AllSettled again 0 m players after ok still)
