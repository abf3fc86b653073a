-- ===== src/PlayerStore/Settlement/Ledger.antt =====
-- Deliveries of match results, which the stream may repeat (src/db/repo/postgres.js).
use free_fire.Prelude.{
  ℕ, ◌+◌, ◌≡◌, refl, sym, ap, ◌∙◌, true, false, ◌||◌, ◌&&◌, Option, none, some, List, [], ◌∷◌, ◌++◌,
  if◌then◌else◌, ◌==◌, arith, Option-cases, inl, inr,
}
use mathlib.Core.Option
use free_fire.PlayerStore.Settlement.{
  PlayerResult, ResultRow, Db, is_positive, is_settled, row_of, credit, Connection, Settled,
  settle_match_result,
}

-- One delivery: what the transaction meets, and the message.
pub record Delivery : Type 0 where
  pub connection : Connection
  pub match_id : ℕ
  pub result : PlayerResult

unfoldable pub deliver : Delivery → Db → Db
deliver d db = (settle_match_result d.connection d.match_id d.result db).1

unfoldable pub deliver_all : List Delivery → Db → Db
deliver_all [] db = db
deliver_all (d ∷ ds) db = deliver_all ds (deliver d db)

-- What the rows of the ledger give an account.
abbrev pub earned : ℕ → List ResultRow → ℕ
earned a [] = 0
earned a (r ∷ rs) =
    (if a == r.account_id then (if is_positive r.coins then r.coins else 0) else 0) + earned a rs

-- No match is settled twice for an account.
abbrev pub Once : List ResultRow → Type 0
Once [] = Unit
Once (r ∷ rs) = (is_settled r.match_id r.account_id rs ≡ false) × Once rs

earned-append :
    (a : ℕ) (rs : List ResultRow) (r : ResultRow)
    → earned a (rs ++ r ∷ []) ≡ earned a rs + earned a (r ∷ [])
earned-append a [] r = omega arith
earned-append a (x ∷ rs) r = omega (arith, earned-append a rs r)

is_settled-append :
    (m a : ℕ) (rs : List ResultRow) (r : ResultRow)
    → is_settled m a (rs ++ r ∷ []) ≡ (is_settled m a rs || (r.match_id == m && r.account_id == a))
is_settled-append m a [] r = ground arith
is_settled-append m a (x ∷ rs) r = ground (arith, is_settled-append m a rs r)

Once-append :
    (rs : List ResultRow) (r : ResultRow)
    → Once rs
    → is_settled r.match_id r.account_id rs ≡ false
    → Once (rs ++ r ∷ [])
Once-append [] r h k = (refl, tt)
Once-append (x ∷ rs) r h k = (
  ground (arith, is_settled-append x.match_id x.account_id rs r),
  Once-append rs r h.1 (ground arith),
)

-- The balances are the balances at the start with what the ledger gives.
pub record IsBooked (start : ℕ → Option ℕ) (db : Db) : Type 0 where
  pub once : Once db.results
  pub booked : (a : ℕ) → db.balance a ≡ Option.map (λ c. c + earned a db.results) (start a)

map_add :
    (o : Option ℕ) (x y : ℕ)
    → Option.map (λ c. c + y) (Option.map (λ c. c + x) o) ≡ Option.map (λ c. c + (x + y)) o
map_add none x y = refl
map_add (some c) x y = ground arith

deliver-IsBooked :
    (start : ℕ → Option ℕ) (d : Delivery) (db : Db)
    → IsBooked start db
    → IsBooked start (deliver d db)
unfolding deliver settle_match_result credit
deliver-IsBooked start d db v =
    let m = d.match_id in
    let pr = d.result in
    let r = row_of m d.connection.now pr in
    record {
      once = ground (arith, v.once, Once-append db.results r v.once);
      booked = λ a. elim (Option-cases (start a)) [
        | inl e ↦
            let b : db.balance a ≡ none =
              v.booked a ∙ ap (Option.map (λ x. x + earned a db.results)) e in
            rw e (ground (arith, b, earned-append a db.results r))
        | inr (c, e) ↦
            let b : db.balance a ≡ some (c + earned a db.results) =
              v.booked a ∙ ap (Option.map (λ x. x + earned a db.results)) e in
            rw e (ground (arith, b, earned-append a db.results r))
      ];
    }

run-IsBooked :
    (start : ℕ → Option ℕ) (ds : List Delivery) (db : Db)
    → IsBooked start db
    → IsBooked start (deliver_all ds db)
unfolding deliver_all
run-IsBooked start [] db v = v
run-IsBooked start (d ∷ ds) db v =
    run-IsBooked start ds (deliver d db) (deliver-IsBooked start d db v)

map_zero : (o : Option ℕ) → Option.map (λ c. c + 0) o ≡ o
map_zero none = refl
map_zero (some c) = ground arith

-- From an empty ledger, whatever is delivered, how often, in whatever order and with whatever
-- transactions failing: no match is settled twice for an account, and the coins of every account are
-- those at the start with what the rows of the ledger give it.
pub deliver_all-IsBooked :
    (ds : List Delivery) (db : Db) → db.results ≡ [] → IsBooked db.balance (deliver_all ds db)
deliver_all-IsBooked ds db e =
    run-IsBooked db.balance ds db
      (record { once = rw e tt; booked = λ a. rw e (sym (map_zero (db.balance a))) })

settled_stays :
    (m a : ℕ) (d : Delivery) (db : Db)
    → is_settled m a db.results ≡ true
    → is_settled m a (deliver d db).results ≡ true
unfolding deliver settle_match_result
settled_stays m a d db h =
    ground (arith, is_settled-append m a db.results (row_of d.match_id d.connection.now d.result))

pub settled_stays_all :
    (m a : ℕ) (ds : List Delivery) (db : Db)
    → is_settled m a db.results ≡ true
    → is_settled m a (deliver_all ds db).results ≡ true
unfolding deliver_all
settled_stays_all m a [] db h = h
settled_stays_all m a (d ∷ ds) db h =
    settled_stays_all m a ds (deliver d db) (settled_stays m a d db h)

pub now_settled :
    (c : Connection) (m : ℕ) (pr : PlayerResult) (db : Db) (out : Settled)
    → (settle_match_result c m pr db).0 ≡ some out
    → is_settled m pr.account_id (settle_match_result c m pr db).1.results ≡ true
unfolding settle_match_result
now_settled c m pr db out h =
    ground (arith, is_settled-append m pr.account_id db.results (row_of m c.now pr))

pub settled_again :
    (c : Connection) (m : ℕ) (pr : PlayerResult) (db : Db)
    → is_settled m pr.account_id db.results ≡ true
    → c.insert_fails ≡ false
    → c.commit_fails ≡ false
    → settle_match_result c m pr db ≡ (some (record { fresh = false; credited = false }), db)
unfolding settle_match_result
settled_again c m pr db h i j = rw (h, i, j) refl

-- Once a settlement of a match for a player has gone through, whatever is delivered after it, a
-- redelivery, also one with other figures, whose INSERT and COMMIT go through answers neither fresh
-- nor credited and changes nothing.
pub settle_match_result-redelivery :
    (c again : Connection) (m : ℕ) (pr other : PlayerResult) (db : Db) (out : Settled)
    (ds : List Delivery)
    → (settle_match_result c m pr db).0 ≡ some out
    → other.account_id ≡ pr.account_id
    → again.insert_fails ≡ false
    → again.commit_fails ≡ false
    → let t = deliver_all ds (settle_match_result c m pr db).1 in
      settle_match_result again m other t ≡ (some (record { fresh = false; credited = false }), t)
settle_match_result-redelivery c again m pr other db out ds h e i j =
    let t = deliver_all ds (settle_match_result c m pr db).1 in
    settled_again again m other t
      (rw e (
        settled_stays_all m pr.account_id ds (settle_match_result c m pr db).1
          (now_settled c m pr db out h)))
      i j
