-- ===== src/Auth/Pairings.antt =====
-- The PostgreSQL pairings repository (auth/shared/src/repositories/pairings.pg.js), on the row of one
-- pair id, which is the table's primary key, and the poll of its MongoDB twin (pairings.mongo.js).
-- Each statement takes the database's clock.
pub mod Single
pub mod Sessions
use free_fire.Prelude.{ℕ, ◌+◌, String, Bool, true, false, Option, none, some, if◌then◌else◌, ltb}
use mathlib.Core.Option

pub data Status : Type 0 where
  pending completed failed : Status

abbrev pub same_status : Status → Status → Bool
same_status pending pending = true
same_status completed completed = true
same_status failed failed = true
same_status _ _ = false

pub record Pairing : Type 0 where
  pub redirect_uri : String
  pub status : Status
  pub redirect_url : Option String
  pub error : Option String
  pub created_at : ℕ
  pub expires_at : ℕ

-- `none` in the first part is the error of a pair id that is taken.
unfoldable pub create_pending : String → ℕ → ℕ → Option Pairing → Option Pairing × Option Pairing
create_pending redirect_uri ttl now none =
    let doc : Pairing = record {
      redirect_uri = redirect_uri;
      status = pending;
      redirect_url = none;
      error = none;
      created_at = now;
      expires_at = now + ttl;
    } in
    (some doc, some doc)
create_pending redirect_uri ttl now (some r) = (none, some r)

-- `expires_at > now()`
abbrev pub live : ℕ → Option Pairing → Option Pairing
live now none = none
live now (some r) = if ltb now r.expires_at then some r else none

unfoldable pub find_by_pair_id : ℕ → Option Pairing → Option Pairing
find_by_pair_id now row = live now row

abbrev is_pending : Pairing → Bool
is_pending r = same_status r.status pending

abbrev settle :
    Option Pairing → (Pairing → Pairing) → Option Pairing → Option Pairing × Option Pairing
settle none change row = (none, row)
settle (some r) change row =
    if is_pending r then (some (change r), some (change r)) else (none, row)

-- The UPDATE of a row that is pending and not expired; `none` where it touches none.
unfoldable pub mark_completed : ℕ → String → Option Pairing → Option Pairing × Option Pairing
mark_completed now url row =
    settle (live now row) (λ r. record r { status = completed; redirect_url = some url }) row

-- `error` is the text cut to 200 characters.
unfoldable pub mark_failed : ℕ → String → Option Pairing → Option Pairing × Option Pairing
mark_failed now error row =
    settle (live now row) (λ r. record r { status = failed; error = some error }) row

pub data Answer : Type 0 where
  expired_answer pending_answer : Answer
  completed_answer failed_answer : Option String → Answer

abbrev pub answer_of : Status → Pairing → Answer
answer_of pending r = expired_answer
answer_of completed r = completed_answer r.redirect_url
answer_of failed r = failed_answer r.error

-- The DELETE ... RETURNING of a poll that has read the status `seen`.
unfoldable pub delete_returning : Status → Option Pairing → Answer × Option Pairing
delete_returning seen none = (expired_answer, none)
delete_returning seen (some r) =
    if same_status r.status seen then (answer_of r.status r, none) else (expired_answer, some r)

-- The second half of `consumeIfCompleted`.
unfoldable pub finish_poll : Status → Option Pairing → Answer × Option Pairing
unfolding delete_returning
finish_poll pending row = (pending_answer, row)
finish_poll completed row = delete_returning completed row
finish_poll failed row = delete_returning failed row

-- The SELECT, and the DELETE right after it.
unfoldable pub consume_if_completed : ℕ → Option Pairing → Answer × Option Pairing
unfolding finish_poll
consume_if_completed now row = elim (live now row) [
  | none ↦ (expired_answer, row)
  | some r ↦ finish_poll r.status row
]

-- The sweeper's DELETE
unfoldable pub sweep : ℕ → Option Pairing → Option Pairing
sweep now row = live now row

-- The second half of the MongoDB `consumeIfCompleted`, for a poll that has read `doc`: `deleteOne`
-- takes the row away if it still has the status, and the answer is the document's either way.
unfoldable pub finish_mongo_poll : Pairing → Option Pairing → Answer × Option Pairing
finish_mongo_poll doc none =
    (elim doc.status [ pending ↦ pending_answer | s ↦ answer_of s doc ], none)
finish_mongo_poll doc (some r) = elim doc.status [
  | pending ↦ (pending_answer, some r)
  | s ↦ (answer_of s doc, if same_status r.status s then none else some r)
]
