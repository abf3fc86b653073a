-- ===== src/Auth/Pairings/Single.antt =====
-- A pairing's outcome is handed out once (auth/shared/src/repositories/pairings.pg.js).
use free_fire.Prelude.{ℕ, ◌+◌, ◌≤◌, ◌≡◌, refl, String, Option, none, some, List, [], ◌∷◌, arith}
use free_fire.Auth.Pairings.{
  Status, pending, completed, failed, Pairing, create_pending, mark_completed, mark_failed, Answer,
  completed_answer, failed_answer, expired_answer, pending_answer, finish_poll, sweep,
  finish_mongo_poll,
}

-- The statements on one pair id. A poll is two of them: `deletes` is the second, of a poll that has
-- read the status at any time before.
pub data Statement : Type 0 where
  creates : String → ℕ → ℕ → Statement
  completes fails : ℕ → String → Statement
  deletes : Status → Statement
  sweeps : ℕ → Statement

-- Whether an answer hands out an outcome.
abbrev pub handed_out : Answer → ℕ
handed_out expired_answer = 0
handed_out pending_answer = 0
handed_out (completed_answer url) = 1
handed_out (failed_answer error) = 1

unfoldable pub run : Statement → Option Pairing → ℕ × Option Pairing
unfolding create_pending mark_completed mark_failed finish_poll sweep
run (creates uri ttl now) row = (0, (create_pending uri ttl now row).1)
run (completes now url) row = (0, (mark_completed now url row).1)
run (fails now error) row = (0, (mark_failed now error row).1)
run (deletes seen) row = let (a, t) = finish_poll seen row in (handed_out a, t)
run (sweeps now) row = (0, sweep now row)

-- How often a sequence of statements hands out an outcome.
unfoldable pub outcomes : List Statement → Option Pairing → ℕ
unfolding run
outcomes [] row = 0
outcomes (s ∷ ss) row = (run s row).0 + outcomes ss (run s row).1

abbrev pub is_create : Statement → ℕ
is_create (creates uri ttl now) = 1
is_create _ = 0

abbrev pub creations : List Statement → ℕ
creations [] = 0
creations (s ∷ ss) = is_create s + creations ss

abbrev pub stored : Option Pairing → ℕ
stored none = 0
stored (some r) = 1

run-outcomes :
    (s : Statement) (row : Option Pairing)
    → (run s row).0 + stored (run s row).1 ≤ is_create s + stored row
unfolding run
run-outcomes (creates uri ttl now) none = omega arith
run-outcomes (creates uri ttl now) (some r) = omega arith
run-outcomes (completes now url) none = omega arith
run-outcomes (completes now url) (some r) = ground arith
run-outcomes (fails now error) none = omega arith
run-outcomes (fails now error) (some r) = ground arith
run-outcomes (deletes pending) row = omega arith
run-outcomes (deletes completed) none = omega arith
run-outcomes (deletes completed) (some r) = ground arith
run-outcomes (deletes failed) none = omega arith
run-outcomes (deletes failed) (some r) = ground arith
run-outcomes (sweeps now) none = omega arith
run-outcomes (sweeps now) (some r) = ground arith

-- However the statements of any number of polls, callbacks and sweeps interleave, outcomes are handed
-- out at most as often as a pairing was created, and once more if there was one at the start.
pub outcomes-le-creations :
    (ss : List Statement) (row : Option Pairing) → outcomes ss row ≤ creations ss + stored row
unfolding outcomes
outcomes-le-creations [] row = omega arith
outcomes-le-creations (s ∷ ss) row =
    omega (arith, run-outcomes s row, outcomes-le-creations ss (run s row).1)

-- The MongoDB twin: two polls that both read a completed pairing before either deletes it both hand
-- out its URL.
pub finish_mongo_poll_twice :
    (doc : Pairing)
    → doc.status ≡ completed
    → let (first, t) = finish_mongo_poll doc (some doc) in
      let (second, u) = finish_mongo_poll doc t in
      (first ≡ completed_answer doc.redirect_url) × (second ≡ completed_answer doc.redirect_url)
unfolding finish_mongo_poll
finish_mongo_poll_twice doc h = rw h (refl, refl)
