-- ===== src/RateLimit/Tests.antt =====
-- Concrete runs of auth/shared/src/rate-limit.js.
use free_fire.Prelude.{ℕ, ◌*◌, ◌≤◌, none, some, List, [], ◌∷◌, arith}
use free_fire.RateLimit.{Limits, Entry}
use free_fire.RateLimit.Windows.{passed, passed_bound}

abbrev limits : Limits
limits = record { window_ms = 1000; max_requests = 2; block_ms = 5000 }

-- Both requests of this second have been made.
abbrev used_up : Entry
used_up = record { count = 2; window_start = 100; blocked_until = 0 }

abbrev times : List ℕ
times = 900 ∷ 1200 ∷ 1300 ∷ 1400 ∷ []

passed_bound_example :
    (passed limits none times ≤ 2) × ((e : Entry) → passed limits (some e) times ≤ 2 * 2)
passed_bound_example = passed_bound limits 500 times (ground arith) (ground arith)
