-- ===== src/RateLimit.antt =====
-- The fixed-window rate limiter of the login and connect servers (auth/shared/src/rate-limit.js): a
-- count for each key's window, and the end of the block that a key gets when it goes over the limit.
pub mod Windows
pub mod Blocks
mod Tests
use Prim.Native.Nat.{max}
use free_fire.Prelude.{
  ℕ, zero, suc, ◌+◌, ◌-◌, ◌/◌, String, str_eq, Bool, true, false, not, ◌||◌, ◌&&◌, Option, none,
  some, if◌then◌else◌, ◌==◌, ltb,
}

pub record Limits : Type 0 where
  pub window_ms : ℕ
  pub max_requests : ℕ
  pub block_ms : ℕ

-- `createRateLimiter` throws a TypeError for a limit that is not positive.
unfoldable pub create_rate_limiter : ℕ → ℕ → ℕ → Option Limits
create_rate_limiter window_ms max_requests block_ms =
    if window_ms == 0 || max_requests == 0 || block_ms == 0
    then none
    else some (record { window_ms = window_ms; max_requests = max_requests; block_ms = block_ms })

pub record Entry : Type 0 where
  pub count : ℕ
  pub window_start : ℕ
  pub blocked_until : ℕ

-- `next()`, or a 429 with its Retry-After in seconds.
pub data Answer : Type 0 where
  passes : Answer
  rate_limited : ℕ → Answer

-- `Math.max(1, Math.ceil(retryAfterMs / 1000))`
unfoldable pub retry_after : ℕ → ℕ
retry_after ms = max 1 ((ms + 999) / 1000)

abbrev new_window : ℕ → Entry
new_window now = record { count = 0; window_start = now; blocked_until = 0 }

abbrev count_request : Limits → ℕ → Entry → Answer × Entry
count_request l now e =
    if ltb l.max_requests (e.count + 1)
    then (
      rate_limited (retry_after l.block_ms),
      record e { count = e.count + 1; blocked_until = now + l.block_ms },
    )
    else (passes, record e { count = e.count + 1 })

-- The middleware on its key's entry.
unfoldable pub rate_limit : Limits → ℕ → Option Entry → Answer × Entry
rate_limit l now none = count_request l now (new_window now)
rate_limit l now (some e) =
    if ltb now e.blocked_until
    then (rate_limited (retry_after (e.blocked_until - now)), e)
    else if ltb (e.window_start + l.window_ms) now
    then count_request l now (new_window now)
    else count_request l now e

-- What `prune` leaves of an entry.
unfoldable pub prune_entry : Limits → ℕ → Option Entry → Option Entry
prune_entry l now none = none
prune_entry l now (some e) =
    if not (ltb now e.blocked_until) && ltb (e.window_start + l.window_ms) now then none else some e

-- The Map from keys to entries.
abbrev pub Store : Type 0
Store = String → Option Entry

unfoldable pub middleware : Limits → String → ℕ → Store → Answer × Store
middleware l key now store =
    let (answer, e) = rate_limit l now (store key) in
    (answer, λ k. if str_eq key k then some e else store k)

unfoldable pub prune : Limits → ℕ → Store → Store
prune l now store k = prune_entry l now (store k)
