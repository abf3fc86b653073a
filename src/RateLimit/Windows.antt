-- ===== src/RateLimit/Windows.antt =====
-- How many requests of a key pass (auth/shared/src/rate-limit.js).
use free_fire.Prelude.{ℕ, ◌+◌, ◌-◌, ◌*◌, ◌≤◌, Option, none, some, List, [], ◌∷◌, All, arith}
use free_fire.RateLimit.{Limits, Entry, Answer, passes, rate_limited, rate_limit}

abbrev pub pass_count : Answer → ℕ
pass_count passes = 1
pass_count (rate_limited s) = 0

-- How many of the requests of one key, at these times, pass.
abbrev pub passed : Limits → Option Entry → List ℕ → ℕ
passed l o [] = 0
passed l o (t ∷ ts) = let (answer, e) = rate_limit l t o in pass_count answer + passed l (some e) ts

-- As long as the window lasts, what passes is what is left of its limit.
passed-window :
    (l : Limits) (e : Entry) (ts : List ℕ)
    → All (λ t. t ≤ e.window_start + l.window_ms) ts
    → passed l (some e) ts ≤ l.max_requests - e.count
unfolding rate_limit
passed-window l e [] h = omega arith
passed-window l e (t ∷ ts) h = ground (
  arith,
  passed-window l e ts h.1,
  passed-window l (record e { count = e.count + 1 }) ts h.1,
  passed-window l (record e { count = e.count + 1; blocked_until = t + l.block_ms }) ts h.1,
)

All-until : (w a b : ℕ) (ts : List ℕ) → a ≤ b → All (λ t. t ≤ a + w) ts → All (λ t. t ≤ b + w) ts
All-until w a b [] p h = tt
All-until w a b (t ∷ ts) p h = (omega arith, All-until w a b ts p h.1)

passed-new :
    (l : Limits) (a : ℕ) (t : ℕ) (ts : List ℕ)
    → a ≤ t
    → All (λ u. u ≤ a + l.window_ms) ts
    → pass_count (rate_limit l t none).0 + passed l (some (rate_limit l t none).1) ts
      ≤ l.max_requests
unfolding rate_limit
passed-new l a t ts p h = ground (
  arith,
  passed-window l (record { count = 1; window_start = t; blocked_until = 0 }) ts
      (All-until l.window_ms a t ts p h),
  passed-window l (record { count = 1; window_start = t; blocked_until = t + l.block_ms }) ts
      (All-until l.window_ms a t ts p h),
)

passed-none :
    (l : Limits) (a : ℕ) (ts : List ℕ)
    → All (λ t. a ≤ t) ts
    → All (λ t. t ≤ a + l.window_ms) ts
    → passed l none ts ≤ l.max_requests
passed-none l a [] from until = omega arith
passed-none l a (t ∷ ts) from until = passed-new l a t ts from.0 until.1

-- What is left of the entry's window, and then a window of its own.
passed-some :
    (l : Limits) (a : ℕ) (e : Entry) (ts : List ℕ)
    → All (λ t. a ≤ t) ts
    → All (λ t. t ≤ a + l.window_ms) ts
    → passed l (some e) ts ≤ l.max_requests - e.count + l.max_requests
unfolding rate_limit
passed-some l a e [] from until = omega arith
passed-some l a e (t ∷ ts) from until = ground (
  arith,
  passed-new l a t ts from.0 until.1,
  passed-some l a e ts from.1 until.1,
  passed-some l a (record e { count = e.count + 1 }) ts from.1 until.1,
  passed-some l a (record e { count = e.count + 1; blocked_until = t + l.block_ms }) ts from.1
      until.1,
)

-- Over any stretch of time no longer than a window, no more requests than the limit pass if the key
-- has no entry at its start, and whatever the key's entry, no more than twice the limit.
pub passed_bound :
    (l : Limits) (a : ℕ) (ts : List ℕ)
    → All (λ t. a ≤ t) ts
    → All (λ t. t ≤ a + l.window_ms) ts
    → (passed l none ts ≤ l.max_requests)
      × ((e : Entry) → passed l (some e) ts ≤ 2 * l.max_requests)
passed_bound l a ts from until =
    (passed-none l a ts from until, λ e. omega (arith, passed-some l a e ts from until))
