-- ===== src/RateLimit/Blocks.antt =====
-- Blocks and pruning (auth/shared/src/rate-limit.js).
use free_fire.Prelude.{ℕ, ◌+◌, ◌-◌, ◌*◌, ◌≤◌, ◌<◌, ◌≡◌, refl, Option, none, some, arith}
use free_fire.RateLimit.{Limits, Entry, rate_limited, retry_after, rate_limit, prune_entry}

-- A key that is turned away stays blocked until its entry's `blocked_until`: every request until then
-- is turned away and leaves the entry as it is, and that end is at most the announced number of
-- seconds away, and more than one second less than that only for the minimum of one second.
pub rate_limit-blocked :
    (l : Limits) (now seconds : ℕ) (o : Option Entry)
    → (rate_limit l now o).0 ≡ rate_limited seconds
    → let e = (rate_limit l now o).1 in
      ((t : ℕ)
        → t < e.blocked_until
        → rate_limit l t (some e) ≡ (rate_limited (retry_after (e.blocked_until - t)), e))
      × (e.blocked_until ≤ now + 1000 * seconds)
      × (now + 1000 * (seconds - 1) ≤ e.blocked_until)
unfolding rate_limit retry_after
rate_limit-blocked l now seconds none h = ground arith
rate_limit-blocked l now seconds (some e) h = ground arith

-- Pruning never changes an answer or the entry that a request leaves: an entry that `prune` deletes
-- would have started a new window.
pub rate_limit-prune :
    (l : Limits) (o : Option Entry) (pruned now : ℕ)
    → pruned ≤ now
    → rate_limit l now (prune_entry l pruned o) ≡ rate_limit l now o
unfolding rate_limit prune_entry
rate_limit-prune l none pruned now h = refl
rate_limit-prune l (some e) pruned now h = ground arith
