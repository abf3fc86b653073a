-- ===== src/ReplayGuard.antt =====
-- The guard against replayed requests (src/protocol/replayGuard.js). A signature is a number here, the
-- hash of endpoint and body that the crypto library computes. Times are milliseconds.
pub mod Held
pub mod Window
pub mod Alarms
pub mod Tests
use free_fire.Prelude.{
  ℕ, ◌+◌, ◌-◌, Bool, true, false, ◌||◌, List, [], ◌∷◌, ◌++◌, Option, none, some, map, find, filterb,
  not, length, drop, if◌then◌else◌, ◌==◌, ltb, leb,
}

pub record Config : Type 0 where
  pub enabled : Bool
  pub window : ℕ
  pub max : ℕ

pub record Mark : Type 0 where
  pub sig : ℕ
  pub expiry : ℕ

-- The map `seen` in its order of insertion, and the time of the last sweep
pub record Guard : Type 0 where
  pub seen : List Mark
  pub last_sweep : ℕ

-- The expired marks at the front go, up to the first that is live.
unfoldable pub drop_expired : ℕ → List Mark → List Mark
drop_expired now [] = []
drop_expired now (m ∷ ms) = if leb m.expiry now then drop_expired now ms else m ∷ ms

-- `while (seen.size > MAX)`: the oldest go.
unfoldable pub cap : ℕ → List Mark → List Mark
cap max ms = drop (length ms - max) ms

unfoldable pub sweep : Config → ℕ → List Mark → List Mark
unfolding drop_expired cap
sweep c now ms = cap c.max (drop_expired now ms)

abbrev pub has_sig : ℕ → Mark → Bool
has_sig sig m = m.sig == sig

abbrev pub expiry_of : ℕ → List Mark → Option ℕ
expiry_of sig [] = none
expiry_of sig (m ∷ ms) = if has_sig sig m then some m.expiry else expiry_of sig ms

-- `seen.delete(sig)`
abbrev pub delete_sig : ℕ → List Mark → List Mark
delete_sig sig ms = filterb (λ m. not (has_sig sig m)) ms

abbrev pub swept : Config → ℕ → Guard → Guard
swept c now g =
    if ltb 1000 (now - g.last_sweep)
    then record { seen = sweep c now g.seen; last_sweep = now }
    else g

-- The mark is set, at the end, and the map is swept where it is too large.
abbrev pub recorded : Config → ℕ → ℕ → List Mark → List Mark
recorded c now sig ms =
    let marked : List Mark =
      delete_sig sig ms ++ record { sig = sig; expiry = now + c.window } ∷ [] in
    if ltb c.max (length marked) then sweep c now marked else marked

abbrev pub is_live : ℕ → Option ℕ → Bool
is_live now none = false
is_live now (some expiry) = ltb now expiry

-- `empty` and `excluded` say whether the body is empty and the endpoint excluded.
unfoldable pub is_replay : Config → Bool → Bool → ℕ → ℕ → Guard → Bool × Guard
unfolding sweep
is_replay c empty excluded sig now g =
    if not c.enabled || empty || excluded
    then (false, g)
    else (let h = swept c now g in
        if is_live now (expiry_of sig h.seen)
        then (true, h)
        else (false, record h { seen = recorded c now sig h.seen }))
