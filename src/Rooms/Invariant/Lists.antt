-- ===== src/Rooms/Invariant/Lists.antt =====
-- The list operations of the rooms against the parts of the invariant.
use free_fire.Prelude.{
  ℕ, ◌+◌, ◌≤◌, ◌<◌, ◌≡◌, ◌≢◌, refl, Bool, true, false, not, ◌||◌, ◌&&◌, List, [], ◌∷◌, ◌++◌, ◌==◌,
  any, length, All, arith, find, some,
}
use free_fire.Rooms.Record.{Member}
use free_fire.Rooms.Seats.{team_of, sits_at}
use free_fire.Rooms.Lifecycle.{is_account, remove_member}
use free_fire.Rooms.Settings.{update_member, move_member}
use free_fire.Rooms.Invariant.{Distinct, Apart, IsPlaced}

pub any-append :
    (p : Member → Bool) (ms : List Member) (j : Member) → any p (ms ++ j ∷ []) ≡ (any p ms || p j)
any-append p [] j = ground arith
any-append p (m ∷ ms) j = ground (arith, any-append p ms j)

pub All-append {κ} :
    (P : Member → Type κ) (ms : List Member) (j : Member) → All P ms → P j → All P (ms ++ j ∷ [])
All-append P [] j h k = (k, tt)
All-append P (m ∷ ms) j h k = (h.0, All-append P ms j h.1 k)

pub Distinct-append :
    (ms : List Member) (j : Member)
    → Distinct ms
    → any (is_account j.account_id) ms ≡ false
    → Distinct (ms ++ j ∷ [])
Distinct-append [] j d h = (refl, tt)
Distinct-append (m ∷ ms) j d h = (
  ground (arith, any-append (is_account m.account_id) ms j),
  Distinct-append ms j d.1 (ground arith),
)

pub Apart-append :
    (ms : List Member) (j : Member)
    → Apart ms
    → any (sits_at (team_of j) j.seat) ms ≡ false
    → Apart (ms ++ j ∷ [])
Apart-append [] j d h = (refl, tt)
Apart-append (m ∷ ms) j d h = (
  ground (arith, any-append (sits_at (team_of m) m.seat) ms j),
  Apart-append ms j d.1 (ground arith),
)

module _ (a : ℕ) where
  pub any-remove :
      (p : Member → Bool) (ms : List Member) → any p ms ≡ false → any p (remove_member a ms) ≡ false
  unfolding remove_member
  any-remove p [] h = refl
  any-remove p (m ∷ ms) h = ground (arith, any-remove p ms)

  pub Distinct-remove : (ms : List Member) → Distinct ms → Distinct (remove_member a ms)
  unfolding remove_member
  Distinct-remove [] d = tt
  Distinct-remove (m ∷ ms) d =
      ground (arith, Distinct-remove ms d.1, any-remove (is_account m.account_id) ms d.0)

  pub Apart-remove : (ms : List Member) → Apart ms → Apart (remove_member a ms)
  unfolding remove_member
  Apart-remove [] d = tt
  Apart-remove (m ∷ ms) d =
      ground (arith, Apart-remove ms d.1, any-remove (sits_at (team_of m) m.seat) ms d.0)

  pub All-remove :
      (cap : ℕ) (ms : List Member) → All (IsPlaced cap) ms → All (IsPlaced cap) (remove_member a ms)
  unfolding remove_member
  All-remove cap [] d = tt
  All-remove cap (m ∷ ms) d = ground (arith, All-remove cap ms d.1)

  pub length-remove :
      (ms : List Member)
      → any (is_account a) ms ≡ true
      → length (remove_member a ms) + 1 ≡ length ms
  unfolding remove_member
  length-remove [] h = cc
  length-remove (m ∷ ms) h = ground (arith, length-remove ms)

  pub length-remove-le : (ms : List Member) → length (remove_member a ms) ≤ length ms
  unfolding remove_member
  length-remove-le [] = omega arith
  length-remove-le (m ∷ ms) = ground (arith, length-remove-le ms)

  -- Others stay.
  pub remove-other :
      (b : ℕ) (ms : List Member)
      → b ≢ a
      → any (is_account b) (remove_member a ms) ≡ any (is_account b) ms
  unfolding remove_member
  remove-other b [] n = refl
  remove-other b (m ∷ ms) n = ground (arith, remove-other b ms n)

  -- In a list without duplicates the account is gone.
  pub remove_self :
      (ms : List Member) → Distinct ms → any (is_account a) (remove_member a ms) ≡ false
  unfolding remove_member
  remove_self [] d = refl
  remove_self (m ∷ ms) d = ground (arith, remove_self ms d.1)

  pub find-any :
      (ms : List Member) (m : Member)
      → find (is_account a) ms ≡ some m
      → (any (is_account a) ms ≡ true) × (m.account_id ≡ a)
  find-any [] m h = cc
  find-any (x ∷ ms) m h = ground (arith, find-any ms m)

module _ (a : ℕ) (f : Member → Member) (same : (m : Member) → (f m).account_id ≡ m.account_id) where
  pub any-update :
      (b : ℕ) (ms : List Member) → any (is_account b) (update_member a f ms) ≡ any (is_account b) ms
  unfolding update_member
  any-update b [] = refl
  any-update b (m ∷ ms) = ground (arith, any-update b ms, same m)

  pub Distinct-update : (ms : List Member) → Distinct ms → Distinct (update_member a f ms)
  unfolding update_member
  Distinct-update [] d = tt
  Distinct-update (m ∷ ms) d =
      ground (arith, Distinct-update ms d.1, any-update m.account_id ms, same m)

  pub length-update : (ms : List Member) → length (update_member a f ms) ≡ length ms
  unfolding update_member
  length-update [] = refl
  length-update (m ∷ ms) = ground (arith, length-update ms)

  pub All-update :
      (cap : ℕ) (ms : List Member)
      → ((m : Member) → IsPlaced cap m → IsPlaced cap (f m))
      → All (IsPlaced cap) ms
      → All (IsPlaced cap) (update_member a f ms)
  unfolding update_member
  All-update cap [] k d = tt
  All-update cap (m ∷ ms) k d = ground (arith, All-update cap ms k d.1, k m d.0)

-- A write that leaves team and seat alone keeps the seats apart.
module _ (a : ℕ) (r : Bool) where
  any-ready :
      (g s : ℕ) (ms : List Member)
      → any (sits_at g s) (update_member a (λ m. record m { ready = r }) ms) ≡ any (sits_at g s) ms
  unfolding update_member
  any-ready g s [] = refl
  any-ready g s (m ∷ ms) = ground (arith, any-ready g s ms)

  pub Apart-ready :
      (ms : List Member) → Apart ms → Apart (update_member a (λ m. record m { ready = r }) ms)
  unfolding update_member
  Apart-ready [] d = tt
  Apart-ready (m ∷ ms) d = ground (arith, Apart-ready ms d.1, any-ready (team_of m) m.seat ms)

-- Nobody but account `a` sits at seat `s` of team `g`.
abbrev pub others_at : ℕ → ℕ → ℕ → List Member → Bool
others_at a g s = any (λ m. not (is_account a m) && sits_at g s m)

module _ (a g s : ℕ) (g_pos : 0 < g) where
  others-absent :
      (ms : List Member)
      → any (is_account a) ms ≡ false
      → others_at a g s ms ≡ false
      → any (sits_at g s) ms ≡ false
  others-absent [] h k = refl
  others-absent (m ∷ ms) h k = ground (arith, others-absent ms)

  any-move :
      (t u : ℕ) (ms : List Member)
      → (t == g && u == s) ≡ false
      → any (sits_at t u) ms ≡ false
      → any (sits_at t u) (move_member a g s ms) ≡ false
  unfolding move_member update_member
  any-move t u [] n h = refl
  any-move t u (m ∷ ms) n h = ground (arith, any-move t u ms n)

  pub Apart-move :
      (ms : List Member)
      → Distinct ms
      → Apart ms
      → others_at a g s ms ≡ false
      → Apart (move_member a g s ms)
  unfolding move_member update_member
  Apart-move [] d h k = tt
  Apart-move (m ∷ ms) d h k =
      ground (arith, Apart-move ms d.1 h.1, others-absent ms, any-move (team_of m) m.seat ms)
