-- ===== src/Rooms/Outcomes.antt =====
-- When an operation of a room gets its lease (`withRoomLock` of src/tcp/rooms.js).
use free_fire.Prelude.{
  ℕ, zero, suc, ◌+◌, ◌≤◌, ◌<◌, ◌≡◌, refl, Bool, true, false, ◌==◌, arith, Bool-cases, inl, inr,
}
use free_fire.Rooms.Exec.{
  Store, Env, lock_timeout, err, Exec, with_room_lock, attempt, lock_attempts,
}
use free_fire.Redis.{Redis}

-- The lease is had exactly if one of the attempts from `i` on succeeds.
attempt_found :
    (acquired : ℕ → Bool) (n i k : ℕ)
    → acquired k ≡ true
    → i ≤ k
    → k < i + n
    → attempt acquired n i ≡ true
unfolding attempt
attempt_found acquired zero i k h p q = absurd (omega arith)
attempt_found acquired (suc n) i k h p q = elim (Bool-cases (i == k)) [
  | inl e ↦ ground (arith, h)
  | inr e ↦ ground (arith, attempt_found acquired n (suc i) k)
]

attempt_none :
    (acquired : ℕ → Bool) (n i : ℕ)
    → ((k : ℕ) → k < i + n → acquired k ≡ false)
    → attempt acquired n i ≡ false
unfolding attempt
attempt_none acquired zero i h = refl
attempt_none acquired (suc n) i h =
    rw (h i (omega arith)) (attempt_none acquired n (suc i) (λ k q. h k (omega arith)))

module _ ⦃redis : Redis⦄ where
  -- Under `withRoomLock` an operation runs exactly once if one of the 50 attempts gets the room's
  -- lease; if none does, it ends in the lock timeout with nothing written.
  pub with_room_lock_lem :
      {A : Type 0} (env : Env) (body : Exec A) (s : Store)
      → ((k : ℕ) → k < lock_attempts → env.acquired k ≡ true → with_room_lock env body s ≡ body s)
        × (((k : ℕ) → k < lock_attempts → env.acquired k ≡ false)
            → with_room_lock env body s ≡ (err lock_timeout, s))
  unfolding with_room_lock
  with_room_lock_lem env body s = (
    (λ k q h. rw (attempt_found env.acquired lock_attempts 0 k h (omega arith) (omega arith))),
    (λ h. rw (attempt_none env.acquired lock_attempts 0 (λ k q. h k (omega arith)))),
  )
