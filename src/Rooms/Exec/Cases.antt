-- ===== src/Rooms/Exec/Cases.antt =====
-- What holds of the store after a block, by its guards: one rule for each kind of first step.
use free_fire.Prelude.{ℕ, ◌≡◌, refl, Bool, true, false, some, Option-cases, inl, inr}
use free_fire.Redis.{hget}
use free_fire.Rooms.Record.{Room, RoomErr}
use free_fire.Rooms.Exec.{Store, Exec, require, existing, ◌>>=◌, ◌>>◌}
use free_fire.Redis.{Redis}

module _ ⦃redis : Redis⦄ where
  module _ {ℓ} {A : Type ℓ} (P : Store → Type 0) where
    pub require_cases :
        (b : Bool) (e : RoomErr) (m : Exec A) (s : Store)
        → P s
        → (b ≡ true → P (m s).1)
        → P ((require b e >> m) s).1
    require_cases true e m s stay go = go refl
    require_cases false e m s stay go = stay

    pub existing_cases :
        (id : ℕ) (e : RoomErr) (f : Room → Exec A) (s : Store)
        → P s
        → ((room : Room) → hget s.rooms id ≡ some room → P (f room s).1)
        → P ((existing id e >>= f) s).1
    unfolding existing
    existing_cases id e f s stay go = elim (Option-cases (hget s.rooms id)) [
      | inl h ↦ rw h stay
      | inr (room, h) ↦ rw h (go room h)
    ]
