-- ===== src/Rooms/Invariant.antt =====
-- What makes a room record of src/tcp/rooms.js well formed, and how the list operations keep it.
pub mod Lists
pub mod Store
pub mod Seated
pub mod Ops
pub mod Reach
use free_fire.Prelude.{ℕ, ◌≤◌, ◌<◌, ◌≡◌, true, false, any, length, All, List, [], ◌∷◌}
use free_fire.Rooms.Record.{Member, Room}
use free_fire.Rooms.Seats.{team_of, per_team_cap, sits_at}
use free_fire.Rooms.Lifecycle.{is_account}

-- No account is listed twice.
abbrev pub Distinct : List Member → Type 0
Distinct [] = Unit
Distinct (m ∷ ms) = (any (is_account m.account_id) ms ≡ false) × Distinct ms

-- No two members of a team have the same seat.
abbrev pub Apart : List Member → Type 0
Apart [] = Unit
Apart (m ∷ ms) = (any (sits_at (team_of m) m.seat) ms ≡ false) × Apart ms

-- Team 1 or 2, and a seat within the team's capacity.
abbrev pub IsPlaced : ℕ → Member → Type 0
IsPlaced cap m = (1 ≤ team_of m) × (team_of m ≤ 2) × (m.seat < cap)

pub record IsSeated (room : Room) : Type 0 where
  pub distinct : Distinct room.members
  pub apart : Apart room.members
  pub placed : All (IsPlaced (per_team_cap room.max_member_num)) room.members
  pub within : length room.members ≤ room.max_member_num
  pub owner_in : any (is_account room.owner) room.members ≡ true
