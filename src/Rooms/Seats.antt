-- ===== src/Rooms/Seats.antt =====
-- Teams and seats of src/tcp/rooms.js: `pickTeam`, `perTeamCap`, `freeSeat` and `toRoomInfo`.
pub mod Free
pub mod View
use Prim.Native.Nat.{max}
use free_fire.Prelude.{
  ℕ, zero, suc, ◌+◌, ◌/◌, String, Bool, true, false, ◌&&◌, Option, none, some, List, [], ◌∷◌, map,
  if◌then◌else◌, ◌==◌, ltb, or_else, length, get_elem?, set, replicate, any, filterb,
}
use mathlib.Core.Option
use free_fire.Rooms.Record.{
  Member, Room, RoomState, PlayerInfo, player_info, default_max_members, num_teams,
}

-- `m.group_id || 1`
abbrev pub team_of : Member → ℕ
team_of m = or_else m.group_id 1

abbrev pub in_team : ℕ → Member → Bool
in_team group m = team_of m == group

abbrev pub sits_at : ℕ → ℕ → Member → Bool
sits_at group seat m = in_team group m && m.seat == seat

-- `counts[group - 1]` after the loop of `pickTeam`
unfoldable pub team_count : ℕ → List Member → ℕ
team_count group ms = length (filterb (in_team group) ms)

unfoldable pub pick_team : List Member → ℕ
pick_team ms = if ltb (team_count 2 ms) (team_count 1 ms) then 2 else 1

-- `Math.max(1, Math.ceil((max || DEFAULT_MAX_MEMBERS) / NUM_TEAMS))`
unfoldable pub per_team_cap : ℕ → ℕ
per_team_cap max_member_num = max 1 ((or_else max_member_num default_max_members + 1) / num_teams)

unfoldable pub taken_seats : ℕ → List Member → List ℕ
taken_seats group ms = map (λ m. m.seat) (filterb (in_team group) ms)

abbrev pub contains : List ℕ → ℕ → Bool
contains taken s = any (λ t. t == s) taken

-- The first of `n` seats from `s` on that is not taken; `none` is the -1 of the source.
unfoldable pub first_free : ℕ → ℕ → List ℕ → Option ℕ
first_free zero s taken = none
first_free (suc n) s taken =
    let rest = first_free n (suc s) taken in if contains taken s then rest else some s

unfoldable pub free_seat : Room → ℕ → Option ℕ
free_seat room group =
    first_free (per_team_cap room.max_member_num) 0 (taken_seats group room.members)

-- A `members` entry of a RoomGroupInfo: a padded empty seat, or a player.
pub data Seat : Type 0 where
  empty : ℕ → Seat
  player : PlayerInfo → Seat

abbrev pub seat_account : Seat → ℕ
seat_account (empty group) = 0
seat_account (player p) = p.account_id

abbrev pub is_open : Option Seat → Bool
is_open none = false
is_open (some s) = seat_account s == 0

-- `seats.findIndex((x) => x.account_id === 0)`
unfoldable pub first_open : List Seat → Option ℕ
first_open [] = none
first_open (x ∷ xs) = if seat_account x == 0 then some 0 else Option.map suc (first_open xs)

-- Where the member's panel goes: its own seat if that is open, else the first open one, else 0.
unfoldable pub placement : ℕ → List Seat → Option ℕ
placement seat seats = if is_open (get_elem? seats seat) then some seat else first_open seats

unfoldable pub place : ℕ → ℕ → List Seat → Member → List Seat
unfolding placement first_open
place map_id group seats m =
    if in_team group m
    then set seats (Option.get_or (placement m.seat seats) 0) (player (player_info m map_id))
    else seats

unfoldable pub place_all : ℕ → ℕ → List Seat → List Member → List Seat
place_all map_id group seats [] = seats
place_all map_id group seats (m ∷ ms) = place_all map_id group (place map_id group seats m) ms

pub record Group : Type 0 where
  pub id : ℕ
  pub name : String
  pub abbr_name : String
  pub members : List Seat

unfoldable pub group_seats : Room → ℕ → List Seat
unfolding place_all place per_team_cap
group_seats room group =
    place_all room.map_id group (replicate (per_team_cap room.max_member_num) (empty group))
      room.members

pub record RoomInfo : Type 0 where
  pub id : ℕ
  pub name : String
  pub owner : ℕ
  pub map_id : ℕ
  pub game_mode : ℕ
  pub group_mode : ℕ
  pub max_member_num : ℕ
  pub max_spectator_num : ℕ
  pub state : RoomState
  pub code : String
  pub groups : List Group
  pub enable_death_spectate : Bool
  pub room_type : ℕ
  pub match_times : ℕ
  pub level_visual_style : ℕ
  pub room_setting : ℕ
  pub room_setting2 : ℕ
  pub is_cs_advanced : Bool
  pub cs_advanced_setting : List ℕ
  pub enough_room_card : Bool
  pub owner_online : Bool

-- `spectators` is always empty, and a record has no `match_times`.
unfoldable pub to_room_info : Room → RoomInfo
unfolding group_seats
to_room_info room = record {
  id = room.id;
  name = room.name;
  owner = room.owner;
  map_id = room.map_id;
  game_mode = room.game_mode;
  group_mode = room.group_mode;
  max_member_num = room.max_member_num;
  max_spectator_num = room.max_spectator_num;
  state = room.state;
  code = room.code;
  groups =
      record { id = 1; name = "Team 1"; abbr_name = "T1"; members = group_seats room 1 }
      ∷ record { id = 2; name = "Team 2"; abbr_name = "T2"; members = group_seats room 2 }
      ∷ [];
  enable_death_spectate = room.enable_death_spectate;
  room_type = room.room_type;
  match_times = 0;
  level_visual_style = room.level_visual_style;
  room_setting = room.room_setting;
  room_setting2 = room.room_setting2;
  is_cs_advanced = room.is_cs_advanced;
  cs_advanced_setting = room.cs_advanced;
  enough_room_card = true;
  owner_online = true;
}
