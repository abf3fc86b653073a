-- ===== src/Rooms/Settings.antt =====
-- `change`, `setReady` and `switchSeat` of src/tcp/rooms.js.
use mathlib.Core.Option
use free_fire.Prelude.{
  ℕ, ◌+◌, String, Bool, true, false, not, ◌||◌, ◌&&◌, Option, List, [], ◌∷◌, any, if◌then◌else◌,
  ◌==◌, leb, ltb, or_else,
}
use free_fire.Account.{Account, account_key}
use free_fire.Rooms.Record.{
  no_room, room_in_game, not_owner, not_in_room, cannot_switch_seat, seat_occupied, is_waiting,
  num_teams, Member, Room, or_text,
}
use free_fire.Rooms.Seats.{sits_at, per_team_cap}
use free_fire.Rooms.Exec.{
  Env, Exec, pure, require, ◌>>=◌, ◌>>◌, room_of, save_room, with_room_lock, existing,
}
use free_fire.Rooms.Lifecycle.{is_account}
use free_fire.Redis.{Redis}

-- `none` is a field that is null.
pub record ChangeReq : Type 0 where
  pub room_id : ℕ
  pub room_name : String
  pub map_id : Option ℕ
  pub game_mode : Option ℕ
  pub max_member_num : ℕ
  pub max_spectator_num : Option ℕ
  pub enable_death_spectate : Option Bool
  pub level_visual_style : Option ℕ
  pub room_setting : ℕ
  pub room_setting2 : ℕ
  pub cs_advanced_setting : List ℕ

abbrev pub is_given : List ℕ → Bool
is_given [] = false
is_given (b ∷ bs) = true

unfoldable pub change_room : Room → ChangeReq → Room
change_room room req = record room {
  name = or_text req.room_name room.name;
  map_id = Option.get_or req.map_id room.map_id;
  game_mode = Option.get_or req.game_mode room.game_mode;
  max_member_num = or_else req.max_member_num room.max_member_num;
  max_spectator_num = Option.get_or req.max_spectator_num room.max_spectator_num;
  enable_death_spectate = Option.get_or req.enable_death_spectate room.enable_death_spectate;
  level_visual_style = Option.get_or req.level_visual_style room.level_visual_style;
  room_setting = req.room_setting;
  room_setting2 = req.room_setting2;
  cs_advanced =
      if is_given req.cs_advanced_setting then req.cs_advanced_setting else room.cs_advanced;
  is_cs_advanced = is_given req.cs_advanced_setting || room.is_cs_advanced;
}

-- A write to the member that `members.find` returns: the first of that account.
unfoldable pub update_member : ℕ → (Member → Member) → List Member → List Member
update_member account f [] = []
update_member account f (m ∷ ms) =
    if is_account account m then f m ∷ ms else m ∷ update_member account f ms

-- The request's fields are unsigned, so the source's tests for a negative team or seat never hold.
pub record SwitchSeatReq : Type 0 where
  pub room_id : ℕ
  pub to_room_pos : ℕ
  pub to_group_pos : ℕ

unfoldable pub move_member : ℕ → ℕ → ℕ → List Member → List Member
move_member account group seat =
    update_member account (λ m. record m { group_id = group; seat = seat })

module _ ⦃redis : Redis⦄ where
  unfoldable pub change_locked : Account → ChangeReq → Exec Room
  unfolding existing
  change_locked account req = do
    room ← existing req.room_id no_room
    require (room.owner == account_key account) not_owner
    require (is_waiting room.state) room_in_game
    let room' = change_room room req
    save_room room'
    pure room'

  unfoldable pub change : Env → Account → ChangeReq → Exec Room
  change env account req = do
    require env.bus_up no_room
    with_room_lock env (change_locked account req)

  unfoldable pub set_ready_locked : ℕ → Bool → ℕ → Exec Room
  unfolding existing
  set_ready_locked account ready room_id = do
    room ← existing room_id not_in_room
    require (any (is_account account) room.members) not_in_room
    let room' : Room = record room {
      members = update_member account (λ m. record m { ready = ready }) room.members;
    }
    save_room room'
    pure room'

  unfoldable pub set_ready : Env → Account → Bool → Exec Room
  set_ready env account ready = do
    require env.bus_up not_in_room
    room_id ← room_of (account_key account)
    require (not (room_id == 0)) not_in_room
    with_room_lock env (set_ready_locked (account_key account) ready room_id)

  unfoldable pub switch_locked : ℕ → ℕ → ℕ → ℕ → Exec Room
  unfolding existing
  switch_locked account to_team to_seat room_id = do
    room ← existing room_id no_room
    require (is_waiting room.state) room_in_game
    require (any (is_account account) room.members) not_in_room
    let group = to_team + 1
    require (leb group num_teams && ltb to_seat (per_team_cap room.max_member_num))
        cannot_switch_seat
    require (not (any (λ m. not (is_account account m) && sits_at group to_seat m) room.members))
        seat_occupied
    let room' : Room = record room { members = move_member account group to_seat room.members }
    save_room room'
    pure room'

  unfoldable pub switch_seat : Env → Account → SwitchSeatReq → Exec Room
  switch_seat env account req = do
    require env.bus_up no_room
    listed ← room_of (account_key account)
    let room_id = or_else req.room_id listed
    require (not (room_id == 0)) not_in_room
    with_room_lock env
        (switch_locked (account_key account) req.to_room_pos req.to_group_pos room_id)
