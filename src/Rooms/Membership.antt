-- ===== src/Rooms/Membership.antt =====
-- `join` and `kick` of src/tcp/rooms.js.
use mathlib.Core.Option
use free_fire.Prelude.{
  List, ℕ, String, str_eq, Bool, not, ◌&&◌, ◌++◌, [], ◌∷◌, find, any, if◌then◌else◌, ◌==◌, ltb,
  length,
}
use free_fire.Account.{Account, account_key}
use free_fire.Rooms.Record.{
  no_room, room_in_game, invalid_code, already_in_room, reach_max_members, not_owner, cannot_kick,
  not_in_room, is_waiting, role_member, Member, Room, member_from_account,
}
use free_fire.Rooms.Seats.{pick_team, free_seat}
use free_fire.Rooms.Exec.{
  Env, ok, Exec, pure, require, or_throw, ◌>>=◌, ◌>>◌, save_room, set_member, bus_throws,
  del_member, with_room_lock, existing,
}
use free_fire.Rooms.Lifecycle.{is_account, remove_member}
use free_fire.Redis.{Redis, hgetall}

pub record JoinReq : Type 0 where
  pub room_id : ℕ
  pub code : String

abbrev given : String → Bool
given code = not (str_eq code "")

-- The first record with that join code; 0 stands for none.
unfoldable pub room_by_code : String → List (ℕ × Room) → ℕ
room_by_code code [] = 0
room_by_code code ((id, r) ∷ h) =
    if given r.code && str_eq r.code code then r.id else room_by_code code h

unfoldable pub seat_joiner : Room → Account → Member
seat_joiner room account =
    let group = pick_team room.members in
    member_from_account account group (Option.get_or (free_seat room group) 0) role_member

module _ ⦃redis : Redis⦄ where
  unfoldable pub resolve : JoinReq → Exec ℕ
  unfolding room_by_code
  resolve req s = (
    ok (
        if req.room_id == 0 && given req.code
        then room_by_code req.code (hgetall s.rooms)
        else req.room_id),
    s,
  )

  -- The part of `join` that runs under the lease, over the two calls of the bus that write.
  abbrev pub join_with :
      (Room → Exec (Unit {0}))
      → (ℕ → ℕ → Exec (Unit {0}))
      → Account
      → String
      → ℕ
      → Exec (Room × Member)
  unfolding existing
  join_with save set account code room_id = do
    room ← existing room_id no_room
    require (is_waiting room.state) room_in_game
    require (not (given code && given room.code && not (str_eq code room.code))) invalid_code
    require (not (any (is_account (account_key account)) room.members)) already_in_room
    require (ltb (length room.members) room.max_member_num) reach_max_members
    let joiner = seat_joiner room account
    let room' : Room = record room { members = room.members ++ joiner ∷ [] }
    save room'
    set (account_key account) room.id
    pure (room', joiner)

  unfoldable pub join_locked : Account → String → ℕ → Exec (Room × Member)
  unfolding existing
  join_locked = join_with save_room set_member

  -- The join whose first call that fails is the first write, or else the second.
  unfoldable pub join_failing : Bool → Account → String → ℕ → Exec (Room × Member)
  unfolding existing
  join_failing at_once =
      join_with (λ room. if at_once then bus_throws else save_room room) (λ account id. bus_throws)

  unfoldable pub join : Env → Account → JoinReq → Exec (Room × Member)
  unfolding resolve
  join env account req = do
    require env.bus_up no_room
    room_id ← resolve req
    require (not (room_id == 0)) no_room
    with_room_lock env (join_locked account req.code room_id)

  unfoldable pub kick_locked : ℕ → ℕ → ℕ → Exec (Room × Member)
  unfolding existing
  kick_locked owner room_id target_id = do
    room ← existing room_id no_room
    require (room.owner == owner) not_owner
    require (not (target_id == owner)) cannot_kick
    target ← or_throw (find (is_account target_id) room.members) not_in_room
    let room' : Room = record room { members = remove_member target_id room.members }
    save_room room'
    del_member target_id
    pure (room', target)

  unfoldable pub kick : Env → ℕ → ℕ → ℕ → Exec (Room × Member)
  kick env owner room_id target_id = do
    require env.bus_up no_room
    with_room_lock env (kick_locked owner room_id target_id)
