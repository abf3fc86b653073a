-- ===== src/Rooms/Notify.antt =====
-- The room messages: `broadcast`, the *_NTF builders, `runOp` and `handleDisconnect` of
-- src/tcp/rooms.js, and the handlers src/tcp/handlers/Room*.js but RoomStart and RoomCreateRule.
-- A push through the bus is an entry of the list that a handler returns.
pub mod Targets
use mathlib.Core.Option
use free_fire.Prelude.{
  ℕ, zero, suc, ◌+◌, String, Bool, true, false, not, Option, none, some, List, [], ◌∷◌, ◌++◌, map,
  if◌then◌else◌, ◌==◌, or_else,
}
use free_fire.Account.{Account, account_key}
use free_fire.Rooms.Record.{
  RoomErr, create_room_fail, no_room, not_in_room, not_owner, Member, Room, PlayerInfo, player_info,
  BasicInfo,
}
use free_fire.Rooms.Seats.{RoomInfo, to_room_info}
use free_fire.Rooms.Exec.{
  Store, Env, Failure, room_error, lock_timeout, bus_error, Result, ok, err, Exec,
}
use free_fire.Rooms.Lifecycle.{
  CreateReq, create, list, Left, leave, reenter, get, room_id_of, is_account,
}
use free_fire.Rooms.Membership.{JoinReq, join, kick}
use free_fire.Rooms.Settings.{ChangeReq, change, set_ready, SwitchSeatReq, switch_seat}
use free_fire.Redis.{Redis}

pub data Message : Type 0 where
  join_ntf kick_ntf : PlayerInfo → RoomInfo → Message
  leave_ntf : Option PlayerInfo → RoomInfo → Message
  change_ntf switch_seat_ntf : RoomInfo → Message
  set_ready_ntf : ℕ → List PlayerInfo → Message
  dismiss_ntf : ℕ → ℕ → ℕ → Message
  count_down_ntf : ℕ → Message

pub record Push : Type 0 where
  pub target : ℕ
  pub message : Message

-- Every member but `except`; 0 is `Number(null)`, for nobody.
unfoldable pub broadcast : List Member → ℕ → Message → List Push
broadcast [] except message = []
broadcast (m ∷ ms) except message =
    if is_account except m
    then broadcast ms except message
    else record { target = m.account_id; message = message } ∷ broadcast ms except message

unfoldable pub join_message : Room → Member → Message
join_message room joiner = join_ntf (player_info joiner room.map_id) (to_room_info room)

unfoldable pub leave_message : Room → Option Member → Message
leave_message room leaver = leave_ntf (Option.map (λ m. player_info m 0) leaver) (to_room_info room)

unfoldable pub kick_message : Room → Member → Message
kick_message room target = kick_ntf (player_info target 0) (to_room_info room)

-- `room.members.map(playerInfo)`: `map` passes the index as `playerInfo`'s second argument.
unfoldable pub indexed_infos : ℕ → List Member → List PlayerInfo
indexed_infos i [] = []
indexed_infos i (m ∷ ms) = player_info m i ∷ indexed_infos (suc i) ms

unfoldable pub set_ready_message : Room → Message
unfolding indexed_infos
set_ready_message room = set_ready_ntf room.id (indexed_infos 0 room.members)

unfoldable pub dismiss_message : Room → ℕ → ℕ → Message
dismiss_message room leaver reason = dismiss_ntf leaver room.id reason

-- `nothing` is a null reply, which sends no response; `empty` is `{}`.
pub data Reply : Type 0 where
  nothing empty : Reply
  info : RoomInfo → Reply
  room_list : List BasicInfo → Reply

-- `ret` is the error code that the handler leaves in the context.
pub record Response : Type 0 where
  pub ret : Option RoomErr
  pub reply : Reply
  pub pushes : List Push

abbrev pub replies : Reply → List Push → Response
replies reply pushes = record { ret = none; reply = reply; pushes = pushes }

abbrev pub fails : RoomErr → Reply → Response
fails e reply = record { ret = some e; reply = reply; pushes = [] }

abbrev respond {ℓ} : {A : Type ℓ} → (A → Response) → Result A → Response
respond f (ok a) = f a
respond f (err (room_error e)) = fails e empty
respond f (err lock_timeout) = fails create_room_fail empty
respond f (err bus_error) = fails create_room_fail empty

-- What the survivors, or all members of a dismissed room, are told.
unfoldable pub tell_left : ℕ → ℕ → Left → List Push
tell_left account reason left =
    if left.dismissed
    then broadcast left.members account (dismiss_message left.room account reason)
    else broadcast left.room.members account (leave_message left.room left.leaver)

abbrev pub dismiss_normal : ℕ
dismiss_normal = 1

abbrev pub dismiss_offline : ℕ
dismiss_offline = 2

abbrev left_response : ℕ → Result (Option Left) → Response
left_response account (ok none) = fails not_in_room empty
left_response account (ok (some left)) = replies empty (tell_left account dismiss_normal left)
left_response account (err f) = replies nothing []

abbrev disconnect_pushes : ℕ → Result (Option Left) → List Push
disconnect_pushes account (ok none) = []
disconnect_pushes account (ok (some left)) = tell_left account dismiss_offline left
disconnect_pushes account (err f) = []

abbrev info_response : Result (Option Room) → Response
info_response (ok none) = fails no_room empty
info_response (ok (some room)) = replies (info (to_room_info room)) []
info_response (err f) = replies nothing []

abbrev count_down_response : Account → ℕ → Result (Option Room) → Response
count_down_response account seconds (ok none) = fails no_room nothing
count_down_response account seconds (ok (some room)) =
    if room.owner == account.uid
    then replies nothing (broadcast room.members 0 (count_down_ntf seconds))
    else fails not_owner nothing
count_down_response account seconds (err f) = replies nothing []

abbrev found_id : Result ℕ → ℕ
found_id (ok id) = id
found_id (err f) = 0

module _ ⦃redis : Redis⦄ where
  -- A RoomError goes to the client as its code, any other error as CREATEROOMFAIL.
  unfoldable pub run_op {ℓ} : {A : Type ℓ} → Exec A → (A → Response) → Store → Response × Store
  run_op m f s = let (r, t) = m s in (respond f r, t)

  unfoldable pub on_create :
      (String → String) → Env → Account → CreateReq → Store → Response × Store
  unfolding run_op
  on_create room_title env account req =
      run_op (create room_title env account req) λ room. replies (info (to_room_info room)) []

  unfoldable pub on_list : Env → Store → Response × Store
  unfolding run_op
  on_list env = run_op (list env) λ rooms. replies (room_list rooms) []

  unfoldable pub on_join : Env → Account → JoinReq → Store → Response × Store
  unfolding run_op
  on_join env account req =
      run_op (join env account req)
        λ (room, joiner). replies nothing (broadcast room.members 0 (join_message room joiner))

  unfoldable pub on_kick : Env → Account → ℕ → ℕ → Store → Response × Store
  unfolding run_op
  on_kick env account room_id target_id =
      run_op (kick env account.uid room_id target_id) λ (room, target).
        let message = kick_message room target in
        replies nothing (
          record { target = target.account_id; message = message }
          ∷ broadcast room.members 0 message)

  unfoldable pub on_change : Env → Account → ChangeReq → Store → Response × Store
  unfolding run_op
  on_change env account req =
      run_op (change env account req)
        λ room. replies nothing (broadcast room.members 0 (change_ntf (to_room_info room)))

  unfoldable pub on_set_ready : Env → Account → Bool → Store → Response × Store
  unfolding run_op
  on_set_ready env account ready =
      run_op (set_ready env account ready)
        λ room. replies nothing (broadcast room.members 0 (set_ready_message room))

  unfoldable pub on_switch_seat : Env → Account → SwitchSeatReq → Store → Response × Store
  unfolding run_op
  on_switch_seat env account req =
      run_op (switch_seat env account req)
        λ room. replies empty (broadcast room.members 0 (switch_seat_ntf (to_room_info room)))

  -- RoomLeave is not under `runOp`: an error ends in the gateway's log, with no response.
  unfoldable pub on_leave : Env → Account → Store → Response × Store
  on_leave env account s = let (r, t) = leave env account.uid s in (left_response account.uid r, t)

  unfoldable pub handle_disconnect : Env → ℕ → Store → List Push × Store
  handle_disconnect env account s =
      let (r, t) = leave env account s in (disconnect_pushes account r, t)

  unfoldable pub on_room_info : Env → ℕ → Store → Response × Store
  on_room_info env room_id s = let (r, t) = reenter env room_id s in (info_response r, t)

  -- RoomCountDown: the room of the request, or the caller's.
  unfoldable pub on_count_down : Env → Account → ℕ → ℕ → Store → Response × Store
  on_count_down env account room_id seconds s =
      let id = or_else room_id (found_id (room_id_of env account.uid s).0) in
      (count_down_response account seconds (get env id s).0, s)
