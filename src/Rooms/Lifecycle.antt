-- ===== src/Rooms/Lifecycle.antt =====
-- `create`, `list`, `leave`, `startMatch`, `reenter`, `get` and `roomIdOf` of src/tcp/rooms.js.
-- The part of an operation that runs under the room's lease is a definition of its own.
use free_fire.Prelude.{
  ℕ, String, Bool, true, false, not, ◌||◌, Option, none, some, List, [], ◌∷◌, find, if◌then◌else◌,
  ◌==◌, leb, or_else, length,
}
use free_fire.Redis.{Hash, hget, hdel}
use free_fire.Account.{Account, account_key}
use free_fire.Rooms.Record.{
  cannot_create_room, no_room, room_in_game, already_in_room, not_owner, waiting, in_game,
  is_waiting, is_in_game, role_member, default_max_members, Member, Room, or_text,
  member_from_account, BasicInfo, to_basic_info,
}
use free_fire.Rooms.Exec.{
  Env, ok, Exec, pure, require, ◌>>=◌, ◌>>◌, load_room, room_of, save_room, delete_room, set_member,
  del_member, next_id, with_room_lock, existing,
}
use free_fire.Redis.{Redis, hgetall}

pub record CreateReq : Type 0 where
  pub room_name : String
  pub code : String
  pub map_id : ℕ
  pub game_mode : ℕ
  pub group_mode : ℕ
  pub max_member_num : ℕ
  pub max_spectator_num : ℕ
  pub room_type : ℕ
  pub enable_death_spectate : Bool
  pub level_visual_style : ℕ
  pub room_setting : ℕ
  pub room_setting2 : ℕ
  pub is_cs_advanced : Bool
  pub cs_advanced_setting : List ℕ

-- `${nickname || 'Player'}'s room` is a text of the account: a parameter, as texts are opaque here.
unfoldable pub new_room : (String → String) → Env → Account → CreateReq → ℕ → Room
new_room room_title env account req id = record {
  id = id;
  name = or_text req.room_name (room_title (or_text account.nickname "Player"));
  owner = account_key account;
  code = req.code;
  map_id = req.map_id;
  game_mode = req.game_mode;
  group_mode = req.group_mode;
  max_member_num = or_else req.max_member_num default_max_members;
  max_spectator_num = req.max_spectator_num;
  state = waiting;
  room_type = req.room_type;
  enable_death_spectate = req.enable_death_spectate;
  level_visual_style = req.level_visual_style;
  room_setting = req.room_setting;
  room_setting2 = req.room_setting2;
  is_cs_advanced = req.is_cs_advanced;
  cs_advanced = req.cs_advanced_setting;
  members = member_from_account account 1 0 role_member ∷ [];
  created_at = env.now;
}

abbrev pub listed_rooms : List (ℕ × Room) → List BasicInfo
listed_rooms [] = []
listed_rooms ((id, room) ∷ h) =
    if is_waiting room.state then to_basic_info room ∷ listed_rooms h else listed_rooms h

abbrev pub is_account : ℕ → Member → Bool
is_account account m = m.account_id == account

-- `findIndex` and `splice`: without the first member of that account
unfoldable pub remove_member : ℕ → List Member → List Member
remove_member account [] = []
remove_member account (m ∷ ms) = if is_account account m then ms else m ∷ remove_member account ms

-- `leaver` is none if the account was no member; `members` is the list before the operation.
pub record Left : Type 0 where
  pub room : Room
  pub leaver : Option Member
  pub dismissed : Bool
  pub members : List Member

module _ ⦃redis : Redis⦄ where
  -- `if (await bus.hget(MEMBERS_KEY, id))`: a text that is there is a room id, and not empty.
  unfoldable pub create : (String → String) → Env → Account → CreateReq → Exec Room
  create room_title env account req = do
    require env.bus_up cannot_create_room
    listed ← (λ s. (ok (hget s.members (account_key account)), s))
    require (elim listed [ none ↦ true | some id ↦ false ]) already_in_room
    id ← next_id
    let room = new_room room_title env account req id
    save_room room
    set_member (account_key account) id
    pure room

  unfoldable pub list : Env → Exec (List BasicInfo)
  unfolding to_basic_info
  list env s = (ok (if env.bus_up then listed_rooms (hgetall s.rooms) else []), s)

  -- HDEL of every member but the leaver
  unfoldable pub del_others : ℕ → List Member → Hash ℕ → Hash ℕ
  del_others account [] h = h
  del_others account (m ∷ ms) h =
      del_others account ms (if is_account account m then h else hdel h m.account_id)

  dismiss : ℕ → Room → Option Member → Exec (Option Left)
  unfolding del_others
  dismiss account room leaver = do
    delete_room room.id
    (λ s. (ok tt, record s { members = del_others account room.members s.members }))
    pure (some (record { room = room; leaver = leaver; dismissed = true; members = room.members }))

  drop_out : ℕ → Room → Option Member → Exec (Option Left)
  unfolding remove_member
  drop_out account room leaver = do
    let room' : Room = record room { members = remove_member account room.members }
    save_room room'
    pure (
        some (record { room = room'; leaver = leaver; dismissed = false; members = room'.members }))

  leave_room : ℕ → Option Room → Exec (Option Left)
  unfolding dismiss drop_out
  leave_room account none = pure none
  leave_room account (some room) =
      let leaver = find (is_account account) room.members in
      if room.owner == account || leb (length room.members) 1
      then dismiss account room leaver
      else drop_out account room leaver

  unfoldable pub leave_locked : ℕ → ℕ → Exec (Option Left)
  unfolding leave_room
  leave_locked account room_id = do
    found ← load_room room_id
    del_member account
    leave_room account found

  unfoldable pub leave : Env → ℕ → Exec (Option Left)
  leave env account = if not env.bus_up then pure none else do
    room_id ← room_of account
    if room_id == 0 then pure none else with_room_lock env (leave_locked account room_id)

  unfoldable pub start_locked : ℕ → ℕ → Exec Room
  unfolding existing
  start_locked owner room_id = do
    room ← existing room_id no_room
    require (room.owner == owner) not_owner
    require (is_waiting room.state) room_in_game
    let room' : Room = record room { state = in_game }
    save_room room'
    pure room'

  unfoldable pub start_match : Env → ℕ → ℕ → Exec Room
  start_match env owner room_id = do
    require env.bus_up no_room
    with_room_lock env (start_locked owner room_id)

  reopen : Option Room → Exec (Option Room)
  reopen none = pure none
  reopen (some room) =
      if is_in_game room.state
      then (do
        let room' : Room = record room { state = waiting }
        save_room room'
        pure (some room'))
      else pure (some room)

  unfoldable pub reenter_locked : ℕ → Exec (Option Room)
  unfolding reopen
  reenter_locked room_id = do found ← load_room room_id; reopen found

  unfoldable pub reenter : Env → ℕ → Exec (Option Room)
  reenter env room_id =
      if not env.bus_up then pure none else with_room_lock env (reenter_locked room_id)

  unfoldable pub get : Env → ℕ → Exec (Option Room)
  get env room_id = if env.bus_up then load_room room_id else pure none

  unfoldable pub room_id_of : Env → ℕ → Exec ℕ
  room_id_of env account = if env.bus_up then room_of account else pure 0
