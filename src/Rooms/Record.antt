-- ===== src/Rooms/Record.antt =====
-- The room record of src/tcp/rooms.js and its projections onto the client's messages.
-- A record of the `rooms` hash is kept decoded, and the base64 text of `cs_advanced_b64` as the
-- bytes that it encodes, so the text is empty exactly when the list is.
use free_fire.Prelude.{
  ℕ, String, str_eq, Bool, true, false, List, [], ◌∷◌, if◌then◌else◌, ◌==◌, or_else, length, not,
}
use free_fire.Account.{Account, account_key}

-- ECustomRoom.ErrCode, as far as the room operations use it
pub data RoomErr : Type 0 where
  cannot_create_room create_room_fail no_room room_in_game invalid_code already_in_room : RoomErr
  reach_max_members not_owner cannot_kick not_in_room cannot_switch_seat seat_occupied : RoomErr

-- ROOM_STATE
pub data RoomState : Type 0 where
  waiting starting in_game : RoomState

abbrev pub is_waiting : RoomState → Bool
is_waiting waiting = true
is_waiting starting = false
is_waiting in_game = false

abbrev pub is_in_game : RoomState → Bool
is_in_game waiting = false
is_in_game starting = false
is_in_game in_game = true

abbrev pub role_member : ℕ
role_member = 1

abbrev pub default_max_members : ℕ
default_max_members = 8

abbrev pub num_teams : ℕ
num_teams = 2

pub record Member : Type 0 where
  pub account_id : ℕ
  pub account_role : ℕ
  pub nickname : String
  pub head_pic : ℕ
  pub banner_id : ℕ
  pub role : ℕ
  pub group_id : ℕ
  pub seat : ℕ
  pub ready : Bool
  pub rank : ℕ
  pub cs_rank : ℕ

pub record Room : Type 0 where
  pub id : ℕ
  pub name : String
  pub owner : ℕ
  pub code : String
  pub map_id : ℕ
  pub game_mode : ℕ
  pub group_mode : ℕ
  pub max_member_num : ℕ
  pub max_spectator_num : ℕ
  pub state : RoomState
  pub room_type : ℕ
  pub enable_death_spectate : Bool
  pub level_visual_style : ℕ
  pub room_setting : ℕ
  pub room_setting2 : ℕ
  pub is_cs_advanced : Bool
  pub cs_advanced : List ℕ
  pub members : List Member
  pub created_at : ℕ

-- `s || fallback` on strings
abbrev pub or_text : String → String → String
or_text s fallback = if str_eq s "" then fallback else s

unfoldable pub member_from_account : Account → ℕ → ℕ → ℕ → Member
member_from_account account group seat role = record {
  account_id = account_key account;
  account_role = account.role;
  nickname = or_text account.nickname "Player";
  head_pic = account.selected_items.head_pic;
  banner_id = account.selected_items.banner_id;
  role = role;
  group_id = group;
  seat = seat;
  ready = false;
  rank = account.rank;
  cs_rank = account.cs_rank;
}

pub record PlayerInfo : Type 0 where
  pub group_id : ℕ
  pub account_id : ℕ
  pub nickname : String
  pub head_pic : ℕ
  pub banner_id : ℕ
  pub ready : Bool
  pub role : ℕ
  pub pin_id : ℕ
  pub rank : ℕ
  pub ranking_points : ℕ
  pub cs_rank : ℕ
  pub cs_ranking_points : ℕ
  pub available_maps : List ℕ

-- A member has no `pin_id` of its own. A call without `mapId` is a call with 0.
unfoldable pub player_info : Member → ℕ → PlayerInfo
player_info m map_id = record {
  group_id = m.group_id;
  account_id = m.account_id;
  nickname = m.nickname;
  head_pic = m.head_pic;
  banner_id = m.banner_id;
  ready = true;
  role = if m.account_role == 100 then 100 else or_else m.role role_member;
  pin_id = if m.account_role == 100 then 100 else 0;
  rank = m.rank;
  ranking_points = 0;
  cs_rank = m.cs_rank;
  cs_ranking_points = 0;
  available_maps = if map_id == 0 then [] else map_id ∷ [];
}

pub record BasicInfo : Type 0 where
  pub id : ℕ
  pub name : String
  pub map_id : ℕ
  pub game_mode : ℕ
  pub group_mode : ℕ
  pub cur_member_num : ℕ
  pub max_member_num : ℕ
  pub cur_spectator_num : ℕ
  pub max_spectator_num : ℕ
  pub state : RoomState
  pub need_code : Bool
  pub room_type : ℕ
  pub level_visual_style : ℕ
  pub is_cs_advanced : Bool
  pub room_setting : ℕ

unfoldable pub to_basic_info : Room → BasicInfo
to_basic_info room = record {
  id = room.id;
  name = room.name;
  map_id = room.map_id;
  game_mode = room.game_mode;
  group_mode = room.group_mode;
  cur_member_num = length room.members;
  max_member_num = room.max_member_num;
  cur_spectator_num = 0;
  max_spectator_num = room.max_spectator_num;
  state = room.state;
  need_code = not (str_eq room.code "");
  room_type = room.room_type;
  level_visual_style = room.level_visual_style;
  is_cs_advanced = room.is_cs_advanced;
  room_setting = room.room_setting;
}
