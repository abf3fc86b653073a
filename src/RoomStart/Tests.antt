-- ===== src/RoomStart/Tests.antt =====
-- A concrete start of a match.
use free_fire.Prelude.{
  ℕ, ◌==◌, String, false, Option, none, some, List, [], ◌∷◌, filterb, if◌then◌else◌,
}
use free_fire.Account.{Account}
use free_fire.Rooms.Record.{Member, Room, waiting}
use free_fire.RoomStart.{Claims, handoffs}
use free_fire.RoomStart.Handoffs.{OneForOne, reachable, handoffs-OneForOne}

abbrev account_of : ℕ → Account
account_of uid = record {
  uid = uid;
  account_id = uid;
  open_id = "";
  nickname = "Ana";
  region = "BR";
  role = 0;
  level = 1;
  coins = 0;
  rank = 300;
  cs_rank = 100;
  clan_name = "";
  banned = false;
  selected_items = record {
    avatar_id = 1;
    skin_color = 0;
    head_pic = 5;
    banner_id = 6;
    clothes = [];
    slots = [];
    emotes = [];
    shows = [];
  };
}

abbrev member_of : ℕ → ℕ → Member
member_of id group = record {
  account_id = id;
  account_role = 0;
  nickname = "Ana";
  head_pic = 5;
  banner_id = 6;
  role = 1;
  group_id = group;
  seat = 0;
  ready = false;
  rank = 300;
  cs_rank = 100;
}

-- Account 9 is not in the account store.
abbrev members : List Member
members = member_of 7 1 ∷ member_of 8 2 ∷ member_of 9 1 ∷ []

abbrev stored : ℕ → Option Account
stored id = if id == 8 then some (account_of 8) else none

abbrev room : Room
room = record {
  id = 1;
  name = "room";
  owner = 7;
  code = "";
  map_id = 2;
  game_mode = 15;
  group_mode = 1;
  max_member_num = 4;
  max_spectator_num = 0;
  state = waiting;
  room_type = 1;
  enable_death_spectate = false;
  level_visual_style = 0;
  room_setting = 0;
  room_setting2 = 0;
  is_cs_advanced = false;
  cs_advanced = [];
  members = members;
  created_at = 5;
}

abbrev sign : Claims → String
sign c = c.name

handoffs-OneForOne_example :
    OneForOne sign
      (account_of 7)
      stored
      41
      "10.0.0.1:10100"
      room
      (filterb (reachable sign (account_of 7) stored) members)
      (handoffs sign (account_of 7) stored 41 "10.0.0.1:10100" room members)
handoffs-OneForOne_example =
    handoffs-OneForOne sign (account_of 7) stored 41 "10.0.0.1:10100" room members
