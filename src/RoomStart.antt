-- ===== src/RoomStart.antt =====
-- The start of a room's match (src/tcp/handlers/RoomStart.js), with the prepare token that
-- `buildPrepareToken` of src/tcp/matchmaker.js makes. The signing of a token (src/utils/jwt.js), the
-- account store and the address of the match server are arguments.
pub mod Handoffs
mod Tests
use free_fire.Prelude.{
  ℕ, zero, suc, ◌+◌, String, Bool, true, false, ◌&&◌, not, Option, none, some, List, [], ◌∷◌,
  if◌then◌else◌, ◌==◌, or_else,
}
use mathlib.Core.Option
use free_fire.Account.{Account, account_key}
use free_fire.Redis.{Redis}
use free_fire.Rooms.Record.{Member, Room, or_text}
use free_fire.Rooms.Exec.{Env, Result, ok, err, Failure, Store}
use free_fire.Rooms.Lifecycle.{start_match}
use free_fire.RoomSettings.Simple.{Flags, Settings, decode_room_settings}
use free_fire.RoomSettings.Advanced.{Tables, ShopItem, Events, Overlay, decode_advanced}

-- The payload of the token
pub record Claims : Type 0 where
  pub aid : ℕ
  pub name : String
  pub region : String
  pub role : ℕ
  pub mid : ℕ
  pub team : ℕ
  pub avatar : ℕ
  pub color : ℕ
  pub head : ℕ
  pub banner : ℕ
  pub clothes : List ℕ
  pub slots : List ℕ
  pub emotes : List ℕ
  pub shows : List ℕ

unfoldable pub prepare_claims : Account → ℕ → ℕ → Claims
prepare_claims account match_id team =
    let sel = account.selected_items in
    record {
      aid = account_key account;
      name = or_text account.nickname "Player";
      region = account.region;
      role = account.role;
      mid = match_id;
      team = team;
      avatar = sel.avatar_id;
      color = sel.skin_color;
      head = sel.head_pic;
      banner = sel.banner_id;
      clothes = sel.clothes;
      slots = sel.slots;
      emotes = sel.emotes;
      shows = sel.shows;
    }

-- What goes to the match server under `match:<id>:settings`; `none` for a field that is left out.
pub record Payload : Type 0 where
  pub flags : Flags
  pub max_hp : Option ℕ
  pub room_setting : Option ℕ
  pub room_setting2 : Option ℕ
  pub speed_mul : Option ℕ
  pub jump_mul : Option ℕ
  pub shop_items : Option (List ShopItem)
  pub events : Option Events
  pub round_count : Option ℕ
  pub economy : Option (List ℕ)

abbrev given {ℓ} : {A : Type ℓ} → List A → Option (List A)
given [] = none
given (a ∷ rest) = some (a ∷ rest)

abbrev truthy : ℕ → Option ℕ
truthy n = if n == 0 then none else some n

abbrev or_given {ℓ} : {A : Type ℓ} → Option A → Option A → Option A
or_given none o = o
or_given (some a) o = some a

abbrev advanced_overlay : Tables → Room → Option Overlay
advanced_overlay tables room =
    if room.is_cs_advanced
    then (elim (given room.cs_advanced) [ none ↦ none | some bytes ↦ decode_advanced tables bytes ])
    else none

-- The settings of the simple mode, and over them what the advanced blob gives.
unfoldable pub settings_payload : Settings → Option Overlay → Payload
settings_payload s adv = record {
  flags = s.flags;
  max_hp = Option.bind s.max_hp truthy;
  room_setting = truthy s.room_setting;
  room_setting2 = truthy s.room_setting2;
  speed_mul = Option.bind s.speed_mul truthy;
  jump_mul = Option.bind s.jump_mul truthy;
  shop_items = Option.bind adv (λ a. given a.shop_items);
  events = Option.bind adv (λ a. given a.events);
  round_count =
      Option.bind (or_given (Option.bind adv (λ a. truthy a.round_count)) s.round_count) truthy;
  economy = or_given (Option.bind adv (λ a. given a.per_round_base)) s.economy_table;
}

-- The MatchmakingSussNtf without its constant fields: the secret, `sleep_ms`, the difficulty, and the
-- two flags.
pub record SussNtf : Type 0 where
  pub match_id : ℕ
  pub server_addr : String
  pub prepare_token : String
  pub map_id : ℕ
  pub game_mode : ℕ
  pub group_mode : ℕ
  pub match_mode : ℕ
  pub level_visual_style : ℕ

pub record Handoff : Type 0 where
  pub target : ℕ
  pub suss : SussNtf

abbrev room_match_mode : ℕ
room_match_mode = 3

module _ (sign : Claims → String) (host : Account) (account_of : ℕ → Option Account) where
  -- The caller's own account, which is fresh, or the stored one of another member.
  abbrev pub member_account : ℕ → Option Account
  member_account id = if id == host.uid then some host else account_of id

  abbrev pub suss_of : ℕ → String → Room → Member → Account → SussNtf
  suss_of match_id server_addr room m account = record {
    match_id = match_id;
    server_addr = server_addr;
    prepare_token = sign (prepare_claims account match_id m.group_id);
    map_id = room.map_id;
    game_mode = room.game_mode;
    group_mode = room.group_mode;
    match_mode = room_match_mode;
    level_visual_style = room.level_visual_style;
  }

  -- The loop over the members; one without an id or without an account is skipped.
  unfoldable pub handoffs : ℕ → String → Room → List Member → List Handoff
  handoffs match_id server_addr room [] = []
  handoffs match_id server_addr room (m ∷ ms) =
      let rest = handoffs match_id server_addr room ms in
      if m.account_id == 0 then rest else (elim (member_account m.account_id) [
        | none ↦ rest
        | some account ↦
            record { target = m.account_id; suss = suss_of match_id server_addr room m account }
            ∷ rest
      ])

pub record Started : Type 0 where
  pub match_id : ℕ
  pub payload : Payload
  pub pushes : List Handoff

module _ ⦃redis : Redis⦄ (sign : Claims → String) (tables : Tables)
    (account_of : ℕ → Option Account) (server_addr : String) where
  started : Account → ℕ → Room → Started
  unfolding settings_payload handoffs
  started host match_id room = record {
    match_id = match_id;
    payload =
        settings_payload
          (decode_room_settings room.room_setting room.room_setting2 room.is_cs_advanced)
          (advanced_overlay tables room);
    pushes = handoffs sign host account_of match_id server_addr room room.members;
  }

  -- The handler: the room is started, a match id is drawn from the counter that the matchmaker uses
  -- too, and the members are handed over. On an error no id is drawn.
  unfoldable pub on_start : Env → Account → ℕ → ℕ → Store → Result Started × (ℕ × Store)
  unfolding started
  on_start env host room_id seq s =
      let (r, t) = start_match env host.uid room_id s in
      elim r [
        | ok room ↦ (ok (started host (seq + 1) room), (seq + 1, t))
        | err f ↦ (err f, (seq, t))
      ]
