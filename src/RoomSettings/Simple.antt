-- ===== src/RoomSettings/Simple.antt =====
-- `decodeRoomSettings` of src/tcp/roomsettings.js. Multipliers of speed and jump are in hundredths.
-- The two settings are unsigned 32-bit fields of the request.
pub mod Fields
use free_fire.Prelude.{
  ℕ, zero, suc, ◌/◌, ◌%◌, ◌^◌, Bool, true, false, not, Option, none, some, List, [], ◌∷◌,
  if◌then◌else◌, ◌==◌,
}

-- `(v >>> start) & ((1 << width) - 1)`
abbrev pub idx_of : ℕ → ℕ → ℕ → ℕ
idx_of v start width = v / 2 ^ start % 2 ^ width

-- `(v & mask) !== 0` for the mask of one bit
abbrev pub has_flag : ℕ → ℕ → Bool
has_flag v bit = v / 2 ^ bit % 2 == 1

pub record Indices : Type 0 where
  pub player_hp : ℕ
  pub player_ep : ℕ
  pub player_speed : ℕ
  pub drop_list : ℕ
  pub player_jump : ℕ
  pub round_num : ℕ
  pub init_coin : ℕ
  pub fight_club_round : ℕ
  pub revive : ℕ

unfoldable pub decode_indices : ℕ → ℕ → Indices
decode_indices rs rs2 = record {
  player_hp = idx_of rs 8 3;
  player_ep = idx_of rs 11 3;
  player_speed = idx_of rs 14 3;
  drop_list = idx_of rs 17 4;
  player_jump = idx_of rs 21 3;
  round_num = idx_of rs 25 2;
  init_coin = idx_of rs 27 2;
  fight_club_round = idx_of rs2 6 2;
  revive = idx_of rs2 8 3;
}

pub record Flags : Type 0 where
  pub hide_kill_info : Bool
  pub unlimited_ammo : Bool
  pub no_falling_damage : Bool
  pub no_loadout : Bool
  pub no_airdrop : Bool
  pub no_skill : Bool
  pub no_vehicle : Bool
  pub acc_total_stats : Bool
  pub no_power_gun : Bool
  pub hide_enemy_cloth : Bool
  pub no_uav : Bool
  pub no_bomb : Bool
  pub replay : Bool
  pub no_zeppelin : Bool
  pub no_hud : Bool
  pub friendly_fire : Bool
  pub in_game_chat : Bool
  pub shop_flow : Bool
  pub use_random_map : Bool
  pub no_aux_aim : Bool

unfoldable pub decode_flags : ℕ → ℕ → Flags
decode_flags rs rs2 = record {
  hide_kill_info = has_flag rs 0;
  unlimited_ammo = has_flag rs 1;
  no_falling_damage = has_flag rs 2;
  no_loadout = has_flag rs 3;
  no_airdrop = has_flag rs 4;
  no_skill = has_flag rs 5;
  no_vehicle = has_flag rs 6;
  acc_total_stats = has_flag rs 24;
  no_power_gun = has_flag rs 29;
  hide_enemy_cloth = has_flag rs 30;
  no_uav = has_flag rs2 0;
  no_bomb = has_flag rs2 1;
  replay = has_flag rs2 2;
  no_zeppelin = has_flag rs2 3;
  no_hud = has_flag rs2 4;
  friendly_fire = has_flag rs2 5;
  in_game_chat = has_flag rs2 11;
  shop_flow = has_flag rs2 12;
  use_random_map = has_flag rs2 13;
  no_aux_aim = has_flag rs2 14;
}

abbrev lookup_table {ℓ} : {A : Type ℓ} → List (ℕ × A) → ℕ → Option A
lookup_table [] v = none
lookup_table ((k, a) ∷ table) v = if k == v then some a else lookup_table table v

-- `v ? table[v] : undefined`
abbrev resolve {ℓ} : {A : Type ℓ} → List (ℕ × A) → ℕ → Option A
resolve table v = if v == 0 then none else lookup_table table v

abbrev round_num_table : List (ℕ × ℕ)
round_num_table = (1, 7) ∷ (2, 13) ∷ (3, 11) ∷ (4, 5) ∷ (5, 3) ∷ []

abbrev init_coin_table : List (ℕ × List ℕ)
init_coin_table =
    (1, 500 ∷ 900 ∷ 1100 ∷ 1700 ∷ 2100 ∷ 2400 ∷ 3000 ∷ [])
    ∷ (2, 1500 ∷ 1700 ∷ 1900 ∷ 2100 ∷ 2300 ∷ 2500 ∷ 2700 ∷ [])
    ∷ []

abbrev player_hp_table : List (ℕ × ℕ)
player_hp_table = (1, 200) ∷ (2, 500) ∷ (3, 50) ∷ (4, 1) ∷ []

abbrev player_ep_table : List (ℕ × ℕ)
player_ep_table = (1, 0) ∷ (2, 50) ∷ (3, 200) ∷ []

abbrev player_speed_table : List (ℕ × ℕ)
player_speed_table = (1, 100) ∷ (2, 50) ∷ (3, 125) ∷ (4, 200) ∷ []

abbrev player_jump_table : List (ℕ × ℕ)
player_jump_table = (1, 100) ∷ (2, 200) ∷ (3, 400) ∷ []

-- Whether there is a revive point and whether there is a revive card
abbrev revive_table : List (ℕ × (Bool × Bool))
revive_table =
    (1, (true, true)) ∷ (2, (true, false)) ∷ (3, (false, true)) ∷ (4, (false, false)) ∷ []

pub record Settings : Type 0 where
  pub flags : Flags
  pub indices : Indices
  pub room_setting : ℕ
  pub room_setting2 : ℕ
  pub round_count : Option ℕ
  pub max_hp : Option ℕ
  pub max_ep : Option ℕ
  pub speed_mul : Option ℕ
  pub jump_mul : Option ℕ
  pub economy_table : Option (List ℕ)
  pub revive : Option (Bool × Bool)
  pub is_cs_advanced : Bool

-- `>>> 0` is the value modulo 2^32.
unfoldable pub decode_room_settings : ℕ → ℕ → Bool → Settings
unfolding decode_indices decode_flags
decode_room_settings rs rs2 is_cs_advanced =
    let i = decode_indices rs rs2 in
    record {
      flags = decode_flags rs rs2;
      indices = i;
      room_setting = rs % 2 ^ 32;
      room_setting2 = rs2 % 2 ^ 32;
      round_count = resolve round_num_table i.round_num;
      max_hp = resolve player_hp_table i.player_hp;
      max_ep = resolve player_ep_table i.player_ep;
      speed_mul = resolve player_speed_table i.player_speed;
      jump_mul = resolve player_jump_table i.player_jump;
      economy_table = resolve init_coin_table i.init_coin;
      revive = resolve revive_table i.revive;
      is_cs_advanced = is_cs_advanced;
    }
