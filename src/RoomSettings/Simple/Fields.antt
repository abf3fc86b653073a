-- ===== src/RoomSettings/Simple/Fields.antt =====
-- The bit fields do not overlap (src/tcp/roomsettings.js).
use free_fire.Prelude.{ℕ, ◌+◌, ◌*◌, ◌/◌, ◌%◌, ◌^◌, ◌<◌, ◌≡◌, refl, Bool, arith, ◌==◌, if◌then◌else◌}
use free_fire.RoomSettings.Simple.{Indices, Flags, decode_indices, decode_flags, idx_of}

abbrev pub bit : Bool → ℕ
bit b = if b then 1 else 0

-- A client's packing of the two settings.
abbrev pub pack_setting : Indices → Flags → ℕ
pack_setting i f =
    1 * bit f.hide_kill_info
    + 2 * bit f.unlimited_ammo
    + 4 * bit f.no_falling_damage
    + 8 * bit f.no_loadout
    + 16 * bit f.no_airdrop
    + 32 * bit f.no_skill
    + 64 * bit f.no_vehicle
    + 256 * i.player_hp
    + 2048 * i.player_ep
    + 16384 * i.player_speed
    + 131072 * i.drop_list
    + 2097152 * i.player_jump
    + 16777216 * bit f.acc_total_stats
    + 33554432 * i.round_num
    + 134217728 * i.init_coin
    + 536870912 * bit f.no_power_gun
    + 1073741824 * bit f.hide_enemy_cloth

abbrev pub pack_setting2 : Indices → Flags → ℕ
pack_setting2 i f =
    1 * bit f.no_uav
    + 2 * bit f.no_bomb
    + 4 * bit f.replay
    + 8 * bit f.no_zeppelin
    + 16 * bit f.no_hud
    + 32 * bit f.friendly_fire
    + 64 * i.fight_club_round
    + 256 * i.revive
    + 2048 * bit f.in_game_chat
    + 4096 * bit f.shop_flow
    + 8192 * bit f.use_random_map
    + 16384 * bit f.no_aux_aim

-- Every index fits its field.
pub record Fits (i : Indices) : Type 0 where
  pub player_hp : i.player_hp < 8
  pub player_ep : i.player_ep < 8
  pub player_speed : i.player_speed < 8
  pub drop_list : i.drop_list < 16
  pub player_jump : i.player_jump < 8
  pub round_num : i.round_num < 4
  pub init_coin : i.init_coin < 4
  pub fight_club_round : i.fight_club_round < 4
  pub revive : i.revive < 8

bit_eq : (b : Bool) → (bit b == 1) ≡ b
bit_eq b = ground arith

module _ (i : Indices) (f : Flags) (w : Fits i) where
  idx-player_hp : idx_of (pack_setting i f) 8 3 ≡ i.player_hp
  idx-player_hp = ground arith

  idx-player_ep : idx_of (pack_setting i f) 11 3 ≡ i.player_ep
  idx-player_ep = ground arith

  idx-player_speed : idx_of (pack_setting i f) 14 3 ≡ i.player_speed
  idx-player_speed = ground arith

  idx-drop_list : idx_of (pack_setting i f) 17 4 ≡ i.drop_list
  idx-drop_list = ground arith

  idx-player_jump : idx_of (pack_setting i f) 21 3 ≡ i.player_jump
  idx-player_jump = ground arith

  idx-round_num : idx_of (pack_setting i f) 25 2 ≡ i.round_num
  idx-round_num = ground arith

  idx-init_coin : idx_of (pack_setting i f) 27 2 ≡ i.init_coin
  idx-init_coin = ground arith

  bit-hide_kill_info : (pack_setting i f) / 2 ^ 0 % 2 ≡ bit f.hide_kill_info
  bit-hide_kill_info = ground arith

  bit-unlimited_ammo : (pack_setting i f) / 2 ^ 1 % 2 ≡ bit f.unlimited_ammo
  bit-unlimited_ammo = ground arith

  bit-no_falling_damage : (pack_setting i f) / 2 ^ 2 % 2 ≡ bit f.no_falling_damage
  bit-no_falling_damage = ground arith

  bit-no_loadout : (pack_setting i f) / 2 ^ 3 % 2 ≡ bit f.no_loadout
  bit-no_loadout = ground arith

  bit-no_airdrop : (pack_setting i f) / 2 ^ 4 % 2 ≡ bit f.no_airdrop
  bit-no_airdrop = ground arith

  bit-no_skill : (pack_setting i f) / 2 ^ 5 % 2 ≡ bit f.no_skill
  bit-no_skill = ground arith

  bit-no_vehicle : (pack_setting i f) / 2 ^ 6 % 2 ≡ bit f.no_vehicle
  bit-no_vehicle = ground arith

  bit-acc_total_stats : (pack_setting i f) / 2 ^ 24 % 2 ≡ bit f.acc_total_stats
  bit-acc_total_stats = ground arith

  bit-no_power_gun : (pack_setting i f) / 2 ^ 29 % 2 ≡ bit f.no_power_gun
  bit-no_power_gun = ground arith

  bit-hide_enemy_cloth : (pack_setting i f) / 2 ^ 30 % 2 ≡ bit f.hide_enemy_cloth
  bit-hide_enemy_cloth = ground arith

  idx-fight_club_round : idx_of (pack_setting2 i f) 6 2 ≡ i.fight_club_round
  idx-fight_club_round = ground arith

  idx-revive : idx_of (pack_setting2 i f) 8 3 ≡ i.revive
  idx-revive = ground arith

  bit-no_uav : (pack_setting2 i f) / 2 ^ 0 % 2 ≡ bit f.no_uav
  bit-no_uav = ground arith

  bit-no_bomb : (pack_setting2 i f) / 2 ^ 1 % 2 ≡ bit f.no_bomb
  bit-no_bomb = ground arith

  bit-replay : (pack_setting2 i f) / 2 ^ 2 % 2 ≡ bit f.replay
  bit-replay = ground arith

  bit-no_zeppelin : (pack_setting2 i f) / 2 ^ 3 % 2 ≡ bit f.no_zeppelin
  bit-no_zeppelin = ground arith

  bit-no_hud : (pack_setting2 i f) / 2 ^ 4 % 2 ≡ bit f.no_hud
  bit-no_hud = ground arith

  bit-friendly_fire : (pack_setting2 i f) / 2 ^ 5 % 2 ≡ bit f.friendly_fire
  bit-friendly_fire = ground arith

  bit-in_game_chat : (pack_setting2 i f) / 2 ^ 11 % 2 ≡ bit f.in_game_chat
  bit-in_game_chat = ground arith

  bit-shop_flow : (pack_setting2 i f) / 2 ^ 12 % 2 ≡ bit f.shop_flow
  bit-shop_flow = ground arith

  bit-use_random_map : (pack_setting2 i f) / 2 ^ 13 % 2 ≡ bit f.use_random_map
  bit-use_random_map = ground arith

  bit-no_aux_aim : (pack_setting2 i f) / 2 ^ 14 % 2 ≡ bit f.no_aux_aim
  bit-no_aux_aim = ground arith

  -- Decoding what a client packs gives back every index and every flag: no two fields share a bit.
  pub decode-pack_setting :
      (decode_indices (pack_setting i f) (pack_setting2 i f) ≡ i)
      × (decode_flags (pack_setting i f) (pack_setting2 i f) ≡ f)
  unfolding decode_indices decode_flags
  decode-pack_setting = (
    rw
        (
          idx-player_hp, idx-player_ep, idx-player_speed, idx-drop_list, idx-player_jump,
          idx-round_num, idx-init_coin, idx-fight_club_round, idx-revive,
        )
        refl,
    rw
        (
          bit-hide_kill_info,
          bit_eq f.hide_kill_info,
          bit-unlimited_ammo,
          bit_eq f.unlimited_ammo,
          bit-no_falling_damage,
          bit_eq f.no_falling_damage,
          bit-no_loadout,
          bit_eq f.no_loadout,
          bit-no_airdrop,
          bit_eq f.no_airdrop,
          bit-no_skill,
          bit_eq f.no_skill,
          bit-no_vehicle,
          bit_eq f.no_vehicle,
          bit-acc_total_stats,
          bit_eq f.acc_total_stats,
          bit-no_power_gun,
          bit_eq f.no_power_gun,
          bit-hide_enemy_cloth,
          bit_eq f.hide_enemy_cloth,
          bit-no_uav,
          bit_eq f.no_uav,
          bit-no_bomb,
          bit_eq f.no_bomb,
          bit-replay,
          bit_eq f.replay,
          bit-no_zeppelin,
          bit_eq f.no_zeppelin,
          bit-no_hud,
          bit_eq f.no_hud,
          bit-friendly_fire,
          bit_eq f.friendly_fire,
          bit-in_game_chat,
          bit_eq f.in_game_chat,
          bit-shop_flow,
          bit_eq f.shop_flow,
          bit-use_random_map,
          bit_eq f.use_random_map,
          bit-no_aux_aim,
          bit_eq f.no_aux_aim,
        )
        refl,
  )
