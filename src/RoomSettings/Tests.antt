-- ===== src/RoomSettings/Tests.antt =====
-- Concrete settings of a room.
use free_fire.Prelude.{ℕ, List, ◌≡◌, ◌==◌, true, false, some, [], ◌∷◌, arith}
use free_fire.RoomSettings.Simple.{Indices, Flags}
use free_fire.RoomSettings.Simple.Fields.{Fits}
use free_fire.RoomSettings.Advanced.{Tables, win_round, Overlay, EventName, decode_advanced}
use free_fire.RoomSettings.Advanced.Offers.{Sorts}
use free_fire.RoomSettings.Advanced.EventValues.{value_of, last_said}
use free_fire.RoomSettings.Advanced.Blob.{encode_advanced, decode_advanced-encode}

-- 500 health points, 13 rounds, the lower economy.
abbrev indices : Indices
indices = record {
  player_hp = 2;
  player_ep = 0;
  player_speed = 3;
  drop_list = 9;
  player_jump = 1;
  round_num = 2;
  init_coin = 1;
  fight_club_round = 3;
  revive = 4;
}

abbrev flags : Flags
flags = record {
  hide_kill_info = false;
  unlimited_ammo = true;
  no_falling_damage = false;
  no_loadout = true;
  no_airdrop = false;
  no_skill = false;
  no_vehicle = true;
  acc_total_stats = true;
  no_power_gun = false;
  hide_enemy_cloth = true;
  no_uav = false;
  no_bomb = true;
  replay = false;
  no_zeppelin = false;
  no_hud = true;
  friendly_fire = true;
  in_game_chat = false;
  shop_flow = true;
  use_random_map = false;
  no_aux_aim = true;
}

indices-Fits : Fits indices
indices-Fits = record {
  player_hp = omega arith;
  player_ep = omega arith;
  player_speed = omega arith;
  drop_list = omega arith;
  player_jump = omega arith;
  round_num = omega arith;
  init_coin = omega arith;
  fight_club_round = omega arith;
  revive = omega arith;
}

-- One pistol, one item in quarantine, and one event.
abbrev tables : Tables
tables = record {
  shop_by_index = λ i. (elim (i == 1) [
    | true ↦ some (record { item_id = 5; ammo = 202; filter = 1; limitation = 0; bonus = false })
    | false ↦ some (record { item_id = 1401; ammo = 0; filter = 4; limitation = 0; bonus = false })
  ]);
  item_type = λ i. 0;
  eco_step = λ e. some (record { name = win_round; min = 100; step = 50 });
}

decode_advanced-encode_example :
    let stores : List (ℕ × ℕ) = (1, 4) ∷ (2, 1) ∷ [] in
    let ecos : List (ℕ × ℕ) = (152, 3) ∷ [] in
    (o : Overlay) × (decode_advanced tables (encode_advanced stores ecos (500 ∷ 900 ∷ [])) ≡ some o)
    × (o.round_count ≡ 2)
    × (o.per_round_base ≡ 500 ∷ 900 ∷ [])
    × Sorts tables stores o.shop_items o.dropped
    × ((n : EventName) → value_of n o.events ≡ last_said tables ecos n)
decode_advanced-encode_example =
    decode_advanced-encode tables ((1, 4) ∷ (2, 1) ∷ []) ((152, 3) ∷ []) (500 ∷ 900 ∷ [])
      (omega arith, (omega arith, tt))
