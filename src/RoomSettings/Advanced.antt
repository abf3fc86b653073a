-- ===== src/RoomSettings/Advanced.antt =====
-- `decodeAdvanced` and `resolveSlotKind` of src/tcp/csadvanced.js. The rows of the CSV tables, which
-- are read when the module loads, are arguments.
pub mod Blob
pub mod Offers
pub mod EventValues
use free_fire.Prelude.{
  ℕ, zero, suc, ◌+◌, ◌*◌, ◌^◌, Bool, true, false, ◌||◌, Option, none, some, List, [], ◌∷◌, ◌++◌,
  if◌then◌else◌, ◌==◌, ltb, any, length,
}
use mathlib.Core.Option

pub data SlotKind : Type 0 where
  secondary primary melee vest helmet consumable building grenade : SlotKind

-- QUARANTINE
abbrev quarantine : List ℕ
quarantine = 23 ∷ 37 ∷ 100 ∷ 537 ∷ 38 ∷ 607 ∷ 1006 ∷ 1202 ∷ 1401 ∷ 1601 ∷ 1602 ∷ 2102 ∷ 2401 ∷ []

abbrev weapon_slot : ℕ → Option SlotKind
weapon_slot ammo =
    if ammo == 202
    then some secondary
    else if ammo == 201 || ammo == 203 || ammo == 204 || ammo == 205
    then some primary
    else if ammo == 0
    then some melee
    else none

abbrev armour_slot : ℕ → Option SlotKind
armour_slot item_type =
    if item_type == 4
    then some vest
    else if item_type == 2
    then some helmet
    else if item_type == 1
    then some consumable
    else none

abbrev throwable_slot : ℕ → ℕ → Option SlotKind
throwable_slot item_id item_type =
    if item_id == 709
    then some consumable
    else if item_id == 1201
    then some building
    else if item_type == 8
    then some grenade
    else none

unfoldable pub resolve_slot_kind : ℕ → ℕ → ℕ → ℕ → Option SlotKind
resolve_slot_kind item_id ammo filter item_type =
    if any (λ q. q == item_id) quarantine
    then none
    else if filter == 1
    then weapon_slot ammo
    else if filter == 2
    then armour_slot item_type
    else if filter == 4
    then throwable_slot item_id item_type
    else none

-- A row of RoomCreate_CSShop.csv
pub record ShopRow : Type 0 where
  pub item_id : ℕ
  pub ammo : ℕ
  pub filter : ℕ
  pub limitation : ℕ
  pub bonus : Bool

-- ECO_EVENT_KEY
pub data EventName : Type 0 where
  win_round per_kill loss_round loss_streak2 loss_streak3 first_blood : EventName

-- A row of RoomCreate_CSEco.csv
pub record EcoRow : Type 0 where
  pub name : EventName
  pub min : ℕ
  pub step : ℕ

pub record Tables : Type 0 where
  pub shop_by_index : ℕ → Option ShopRow
  pub item_type : ℕ → ℕ
  pub eco_step : ℕ → Option EcoRow

pub record ShopItem : Type 0 where
  pub item_id : ℕ
  pub price : ℕ
  pub filter : ℕ
  pub limitation : ℕ
  pub bonus : Bool
  pub ammo : ℕ
  pub slot_kind : SlotKind

abbrev pub shop_cost_interval : ℕ
shop_cost_interval = 50

-- What an entry of the store section gives: an item of the shop, or what goes into `dropped`.
pub data Offer : Type 0 where
  item : ShopItem → Offer
  dropped : ℕ → Offer

abbrev pub placed_offer : ShopRow → ℕ → Option SlotKind → Offer
placed_offer row step none = dropped row.item_id
placed_offer row step (some kind) = item (record {
  item_id = row.item_id;
  price = step * shop_cost_interval;
  filter = row.filter;
  limitation = row.limitation;
  bonus = row.bonus;
  ammo = row.ammo;
  slot_kind = kind;
})

abbrev pub row_offer : Tables → ℕ → ℕ → Option ShopRow → Offer
row_offer t idx step none = dropped idx
row_offer t idx step (some row) =
    placed_offer row step
      (resolve_slot_kind row.item_id row.ammo row.filter (t.item_type row.item_id))

unfoldable pub offer : Tables → ℕ × ℕ → Offer
offer t (idx, step) = row_offer t idx step (t.shop_by_index idx)

-- `count` entries of two bytes each; `none` is the RangeError past the end.
unfoldable pub read_pairs : ℕ → List ℕ → Option (List (ℕ × ℕ) × List ℕ)
read_pairs zero bytes = some ([], bytes)
read_pairs (suc n) (a ∷ b ∷ bytes) = Option.map (λ r. ((a, b) ∷ r.0, r.1)) (read_pairs n bytes)
read_pairs (suc n) _ = none

-- `Math.max(0, i32())` of four bytes, the lowest first
abbrev pub read_coin : ℕ → ℕ → ℕ → ℕ → ℕ
read_coin a b c d =
    let bits = a + 256 * (b + 256 * (c + 256 * d)) in if ltb bits (2 ^ 31) then bits else 0

unfoldable pub read_coins : ℕ → List ℕ → Option (List ℕ)
read_coins zero bytes = some []
read_coins (suc n) (a ∷ b ∷ c ∷ d ∷ bytes) =
    Option.map (λ r. read_coin a b c d ∷ r) (read_coins n bytes)
read_coins (suc n) _ = none

-- A section: its count, and that many pairs.
unfoldable pub read_section : List ℕ → Option (List (ℕ × ℕ) × List ℕ)
unfolding read_pairs
read_section [] = none
read_section (count ∷ bytes) = read_pairs count bytes

unfoldable pub read_rounds : List ℕ → Option (ℕ × List ℕ)
unfolding read_coins
read_rounds [] = none
read_rounds (count ∷ bytes) = Option.map (λ coins. (count, coins)) (read_coins count bytes)

abbrev pub event_id : EventName → ℕ
event_id win_round = 152
event_id per_kill = 153
event_id loss_round = 154
event_id loss_streak2 = 155
event_id loss_streak3 = 156
event_id first_blood = 157

-- The object of events, with its keys in the order in which they were first set.
abbrev pub Events : Type 0
Events = List (EventName × ℕ)

unfoldable pub set_event : EventName → ℕ → Events → Events
set_event name v [] = (name, v) ∷ []
set_event name v ((n, w) ∷ es) =
    if event_id n == event_id name then (n, v) ∷ es else (n, w) ∷ set_event name v es

abbrev pub add_event : ℕ → Option EcoRow → Events → Events
add_event step none es = es
add_event step (some row) es = set_event row.name (row.min + step * row.step) es

unfoldable pub read_events : Tables → List (ℕ × ℕ) → Events → Events
read_events t [] es = es
read_events t ((id, step) ∷ ps) es = read_events t ps (add_event step (t.eco_step id) es)

abbrev pub items_of : List Offer → List ShopItem
items_of [] = []
items_of (item i ∷ os) = i ∷ items_of os
items_of (dropped k ∷ os) = items_of os

abbrev pub dropped_of : List Offer → List ℕ
dropped_of [] = []
dropped_of (item i ∷ os) = dropped_of os
dropped_of (dropped k ∷ os) = k ∷ dropped_of os

abbrev pub offers : Tables → List (ℕ × ℕ) → List Offer
offers t [] = []
offers t (p ∷ ps) = offer t p ∷ offers t ps

infixl 10 ◌>>=◌
abbrev ◌>>=◌ {ℓ κ} : {A : Type ℓ} {B : Type κ} → Option A → (A → Option B) → Option B
none >>= f = none
some a >>= f = f a

-- `events` is undefined in the source where it is empty here.
pub record Overlay : Type 0 where
  pub round_count : ℕ
  pub per_round_base : List ℕ
  pub shop_items : List ShopItem
  pub events : Events
  pub dropped : List ℕ

abbrev overlay : Tables → List (ℕ × ℕ) → List (ℕ × ℕ) → ℕ → List ℕ → Overlay
overlay t stores ecos round_count coins = record {
  round_count = round_count;
  per_round_base = coins;
  shop_items = items_of (offers t stores);
  events = read_events t ecos [];
  dropped = dropped_of (offers t stores);
}

unfoldable pub decode_advanced : Tables → List ℕ → Option Overlay
unfolding read_section read_rounds
decode_advanced t buf = if ltb (length buf) 3 then none else (do
  (stores, after_stores) ← read_section buf
  (ecos, after_ecos) ← read_section after_stores
  (round_count, coins) ← read_rounds after_ecos
  some (overlay t stores ecos round_count coins))
