-- ===== src/RoomSettings/Advanced/Offers.antt =====
-- Which store entries become items of the shop (src/tcp/csadvanced.js), against a description of the
-- slots and of the items that are withheld.
use free_fire.Prelude.{
  ℕ, ◌*◌, ◌≤◌, ◌≡◌, ◌≢◌, refl, false, ◌⊎◌, Option, none, some, List, [], ◌∷◌, any, ◌==◌, arith,
  Option-cases, inl, inr,
}
use free_fire.RoomSettings.Advanced.{
  SlotKind, secondary, primary, melee, vest, helmet, consumable, building, grenade,
  resolve_slot_kind, ShopRow, ShopItem, Tables, offer, offers, items_of, dropped_of,
}

-- The items that the match server cannot place.
abbrev pub withheld : List ℕ
withheld = 23 ∷ 37 ∷ 38 ∷ 100 ∷ 537 ∷ 607 ∷ 1006 ∷ 1202 ∷ 1401 ∷ 1601 ∷ 1602 ∷ 2102 ∷ 2401 ∷ []

-- Weapons (filter 1) go by their ammunition, armour (filter 2) by its type, and throwables (filter 4)
-- by their type but for two items.
abbrev pub GoesInto : ShopRow → ℕ → SlotKind → Type 0
GoesInto row type secondary = (row.filter ≡ 1) × (row.ammo ≡ 202)
GoesInto row type primary =
    (row.filter ≡ 1) × ((row.ammo ≡ 201) ⊎ ((203 ≤ row.ammo) × (row.ammo ≤ 205)))
GoesInto row type melee = (row.filter ≡ 1) × (row.ammo ≡ 0)
GoesInto row type vest = (row.filter ≡ 2) × (type ≡ 4)
GoesInto row type helmet = (row.filter ≡ 2) × (type ≡ 2)
GoesInto row type consumable =
    ((row.filter ≡ 2) × (type ≡ 1)) ⊎ ((row.filter ≡ 4) × (row.item_id ≡ 709))
GoesInto row type building = (row.filter ≡ 4) × (row.item_id ≡ 1201)
GoesInto row type grenade =
    (row.filter ≡ 4) × (row.item_id ≢ 709) × (row.item_id ≢ 1201) × (type ≡ 8)

abbrev pub IsSold : Tables → ShopRow → SlotKind → Type 0
IsSold t row kind =
    (any (λ q. q == row.item_id) withheld ≡ false) × GoesInto row (t.item_type row.item_id) kind

slot_of : Tables → ShopRow → Option SlotKind
slot_of t row = resolve_slot_kind row.item_id row.ammo row.filter (t.item_type row.item_id)

slot_of-IsSold :
    (t : Tables) (row : ShopRow) (kind : SlotKind) → slot_of t row ≡ some kind → IsSold t row kind
unfolding slot_of resolve_slot_kind
slot_of-IsSold t row secondary h = (ground arith, ground arith)
slot_of-IsSold t row melee h = (ground arith, ground arith)
slot_of-IsSold t row vest h = (ground arith, ground arith)
slot_of-IsSold t row helmet h = (ground arith, ground arith)
slot_of-IsSold t row building h = (ground arith, ground arith)
slot_of-IsSold t row primary h = (ground arith, ground arith)
slot_of-IsSold t row consumable h = (ground arith, ground arith)
slot_of-IsSold t row grenade h = (ground arith, ground arith)

slot_of-none :
    (t : Tables) (row : ShopRow) (kind : SlotKind) → slot_of t row ≡ none → ¬ IsSold t row kind
unfolding slot_of resolve_slot_kind
slot_of-none t row secondary h s = ground arith
slot_of-none t row primary h s = ground arith
slot_of-none t row melee h s = ground arith
slot_of-none t row vest h s = ground arith
slot_of-none t row helmet h s = ground arith
slot_of-none t row consumable h s = ground arith
slot_of-none t row building h s = ground arith
slot_of-none t row grenade h s = ground arith

-- An item of the shop at `step` steps of 50.
pub record IsItem (row : ShopRow) (step : ℕ) (kind : SlotKind) (i : ShopItem) : Type 0 where
  pub id : i.item_id ≡ row.item_id
  pub price : i.price ≡ step * 50
  pub filter : i.filter ≡ row.filter
  pub limitation : i.limitation ≡ row.limitation
  pub bonus : i.bonus ≡ row.bonus
  pub ammo : i.ammo ≡ row.ammo
  pub slot : i.slot_kind ≡ kind

-- Each store entry, in order, is an item that is sold, an index that the shop does not have, or an
-- item that goes into no slot.
pub data Sorts (t : Tables) : List (ℕ × ℕ) → List ShopItem → List ℕ → Type 0 where
  no_entries : Sorts t [] [] []
  sold :
      (idx step : ℕ) (ps : List (ℕ × ℕ)) (row : ShopRow) (kind : SlotKind) (i : ShopItem)
      (is : List ShopItem) (ds : List ℕ)
      → t.shop_by_index idx ≡ some row
      → IsSold t row kind
      → IsItem row step kind i
      → Sorts t ps is ds
      → Sorts t ((idx, step) ∷ ps) (i ∷ is) ds
  unknown :
      (idx step : ℕ) (ps : List (ℕ × ℕ)) (is : List ShopItem) (ds : List ℕ)
      → t.shop_by_index idx ≡ none
      → Sorts t ps is ds
      → Sorts t ((idx, step) ∷ ps) is (idx ∷ ds)
  unplaced :
      (idx step : ℕ) (ps : List (ℕ × ℕ)) (row : ShopRow) (is : List ShopItem) (ds : List ℕ)
      → t.shop_by_index idx ≡ some row
      → ((kind : SlotKind) → ¬ IsSold t row kind)
      → Sorts t ps is ds
      → Sorts t ((idx, step) ∷ ps) is (row.item_id ∷ ds)

pub offers-Sorts :
    (t : Tables) (ps : List (ℕ × ℕ))
    → Sorts t ps (items_of (offers t ps)) (dropped_of (offers t ps))
unfolding offer slot_of
offers-Sorts t [] = no_entries
offers-Sorts t ((idx, step) ∷ ps) =
    let rest = offers-Sorts t ps in
    elim (Option-cases (t.shop_by_index idx)) [
      | inl e ↦ rw (e, offer) (unknown idx step ps _ _ e rest)
      | inr (row, e) ↦ elim (Option-cases (slot_of t row)) [
        | inl f ↦
            rw (e, f, offer)
              (unplaced idx step ps row _ _ e (λ kind. slot_of-none t row kind f) rest)
        | inr (kind, f) ↦
            rw (e, f, offer)
              (sold idx step ps row kind _ _ _ e (slot_of-IsSold t row kind f)
                (record {
                  id = refl;
                  price = refl;
                  filter = refl;
                  limitation = refl;
                  bonus = refl;
                  ammo = refl;
                  slot = refl;
                })
                rest)
      ]
    ]
