-- ===== src/RoomSettings/Advanced/Blob.antt =====
-- The blob that a client writes (the comment at the head of src/tcp/csadvanced.js) and what the
-- decoder makes of it.
use free_fire.Prelude.{
  ℕ, ◌/◌, ◌%◌, ◌^◌, ◌<◌, ◌≡◌, refl, some, List, [], ◌∷◌, ◌++◌, arith, length, length-append, All,
}
use free_fire.RoomSettings.Advanced.{
  Tables, decode_advanced, read_pairs, read_coins, read_section, read_rounds, read_events, offers,
  items_of, dropped_of, Overlay, EventName,
}
use free_fire.RoomSettings.Advanced.Offers.{Sorts, offers-Sorts}
use free_fire.RoomSettings.Advanced.EventValues.{value_of, last_said, value_of-last_said}

abbrev pub pair_bytes : List (ℕ × ℕ) → List ℕ
pair_bytes [] = []
pair_bytes ((a, b) ∷ ps) = a ∷ b ∷ pair_bytes ps

abbrev pub coin_bytes : List ℕ → List ℕ
coin_bytes [] = []
coin_bytes (c ∷ cs) = c % 256 ∷ c / 256 % 256 ∷ c / 65536 % 256 ∷ c / 16777216 ∷ coin_bytes cs

-- Store entries, event entries and the coins of the rounds, each behind their count.
abbrev pub encode_advanced : List (ℕ × ℕ) → List (ℕ × ℕ) → List ℕ → List ℕ
encode_advanced stores ecos coins =
    length stores ∷ pair_bytes stores
    ++ (length ecos ∷ pair_bytes ecos ++ (length coins ∷ coin_bytes coins))

read_pairs-bytes :
    (ps : List (ℕ × ℕ)) (more : List ℕ)
    → read_pairs (length ps) (pair_bytes ps ++ more) ≡ some (ps, more)
unfolding read_pairs
read_pairs-bytes [] more = refl
read_pairs-bytes (p ∷ ps) more = rw (read_pairs-bytes ps more) refl

read_coins-bytes :
    (cs : List ℕ) → All (λ c. c < 2 ^ 31) cs → read_coins (length cs) (coin_bytes cs) ≡ some cs
unfolding read_coins
read_coins-bytes [] h = refl
read_coins-bytes (c ∷ cs) h = rw (read_coins-bytes cs h.1) (ground (arith, h.0))

decoded :
    (t : Tables) (stores ecos : List (ℕ × ℕ)) (coins : List ℕ)
    → All (λ c. c < 2 ^ 31) coins
    → decode_advanced t (encode_advanced stores ecos coins)
      ≡ some (record {
        round_count = length coins;
        per_round_base = coins;
        shop_items = items_of (offers t stores);
        events = read_events t ecos [];
        dropped = dropped_of (offers t stores);
      })
unfolding decode_advanced read_section read_rounds
decoded t stores ecos coins h =
    rw
      (
        read_pairs-bytes stores
            (length ecos ∷ pair_bytes ecos ++ (length coins ∷ coin_bytes coins)),
        read_pairs-bytes ecos (length coins ∷ coin_bytes coins),
        read_coins-bytes coins h,
      )
      (ground (
        arith,
        length-append (pair_bytes stores)
            (length ecos ∷ pair_bytes ecos ++ (length coins ∷ coin_bytes coins)),
        length-append (pair_bytes ecos) (length coins ∷ coin_bytes coins),
      ))

-- The blob of a client whose coins are not negative is decoded: the rounds' coins as they were sent, as
-- many rounds, each store entry sorted in order into the items that are sold, at 50 for each step, or
-- those dropped, and each event worth what the last entry that names it says, with no other event.
pub decode_advanced-encode :
    (t : Tables) (stores ecos : List (ℕ × ℕ)) (coins : List ℕ)
    → All (λ c. c < 2 ^ 31) coins
    → (o : Overlay) × (decode_advanced t (encode_advanced stores ecos coins) ≡ some o)
      × (o.round_count ≡ length coins)
      × (o.per_round_base ≡ coins)
      × Sorts t stores o.shop_items o.dropped
      × ((n : EventName) → value_of n o.events ≡ last_said t ecos n)
decode_advanced-encode t stores ecos coins h =
    (_, decoded t stores ecos coins h, refl, refl, offers-Sorts t stores, value_of-last_said t ecos)
