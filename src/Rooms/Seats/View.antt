-- ===== src/Rooms/Seats/View.antt =====
-- The seats of `toRoomInfo` in src/tcp/rooms.js: where each member's panel stands.
use free_fire.Prelude.{
  ℕ, zero, suc, ◌<◌, ◌≡◌, refl, ◌∙◌, true, false, Option, none, some, Bool-cases, inl, inr, List,
  [], ◌∷◌, length, any, find, set, get_elem?, replicate, All, arith, get_elem?-set,
  get_elem?-replicate, find-none, length-set, length-replicate,
}
use free_fire.Rooms.Record.{Member, Room, player_info}
use free_fire.Rooms.Seats.{
  team_of, in_team, sits_at, Seat, empty, player, place, place_all, group_seats, per_team_cap,
}
use free_fire.Rooms.Invariant.{Apart, IsPlaced, IsSeated}

module _ (map_id g : ℕ) where
  -- The seats of the members that are still to be placed are empty.
  abbrev Vacant : List Seat → List Member → Type 0
  Vacant seats = All (λ m. in_team g m ≡ true → get_elem? seats m.seat ≡ some (empty g))

  place-own :
      (seats : List Seat) (m : Member)
      → in_team g m ≡ true
      → get_elem? seats m.seat ≡ some (empty g)
      → place map_id g seats m ≡ set seats m.seat (player (player_info m map_id))
  unfolding place
  place-own seats m h e = rw (h, e)

  place-other :
      (seats : List Seat) (m : Member) → in_team g m ≡ false → place map_id g seats m ≡ seats
  unfolding place
  place-other seats m h = rw h

  Vacant-set :
      (seats : List Seat) (k : ℕ) (v : Seat) (ms : List Member)
      → any (sits_at g k) ms ≡ false
      → Vacant seats ms
      → Vacant (set seats k v) ms
  Vacant-set seats k v [] h w = tt
  Vacant-set seats k v (m ∷ ms) h w = (
    λ t. ground (arith, get_elem?-set seats k m.seat v, w.0 t),
    Vacant-set seats k v ms (ground arith) w.1,
  )

  abbrev panel : Option Member → Option Seat → Option Seat
  panel none rest = rest
  panel (some m) rest = some (player (player_info m map_id))

  place_all-view :
      (seats : List Seat) (ms : List Member)
      → Apart ms
      → Vacant seats ms
      → (k : ℕ)
      → get_elem? (place_all map_id g seats ms) k
        ≡ panel (find (sits_at g k) ms) (get_elem? seats k)
  unfolding place_all
  place_all-view seats [] a w k = refl
  place_all-view seats (m ∷ ms) a w k = elim (Bool-cases (in_team g m)) [
    | inl t ↦
        rw
          (
            place-own seats m t (w.0 t),
            place_all-view (set seats m.seat (player (player_info m map_id))) ms a.1
                (Vacant-set seats m.seat _ ms (ground arith) w.1) k,
          )
          (ground (
            arith,
            get_elem?-set seats m.seat k (player (player_info m map_id)),
            w.0 t,
            find-none (sits_at g m.seat) ms,
          ))
    | inr o ↦ rw (place-other seats m o, place_all-view seats ms a.1 w.1 k, o)
  ]

  length-place : (seats : List Seat) (m : Member) → length (place map_id g seats m) ≡ length seats
  unfolding place
  length-place seats m = elim (Bool-cases (in_team g m)) [
    | inl t ↦ rw t (length-set seats _ _)
    | inr o ↦ rw o
  ]

  length-place_all :
      (seats : List Seat) (ms : List Member) → length (place_all map_id g seats ms) ≡ length seats
  unfolding place_all
  length-place_all seats [] = refl
  length-place_all seats (m ∷ ms) =
      length-place_all (place map_id g seats m) ms ∙ length-place seats m

  Vacant-replicate :
      (cap : ℕ) (ms : List Member) → All (IsPlaced cap) ms → Vacant (replicate cap (empty g)) ms
  Vacant-replicate cap [] h = tt
  Vacant-replicate cap (m ∷ ms) h =
      (λ t. get_elem?-replicate cap m.seat (empty g) h.0.2, Vacant-replicate cap ms h.1)

-- What seat `k` of a group shows, given who sits there.
abbrev pub shown : ℕ → ℕ → Option Member → Seat
shown map_id g none = empty g
shown map_id g (some m) = player (player_info m map_id)

panel-empty :
    (map_id g : ℕ) (o : Option Member) → panel map_id g o (some (empty g)) ≡ some (shown map_id g o)
panel-empty map_id g none = refl
panel-empty map_id g (some m) = refl

find-seat :
    (ms : List Member) (i : ℕ) (m : Member)
    → Apart ms
    → get_elem? ms i ≡ some m
    → find (sits_at (team_of m) m.seat) ms ≡ some m
find-seat [] i m a e = cc
find-seat (x ∷ ms) zero m a e = ground arith
find-seat (x ∷ ms) (suc i) m a e =
    ground (arith, find-seat ms i m a.1 e, find-none (sits_at (team_of x) x.seat) ms)

-- In a well-formed room the seats of a group are as many as the team's capacity, seat `k` is the
-- panel of the member of the team that sits there, or the empty placeholder if nobody does, and so
-- the panel of every member stands at its own seat in its own team's group.
pub group_seats-view :
    (room : Room)
    → IsSeated room
    → let cap = per_team_cap room.max_member_num in
      ((g : ℕ) → length (group_seats room g) ≡ cap)
      × ((g k : ℕ)
          → k < cap
          → get_elem? (group_seats room g) k
            ≡ some (shown room.map_id g (find (sits_at g k) room.members)))
      × ((i : ℕ) (m : Member)
          → get_elem? room.members i ≡ some m
          → get_elem? (group_seats room (team_of m)) m.seat
            ≡ some (player (player_info m room.map_id)))
unfolding group_seats
group_seats-view room v = (
  λ g.
      length-place_all room.map_id g (replicate cap (empty g)) room.members
      ∙ length-replicate cap (empty g),
  λ g k h.
      rw
        (
          place_all-view room.map_id g (replicate cap (empty g)) room.members v.apart
              (Vacant-replicate room.map_id g cap room.members v.placed) k,
          get_elem?-replicate cap k (empty g) h,
        )
        (panel-empty room.map_id g (find (sits_at g k) room.members)),
  λ i m e. rw (
    place_all-view room.map_id (team_of m) (replicate cap (empty (team_of m))) room.members v.apart
        (Vacant-replicate room.map_id (team_of m) cap room.members v.placed) m.seat,
    find-seat room.members i m v.apart e,
  ),
)
  where
    cap : ℕ
    cap = per_team_cap room.max_member_num
