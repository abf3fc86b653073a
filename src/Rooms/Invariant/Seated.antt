-- ===== src/Rooms/Invariant/Seated.antt =====
-- Seats that stay apart while the members of a room change (src/tcp/rooms.js).
use free_fire.Prelude.{
  ℕ, ◌+◌, ◌≤◌, ◌<◌, ◌≡◌, ◌≢◌, refl, ◌⊎◌, Bool, true, false, not, ◌&&◌, List, [], ◌∷◌, ltb, leb, any,
  length, All, arith, String,
}
use free_fire.Account.{Account}
use free_fire.Rooms.Record.{Member, Room, RoomState, member_from_account}
use free_fire.Rooms.Exec.{Env}
use free_fire.Rooms.Seats.{per_team_cap}
use free_fire.Rooms.Lifecycle.{is_account, remove_member, CreateReq, new_room}
use free_fire.Rooms.Settings.{update_member, move_member, ChangeReq, change_room}
use free_fire.Rooms.Invariant.{IsPlaced, IsSeated}
use free_fire.Rooms.Invariant.Lists.{
  Distinct-remove, Apart-remove, All-remove, length-remove-le, remove-other, any-update,
  Distinct-update, length-update, All-update, Apart-ready, Apart-move, others_at,
}

pub remove-IsSeated :
    (room : Room) (a : ℕ)
    → IsSeated room
    → room.owner ≢ a
    → IsSeated (record room { members = remove_member a room.members })
remove-IsSeated room a v n = record {
  distinct = Distinct-remove a room.members v.distinct;
  apart = Apart-remove a room.members v.apart;
  placed = All-remove a (per_team_cap room.max_member_num) room.members v.placed;
  within = omega (arith, v.within, length-remove-le a room.members);
  owner_in = rw (remove-other a room.owner room.members n) v.owner_in;
}

pub state-IsSeated :
    (room : Room) (st : RoomState) → IsSeated room → IsSeated (record room { state = st })
state-IsSeated room st v = record {
  distinct = v.distinct;
  apart = v.apart;
  placed = v.placed;
  within = v.within;
  owner_in = v.owner_in;
}

pub new_room-IsSeated :
    (room_title : String → String) (env : Env) (account : Account) (req : CreateReq) (id : ℕ)
    → IsSeated (new_room room_title env account req id)
unfolding new_room member_from_account per_team_cap
new_room-IsSeated room_title env account req id = record {
  distinct = (refl, tt);
  apart = (refl, tt);
  placed = (ground arith, tt);
  within = ground arith;
  owner_in = ground arith;
}

pub new_room-id :
    (room_title : String → String) (env : Env) (account : Account) (req : CreateReq) (id : ℕ)
    → (new_room room_title env account req id).id ≡ id
unfolding new_room
new_room-id room_title env account req id = refl

pub ready-IsSeated :
    (room : Room) (a : ℕ) (r : Bool)
    → IsSeated room
    → IsSeated
        (record room { members = update_member a (λ m. record m { ready = r }) room.members })
ready-IsSeated room a r v =
    let f : Member → Member = λ m. record m { ready = r } in
    record {
      distinct = Distinct-update a f (λ m. refl) room.members v.distinct;
      apart = Apart-ready a r room.members v.apart;
      placed =
          All-update a f (λ m. refl) (per_team_cap room.max_member_num) room.members (λ m h. h)
            v.placed;
      within = omega (arith, v.within, length-update a f (λ m. refl) room.members);
      owner_in = rw (any-update a f (λ m. refl) room.owner room.members) v.owner_in;
    }

pub move-IsSeated :
    (room : Room) (a g k : ℕ)
    → IsSeated room
    → 0 < g
    → g ≤ 2
    → k < per_team_cap room.max_member_num
    → others_at a g k room.members ≡ false
    → IsSeated (record room { members = move_member a g k room.members })
unfolding move_member
move-IsSeated room a g k v p q fits alone =
    let f : Member → Member = λ m. record m { group_id = g; seat = k } in
    record {
      distinct = Distinct-update a f (λ m. refl) room.members v.distinct;
      apart = Apart-move a g k p room.members v.distinct v.apart alone;
      placed =
          All-update a f (λ m. refl) (per_team_cap room.max_member_num) room.members
            (λ m h. ground arith) v.placed;
      within = omega (arith, v.within, length-update a f (λ m. refl) room.members);
      owner_in = rw (any-update a f (λ m. refl) room.owner room.members) v.owner_in;
    }

abbrev pub seat_in_range : Room → ℕ → ℕ → Bool
seat_in_range room to_team to_seat =
    leb (to_team + 1) 2 && ltb to_seat (per_team_cap room.max_member_num)

pub seat_in_range_lem :
    (room : Room) (to_team to_seat : ℕ)
    → seat_in_range room to_team to_seat ≡ true
    → (to_team + 1 ≤ 2) × (to_seat < per_team_cap room.max_member_num)
seat_in_range_lem room to_team to_seat h = ground arith

pub not-eq-true : (b : Bool) → not b ≡ true → b ≡ false
not-eq-true b h = ground arith

per_team_cap_mono : (a b : ℕ) → 0 < a → a ≤ b → per_team_cap a ≤ per_team_cap b
unfolding per_team_cap
per_team_cap_mono a b p h = ground arith

IsPlaced-mono : (a b : ℕ) (ms : List Member) → a ≤ b → All (IsPlaced a) ms → All (IsPlaced b) ms
IsPlaced-mono a b [] h k = tt
IsPlaced-mono a b (m ∷ ms) h k = (omega arith, IsPlaced-mono a b ms h k.1)

any-length : (p : Member → Bool) (ms : List Member) → any p ms ≡ true → 0 < length ms
any-length p [] h = cc
any-length p (m ∷ ms) h = omega arith

resize-IsSeated :
    (room : Room) (r : Room)
    → IsSeated room
    → r.members ≡ room.members
    → r.owner ≡ room.owner
    → room.max_member_num ≤ r.max_member_num
    → IsSeated r
resize-IsSeated room r v same owner grows = record {
  distinct = rw same v.distinct;
  apart = rw same v.apart;
  placed = rw same (
      IsPlaced-mono (per_team_cap room.max_member_num) (per_team_cap r.max_member_num) room.members
        (per_team_cap_mono _ _
          (omega (arith, any-length (is_account room.owner) room.members v.owner_in, v.within))
          grows)
        v.placed);
  within = rw same (omega (arith, v.within));
  owner_in = rw (same, owner) v.owner_in;
}

pub change_room-IsSeated :
    (room : Room) (req : ChangeReq)
    → IsSeated room
    → (req.max_member_num ≡ 0) ⊎ (room.max_member_num ≤ req.max_member_num)
    → IsSeated (change_room room req)
unfolding change_room
change_room-IsSeated room req v n =
    resize-IsSeated room (change_room room req) v refl refl (ground arith)

pub change_room-id : (room : Room) (req : ChangeReq) → (change_room room req).id ≡ room.id
unfolding change_room
change_room-id room req = refl
