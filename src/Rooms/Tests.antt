-- ===== src/Rooms/Tests.antt =====
-- Concrete rooms: what an owner and a guest do to a store that is kept in lists.
use free_fire.Prelude.{
  ◌-◌, ◌⊎◌, ◌++◌, ◌∷◌, ◌≤◌, ℕ, ◌<◌, ◌≡◌, refl, true, false, none, some, [], any, length, get_elem?,
  find, arith, inl, if◌then◌else◌, ◌==◌,
}
use free_fire.Redis.{hget}
use free_fire.Redis.Lists.{list_redis, lookup, insert}
use free_fire.Account.{Account, account_key}
use free_fire.Rooms.Record.{Member, Room, member_from_account, player_info}
use free_fire.Rooms.Seats.{
  team_count, pick_team, per_team_cap, free_seat, sits_at, team_of, group_seats, player,
}
use free_fire.Rooms.Seats.Free.{free_seat-found}
use free_fire.Rooms.Seats.View.{group_seats-view, shown}
use free_fire.Rooms.Exec.{Env, Store, ok, err, bus_error}
use free_fire.Rooms.Lifecycle.{CreateReq, create, new_room, leave_locked, leave, is_account}
use free_fire.Rooms.Membership.{join_locked, join_failing}
use free_fire.Rooms.Invariant.Store.{IsSound}
use free_fire.Rooms.Invariant.Reach.{Step, Reach, no_rooms, Reach-IsSound}
use free_fire.Rooms.Failing.{join_failing-half}
use free_fire.Rooms.Joining.{Admits, join_locked-seat, leave-join}
use free_fire.Rooms.Closing.{leave_locked-dismiss}
use free_fire.Rooms.Notify.{handle_disconnect}
use free_fire.Rooms.Notify.Targets.{others, targets, accounts, handle_disconnect-targets}

abbrev account_of : ℕ → Account
account_of uid = record {
  uid = uid;
  account_id = uid;
  open_id = "";
  nickname = "Ana";
  region = "BR";
  role = 0;
  level = 1;
  coins = 0;
  rank = 300;
  cs_rank = 100;
  clan_name = "";
  banned = false;
  selected_items = record {
    avatar_id = 1;
    skin_color = 0;
    head_pic = 5;
    banner_id = 6;
    clothes = [];
    slots = [];
    emotes = [];
    shows = [];
  };
}

abbrev owner : Account
owner = account_of 7

abbrev guest : Account
guest = account_of 9

abbrev second_owner : Account
second_owner = account_of 11

abbrev env : Env
env = record { bus_up = true; acquired = λ k. true; now = 5 }

abbrev req : CreateReq
req = record {
  room_name = "room";
  code = "";
  map_id = 2;
  game_mode = 5;
  group_mode = 1;
  max_member_num = 4;
  max_spectator_num = 0;
  room_type = 1;
  enable_death_spectate = false;
  level_visual_style = 0;
  room_setting = 0;
  room_setting2 = 0;
  is_cs_advanced = false;
  cs_advanced_setting = [];
}

abbrev room_1 : Room
room_1 = new_room (λ t. t) env owner req 1

abbrev room_2 : Room
room_2 = new_room (λ t. t) env second_owner req 2

-- Room 1 of the owner, and then room 2 of another account.
abbrev two_rooms : Store
two_rooms = (create (λ t. t) env second_owner req (create (λ t. t) env owner req no_rooms).1).1

two_rooms-Reach : Reach no_rooms two_rooms
two_rooms-Reach =
    Reach.next (Reach.next Reach.here (Step.creates (λ t. t) env owner req))
      (Step.creates (λ t. t) env second_owner req)

Reach-IsSound_example : IsSound two_rooms
Reach-IsSound_example = Reach-IsSound two_rooms-Reach

two_rooms-IsSound : IsSound two_rooms
two_rooms-IsSound = Reach-IsSound two_rooms-Reach

has_room_1 : hget two_rooms.rooms 1 ≡ some room_1
unfolding create new_room lookup insert
has_room_1 = refl

has_room_2 : hget two_rooms.rooms 2 ≡ some room_2
unfolding create new_room lookup insert
has_room_2 = refl

guest-Admits : (room : Room) → room ≡ room_1 → Admits room guest ""
unfolding new_room member_from_account
guest-Admits room e =
    rw e (record { open_room = refl; code_fits = inl refl; absent = refl; below = omega arith })

join_locked-seat_example :
    let (r, t) = join_locked guest "" 1 two_rooms in
    let with_member : Member → Room = λ j. record room_1 { members = room_1.members ++ j ∷ [] } in
    (j : Member) × (r ≡ ok (with_member j, j))
    × (j.account_id ≡ account_key guest)
    × ((j.group_id ≡ 1) ⊎ (j.group_id ≡ 2))
    × (team_count j.group_id room_1.members ≤ team_count (3 - j.group_id) room_1.members)
    × (j.seat < per_team_cap room_1.max_member_num)
    × (any (sits_at j.group_id j.seat) room_1.members ≡ false)
    × ((i : ℕ)
        → hget t.rooms i
          ≡ (if room_1.id == i then some (with_member j) else hget two_rooms.rooms i))
    × ((b : ℕ)
        → hget t.members b
          ≡ (if account_key guest == b then some room_1.id else hget two_rooms.members b))
    × (t.seq ≡ two_rooms.seq)
join_locked-seat_example =
    join_locked-seat guest "" 1 two_rooms room_1 has_room_1 (guest-Admits room_1 refl)

guest_in_no_room : hget two_rooms.members (account_key guest) ≡ none
unfolding lookup create insert
guest_in_no_room = refl

join_failing-half_example :
    let first = join_failing true guest "" 1 two_rooms in
    let (r, t) = join_failing false guest "" 1 two_rooms in
    (first ≡ (err bus_error, two_rooms))
    × (r ≡ err bus_error)
    × IsSound t
    × (listed : Room) × (hget t.rooms 1 ≡ some listed)
    × (any (is_account (account_key guest)) listed.members ≡ true)
    × (leave env (account_key guest) t ≡ (ok none, t))
join_failing-half_example =
    join_failing-half guest "" 1 two_rooms room_1 env two_rooms-IsSound has_room_1
      (guest-Admits room_1 refl) guest_in_no_room

leave-join_example :
    let t = (leave_locked (account_key guest) 1 (join_locked guest "" 1 two_rooms).1).1 in
    ((i : ℕ) → hget t.rooms i ≡ hget two_rooms.rooms i)
    × ((b : ℕ)
        → hget t.members b ≡ (if account_key guest == b then none else hget two_rooms.members b))
leave-join_example =
    leave-join guest "" 1 two_rooms room_1 two_rooms-IsSound has_room_1 (guest-Admits room_1 refl)

leave_locked-dismiss_example :
    let t = (leave_locked room_1.owner 1 two_rooms).1 in
    ((i : ℕ) → hget t.rooms i ≡ (if 1 == i then none else hget two_rooms.rooms i))
    × ((b : ℕ)
        → hget t.members b
          ≡ (if any (is_account b) room_1.members then none else hget two_rooms.members b))
leave_locked-dismiss_example = leave_locked-dismiss 1 two_rooms room_1 two_rooms-IsSound has_room_1

free_seat-found_example :
    (k : ℕ) × (free_seat room_1 (pick_team room_1.members) ≡ some k)
    × (k < per_team_cap room_1.max_member_num)
    × (any (sits_at (pick_team room_1.members) k) room_1.members ≡ false)
free_seat-found_example = free_seat-found room_1 (unfold new_room in omega arith)

group_seats-view_example :
    let cap = per_team_cap room_1.max_member_num in
    ((g : ℕ) → length (group_seats room_1 g) ≡ cap)
    × ((g k : ℕ)
        → k < cap
        → get_elem? (group_seats room_1 g) k
          ≡ some (shown room_1.map_id g (find (sits_at g k) room_1.members)))
    × ((i : ℕ) (m : Member)
        → get_elem? room_1.members i ≡ some m
        → get_elem? (group_seats room_1 (team_of m)) m.seat
          ≡ some (player (player_info m room_1.map_id)))
group_seats-view_example = group_seats-view room_1 (two_rooms-IsSound.seated 1 room_1 has_room_1)

handle_disconnect-targets_example :
    targets (handle_disconnect env 7 two_rooms).0 ≡ accounts (others 7 room_1.members)
handle_disconnect-targets_example =
    handle_disconnect-targets env 7 1 0 two_rooms room_1 two_rooms-IsSound refl (omega arith) refl
      (unfold create new_room lookup insert in refl) has_room_1
