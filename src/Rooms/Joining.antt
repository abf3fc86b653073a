-- ===== src/Rooms/Joining.antt =====
-- Who gets into a room, and how a leave undoes a join.
use free_fire.Prelude.{
  ℕ, ◌-◌, ◌<◌, ◌≤◌, ◌≡◌, ◌≢◌, refl, ap, ◌⊎◌, true, false, List, [], ◌∷◌, ◌++◌, if◌then◌else◌, ◌==◌,
  any, length, length-append, arith, none, some, String, str_eq,
}
use free_fire.Redis.{hget, hset, hdel, hget-hset, hash_laws}
use free_fire.Account.{Account, account_key}
use free_fire.Rooms.Record.{Member, Room, is_waiting, member_from_account}
use free_fire.Rooms.Exec.{Store, ok, existing}
use free_fire.Rooms.Lifecycle.{is_account, remove_member, leave_locked}
use free_fire.Rooms.Seats.{team_count, per_team_cap, sits_at}
use free_fire.Rooms.Seats.Free.{free_seat-found, pick_team-smaller}
use free_fire.Rooms.Membership.{join_locked, seat_joiner}
use free_fire.Rooms.Invariant.Store.{IsSound}
use free_fire.Redis.{Redis}

abbrev pub joined : Room → Account → Room
joined room account = record room { members = room.members ++ seat_joiner room account ∷ [] }

-- What a client may rely on to get in.
pub record Admits (room : Room) (account : Account) (code : String) : Type 0 where
  pub open_room : is_waiting room.state ≡ true
  pub code_fits :
      (str_eq code "" ≡ true) ⊎ (str_eq room.code "" ≡ true) ⊎ (str_eq code room.code ≡ true)
  pub absent : any (is_account (account_key account)) room.members ≡ false
  pub below : length room.members < room.max_member_num

pub seat_joiner-account :
    (room : Room) (account : Account) → (seat_joiner room account).account_id ≡ account_key account
unfolding seat_joiner member_from_account
seat_joiner-account room account = refl

remove-append :
    (a : ℕ) (ms : List Member) (j : Member)
    → any (is_account a) ms ≡ false
    → j.account_id ≡ a
    → remove_member a (ms ++ j ∷ []) ≡ ms
unfolding remove_member
remove-append a [] j h k = ground arith
remove-append a (m ∷ ms) j h k = ground (arith, remove-append a ms j)

member_count : (a : ℕ) (ms : List Member) → any (is_account a) ms ≡ true → 0 < length ms
member_count a [] h = cc
member_count a (m ∷ ms) h = omega arith

-- Where the joiner sits.
joiner_seat :
    (room : Room) (account : Account)
    → length room.members < room.max_member_num
    → let j = seat_joiner room account in
      ((j.group_id ≡ 1) ⊎ (j.group_id ≡ 2))
      × (team_count j.group_id room.members ≤ team_count (3 - j.group_id) room.members)
      × (j.seat < per_team_cap room.max_member_num)
      × (any (sits_at j.group_id j.seat) room.members ≡ false)
unfolding seat_joiner member_from_account
joiner_seat room account below =
    let (k, e, fits, free) = free_seat-found room below in
    let (team, smaller) = pick_team-smaller room.members in rw e (team, smaller, fits, free)

module _ ⦃redis : Redis⦄ where
  pub join_locked-Admits :
      (account : Account) (code : String) (id : ℕ) (s : Store) (room : Room)
      → hget s.rooms id ≡ some room
      → Admits room account code
      → join_locked account code id s ≡ (
        ok (joined room account, seat_joiner room account),
        record s {
          rooms = hset s.rooms room.id (joined room account);
          members = hset s.members (account_key account) room.id;
        },
      )
  unfolding join_locked existing
  join_locked-Admits account code id s room e a = rw e (ground (arith))

  -- Who may join, joins: where a room of the store is waiting, the code is no other than the room's
  -- where both are given, the account is not in the room and the room is not full, the join succeeds
  -- with a member for this account, who is appended to the room. It sits in team 1 or 2, which had no
  -- more members than the other, on a seat within the team's capacity that nobody of the team had. The
  -- account's reverse lookup leads to the room, and nothing else in the store changes.
  pub join_locked-seat :
      (account : Account) (code : String) (id : ℕ) (s : Store) (room : Room)
      → hget s.rooms id ≡ some room
      → Admits room account code
      → let (r, t) = join_locked account code id s in
        let with_member : Member → Room = λ j. record room { members = room.members ++ j ∷ [] } in
        (j : Member) × (r ≡ ok (with_member j, j))
        × (j.account_id ≡ account_key account)
        × ((j.group_id ≡ 1) ⊎ (j.group_id ≡ 2))
        × (team_count j.group_id room.members ≤ team_count (3 - j.group_id) room.members)
        × (j.seat < per_team_cap room.max_member_num)
        × (any (sits_at j.group_id j.seat) room.members ≡ false)
        × ((i : ℕ)
            → hget t.rooms i ≡ (if room.id == i then some (with_member j) else hget s.rooms i))
        × ((b : ℕ)
            → hget t.members b
              ≡ (if account_key account == b then some room.id else hget s.members b))
        × (t.seq ≡ s.seq)
  join_locked-seat account code id s room e a =
      let (team, smaller, fits, free) = joiner_seat room account a.below in
      let j = seat_joiner room account in
      rw (join_locked-Admits account code id s room e a) (
        j,
        refl,
        seat_joiner-account room account,
        team,
        smaller,
        fits,
        free,
        (λ i. hget-hset s.rooms room.id i (joined room account)),
        (λ b. hget-hset s.members (account_key account) b room.id),
        refl,
      )

  leave_locked-member :
      (account id : ℕ) (s : Store) (room : Room)
      → hget s.rooms id ≡ some room
      → room.owner ≢ account
      → 1 < length room.members
      → (leave_locked account id s).1 ≡ record s {
        rooms = hset s.rooms room.id (record room { members = remove_member account room.members });
        members = hdel s.members account;
      }
  unfolding leave_locked
  leave_locked-member account id s room e n h = rw e (ground arith)

  -- A join that the owner does not make, undone by a leave: every room is as it was, the account's
  -- reverse lookup is gone, and nobody else's has changed.
  pub leave-join :
      (account : Account) (code : String) (id : ℕ) (s : Store) (room : Room)
      → IsSound s
      → hget s.rooms id ≡ some room
      → Admits room account code
      → let t = (leave_locked (account_key account) id (join_locked account code id s).1).1 in
        ((i : ℕ) → hget t.rooms i ≡ hget s.rooms i)
        × ((b : ℕ)
            → hget t.members b ≡ (if account_key account == b then none else hget s.members b))
  leave-join account code id s room v e a =
      let w = v.seated id room e in
      let k = account_key account in
      let j = seat_joiner room account in
      let t : Store = record s {
        rooms = hset s.rooms room.id (joined room account);
        members = hset s.members k room.id;
      } in
      let n : room.owner ≢ k =
        λ p. cc (w.owner_in, a.absent, ap (λ (b : ℕ). any (is_account b) room.members) p) in
      let at_id = v.at_id id room e in
      let back = remove-append k room.members j a.absent (seat_joiner-account room account) in
      let stored : hget t.rooms id ≡ some (joined room account) = rw hget-hset (ground arith) in
      let many : 1 < length (room.members ++ j ∷ []) =
        omega (
          arith,
          length-append {0} room.members,
          member_count room.owner room.members w.owner_in,
        ) in
      rw
        (
          join_locked-Admits account code id s room e a,
          leave_locked-member k id t (joined room account) stored n many,
          back,
        )
        (λ i. simp hash_laws (ground arith), λ b. simp hash_laws (ground arith))
