-- ===== src/Rooms/Closing.antt =====
-- How rooms end and reopen: the dismissal by `leave`, and `startMatch` against `reenter`.
use free_fire.Prelude.{
  ℕ, ◌≡◌, refl, ap, true, false, not, ◌&&◌, List, [], ◌∷◌, if◌then◌else◌, ◌==◌, any, arith, none,
  some, String,
}
use free_fire.Redis.{Hash, hget, hset, hdel, hget-hset, hget-hdel, hash_laws}
use free_fire.Account.{Account}
use free_fire.Rooms.Record.{Member, Room, waiting, in_game, is_waiting, room_in_game}
use free_fire.Rooms.Exec.{Store, room_error, ok, err, existing}
use free_fire.Rooms.Lifecycle.{is_account, leave_locked, start_locked, reenter_locked, del_others}
use free_fire.Rooms.Membership.{join_locked}
use free_fire.Rooms.Invariant.Store.{IsSound}
use free_fire.Redis.{Redis}

any-others :
    (a b : ℕ) (ms : List Member)
    → (b == a) ≡ false
    → any (λ m. not (is_account a m) && is_account b m) ms ≡ any (is_account b) ms
any-others a b [] h = refl
any-others a b (m ∷ ms) h = ground (arith, any-others a b ms h)

waiting-again :
    (room : Room) → is_waiting room.state ≡ true → record room { state = waiting } ≡ room
waiting-again room h = ground arith

module _ ⦃redis : Redis⦄ where
  hget-del_others :
      (a b : ℕ) (ms : List Member) (h : Hash ℕ)
      → hget (del_others a ms h) b
        ≡ (if any (λ m. not (is_account a m) && is_account b m) ms then none else hget h b)
  unfolding del_others
  hget-del_others a b [] h = refl
  hget-del_others a b (m ∷ ms) h = ground (
    arith,
    hget-del_others a b ms (hdel h m.account_id),
    hget-del_others a b ms h,
    hget-hdel h m.account_id b,
  )

  leave_locked-owner :
      (account id : ℕ) (s : Store) (room : Room)
      → hget s.rooms id ≡ some room
      → room.owner ≡ account
      → (leave_locked account id s).1 ≡ record s {
        rooms = hdel s.rooms room.id;
        members = del_others account room.members (hdel s.members account);
      }
  unfolding leave_locked
  leave_locked-owner account id s room e n = rw e (ground arith)

  -- When the owner leaves, the room is gone and no other room has changed; the reverse lookup of each
  -- of its members is gone, and that of everybody else is as it was.
  pub leave_locked-dismiss :
      (id : ℕ) (s : Store) (room : Room)
      → IsSound s
      → hget s.rooms id ≡ some room
      → let t = (leave_locked room.owner id s).1 in
        ((i : ℕ) → hget t.rooms i ≡ (if id == i then none else hget s.rooms i))
        × ((b : ℕ)
            → hget t.members b
              ≡ (if any (is_account b) room.members then none else hget s.members b))
  leave_locked-dismiss id s room v e =
      let w = v.seated id room e in
      let at_id = v.at_id id room e in
      rw (leave_locked-owner room.owner id s room e refl) (
        λ i. simp hash_laws (ground arith),
        λ b. ground (
          arith,
          hget-del_others room.owner b room.members (hdel s.members room.owner),
          hget-hdel s.members room.owner b,
          any-others room.owner b room.members,
          w.owner_in,
          ap (λ (c : ℕ). any (is_account c) room.members),
        ),
      )

  start_locked-waiting :
      (id : ℕ) (s : Store) (room : Room)
      → hget s.rooms id ≡ some room
      → is_waiting room.state ≡ true
      → start_locked room.owner id s ≡ (
        ok (record room { state = in_game }),
        record s { rooms = hset s.rooms room.id (record room { state = in_game }) },
      )
  unfolding start_locked existing
  start_locked-waiting id s room e w = rw e (ground arith)

  reenter_locked-in_game :
      (id : ℕ) (s : Store) (room : Room)
      → hget s.rooms id ≡ some (record room { state = in_game })
      → (reenter_locked id s).1
        ≡ record s { rooms = hset s.rooms room.id (record room { state = waiting }) }
  unfolding reenter_locked
  reenter_locked-in_game id s room e = rw e

  join_locked-in_game :
      (account : Account) (code : String) (id : ℕ) (s : Store) (room : Room)
      → hget s.rooms id ≡ some (record room { state = in_game })
      → (join_locked account code id s).0 ≡ err (room_error room_in_game)
  unfolding join_locked existing
  join_locked-in_game account code id s room e = rw e

  -- Starting a waiting room and coming back to it changes no room; while the match is on, the room
  -- refuses every join with ROOMINGAME.
  pub reenter-start :
      (id : ℕ) (s : Store) (room : Room)
      → IsSound s
      → hget s.rooms id ≡ some room
      → is_waiting room.state ≡ true
      → let t = (start_locked room.owner id s).1 in
        ((i : ℕ) → hget (reenter_locked id t).1.rooms i ≡ hget s.rooms i)
        × ((account : Account) (code : String)
            → (join_locked account code id t).0 ≡ err (room_error room_in_game))
  reenter-start id s room v e w =
      let at_id = v.at_id id room e in
      let t : Store = record s { rooms = hset s.rooms room.id (record room { state = in_game }) } in
      let stored : hget t.rooms id ≡ some (record room { state = in_game }) =
        rw hget-hset (ground arith) in
      rw (start_locked-waiting id s room e w) (
        λ i.
            rw (reenter_locked-in_game id t room stored, waiting-again room w)
              (simp hash_laws (ground arith)),
        λ account code. join_locked-in_game account code id t room stored,
      )
