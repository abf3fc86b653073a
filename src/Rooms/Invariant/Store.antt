-- ===== src/Rooms/Invariant/Store.antt =====
-- The invariant of the store of rooms, kept by every operation that runs under a room's lease.
use free_fire.Prelude.{
  ℕ, ◌≤◌, ◌<◌, ◌≡◌, true, false, [], ◌∷◌, ◌++◌, any, length, arith, Option-cases, inl, inr,
  length-append, some, String,
}
use free_fire.Redis.{Hash, hget, hset, hdel, hget-hset, hget-hdel, hash_laws}
use free_fire.Account.{Account, account_key}
use free_fire.Rooms.Record.{Room, is_waiting, member_from_account}
use free_fire.Rooms.Exec.{Store, existing}
use free_fire.Rooms.Seats.{pick_team, per_team_cap}
use free_fire.Rooms.Seats.Free.{free_seat-found, pick_team_range, or_else-pick_team}
use free_fire.Rooms.Lifecycle.{is_account}
use free_fire.Rooms.Membership.{join_locked, seat_joiner}
use free_fire.Rooms.Invariant.{IsPlaced, IsSeated}
use free_fire.Rooms.Invariant.Lists.{any-append, All-append, Distinct-append, Apart-append}
use free_fire.Redis.{Redis}

pub seat_joiner-IsSeated :
    (room : Room) (account : Account)
    → IsSeated room
    → any (is_account (account_key account)) room.members ≡ false
    → length room.members < room.max_member_num
    → IsSeated (record room { members = room.members ++ seat_joiner room account ∷ [] })
unfolding seat_joiner member_from_account
seat_joiner-IsSeated room account v absent below =
    let (k, e, fits, free) = free_seat-found room below in
    let g = pick_team room.members in
    rw e (record {
      distinct = Distinct-append room.members _ v.distinct absent;
      apart = Apart-append room.members _ v.apart (rw or_else-pick_team free);
      placed =
          All-append (IsPlaced (per_team_cap room.max_member_num)) room.members _ v.placed
            (rw or_else-pick_team (omega (arith, pick_team_range room.members)));
      within = omega (arith, length-append {0} room.members);
      owner_in = rw (any-append (is_account room.owner) room.members, v.owner_in);
    })

module _ ⦃redis : Redis⦄ where
  -- Every record stands under its own id, is well formed, and its id was given out.
  pub record IsSound (s : Store) : Type 0 where
    pub at_id : (id : ℕ) (r : Room) → hget s.rooms id ≡ some r → r.id ≡ id
    pub seated : (id : ℕ) (r : Room) → hget s.rooms id ≡ some r → IsSeated r
    pub given_out : (id : ℕ) (r : Room) → hget s.rooms id ≡ some r → (0 < id) × (id ≤ s.seq)

  pub IsSound-save :
      (s : Store) (members : Hash ℕ) (r : Room)
      → IsSound s
      → IsSeated r
      → 0 < r.id
      → r.id ≤ s.seq
      → IsSound (record { rooms = hset s.rooms r.id r; members = members; seq = s.seq })
  IsSound-save s members r v w p q = record {
    at_id = λ id x. simp hash_laws (ground (arith, v.at_id id x));
    seated = λ id x e. ground (arith, hget-hset s.rooms r.id id r, v.seated id x);
    given_out = λ id x. simp hash_laws (ground (arith, v.given_out id x));
  }

  pub IsSound-delete :
      (s : Store) (members : Hash ℕ) (id : ℕ)
      → IsSound s
      → IsSound (record { rooms = hdel s.rooms id; members = members; seq = s.seq })
  IsSound-delete s members id v = record {
    at_id = λ i x. simp hash_laws (ground (arith, v.at_id i x));
    seated = λ i x e. ground (arith, hget-hdel s.rooms id i, v.seated i x);
    given_out = λ i x. simp hash_laws (ground (arith, v.given_out i x));
  }

  pub IsSound-members :
      (s : Store) (members : Hash ℕ) → IsSound s → IsSound (record s { members = members })
  IsSound-members s members v = record {
    at_id = v.at_id;
    seated = v.seated;
    given_out = v.given_out;
  }

  pub join_cases :
      (P : Store → Type 0) (account : Account) (code : String) (id : ℕ) (s : Store)
      → P s
      → ((room : Room)
          → hget s.rooms id ≡ some room
          → is_waiting room.state ≡ true
          → any (is_account (account_key account)) room.members ≡ false
          → length room.members < room.max_member_num
          → P (record s {
            rooms =
                hset s.rooms room.id
                  (record room { members = room.members ++ seat_joiner room account ∷ [] });
            members = hset s.members (account_key account) room.id;
          }))
      → P (join_locked account code id s).1
  unfolding join_locked
  join_cases P account code id s stay go = elim (Option-cases (hget s.rooms id)) [
    | inl e ↦ rw (e, existing) stay
    | inr (room, e) ↦ rw (e, existing) (ground (arith, go room))
  ]

  -- A join, whatever its outcome, keeps the store sound.
  pub join-IsSound :
      (account : Account) (code : String) (id : ℕ) (s : Store)
      → IsSound s
      → IsSound (join_locked account code id s).1
  join-IsSound account code id s v =
      join_cases IsSound account code id s v λ room e open_room absent below.
        IsSound-save s _ _ v (seat_joiner-IsSeated room account (v.seated id room e) absent below)
          (omega (arith, v.at_id id room e, v.given_out id room e))
          (omega (arith, v.at_id id room e, v.given_out id room e))
