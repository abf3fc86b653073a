-- ===== src/Rooms/Invariant/Ops.antt =====
-- Every operation on rooms keeps the store sound.
use free_fire.Prelude.{
  ℕ, ◌+◌, ◌≤◌, ◌≡◌, refl, ◌⊎◌, Bool, not, any, arith, Option-cases, inl, inr, some, String,
}
use free_fire.Redis.{Hash, hget, hset, hdel}
use free_fire.Account.{Account, account_key}
use free_fire.Rooms.Record.{Member, Room, waiting, in_game, is_waiting}
use free_fire.Rooms.Exec.{Store, Env, existing}
use free_fire.Rooms.Exec.Cases.{require_cases, existing_cases}
use free_fire.Rooms.Lifecycle.{
  is_account, remove_member, CreateReq, new_room, create, leave_locked, start_locked,
  reenter_locked, del_others,
}
use free_fire.Rooms.Membership.{kick_locked}
use free_fire.Rooms.Settings.{
  update_member, ChangeReq, change_room, change_locked, set_ready_locked, switch_locked,
}
use free_fire.Rooms.Invariant.{IsSeated}
use free_fire.Rooms.Invariant.Lists.{others_at}
use free_fire.Rooms.Invariant.Store.{IsSound, IsSound-save, IsSound-delete, IsSound-members}
use free_fire.Redis.{Redis}
use free_fire.Rooms.Invariant.Seated.{
  remove-IsSeated, state-IsSeated, new_room-IsSeated, new_room-id, ready-IsSeated, move-IsSeated,
  seat_in_range, seat_in_range_lem, not-eq-true, change_room-IsSeated, change_room-id,
}

module _ ⦃redis : Redis⦄ where
  -- A record that is written back under its own id, at any contents of the reverse lookup.
  module _ (s : Store) (v : IsSound s) (id : ℕ) (room : Room)
      (e : hget s.rooms id ≡ some room) where
    IsSound-update :
        (members : Hash ℕ) (r : Room)
        → r.id ≡ room.id
        → IsSeated r
        → IsSound (record { rooms = hset s.rooms r.id r; members = members; seq = s.seq })
    IsSound-update members r same w =
        IsSound-save s members r v w (omega (arith, v.at_id id room e, v.given_out id room e))
          (omega (arith, v.at_id id room e, v.given_out id room e))

  pub kick-IsSound :
      (owner id target : ℕ) (s : Store) → IsSound s → IsSound (kick_locked owner id target s).1
  unfolding kick_locked
  kick-IsSound owner id target s v = elim (Option-cases (hget s.rooms id)) [
    | inl e ↦ rw (e, existing) v
    | inr (room, e) ↦
        rw (e, existing)
          (ground (
            arith,
            IsSound-update s v id room e (hdel s.members target)
                (record room { members = remove_member target room.members }) refl,
            remove-IsSeated room target (v.seated id room e),
          ))
  ]

  pub start-IsSound : (owner id : ℕ) (s : Store) → IsSound s → IsSound (start_locked owner id s).1
  unfolding start_locked
  start-IsSound owner id s v = elim (Option-cases (hget s.rooms id)) [
    | inl e ↦ rw (e, existing) v
    | inr (room, e) ↦
        rw (e, existing)
          (ground (
            arith,
            IsSound-update s v id room e s.members (record room { state = in_game }) refl
                (state-IsSeated room in_game (v.seated id room e)),
          ))
  ]

  pub reenter-IsSound : (id : ℕ) (s : Store) → IsSound s → IsSound (reenter_locked id s).1
  unfolding reenter_locked
  reenter-IsSound id s v = elim (Option-cases (hget s.rooms id)) [
    | inl e ↦ rw e v
    | inr (room, e) ↦ rw e (
        ground (
          arith,
          IsSound-update s v id room e s.members (record room { state = waiting }) refl
              (state-IsSeated room waiting (v.seated id room e)),
        ))
  ]

  pub leave-IsSound :
      (account id : ℕ) (s : Store) → IsSound s → IsSound (leave_locked account id s).1
  unfolding leave_locked
  leave-IsSound account id s v = elim (Option-cases (hget s.rooms id)) [
    | inl e ↦ rw e (IsSound-members s (hdel s.members account) v)
    | inr (room, e) ↦ rw e (
        ground (
          arith,
          IsSound-delete s (del_others account room.members (hdel s.members account)) room.id v,
          IsSound-update s v id room e (hdel s.members account)
              (record room { members = remove_member account room.members }) refl,
          remove-IsSeated room account (v.seated id room e),
        ))
  ]

  IsSound-bump : (s : Store) → IsSound s → IsSound (record s { seq = s.seq + 1 })
  IsSound-bump s v = record {
    at_id = v.at_id;
    seated = v.seated;
    given_out = λ id r e. ground (arith, v.given_out id r e);
  }

  pub create-IsSound :
      (room_title : String → String) (env : Env) (account : Account) (req : CreateReq) (s : Store)
      → IsSound s
      → IsSound (create room_title env account req s).1
  unfolding create
  create-IsSound room_title env account req s v = ground (
    arith,
    IsSound-save (record s { seq = s.seq + 1 }) (hset s.members (account_key account) (s.seq + 1))
        (new_room room_title env account req (s.seq + 1)) (IsSound-bump s v)
        (new_room-IsSeated room_title env account req (s.seq + 1)),
    new_room-id room_title env account req (s.seq + 1),
  )

  pub set_ready-IsSound :
      (account : ℕ) (ready : Bool) (id : ℕ) (s : Store)
      → IsSound s
      → IsSound (set_ready_locked account ready id s).1
  unfolding set_ready_locked
  set_ready-IsSound account ready id s v = elim (Option-cases (hget s.rooms id)) [
    | inl e ↦ rw (e, existing) v
    | inr (room, e) ↦
        rw (e, existing)
          (ground (
            arith,
            IsSound-update s v id room e s.members
                (record room {
                  members =
                      update_member account (λ (m : Member). record m { ready = ready })
                        room.members;
                })
                refl (ready-IsSeated room account ready (v.seated id room e)),
          ))
  ]

  pub switch-IsSound :
      (account to_team to_seat id : ℕ) (s : Store)
      → IsSound s
      → IsSound (switch_locked account to_team to_seat id s).1
  unfolding switch_locked
  switch-IsSound account to_team to_seat id s v = existing_cases IsSound id _ _ s v λ room e.
      require_cases IsSound (is_waiting room.state) _ _ s v λ w.
        require_cases IsSound (any (is_account account) room.members) _ _ s v λ m.
          require_cases IsSound (seat_in_range room to_team to_seat) _ _ s v λ range.
            require_cases IsSound (not (others_at account (to_team + 1) to_seat room.members)) _ _ s
              v
              λ alone. IsSound-update s v id room e s.members _ refl (
                move-IsSeated room account (to_team + 1) to_seat (v.seated id room e) (omega arith)
                  (seat_in_range_lem room to_team to_seat range).0
                  (seat_in_range_lem room to_team to_seat range).1 (not-eq-true _ alone))

  -- The change does not lower the limit of members.
  abbrev pub NoShrink : ChangeReq → Store → Type 0
  NoShrink req s =
      (room : Room)
      → hget s.rooms req.room_id ≡ some room
      → (req.max_member_num ≡ 0) ⊎ (room.max_member_num ≤ req.max_member_num)

  pub change-IsSound :
      (account : Account) (req : ChangeReq) (s : Store)
      → NoShrink req s
      → IsSound s
      → IsSound (change_locked account req s).1
  unfolding change_locked
  change-IsSound account req s n v = elim (Option-cases (hget s.rooms req.room_id)) [
    | inl e ↦ rw (e, existing) v
    | inr (room, e) ↦
        rw (e, existing)
          (ground (
            arith,
            IsSound-update s v req.room_id room e s.members (change_room room req)
                (change_room-id room req)
                (change_room-IsSeated room req (v.seated req.room_id room e) (n room e)),
          ))
  ]
