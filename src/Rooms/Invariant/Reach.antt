-- ===== src/Rooms/Invariant/Reach.antt =====
-- All interleavings of room operations by any number of gateways. An operation reads the room's id
-- first and then runs under the room's lease, so a step is the locked part at any id: what others do
-- between the two is in the sequence of steps.
use free_fire.Prelude.{◌≡◌, some, ℕ, String, Bool}
use free_fire.Redis.{hget}
use free_fire.Account.{Account}
use free_fire.Rooms.Exec.{Store, Env}
use free_fire.Rooms.Lifecycle.{CreateReq, create, leave_locked, start_locked, reenter_locked}
use free_fire.Rooms.Membership.{join_locked, kick_locked}
use free_fire.Rooms.Settings.{ChangeReq, change_locked, set_ready_locked, switch_locked}
use free_fire.Rooms.Invariant.Store.{IsSound, join-IsSound}
use free_fire.Rooms.Invariant.Ops.{
  NoShrink, create-IsSound, leave-IsSound, start-IsSound, reenter-IsSound, kick-IsSound,
  change-IsSound, set_ready-IsSound, switch-IsSound,
}
use free_fire.Redis.{Redis, no_fields, hget}
use free_fire.Rooms.Record.{Room}

module _ ⦃redis : Redis⦄ where
  pub data Step (s : Store) : Store → Type 0 where
    creates :
        (room_title : String → String) (env : Env) (account : Account) (req : CreateReq)
        → Step s (create room_title env account req s).1
    joins : (account : Account) (code : String) (id : ℕ) → Step s (join_locked account code id s).1
    leaves : (account id : ℕ) → Step s (leave_locked account id s).1
    kicks : (owner id target : ℕ) → Step s (kick_locked owner id target s).1
    changes :
        (account : Account) (req : ChangeReq)
        → NoShrink req s
        → Step s (change_locked account req s).1
    readies : (account : ℕ) (ready : Bool) (id : ℕ) → Step s (set_ready_locked account ready id s).1
    switches :
        (account to_team to_seat id : ℕ) → Step s (switch_locked account to_team to_seat id s).1
    starts : (owner id : ℕ) → Step s (start_locked owner id s).1
    reenters : (id : ℕ) → Step s (reenter_locked id s).1

  pub data Reach (s : Store) : Store → Type 0 where
    here : Reach s s
    next : {t u : Store} → Reach s t → Step t u → Reach s u

  pub Step-IsSound : {s t : Store} → Step s t → IsSound s → IsSound t
  Step-IsSound {s} (creates room_title env account req) v =
      create-IsSound room_title env account req s v
  Step-IsSound {s} (joins account code id) v = join-IsSound account code id s v
  Step-IsSound {s} (leaves account id) v = leave-IsSound account id s v
  Step-IsSound {s} (kicks owner id target) v = kick-IsSound owner id target s v
  Step-IsSound {s} (changes account req n) v = change-IsSound account req s n v
  Step-IsSound {s} (readies account ready id) v = set_ready-IsSound account ready id s v
  Step-IsSound {s} (switches account to_team to_seat id) v =
      switch-IsSound account to_team to_seat id s v
  Step-IsSound {s} (starts owner id) v = start-IsSound owner id s v
  Step-IsSound {s} (reenters id) v = reenter-IsSound id s v

  abbrev pub no_rooms : Store
  no_rooms = record { rooms = no_fields; members = no_fields; seq = 0 }

  no_room_at : (id : ℕ) (r : Room) → hget no_rooms.rooms id ≡ some r → ⊥
  no_room_at id r e = cc (e, redis.get-no_fields {V = Room} id)

  IsSound-no_rooms : IsSound no_rooms
  IsSound-no_rooms = record {
    at_id = λ id r e. absurd (no_room_at id r e);
    seated = λ id r e. absurd (no_room_at id r e);
    given_out = λ id r e. absurd (no_room_at id r e);
  }

  -- Whatever the operations, and in whatever order the gateways run them, from an empty store on: each
  -- room stands under its own id with its owner among the members, no account is listed twice in it,
  -- no two members of a team share a seat, every seat lies within the team's capacity, and the room's
  -- limit holds; provided that no settings change lowers the limit of a room.
  pub Reach-IsSound : {t : Store} → Reach no_rooms t → IsSound t
  Reach-IsSound here = IsSound-no_rooms
  Reach-IsSound (next r st) = Step-IsSound st (Reach-IsSound r)
