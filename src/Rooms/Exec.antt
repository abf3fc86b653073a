-- ===== src/Rooms/Exec.antt =====
-- Room operations as actions on the shared store: the hashes `rooms` and `room:members` and the
-- counter `room:seq` of src/tcp/rooms.js. What was written before an error stays written. The calls of
-- the bus that read and write them are taken to answer but in Rooms/Failing, where the writes of a join
-- fail.
pub mod Cases
use free_fire.Prelude.{
  ℕ, zero, suc, ◌+◌, Bool, true, false, ◌||◌, Option, none, some, if◌then◌else◌,
}
use free_fire.Redis.{Hash, hget, hset, hdel}
use free_fire.Rooms.Record.{Room, RoomErr}
use free_fire.Redis.{Redis}

-- What an operation meets: whether the bus is up, which attempts at the room's lease succeed, and
-- the clock.
pub record Env : Type 0 where
  pub bus_up : Bool
  pub acquired : ℕ → Bool
  pub now : ℕ

-- A RoomError, the error that `withRoomLock` throws, or the error of a call of the bus.
pub data Failure : Type 0 where
  room_error : RoomErr → Failure
  lock_timeout bus_error : Failure

pub data Result {ℓ} (A : Type ℓ) : Type ℓ where
  ok : A → Result A
  err : Failure → Result A

-- Whether one of `n` attempts from the `i`-th on gets the lease.
unfoldable pub attempt : (ℕ → Bool) → ℕ → ℕ → Bool
attempt acquired zero i = false
attempt acquired (suc n) i = acquired i || attempt acquired n (suc i)

abbrev pub lock_attempts : ℕ
lock_attempts = 50

module _ ⦃redis : Redis⦄ where
  pub record Store : Type 0 where
    pub rooms : Hash Room
    pub members : Hash ℕ
    pub seq : ℕ

  abbrev pub Exec {ℓ} : Type ℓ → Type ℓ
  Exec A = Store → Result A × Store

  module _ {ℓ} {A : Type ℓ} where
    abbrev pub pure : A → Exec A
    pure a s = (ok a, s)

    abbrev pub throw : RoomErr → Exec A
    throw e s = (err (room_error e), s)

  -- `if (!test) throw new RoomError(e)`
  abbrev pub require : Bool → RoomErr → Exec (Unit {0})
  require true e s = (ok tt, s)
  require false e s = (err (room_error e), s)

  abbrev pub or_throw {ℓ} : {A : Type ℓ} → Option A → RoomErr → Exec A
  or_throw none e s = (err (room_error e), s)
  or_throw (some a) e s = (ok a, s)

  abbrev continue {ℓ κ} : {A : Type ℓ} {B : Type κ} → Result A → (A → Exec B) → Exec B
  continue (ok a) f s = f a s
  continue (err e) f s = (err e, s)

  infixl 10 ◌>>=◌ ◌>>◌
  abbrev pub ◌>>=◌ {ℓ κ} : {A : Type ℓ} {B : Type κ} → Exec A → (A → Exec B) → Exec B
  ◌>>=◌ m f s = continue (m s).0 f (m s).1

  abbrev pub ◌>>◌ {ℓ} : {B : Type ℓ} → Exec (Unit {0}) → Exec B → Exec B
  m >> n = m >>= λ _. n

  abbrev pub load_room : ℕ → Exec (Option Room)
  load_room id s = (ok (hget s.rooms id), s)

  -- `Number(await bus.hget(MEMBERS_KEY, id) || 0)`
  abbrev pub room_of : ℕ → Exec ℕ
  room_of account s = (ok (elim (hget s.members account) [ none ↦ 0 | some id ↦ id ]), s)

  abbrev pub save_room : Room → Exec (Unit {0})
  save_room room s = (ok tt, record s { rooms = hset s.rooms room.id room })

  abbrev pub delete_room : ℕ → Exec (Unit {0})
  delete_room id s = (ok tt, record s { rooms = hdel s.rooms id })

  -- A call of the bus that fails.
  abbrev pub bus_throws : Exec (Unit {0})
  bus_throws s = (err bus_error, s)

  abbrev pub set_member : ℕ → ℕ → Exec (Unit {0})
  set_member account id s = (ok tt, record s { members = hset s.members account id })

  abbrev pub del_member : ℕ → Exec (Unit {0})
  del_member account s = (ok tt, record s { members = hdel s.members account })

  abbrev pub next_id : Exec ℕ
  next_id s = (ok (s.seq + 1), record s { seq = s.seq + 1 })

  -- The body runs once, under the lease; with no lease in 50 attempts nothing runs.
  unfoldable pub with_room_lock {ℓ} : {A : Type ℓ} → Env → Exec A → Exec A
  with_room_lock env body s =
      if attempt env.acquired lock_attempts 0 then body s else (err lock_timeout, s)

  -- The room, or the error for a room that is not there.
  unfoldable pub existing : ℕ → RoomErr → Exec Room
  existing id e = do found ← load_room id; or_throw found e
