-- ===== src/Rooms/Failing.antt =====
-- A join whose writes fail (`join` and `runOp` of src/tcp/rooms.js).
use free_fire.Prelude.{
  ℕ, ◌≡◌, refl, true, false, some, none, any, String, arith, Bool-cases, inl, inr,
}
use free_fire.Redis.{Redis, hget, hset, hget-hset}
use free_fire.Account.{Account, account_key}
use free_fire.Rooms.Record.{Room}
use free_fire.Rooms.Exec.{Store, Env, ok, err, bus_error, existing}
use free_fire.Rooms.Lifecycle.{is_account, leave}
use free_fire.Rooms.Membership.{join_failing}
use free_fire.Rooms.Joining.{Admits, joined, seat_joiner-account}
use free_fire.Rooms.Invariant.Lists.{any-append}
use free_fire.Rooms.Invariant.Store.{IsSound, IsSound-save, seat_joiner-IsSeated}

module _ ⦃redis : Redis⦄ where
  -- Where an account in no room may join, and a write fails, the join ends in the bus's error. If it is
  -- the first, nothing is written. If it is the second, the store stays sound, but the room lists the
  -- account, of which the reverse lookup knows nothing, so that a leave finds no room to take it out of.
  pub join_failing-half :
      (account : Account) (code : String) (id : ℕ) (s : Store) (room : Room) (env : Env)
      → IsSound s
      → hget s.rooms id ≡ some room
      → Admits room account code
      → hget s.members (account_key account) ≡ none
      → let first = join_failing true account code id s in
        let (r, t) = join_failing false account code id s in
        (first ≡ (err bus_error, s))
        × (r ≡ err bus_error)
        × IsSound t
        × (listed : Room) × (hget t.rooms id ≡ some listed)
        × (any (is_account (account_key account)) listed.members ≡ true)
        × (leave env (account_key account) t ≡ (ok none, t))
  unfolding join_failing existing leave
  join_failing-half account code id s room env v e a out =
      let half : Store = record s { rooms = hset s.rooms room.id (joined room account) } in
      let done : join_failing false account code id s ≡ (err bus_error, half) =
        rw e (ground (arith, a.open_room, a.code_fits, a.absent, a.below)) in
      let undone : join_failing true account code id s ≡ (err bus_error, s) =
        rw e (ground (arith, a.open_room, a.code_fits, a.absent, a.below)) in
      rw (done, undone)
        (
          refl,
          refl,
          IsSound-save s s.members (joined room account) v
              (seat_joiner-IsSeated room account (v.seated id room e) a.absent a.below)
              (omega (arith, v.at_id id room e, v.given_out id room e))
              (omega (arith, v.at_id id room e, v.given_out id room e)),
          joined room account,
          (let at_id = v.at_id id room e in rw hget-hset (ground arith)),
          rw (any-append (is_account (account_key account)) room.members)
              (ground (arith, seat_joiner-account room account)),
          elim (Bool-cases env.bus_up) [ inl b ↦ rw (b, out) refl | inr b ↦ rw b refl ],
        )
