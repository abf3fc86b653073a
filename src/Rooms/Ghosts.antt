-- ===== src/Rooms/Ghosts.antt =====
-- `join` does not look at the reverse lookup, so an account may be in two rooms.
use free_fire.Prelude.{ℕ, ◌≡◌, ◌≢◌, ◌∙◌, true, any, arith, none, some, String}
use free_fire.Redis.{hget, hash_laws}
use free_fire.Account.{Account, account_key}
use free_fire.Rooms.Record.{Room}
use free_fire.Rooms.Exec.{Store}
use free_fire.Rooms.Lifecycle.{is_account, leave_locked}
use free_fire.Rooms.Membership.{join_locked}
use free_fire.Rooms.Invariant.Store.{IsSound}
use free_fire.Rooms.Joining.{Admits, joined, leave-join, join_locked-Admits}
use free_fire.Redis.{Redis}

module _ ⦃redis : Redis⦄ where
  -- The store after the join, as a client of another room sees it.
  module _ (account : Account) (code : String) (id other : ℕ) (s : Store) (room old : Room)
      (v : IsSound s) (e : hget s.rooms id ≡ some room) (o : hget s.rooms other ≡ some old)
      (apart : id ≢ other) (a : Admits room account code) where
    -- An account that is in one room may join another one. Both rooms then list it, and its reverse
    -- lookup names the second.
    pub join_twice :
        let t = (join_locked account code id s).1 in
        (hget t.rooms other ≡ some old)
        × (hget t.members (account_key account) ≡ some id)
        × (hget t.rooms id ≡ some (joined room account))
    join_twice =
        let at_id = v.at_id id room e in
        rw (join_locked-Admits account code id s room e a) (
          simp hash_laws (ground arith),
          simp hash_laws (ground arith),
          simp hash_laws (ground arith),
        )

    -- After it has left the second room, the first still lists it and no reverse lookup leads there.
    pub leave_after_join_twice :
        any (is_account (account_key account)) old.members ≡ true
        → let t = (leave_locked (account_key account) id (join_locked account code id s).1).1 in
          (hget t.rooms other ≡ some old)
          × (any (is_account (account_key account)) old.members ≡ true)
          × (hget t.members (account_key account) ≡ none)
    leave_after_join_twice listed =
        let undo = leave-join account code id s room v e a in
        (undo.0 other ∙ o, listed, undo.1 (account_key account) ∙ ground arith)
