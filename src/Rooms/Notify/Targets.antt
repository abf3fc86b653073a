-- ===== src/Rooms/Notify/Targets.antt =====
-- Who is told of what happens in a room.
use mathlib.Core.Option
use native.Mathlib.Nat.{zero-add}
use free_fire.Prelude.{
  ℕ, zero, suc, ◌+◌, ◌<◌, ◌≡◌, refl, ap, ◌∙◌, true, false, not, ◌||◌, some, Bool-cases, inl, inr,
  List, [], ◌∷◌, map, filterb, find, get_elem?, if◌then◌else◌, ◌==◌, leb, length, arith,
}
use free_fire.Redis.{hget}
use free_fire.Rooms.Record.{Member, Room, PlayerInfo, player_info}
use free_fire.Rooms.Exec.{Store, Env, ok, lock_attempts, with_room_lock}
use free_fire.Rooms.Lifecycle.{Left, leave, leave_locked, is_account, remove_member}
use free_fire.Rooms.Notify.{
  Push, Message, broadcast, tell_left, handle_disconnect, dismiss_offline, indexed_infos,
  set_ready_message, set_ready_ntf,
}
use free_fire.Rooms.Outcomes.{with_room_lock_lem}
use free_fire.Rooms.Invariant.Store.{IsSound}
use free_fire.Redis.{Redis}

abbrev pub others : ℕ → List Member → List Member
others account = filterb (λ m. not (is_account account m))

abbrev pub targets : List Push → List ℕ
targets = map (λ p. p.target)

abbrev pub accounts : List Member → List ℕ
accounts = map (λ m. m.account_id)

targets-broadcast :
    (ms : List Member) (except : ℕ) (message : Message)
    → targets (broadcast ms except message) ≡ accounts (others except ms)
unfolding broadcast
targets-broadcast [] except message = refl
targets-broadcast (m ∷ ms) except message = ground (arith, targets-broadcast ms except message)

others-remove : (a : ℕ) (ms : List Member) → others a (remove_member a ms) ≡ others a ms
unfolding remove_member
others-remove a [] = refl
others-remove a (m ∷ ms) = ground (arith, others-remove a ms)

get_elem?-indexed_infos :
    (i k : ℕ) (ms : List Member)
    → get_elem? (indexed_infos i ms) k ≡ Option.map (λ m. player_info m (i + k)) (get_elem? ms k)
unfolding indexed_infos
get_elem?-indexed_infos i k [] = refl
get_elem?-indexed_infos i zero (m ∷ ms) = ground arith
get_elem?-indexed_infos i (suc k) (m ∷ ms) = ground (arith, get_elem?-indexed_infos (suc i) k ms)

-- Entry `k` of the SETREADY_NTF list is member `k`, and advertises map `k`, the member's index in
-- the list (none for index 0), in place of the room's map.
pub set_ready_message-maps :
    (room : Room)
    → (infos : List PlayerInfo) × (set_ready_message room ≡ set_ready_ntf room.id infos)
      × ((k : ℕ) (m : Member)
          → get_elem? room.members k ≡ some m
          → (p : PlayerInfo) × (get_elem? infos k ≡ some p)
            × (p.account_id ≡ m.account_id)
            × (p.available_maps ≡ (if k == 0 then [] else k ∷ [])))
unfolding set_ready_message
set_ready_message-maps room = (
  indexed_infos 0 room.members,
  refl,
  λ k m e. (
    player_info m k,
    rw get_elem?-indexed_infos (rw (e, zero-add)),
    unfold player_info in refl,
    unfold player_info in refl,
  ),
)

module _ ⦃redis : Redis⦄ where
  -- What `leave` answers for a member of a room.
  leave_locked-tells :
      (a id reason : ℕ) (s : Store) (room : Room)
      → hget s.rooms id ≡ some room
      → (left : Left) × ((leave_locked a id s).0 ≡ ok (some left))
        × (targets (tell_left a reason left) ≡ accounts (others a room.members))
  unfolding leave_locked tell_left
  leave_locked-tells a id reason s room e =
      elim (Bool-cases (room.owner == a || leb (length room.members) 1)) [
        | inl q ↦ (
          record {
            room = room;
            leaver = find (is_account a) room.members;
            dismissed = true;
            members = room.members;
          },
          rw (e, q),
          targets-broadcast room.members a _,
        )
        | inr q ↦
            let room' : Room = record room { members = remove_member a room.members } in
            (
              record {
                room = room';
                leaver = find (is_account a) room.members;
                dismissed = false;
                members = room'.members;
              },
              rw (e, q),
              targets-broadcast room'.members a _ ∙ ap accounts (others-remove a room.members),
            )
      ]

  leave-listed :
      (env : Env) (a id : ℕ) (s : Store)
      → env.bus_up ≡ true
      → hget s.members a ≡ some id
      → 0 < id
      → with_room_lock env (leave_locked a id) s ≡ leave_locked a id s
      → leave env a s ≡ leave_locked a id s
  unfolding leave
  leave-listed env a id s up listed pos locked = ground (arith)

  -- When a connected account drops out, with the bus up and the room's lease obtained: exactly the
  -- other members of its room are told, each once, whether the room goes on or is dismissed.
  pub handle_disconnect-targets :
      (env : Env) (a id k : ℕ) (s : Store) (room : Room)
      → IsSound s
      → env.bus_up ≡ true
      → k < lock_attempts
      → env.acquired k ≡ true
      → hget s.members a ≡ some id
      → hget s.rooms id ≡ some room
      → targets (handle_disconnect env a s).0 ≡ accounts (others a room.members)
  unfolding handle_disconnect
  handle_disconnect-targets env a id k s room v up bound got listed e =
      let (left, answer, told) = leave_locked-tells a id dismiss_offline s room e in
      let pos = v.given_out id room e in
      let locked = (with_room_lock_lem env (leave_locked a id) s).0 k bound got in
      rw (leave-listed env a id s up listed pos.0 locked, answer) told
