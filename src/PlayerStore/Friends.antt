-- ===== src/PlayerStore/Friends.antt =====
-- Friend requests and friendships of src/db/repo/postgres.js.
pub mod Mutual
use free_fire.Prelude.{
  ℕ, zero, suc, Bool, true, false, not, ◌||◌, ◌&&◌, List, [], ◌∷◌, ◌++◌, map, filterb, any,
  if◌then◌else◌, ◌==◌,
}

-- The tables friendships (a, b) and friend_requests (target_id, from_id), as pairs.
pub record Social : Type 0 where
  pub friendships : List (ℕ × ℕ)
  pub requests : List (ℕ × ℕ)

abbrev pub has : ℕ → ℕ → List (ℕ × ℕ) → Bool
has a b = any (λ r. r.0 == a && r.1 == b)

-- INSERT ... ON CONFLICT DO NOTHING
unfoldable pub insert_pair : ℕ → ℕ → List (ℕ × ℕ) → List (ℕ × ℕ)
insert_pair a b rows = if has a b rows then rows else rows ++ (a, b) ∷ []

-- DELETE of one key
unfoldable pub delete_pair : ℕ → ℕ → List (ℕ × ℕ) → List (ℕ × ℕ)
delete_pair a b = filterb (λ r. not (r.0 == a && r.1 == b))

unfoldable pub get_friend_ids : ℕ → Social → List ℕ
get_friend_ids uid s =
    if uid == 0 then [] else map (λ r. r.1) (filterb (λ r. r.0 == uid) s.friendships)

unfoldable pub get_request_ids : ℕ → Social → List ℕ
get_request_ids uid s =
    if uid == 0 then [] else map (λ r. r.1) (filterb (λ r. r.0 == uid) s.requests)

unfoldable pub add_request : ℕ → ℕ → Social → Social
unfolding insert_pair
add_request target from s =
    if target == 0 || from == 0 || target == from
    then s
    else record s { requests = insert_pair target from s.requests }

unfoldable pub remove_request : ℕ → ℕ → Social → Social
unfolding delete_pair
remove_request target from s =
    if target == 0 || from == 0
    then s
    else record s { requests = delete_pair target from s.requests }

-- Both statements are one transaction: `true` where one of them or the COMMIT fails.
unfoldable pub add_friendship : Bool → ℕ → ℕ → Social → Social
unfolding insert_pair delete_pair
add_friendship fails a b s = if a == 0 || b == 0 || a == b || fails then s else record {
  friendships = insert_pair b a (insert_pair a b s.friendships);
  requests = delete_pair b a (delete_pair a b s.requests);
}

unfoldable pub remove_friendship : ℕ → ℕ → Social → Social
unfolding delete_pair
remove_friendship a b s =
    if a == 0 || b == 0
    then s
    else record s { friendships = delete_pair b a (delete_pair a b s.friendships) }
