-- ===== src/PlayerStore/Friends/Mutual.antt =====
-- Friendship is mutual (src/db/repo/postgres.js).
use free_fire.Prelude.{
  ℕ, ◌≡◌, ◌≢◌, ◌<◌, refl, Bool, true, false, not, ◌||◌, ◌&&◌, List, [], ◌∷◌, ◌++◌, map, filterb,
  any, if◌then◌else◌, ◌==◌, arith,
}
use free_fire.PlayerStore.Friends.{
  Social, has, insert_pair, delete_pair, get_friend_ids, add_request, remove_request,
  add_friendship, remove_friendship,
}

has-append :
    (a b : ℕ) (rows : List (ℕ × ℕ)) (r : ℕ × ℕ)
    → has a b (rows ++ r ∷ []) ≡ (has a b rows || (r.0 == a && r.1 == b))
has-append a b [] r = ground arith
has-append a b (x ∷ rows) r = ground (arith, has-append a b rows r)

pub has-insert_pair :
    (x y a b : ℕ) (rows : List (ℕ × ℕ))
    → has x y (insert_pair a b rows) ≡ (has x y rows || (a == x && b == y))
unfolding insert_pair
has-insert_pair x y a b rows = ground (arith, has-append x y rows (a, b))

pub has-delete_pair :
    (x y a b : ℕ) (rows : List (ℕ × ℕ))
    → has x y (delete_pair a b rows) ≡ (has x y rows && not (a == x && b == y))
unfolding delete_pair
has-delete_pair x y a b [] = refl
has-delete_pair x y a b (r ∷ rows) = ground (arith, has-delete_pair x y a b rows)

pub data Act : Type 0 where
  asks declines : ℕ → ℕ → Act
  befriends : Bool → ℕ → ℕ → Act
  unfriends : ℕ → ℕ → Act

unfoldable pub act : Act → Social → Social
act (asks target from) = add_request target from
act (declines target from) = remove_request target from
act (befriends fails a b) = add_friendship fails a b
act (unfriends a b) = remove_friendship a b

unfoldable pub act_all : List Act → Social → Social
unfolding act
act_all [] s = s
act_all (x ∷ xs) s = act_all xs (act x s)

-- Friendship is mutual, and nobody is their own friend or asks themselves.
pub record IsMutual (s : Social) : Type 0 where
  pub both_ways : (a b : ℕ) → has a b s.friendships ≡ has b a s.friendships
  pub no_own_friend : (a : ℕ) → has a a s.friendships ≡ false
  pub no_own_request : (a : ℕ) → has a a s.requests ≡ false

act-IsMutual : (x : Act) (s : Social) → IsMutual s → IsMutual (act x s)
unfolding act add_request remove_request add_friendship remove_friendship
act-IsMutual (asks target from) s v = record {
  both_ways = λ a b. ground (arith, v.both_ways a b);
  no_own_friend = λ a. ground (arith, v.no_own_friend a);
  no_own_request =
      λ a. ground (arith, v.no_own_request a, has-insert_pair a a target from s.requests);
}
act-IsMutual (declines target from) s v = record {
  both_ways = λ a b. ground (arith, v.both_ways a b);
  no_own_friend = λ a. ground (arith, v.no_own_friend a);
  no_own_request =
      λ a. ground (arith, v.no_own_request a, has-delete_pair a a target from s.requests);
}
act-IsMutual (befriends fails x y) s v =
    let mid = insert_pair x y s.friendships in
    let cleared = delete_pair x y s.requests in
    record {
      both_ways = λ a b. ground (
        arith,
        v.both_ways a b,
        has-insert_pair a b y x mid,
        has-insert_pair b a y x mid,
        has-insert_pair a b x y s.friendships,
        has-insert_pair b a x y s.friendships,
      );
      no_own_friend = λ a. ground (
        arith,
        v.no_own_friend a,
        has-insert_pair a a y x mid,
        has-insert_pair a a x y s.friendships,
      );
      no_own_request = λ a. ground (
        arith,
        v.no_own_request a,
        has-delete_pair a a y x cleared,
        has-delete_pair a a x y s.requests,
      );
    }
act-IsMutual (unfriends x y) s v =
    let mid = delete_pair x y s.friendships in
    record {
      both_ways = λ a b. ground (
        arith,
        v.both_ways a b,
        has-delete_pair a b y x mid,
        has-delete_pair b a y x mid,
        has-delete_pair a b x y s.friendships,
        has-delete_pair b a x y s.friendships,
      );
      no_own_friend = λ a. ground (
        arith,
        v.no_own_friend a,
        has-delete_pair a a y x mid,
        has-delete_pair a a x y s.friendships,
      );
      no_own_request = λ a. ground (arith, v.no_own_request a);
    }

-- Whatever sequence of requests, declines, friendships and their ends, failed transactions
-- included: friendship stays mutual, and nobody is their own friend or has a request from themselves.
pub act_all-IsMutual : (xs : List Act) (s : Social) → IsMutual s → IsMutual (act_all xs s)
unfolding act_all
act_all-IsMutual [] s v = v
act_all-IsMutual (x ∷ xs) s v = act_all-IsMutual xs (act x s) (act-IsMutual x s v)

-- A friendship that two different accounts make, with the transaction going through: each is among
-- the other's friends, no request between them is left, and the friendships and requests of any
-- other pair are as they were.
pub add_friendship_lem :
    (a b : ℕ) (s : Social)
    → 0 < a
    → 0 < b
    → a ≢ b
    → let t = add_friendship false a b s in
      (x y : ℕ)
      → let pair = (x == a && y == b) || (x == b && y == a) in
        (has x y t.friendships ≡ (if pair then true else has x y s.friendships))
        × (has x y t.requests ≡ (if pair then false else has x y s.requests))
unfolding add_friendship
add_friendship_lem a b s p q n x y =
    let mid = insert_pair a b s.friendships in
    let cleared = delete_pair a b s.requests in
    ground (
      arith,
      has-insert_pair x y b a mid,
      has-insert_pair x y a b s.friendships,
      has-delete_pair x y b a cleared,
      has-delete_pair x y a b s.requests,
    )

listed :
    (a b : ℕ) (rows : List (ℕ × ℕ))
    → any (λ u. u == b) (map (λ r. r.1) (filterb (λ r. r.0 == a) rows)) ≡ has a b rows
listed a b [] = refl
listed a b (r ∷ rows) = ground (arith, listed a b rows)

-- Where friendship is mutual, one account is among another's friends exactly if the other is among
-- its own.
pub get_friend_ids-mutual :
    (a b : ℕ) (s : Social)
    → IsMutual s
    → 0 < a
    → 0 < b
    → any (λ u. u == b) (get_friend_ids a s) ≡ any (λ u. u == a) (get_friend_ids b s)
unfolding get_friend_ids
get_friend_ids-mutual a b s v p q =
    ground (arith, listed a b s.friendships, listed b a s.friendships, v.both_ways a b)
