-- ===== src/Lobby/Friends/Making.antt =====
-- From a request to a friendship and back (src/handlers, src/db/repo/postgres.js).
use free_fire.Prelude.{
  ℕ, ◌<◌, ◌≡◌, ◌≢◌, refl, sym, ◌∙◌, Bool, true, false, ◌||◌, ◌&&◌, List, [], ◌∷◌, if◌then◌else◌,
  ◌==◌, arith,
}
use free_fire.PlayerStore.Friends.{Social, has, add_friendship}
use free_fire.PlayerStore.Friends.Mutual.{add_friendship_lem}
use free_fire.Lobby.Friends.{Net, FriendPush, confirm_ntf, handle_confirm_friend_request}

-- What holds between two accounts.
abbrev pub are_friends : ℕ → ℕ → Social → Bool
are_friends a b s = has a b s.friendships && has b a s.friendships

abbrev pub is_pending : ℕ → ℕ → Social → Bool
is_pending a b s = has a b s.requests || has b a s.requests

abbrev pub told : Net → ℕ → FriendPush → List FriendPush
told net target push = if net.online target then push ∷ [] else []

befriended :
    (a b : ℕ) (s : Social)
    → 0 < a
    → 0 < b
    → a ≢ b
    → (are_friends a b (add_friendship false b a s) ≡ true)
      × (is_pending a b (add_friendship false b a s) ≡ false)
befriended a b s p q n =
    let there = add_friendship_lem b a s q p (λ z. n (sym z)) a b in
    let back = add_friendship_lem b a s q p (λ z. n (sym z)) b a in
    (ground (arith, there, back), ground (arith, there, back))

confirm-told :
    (net : Net) (a b : ℕ) (s : Social)
    → 0 < a
    → net.fails ≡ false
    → handle_confirm_friend_request net b a s ≡ (
      told net a (record { target = a; notice = confirm_ntf; about = b }),
      add_friendship false b a s,
    )
unfolding handle_confirm_friend_request
confirm-told net a b s p ok =
    let some_id : (a == 0) ≡ false = ground arith in simp (some_id, ok) refl

and_symm : (x y : Bool) → (y && x) ≡ (x && y)
and_symm x y = ground arith

-- A confirmation makes two accounts friends although nobody has asked.
pub confirm_friend_request-unasked :
    (net : Net) (uid adder : ℕ) (s : Social)
    → 0 < uid
    → 0 < adder
    → uid ≢ adder
    → net.fails ≡ false
    → is_pending uid adder s ≡ false
    → are_friends uid adder (handle_confirm_friend_request net uid adder s).1 ≡ true
confirm_friend_request-unasked net uid adder s p q n ok none_asked =
    rw (confirm-told net adder uid s q ok) (
      and_symm (has adder uid (add_friendship false uid adder s).friendships)
        (has uid adder (add_friendship false uid adder s).friendships)
      ∙ (befriended adder uid s q p (λ z. n (sym z))).0)
