-- ===== src/Lobby/Friends.antt =====
-- The friend handlers: src/handlers/RequestAddingFriend.js, ConfirmFriendRequest.js,
-- DeclineFriendRequest.js and RemoveFriend.js, over the tables of PlayerStore.Friends.
pub mod Making
use free_fire.Prelude.{
  ℕ, Bool, true, false, not, ◌||◌, ◌&&◌, List, [], ◌∷◌, if◌then◌else◌, ◌==◌, or_else,
}
use free_fire.PlayerStore.Friends.{
  Social, add_request, remove_request, add_friendship, remove_friendship,
}

-- A GatewayPush: to whom, what for, and whose account it carries.
pub data Notice : Type 0 where
  request_ntf confirm_ntf : Notice

pub record FriendPush : Type 0 where
  pub target : ℕ
  pub notice : Notice
  pub about : ℕ

-- What a request meets: for which accounts the bus is up and has a node, which accounts the
-- repository has, and whether the transaction of a friendship fails.
pub record Net : Type 0 where
  pub online : ℕ → Bool
  pub known : ℕ → Bool
  pub fails : Bool

-- `uid` is the account of the request, a missing field is 0.
unfoldable pub handle_request_adding_friend : Net → ℕ → ℕ → ℕ → Social → List FriendPush × Social
handle_request_adding_friend net uid req_adder addee s =
    let adder = or_else req_adder uid in
    if adder == 0 || addee == 0 then ([], s) else (
      (if net.online addee && (adder == uid || net.known adder)
          then record { target = addee; notice = request_ntf; about = adder } ∷ []
          else []),
      add_request addee adder s,
    )

-- `addFriendship` begins a transaction only for two different accounts.
abbrev pub not_same : ℕ → ℕ → Bool
not_same a b = not (a == 0 || b == 0 || a == b)

-- A transaction that fails ends the request.
unfoldable pub handle_confirm_friend_request : Net → ℕ → ℕ → Social → List FriendPush × Social
handle_confirm_friend_request net uid adder s =
    if adder == 0 || (net.fails && not_same uid adder) then ([], s) else (
      (if net.online adder
          then record { target = adder; notice = confirm_ntf; about = uid } ∷ []
          else []),
      add_friendship net.fails uid adder s,
    )

unfoldable pub handle_decline_friend_request : ℕ → ℕ → Social → Social
handle_decline_friend_request uid adder s = remove_request uid adder s

-- Also the ids that the reply echoes.
unfoldable pub handle_remove_friend : ℕ → ℕ → ℕ → Social → (ℕ × ℕ) × Social
handle_remove_friend uid remover removee s =
    ((or_else remover uid, removee), if removee == 0 then s else remove_friendship uid removee s)
