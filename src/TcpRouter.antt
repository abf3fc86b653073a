-- ===== src/TcpRouter.antt =====
-- The gateway's table of message handlers (src/tcp/router.js). A handler is a function of the request
-- and of the state `S` that it works on; a request of type `Q` is already decoded.
pub mod Matchmaking
mod Tests
use free_fire.Prelude.{
  ℕ, Bool, true, false, ◌&&◌, Option, none, some, List, [], ◌∷◌, if◌then◌else◌, ◌==◌,
}

pub record Route (Q R S : Type 0) : Type 0 where
  pub protocol : ℕ
  pub subcmd : ℕ
  pub res_cmd : Option ℕ
  pub handler : Q → S → Option R × S

-- What `dispatch` returns: `null` without a route, no reply, or a reply under a command.
pub data Dispatched (R : Type 0) : Type 0 where
  no_route no_reply : Dispatched R
  replied : ℕ → R → Dispatched R

abbrev pub is_route : {Q R S : Type 0} → ℕ → ℕ → Route Q R S → Bool
is_route protocol subcmd r = r.protocol == protocol && r.subcmd == subcmd

-- `Map.set` of the key, in place of an earlier route.
unfoldable pub register : {Q R S : Type 0} → Route Q R S → List (Route Q R S) → List (Route Q R S)
register r [] = r ∷ []
register r (x ∷ xs) = if is_route r.protocol r.subcmd x then r ∷ xs else x ∷ register r xs

unfoldable pub route_of : {Q R S : Type 0} → ℕ → ℕ → List (Route Q R S) → Option (Route Q R S)
route_of protocol subcmd [] = none
route_of protocol subcmd (x ∷ xs) =
    if is_route protocol subcmd x then some x else route_of protocol subcmd xs

abbrev pub reply_cmd : Option ℕ → ℕ → ℕ
reply_cmd none subcmd = subcmd
reply_cmd (some cmd) subcmd = cmd

abbrev pub answered : {R S : Type 0} → ℕ → Option R × S → Dispatched R × S
answered cmd (none, s) = (no_reply, s)
answered cmd (some r, s) = (replied cmd r, s)

unfoldable pub dispatch : {Q R S : Type 0} → List (Route Q R S) → ℕ → ℕ → Q → S → Dispatched R × S
unfolding route_of
dispatch routes protocol subcmd q s = elim (route_of protocol subcmd routes) [
  | none ↦ (no_route, s)
  | some r ↦ answered (reply_cmd r.res_cmd subcmd) (r.handler q s)
]
