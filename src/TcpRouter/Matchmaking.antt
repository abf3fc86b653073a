-- ===== src/TcpRouter/Matchmaking.antt =====
-- The handlers of matchmaking (src/tcp/handlers/MatchmakingStart.js, MatchmakingCancel.js,
-- MatchmakingDropMatch.js) behind the router.
use free_fire.Prelude.{
  ℕ, ◌≡◌, refl, Bool, true, false, Option, none, some, List, [], ◌∷◌, if◌then◌else◌, ◌==◌, or_else,
  Bool-cases, inl, inr, length, get_elem?, ◌⊎◌, arith,
}
use free_fire.Redis.{Redis, Hash, hget, hset, hdel, hget-hset, hget-hdel}
use free_fire.Account.{Account}
use free_fire.Matchmaker.Queue.{Mode, Waiting, enqueue, cancel}
use free_fire.TcpRouter.{Route, no_reply, replied, register, route_of, dispatch}

pub record StartReq : Type 0 where
  pub map_ids : List ℕ
  pub game_mode : ℕ
  pub match_mode : ℕ
  pub difficulty : ℕ

pub record StartNtf : Type 0 where
  pub map_ids : List ℕ
  pub game_mode : ℕ
  pub difficulty : ℕ
  pub match_mode : ℕ
  pub avg_wait_time_sec : ℕ

-- The replies of these handlers; the content of STOP_NTF is empty.
pub data MatchmakingReply : Type 0 where
  start_ntf : StartNtf → MatchmakingReply
  stop_ntf : MatchmakingReply

abbrev pub first_map : List ℕ → ℕ
first_map [] = 1
first_map (m ∷ ms) = or_else m 1

abbrev pub mode_of : StartReq → Mode
mode_of req = record {
  match_mode = or_else req.match_mode 1;
  game_mode = or_else req.game_mode 15;
  map_id = first_map req.map_ids;
  difficulty = req.difficulty;
}

abbrev pub maps_of : List ℕ → List ℕ
maps_of [] = first_map [] ∷ []
maps_of (m ∷ ms) = m ∷ ms

abbrev pub ntf_of : StartReq → StartNtf
ntf_of req = record {
  map_ids = maps_of req.map_ids;
  game_mode = (mode_of req).game_mode;
  difficulty = req.difficulty;
  match_mode = (mode_of req).match_mode;
  avg_wait_time_sec = 15;
}

-- The connection of a request: whether the bus is up, this gateway's node, the clock and the account.
pub record Conn : Type 0 where
  pub bus_up : Bool
  pub node : ℕ
  pub now : ℕ
  pub account : Account

-- The answered maps, and the one that is queued.
maps_lem :
    (ids : List ℕ)
    → (maps_of ids ≡ (if length ids == 0 then 1 ∷ [] else ids))
      × ((get_elem? (maps_of ids) 0 ≡ some (first_map ids))
          ⊎ ((get_elem? (maps_of ids) 0 ≡ some 0) × (first_map ids ≡ 1)))
maps_lem [] = (refl, inl refl)
maps_lem (m ∷ ms) = elim (Bool-cases (m == 0)) [
  | inl e ↦ (ground arith, inr (ground arith, ground arith))
  | inr e ↦ (ground arith, inl (ground arith))
]

module _ ⦃redis : Redis⦄ (conn : Conn) where
  taken_out :
      (queue : Hash Waiting) (uid k : ℕ) (w : Waiting)
      → hget (hdel (hset queue uid w) uid) k ≡ (if uid == k then none else hget queue k)
  taken_out queue uid k w = elim (Bool-cases (uid == k)) [
    | inl e ↦ rw (hget-hdel, e) refl
    | inr e ↦ rw (hget-hdel, e, hget-hset, e) refl
  ]

  unfoldable pub on_start : StartReq → Hash Waiting → Option MatchmakingReply × Hash Waiting
  unfolding enqueue
  on_start req queue = (
    some (start_ntf (ntf_of req)),
    enqueue conn.bus_up conn.node conn.now conn.account (mode_of req) queue,
  )

  unfoldable pub on_cancel : StartReq → Hash Waiting → Option MatchmakingReply × Hash Waiting
  unfolding cancel
  on_cancel req queue = (some stop_ntf, cancel conn.bus_up conn.account.uid queue)

  unfoldable pub on_drop_match : StartReq → Hash Waiting → Option MatchmakingReply × Hash Waiting
  unfolding cancel
  on_drop_match req queue = (none, cancel conn.bus_up conn.account.uid queue)

  -- EProtocol.MATCHMAKING is 3, and of EMatchmaking START 1, CANCEL 2, DROPMATCH 6, START_NTF 11 and
  -- STOP_NTF 14; the files are loaded in alphabetical order.
  unfoldable pub matchmaking_routes : List (Route StartReq MatchmakingReply (Hash Waiting))
  unfolding on_start on_cancel on_drop_match register
  matchmaking_routes =
      register (record { protocol = 3; subcmd = 1; res_cmd = some 11; handler = on_start })
        (register (record { protocol = 3; subcmd = 6; res_cmd = none; handler = on_drop_match })
          (register (record { protocol = 3; subcmd = 2; res_cmd = some 14; handler = on_cancel })
            []))

  -- With the bus up and an account whose uid is not 0, START is answered with START_NTF of the modes and
  -- maps that are asked for, or of their defaults. It leaves the account waiting in the modes of the
  -- answer, on the answer's first map, or on map 1 if that is 0, and everyone else as they were. A CANCEL
  -- after it is answered with STOP_NTF and a DROPMATCH with nothing, and both leave the account out and
  -- everyone else as they were before START.
  pub dispatch-matchmaking :
      (req : StartReq) (queue : Hash Waiting) (k : ℕ)
      → conn.bus_up ≡ true
      → (conn.account.uid == 0) ≡ false
      → let uid = conn.account.uid in
        let started = dispatch matchmaking_routes 3 1 req queue in
        let cancelled = dispatch matchmaking_routes 3 2 req started.1 in
        let dropped = dispatch matchmaking_routes 3 6 req started.1 in
        (n : StartNtf) × (w : Waiting) × (started.0 ≡ replied 11 (start_ntf n))
        × (n.map_ids ≡ (if length req.map_ids == 0 then 1 ∷ [] else req.map_ids))
        × (n.game_mode ≡ (if req.game_mode == 0 then 15 else req.game_mode))
        × (n.match_mode ≡ (if req.match_mode == 0 then 1 else req.match_mode))
        × (n.difficulty ≡ req.difficulty)
        × (w.mode.game_mode ≡ n.game_mode)
        × (w.mode.match_mode ≡ n.match_mode)
        × (w.mode.difficulty ≡ n.difficulty)
        × ((get_elem? n.map_ids 0 ≡ some w.mode.map_id)
            ⊎ ((get_elem? n.map_ids 0 ≡ some 0) × (w.mode.map_id ≡ 1)))
        × (w.node ≡ conn.node)
        × (w.joined_at ≡ conn.now)
        × (hget started.1 k ≡ (if uid == k then some w else hget queue k))
        × (cancelled.0 ≡ replied 14 stop_ntf)
        × (hget cancelled.1 k ≡ (if uid == k then none else hget queue k))
        × (dropped.0 ≡ no_reply)
        × (hget dropped.1 k ≡ (if uid == k then none else hget queue k))
  unfolding matchmaking_routes dispatch register route_of
  dispatch-matchmaking req queue k up nz =
      let (maps, at) = maps_lem req.map_ids in
      (
        ntf_of req,
        record { node = conn.node; mode = mode_of req; joined_at = conn.now },
        refl,
        maps,
        refl,
        refl,
        refl,
        refl,
        refl,
        refl,
        at,
        refl,
        refl,
        rw (up, nz, nz) (hget-hset queue conn.account.uid k _),
        refl,
        rw (up, nz, nz) (taken_out queue conn.account.uid k _),
        refl,
        rw (up, nz, nz) (taken_out queue conn.account.uid k _),
      )
