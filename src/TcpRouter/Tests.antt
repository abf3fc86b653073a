-- ===== src/TcpRouter/Tests.antt =====
-- Concrete runs of the router with the handlers of matchmaking.
use free_fire.Prelude.{ℕ, ◌≡◌, refl, true, false, none, some, List, [], ◌∷◌, get_elem?, ◌⊎◌}
use free_fire.Redis.{hget}
use free_fire.Redis.Lists.{list_redis}
use free_fire.Matchmaker.Queue.{Waiting}
use free_fire.TcpRouter.{no_route, no_reply, replied, dispatch}
use free_fire.TcpRouter.Matchmaking.{
  StartReq, StartNtf, Conn, start_ntf, stop_ntf, mode_of, matchmaking_routes, dispatch-matchmaking,
}

abbrev conn : Conn
conn = record {
  bus_up = true;
  node = 3;
  now = 500;
  account = record {
    uid = 7;
    account_id = 70;
    open_id = "o";
    nickname = "n";
    region = "BR";
    role = 0;
    level = 1;
    coins = 0;
    rank = 0;
    cs_rank = 0;
    clan_name = "";
    banned = false;
    selected_items = record {
      avatar_id = 1;
      skin_color = 0;
      head_pic = 0;
      banner_id = 0;
      clothes = [];
      slots = [];
      emotes = [];
      shows = [];
    };
  };
}

abbrev req : StartReq
req = record { map_ids = 2 ∷ 4 ∷ []; game_mode = 0; match_mode = 1; difficulty = 0 }

abbrev queue : List (ℕ × Waiting)
queue = (9, record { node = 1; mode = mode_of req; joined_at = 100 }) ∷ []

no_route_for_5 : (dispatch (matchmaking_routes conn) 3 5 req queue).0 ≡ no_route
unfolding dispatch matchmaking_routes
no_route_for_5 = refl

dispatch-matchmaking_example :
    let started = dispatch (matchmaking_routes conn) 3 1 req queue in
    let cancelled = dispatch (matchmaking_routes conn) 3 2 req started.1 in
    let dropped = dispatch (matchmaking_routes conn) 3 6 req started.1 in
    (n : StartNtf) × (w : Waiting) × (started.0 ≡ replied 11 (start_ntf n))
    × (n.map_ids ≡ 2 ∷ 4 ∷ [])
    × (n.game_mode ≡ 15)
    × (n.match_mode ≡ 1)
    × (n.difficulty ≡ 0)
    × (w.mode.game_mode ≡ n.game_mode)
    × (w.mode.match_mode ≡ n.match_mode)
    × (w.mode.difficulty ≡ n.difficulty)
    × ((get_elem? n.map_ids 0 ≡ some w.mode.map_id)
        ⊎ ((get_elem? n.map_ids 0 ≡ some 0) × (w.mode.map_id ≡ 1)))
    × (w.node ≡ 3)
    × (w.joined_at ≡ 500)
    × (hget started.1 7 ≡ some w)
    × (cancelled.0 ≡ replied 14 stop_ntf)
    × (hget cancelled.1 7 ≡ none)
    × (dropped.0 ≡ no_reply)
    × (hget dropped.1 7 ≡ none)
dispatch-matchmaking_example = dispatch-matchmaking conn req queue 7 refl refl
