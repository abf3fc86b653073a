-- ===== src/MatchStats/Tests.antt =====
-- Concrete runs of src/tcp/matchstats.js and src/servers/settlement.js.
use free_fire.Prelude.{
  ℕ, ◌+◌, ◌≡◌, refl, Bool, true, false, none, some, List, [], ◌∷◌, if◌then◌else◌, ◌==◌, arith,
}
use free_fire.Account.{Account}
use free_fire.PlayerStore.Settlement.{Db, Connection, settle_match_result}
use free_fire.PlayerStore.Settlement.Ledger.{Delivery, deliver_all}
use free_fire.MatchStats.{MatchResult, build_stats_res}
use free_fire.MatchStats.Views.{Shows, build_stats_res-sides}
use free_fire.MatchStats.Worker.{handle_match_result, push_match_stats, settle_all, ledger_result}
use free_fire.MatchStats.Worker.Passes.{AllSettled}
use free_fire.MatchStats.Worker.Deliveries.{handle_match_result-settles, handle_match_result-again}

abbrev result : ℕ → Bool → MatchResult
result account win = record {
  account_id = account;
  win = win;
  kills = 4;
  deaths = 2;
  damage = 900;
  rank_points = 20;
  xp = 50;
  coins = 200;
}

abbrev players : List MatchResult
players = result 7 true ∷ result 0 true ∷ result 9 false ∷ []

abbrev account : ℕ → Account
account id = record {
  uid = id;
  account_id = id;
  open_id = "";
  nickname = "alice";
  region = "BR";
  role = 0;
  level = 10;
  coins = 1200;
  rank = 1;
  cs_rank = 1;
  clan_name = "";
  banned = false;
  selected_items = record {
    avatar_id = 102000004;
    skin_color = 5;
    head_pic = 902000003;
    banner_id = 900000014;
    clothes = [];
    slots = 907000010 ∷ [];
    emotes = [];
    shows = [];
  };
}

build_stats_res-sides_example :
    let r = build_stats_res account 41 (result 9 false) players in
    Shows account 2 r.teammates (result 9 false ∷ [])
    × Shows account 1 r.opponents (result 7 true ∷ result 0 true ∷ [])
    × (r.teams_game_point.0 ≡ 4)
    × (r.teams_game_point.1 ≡ 8)
build_stats_res-sides_example = build_stats_res-sides account 41 (result 9 false) players

abbrev connection : ℕ → Connection
connection i = record {
  now = 100 + i;
  insert_fails = false;
  update_fails = false;
  commit_fails = false;
}

abbrev online : ℕ → Bool
online a = a == 7

abbrev ledger : Db
ledger = record { results = []; balance = λ a. if a == 7 then some 1000 else none }

handle_match_result-settles_example :
    let r = handle_match_result connection account online 41 players ledger in
    ((n : ℕ) × (r.0 ≡ some (n, push_match_stats account online 41 players players)))
    × AllSettled 41 players r.1
handle_match_result-settles_example =
    handle_match_result-settles connection account online 41 players ledger (omega arith)
      (λ j. refl)

abbrev deliveries : List Delivery
deliveries =
    record { connection = connection 0; match_id = 42; result = ledger_result (result 7 false) }
    ∷ []

handle_match_result-again_example :
    let t =
      deliver_all deliveries (handle_match_result connection account online 41 players ledger).1 in
    handle_match_result connection account online 41 players t
    ≡ (some (0, push_match_stats account online 41 players players), t)
handle_match_result-again_example =
    handle_match_result-again connection connection account online 41 players ledger deliveries
      (2, push_match_stats account online 41 players players) (omega arith)
      (unfold handle_match_result in unfold settle_all in unfold settle_match_result in refl)
      (λ j. refl)
