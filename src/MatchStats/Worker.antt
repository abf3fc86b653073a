-- ===== src/MatchStats/Worker.antt =====
-- The settlement worker (src/servers/settlement.js): the deliveries of match results from a stream,
-- with the ledger of PlayerStore.Settlement.
pub mod Passes
pub mod Deliveries
use free_fire.Prelude.{
  ℕ, zero, suc, ◌+◌, Bool, true, false, Option, none, some, List, [], ◌∷◌, if◌then◌else◌, ◌==◌,
}
use free_fire.Account.{Account}
use free_fire.PlayerStore.Settlement.{PlayerResult, Db, Connection, Settled, settle_match_result}
use free_fire.MatchStats.{MatchResult, MatchStatsRes, build_stats_res}

abbrev pub ledger_result : MatchResult → PlayerResult
ledger_result pr = record {
  account_id = pr.account_id;
  coins = pr.coins;
  kills = pr.kills;
  deaths = pr.deaths;
  win = pr.win;
  rank_points = pr.rank_points;
  xp = pr.xp;
}

abbrev pub counted : Settled → Option ℕ → Option ℕ
counted r none = none
counted r (some n) = some (if r.credited then suc n else n)

-- What one settlement leaves to the rest of the loop.
abbrev pub after_one : Option Settled × Db → (Db → Option ℕ × Db) → Option ℕ × Db
after_one (none, db) rest = (none, db)
after_one (some r, db) rest = (counted r (rest db).0, (rest db).1)

-- The loop over the players; `conn i` is what the `i`-th transaction meets, and `none` an error, which
-- ends the loop.
unfoldable pub settle_all : (ℕ → Connection) → ℕ → ℕ → List MatchResult → Db → Option ℕ × Db
unfolding settle_match_result
settle_all conn i match_id [] db = (some 0, db)
settle_all conn i match_id (pr ∷ prs) db = elim (pr.account_id == 0) [
  | true ↦ settle_all conn (suc i) match_id prs db
  | false ↦
      after_one (settle_match_result (conn i) match_id (ledger_result pr) db)
        (settle_all conn (suc i) match_id prs)
]

pub record StatsPush : Type 0 where
  pub target : ℕ
  pub content : MatchStatsRes

-- `acct_of` is the account that the repository finds, `online` whether the bus knows its node. The bus
-- is taken to answer; where it fails, the pushes that are left are dropped.
unfoldable pub push_match_stats :
    (ℕ → Account) → (ℕ → Bool) → ℕ → List MatchResult → List MatchResult → List StatsPush
unfolding build_stats_res
push_match_stats acct_of online match_id players [] = []
push_match_stats acct_of online match_id players (pr ∷ prs) =
    let rest = push_match_stats acct_of online match_id players prs in
    if online pr.account_id
    then record { target = pr.account_id; content = build_stats_res acct_of match_id pr players }
      ∷ rest
    else rest

abbrev pub pushed : List StatsPush → Option ℕ × Db → Option (ℕ × List StatsPush) × Db
pushed pushes (none, db) = (none, db)
pushed pushes (some n, db) = (some (n, pushes), db)

-- `none` is the error that leaves the message pending, for another delivery; a message without a
-- match id is dropped.
unfoldable pub handle_match_result :
    (ℕ → Connection)
    → (ℕ → Account)
    → (ℕ → Bool)
    → ℕ
    → List MatchResult
    → Db
    → Option (ℕ × List StatsPush) × Db
unfolding settle_all push_match_stats
handle_match_result conn acct_of online match_id players db =
    if match_id == 0
    then (some (0, []), db)
    else pushed (push_match_stats acct_of online match_id players players)
        (settle_all conn 0 match_id players db)
