-- ===== src/MatchStats.antt =====
-- The statistics that the lobby shows after a match (src/tcp/matchstats.js). Kills, deaths, damage,
-- points, coins and experience are taken to be below 2^31, where `| 0` leaves them.
pub mod Views
pub mod Worker
mod Tests
use free_fire.Prelude.{
  ℕ, ◌+◌, ◌-◌, ◌*◌, String, Bool, true, false, not, List, [], ◌∷◌, map, filterb, length, get_elem?,
  Option, none, some, if◌then◌else◌, ◌==◌, or_else,
}
use free_fire.Account.{Account}

-- One player's MatchResult data
pub record MatchResult : Type 0 where
  pub account_id : ℕ
  pub win : Bool
  pub kills : ℕ
  pub deaths : ℕ
  pub damage : ℕ
  pub rank_points : ℕ
  pub xp : ℕ
  pub coins : ℕ

pub record TeammateStats : Type 0 where
  pub account_id : ℕ
  pub nickname : String
  pub kills : ℕ
  pub deads : ℕ
  pub assists : ℕ
  pub damage : ℕ
  pub score : ℕ
  pub rank : ℕ
  pub level : ℕ
  pub role : ℕ
  pub avatar_id : ℕ
  pub banner_id : ℕ
  pub head_pic : ℕ
  pub clan_name : String

abbrev pub rank_of : Bool → ℕ
rank_of win = if win then 1 else 2

unfoldable pub teammate_row : MatchResult → Account → TeammateStats
teammate_row pr a = record {
  account_id = pr.account_id;
  nickname = a.nickname;
  kills = pr.kills;
  deads = pr.deaths;
  assists = 0;
  damage = pr.damage;
  score = pr.kills * 100 + pr.damage;
  rank = rank_of pr.win;
  level = or_else a.level 1;
  role = a.role;
  avatar_id = a.selected_items.avatar_id;
  banner_id = a.selected_items.banner_id;
  head_pic = a.selected_items.head_pic;
  clan_name = a.clan_name;
}

abbrev pub same_team : MatchResult → MatchResult → Bool
same_team pr x = if x.win then pr.win else not pr.win

abbrev pub other_team : MatchResult → MatchResult → Bool
other_team pr x = not (same_team pr x)

unfoldable pub team_kills : (MatchResult → Bool) → List MatchResult → ℕ
team_kills p [] = 0
team_kills p (x ∷ xs) = (if p x then x.kills else 0) + team_kills p xs

unfoldable pub rows : (ℕ → Account) → (MatchResult → Bool) → List MatchResult → List TeammateStats
unfolding teammate_row
rows acct_of p players = map (λ x. teammate_row x (acct_of x.account_id)) (filterb p players)

pub record MatchIncome : Type 0 where
  pub exp : ℕ
  pub coins : ℕ
  pub rank_points : ℕ
  pub level_before : ℕ
  pub level_after : ℕ
  pub coins_before : ℕ
  pub coins_after : ℕ

pub record MatchStatsRes : Type 0 where
  pub account_id : ℕ
  pub match_id : ℕ
  pub level : ℕ
  pub kills : ℕ
  pub deaths : ℕ
  pub damage : ℕ
  pub rank : ℕ
  pub ranking_points : ℕ
  pub game_mode : ℕ
  pub player_count : ℕ
  pub weapon_skin : Option ℕ
  pub teams_game_point : ℕ × ℕ
  pub teammates : List TeammateStats
  pub opponents : List TeammateStats
  pub income : MatchIncome

abbrev pub egamemode_cs : ℕ
egamemode_cs = 15

-- `acct_of` gives an account without fields where there is none. The nested messages are kept
-- decoded, and the level, which they all repeat, is one field.
unfoldable pub build_stats_res : (ℕ → Account) → ℕ → MatchResult → List MatchResult → MatchStatsRes
unfolding team_kills rows
build_stats_res acct_of match_id pr players =
    let a = acct_of pr.account_id in
    let level = or_else a.level 1 in
    record {
      account_id = pr.account_id;
      match_id = match_id;
      level = level;
      kills = pr.kills;
      deaths = pr.deaths;
      damage = pr.damage;
      rank = rank_of pr.win;
      ranking_points = pr.rank_points;
      game_mode = egamemode_cs;
      player_count = length players;
      weapon_skin = get_elem? a.selected_items.slots 0;
      teams_game_point = (team_kills (same_team pr) players, team_kills (other_team pr) players);
      teammates = rows acct_of (same_team pr) players;
      opponents = rows acct_of (other_team pr) players;
      income = record {
        exp = pr.xp;
        coins = pr.coins;
        rank_points = pr.rank_points;
        level_before = level;
        level_after = level;
        coins_before = a.coins - pr.coins;
        coins_after = a.coins;
      };
    }
