-- ===== src/MatchStats/Views.antt =====
-- Which players of a match the statistics show on which side (src/tcp/matchstats.js).
use free_fire.Prelude.{
  ℕ, ◌+◌, ◌*◌, ◌≡◌, refl, ap, Bool, true, false, not, List, [], ◌∷◌, filterb, if◌then◌else◌, arith,
  Bool-cases, inl, inr,
}
use free_fire.Account.{Account}
use free_fire.MatchStats.{
  MatchResult, TeammateStats, teammate_row, same_team, other_team, team_kills, rows,
  build_stats_res,
}

abbrev pub winners : List MatchResult → List MatchResult
winners = filterb (λ x. x.win)

abbrev pub losers : List MatchResult → List MatchResult
losers = filterb (λ x. not x.win)

abbrev pub total_kills : List MatchResult → ℕ
total_kills [] = 0
total_kills (x ∷ xs) = x.kills + total_kills xs

-- The rows show these players, one each and in order, with their own numbers, all at this rank.
abbrev pub Shows : (ℕ → Account) → ℕ → List TeammateStats → List MatchResult → Type 0
Shows acct_of rank [] [] = Unit
Shows acct_of rank [] (x ∷ xs) = ⊥
Shows acct_of rank (row ∷ rs) [] = ⊥
Shows acct_of rank (row ∷ rs) (x ∷ xs) =
    (row.account_id ≡ x.account_id)
    × (row.nickname ≡ (acct_of x.account_id).nickname)
    × (row.kills ≡ x.kills)
    × (row.deads ≡ x.deaths)
    × (row.damage ≡ x.damage)
    × (row.score ≡ x.kills * 100 + x.damage)
    × (row.rank ≡ rank)
    × Shows acct_of rank rs xs

rows-Shows :
    (acct_of : ℕ → Account) (rank : ℕ) (p q : MatchResult → Bool)
    → ((x : MatchResult) → p x ≡ q x)
    → ((x : MatchResult) → q x ≡ true → (if x.win then 1 else 2) ≡ rank)
    → (players : List MatchResult) → Shows acct_of rank (rows acct_of p players) (filterb q players)
unfolding rows teammate_row
rows-Shows acct_of rank p q h r [] = tt
rows-Shows acct_of rank p q h r (x ∷ xs) =
    let ih = rows-Shows acct_of rank p q h r xs in
    elim (Bool-cases (q x)) [
      | inl e ↦ rw (h x, e) (refl, refl, refl, refl, refl, refl, r x e, ih)
      | inr e ↦ rw (h x, e) ih
    ]

team_kills-total :
    (p q : MatchResult → Bool)
    → ((x : MatchResult) → p x ≡ q x)
    → (players : List MatchResult) → team_kills p players ≡ total_kills (filterb q players)
unfolding team_kills
team_kills-total p q h [] = refl
team_kills-total p q h (x ∷ xs) = elim (Bool-cases (q x)) [
  | inl e ↦ rw (h x, e) (ap (λ n. x.kills + n) (team_kills-total p q h xs))
  | inr e ↦ rw (h x, e) (omega (arith, team_kills-total p q h xs))
]

sides :
    (acct_of : ℕ → Account) (win : Bool) (p q : MatchResult → Bool)
    → ((x : MatchResult) → p x ≡ (if win then x.win else not x.win))
    → ((x : MatchResult) → q x ≡ (if win then not x.win else x.win))
    → (players : List MatchResult)
    → let own = if win then winners players else losers players in
      let others = if win then losers players else winners players in
      Shows acct_of (if win then 1 else 2) (rows acct_of p players) own
      × Shows acct_of (if win then 2 else 1) (rows acct_of q players) others
      × (team_kills p players ≡ total_kills own)
      × (team_kills q players ≡ total_kills others)
sides acct_of true p q mine theirs players = (
  rows-Shows acct_of 1 p (λ x. x.win) mine (λ x h. ground arith) players,
  rows-Shows acct_of 2 q (λ x. not x.win) theirs (λ x h. ground arith) players,
  team_kills-total p (λ x. x.win) mine players,
  team_kills-total q (λ x. not x.win) theirs players,
)
sides acct_of false p q mine theirs players = (
  rows-Shows acct_of 2 p (λ x. not x.win) mine (λ x h. ground arith) players,
  rows-Shows acct_of 1 q (λ x. x.win) theirs (λ x h. ground arith) players,
  team_kills-total p (λ x. not x.win) mine players,
  team_kills-total q (λ x. x.win) theirs players,
)

-- A winner is shown the players that won as teammates, at rank 1, and those that lost as opponents,
-- at rank 2, and a loser the other way round: each player once, in order, with their own numbers.
-- Each side's points are the kills of its players.
pub build_stats_res-sides :
    (acct_of : ℕ → Account) (match_id : ℕ) (pr : MatchResult) (players : List MatchResult)
    → let r = build_stats_res acct_of match_id pr players in
      let own = if pr.win then winners players else losers players in
      let others = if pr.win then losers players else winners players in
      Shows acct_of (if pr.win then 1 else 2) r.teammates own
      × Shows acct_of (if pr.win then 2 else 1) r.opponents others
      × (r.teams_game_point.0 ≡ total_kills own)
      × (r.teams_game_point.1 ≡ total_kills others)
unfolding build_stats_res
build_stats_res-sides acct_of match_id pr players =
    sides acct_of pr.win (same_team pr) (other_team pr) (λ x. ground arith) (λ x. ground arith)
      players
