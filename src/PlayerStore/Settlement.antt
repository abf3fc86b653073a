-- ===== src/PlayerStore/Settlement.antt =====
-- `settleMatchResult` of src/db/repo/postgres.js.
pub mod Ledger
use free_fire.Prelude.{
  ℕ, zero, suc, ◌+◌, ◌%◌, ◌^◌, String, Bool, true, false, not, ◌||◌, ◌&&◌, Option, none, some, List,
  [], ◌∷◌, ◌++◌, if◌then◌else◌, ◌==◌, ltb, any,
}
use mathlib.Core.Option

-- A player's entry of a MatchResult message
pub record PlayerResult : Type 0 where
  pub account_id : ℕ
  pub coins : ℕ
  pub kills : ℕ
  pub deaths : ℕ
  pub win : Bool
  pub rank_points : ℕ
  pub xp : ℕ

-- `n | 0` as the 32 bits it keeps; as a number it is negative from 2^31 on.
abbrev pub to_int32 : ℕ → ℕ
to_int32 n = n % 2 ^ 32

abbrev pub is_positive : ℕ → Bool
is_positive bits = ltb 0 bits && ltb bits (2 ^ 31)

-- A row of match_results; its signed columns as their 32 bits.
pub record ResultRow : Type 0 where
  pub match_id : ℕ
  pub account_id : ℕ
  pub coins : ℕ
  pub kills : ℕ
  pub deaths : ℕ
  pub win : Bool
  pub rank_points : ℕ
  pub xp : ℕ
  pub settled_at : ℕ

-- `balance` is the `coins` of an account's state, for the accounts that have a row.
pub record Db : Type 0 where
  pub results : List ResultRow
  pub balance : ℕ → Option ℕ

abbrev pub is_settled : ℕ → ℕ → List ResultRow → Bool
is_settled match_id account = any (λ r. r.match_id == match_id && r.account_id == account)

abbrev row_of : ℕ → ℕ → PlayerResult → ResultRow
row_of match_id now pr = record {
  match_id = match_id;
  account_id = pr.account_id;
  coins = to_int32 pr.coins;
  kills = to_int32 pr.kills;
  deaths = to_int32 pr.deaths;
  win = pr.win;
  rank_points = to_int32 pr.rank_points;
  xp = to_int32 pr.xp;
  settled_at = now;
}

-- The UPDATE of one account's coins; it touches no row if the account has none.
unfoldable pub credit : ℕ → ℕ → (ℕ → Option ℕ) → ℕ → Option ℕ
credit account amount balance a =
    if a == account then Option.map (λ c. c + amount) (balance a) else balance a

-- What the statements of the transaction meet: the clock, and which of them fail.
pub record Connection : Type 0 where
  pub now : ℕ
  pub insert_fails : Bool
  pub update_fails : Bool
  pub commit_fails : Bool

pub record Settled : Type 0 where
  pub fresh : Bool
  pub credited : Bool

-- `none` is the error that is thrown on after the ROLLBACK.
unfoldable pub settle_match_result : Connection → ℕ → PlayerResult → Db → Option Settled × Db
settle_match_result c match_id pr db =
    let fresh = not (is_settled match_id pr.account_id db.results) in
    let credited = fresh && is_positive (to_int32 pr.coins) in
    let results = if fresh then db.results ++ row_of match_id c.now pr ∷ [] else db.results in
    let balance =
      if credited then credit pr.account_id (to_int32 pr.coins) db.balance else db.balance in
    if c.insert_fails || (credited && c.update_fails) || c.commit_fails then (none, db) else (
      some (record { fresh = fresh; credited = credited }),
      record { results = results; balance = balance },
    )
