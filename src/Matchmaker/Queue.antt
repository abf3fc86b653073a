-- ===== src/Matchmaker/Queue.antt =====
-- The queue `mmqueue` of src/tcp/matchmaker.js: `enqueue`, `cancel` and the entries that a tick reads.
-- An entry is kept decoded, with the numeric field of the hash as its account.
use free_fire.Prelude.{ℕ, Bool, ◌&&◌, List, [], ◌∷◌, if◌then◌else◌, ◌==◌, not}
use free_fire.Redis.{Redis, Hash, hset, hdel}
use free_fire.Account.{Account, account_key}

pub record Mode : Type 0 where
  pub match_mode : ℕ
  pub game_mode : ℕ
  pub map_id : ℕ
  pub difficulty : ℕ

-- Equality of the texts `match_mode:game_mode:map_id:difficulty` that `modeKey` builds.
abbrev pub same_mode : Mode → Mode → Bool
same_mode a b =
    a.match_mode == b.match_mode
    && a.game_mode == b.game_mode
    && a.map_id == b.map_id
    && a.difficulty == b.difficulty

pub record Entry : Type 0 where
  pub account_id : ℕ
  pub node : ℕ
  pub mode : Mode
  pub joined_at : ℕ

-- The JSON value of the hash, which has no account of its own.
pub record Waiting : Type 0 where
  pub node : ℕ
  pub mode : Mode
  pub joined_at : ℕ

-- `e = JSON.parse(raw[id]); e.accountId = Number(id)`
abbrev pub read_entries : List (ℕ × Waiting) → List Entry
read_entries [] = []
read_entries ((id, w) ∷ rest) =
    record { account_id = id; node = w.node; mode = w.mode; joined_at = w.joined_at }
    ∷ read_entries rest

-- HDEL of several fields
abbrev pub ids : List Entry → List ℕ
ids [] = []
ids (e ∷ es) = e.account_id ∷ ids es

module _ ⦃redis : Redis⦄ where
  unfoldable pub enqueue : Bool → ℕ → ℕ → Account → Mode → Hash Waiting → Hash Waiting
  enqueue bus_up node now account mode queue =
      if not bus_up
      then queue
      else if account_key account == 0
      then queue
      else hset queue (account_key account) (record { node = node; mode = mode; joined_at = now })

  unfoldable pub cancel : Bool → ℕ → Hash Waiting → Hash Waiting
  cancel bus_up account queue =
      if not bus_up then queue else if account == 0 then queue else hdel queue account

  unfoldable pub hdel_all : List ℕ → Hash Waiting → Hash Waiting
  hdel_all [] queue = queue
  hdel_all (k ∷ ks) queue = hdel_all ks (hdel queue k)
