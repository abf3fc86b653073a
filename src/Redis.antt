-- ===== src/Redis.antt =====
-- The Redis commands that src/bus/index.js passes on for the shared hashes: HSET, HGET, HDEL and
-- HGETALL, on numeric fields. The service is a parameter; its documented behaviour is the laws.
pub mod Lists
use free_fire.Prelude.{ℕ, ◌≡◌, Option, none, some, List, ◌==◌, if◌then◌else◌}

pub record Redis : Type 1 where
  pub Map : Type 0 → Type 0
  pub no_fields : {V : Type 0} → Map V
  pub get : {V : Type 0} → Map V → ℕ → Option V
  pub put : {V : Type 0} → Map V → ℕ → V → Map V
  pub remove : {V : Type 0} → Map V → ℕ → Map V
  pub entries : {V : Type 0} → Map V → List (ℕ × V)
  pub get-no_fields : {V : Type 0} (k : ℕ) → get (no_fields {V = V}) k ≡ none
  pub get-put :
      {V : Type 0} (m : Map V) (k j : ℕ) (v : V)
      → get (put m k v) j ≡ (if k == j then some v else get m j)
  pub get-remove :
      {V : Type 0} (m : Map V) (k j : ℕ) → get (remove m k) j ≡ (if k == j then none else get m j)

module _ ⦃redis : Redis⦄ where
  abbrev pub Hash : Type 0 → Type 0
  Hash = redis.Map

module _ ⦃redis : Redis⦄ {V : Type 0} where
  abbrev pub no_fields : Hash V
  no_fields = redis.no_fields

  abbrev pub hget : Hash V → ℕ → Option V
  hget = redis.get

  abbrev pub hset : Hash V → ℕ → V → Hash V
  hset = redis.put

  abbrev pub hdel : Hash V → ℕ → Hash V
  hdel = redis.remove

  abbrev pub hgetall : Hash V → List (ℕ × V)
  hgetall = redis.entries

  pub hget-hset :
      (m : Hash V) (k j : ℕ) (v : V) → hget (hset m k v) j ≡ (if k == j then some v else hget m j)
  hget-hset = redis.get-put

  pub hget-hdel : (m : Hash V) (k j : ℕ) → hget (hdel m k) j ≡ (if k == j then none else hget m j)
  hget-hdel = redis.get-remove

pub ruleset hash_laws = (hget-hset, hget-hdel)
