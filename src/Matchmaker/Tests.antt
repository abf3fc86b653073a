-- ===== src/Matchmaker/Tests.antt =====
-- Concrete runs of the matchmaker, with a key that keeps its token and its expiry.
use free_fire.Prelude.{
  ℕ, ◌+◌, ◌≤◌, ◌<◌, ◌≡◌, refl, true, false, Option, none, some, List, [], ◌∷◌, if◌then◌else◌, ltb,
  arith, All, any,
}
use free_fire.Redis.{hget}
use free_fire.Redis.Lists.{list_redis}
use free_fire.Matchmaker.Queue.{Mode, Entry}
use free_fire.Matchmaker.Tick.{Config, Service, tick, in_match}
use free_fire.Matchmaker.Matches.{IsMatch, tick_lem}
use free_fire.Matchmaker.Leader.{ExpiringKey, Replicas, leadership, Run, one_fresh_leader}

abbrev classic : Mode
classic = record { match_mode = 1; game_mode = 1; map_id = 2; difficulty = 0 }

abbrev clash : Mode
clash = record { match_mode = 1; game_mode = 5; map_id = 2; difficulty = 0 }

abbrev config : Config
config = record { min_players = 2; timeout_ms = 10000; match_size = 50 }

-- Two players of one mode and one of another, whose wait is not over.
abbrev service : Service
service = record {
  queue =
      (7, record { node = 1; mode = classic; joined_at = 300 })
      ∷ (8, record { node = 1; mode = clash; joined_at = 200 })
      ∷ (9, record { node = 2; mode = classic; joined_at = 100 })
      ∷ [];
  seq = 41;
}

tick_lem_example :
    let t = tick config true false true 1000 service in
    All (IsMatch config) t.formed
    × ((id : ℕ)
        → hget t.service.queue id
          ≡ (if any (in_match id) t.formed then none else hget service.queue id))
tick_lem_example = tick_lem config true false true 1000 service

abbrev waiting : List Entry
waiting =
    record { account_id = 7; node = 1; mode = classic; joined_at = 300 }
    ∷ record { account_id = 9; node = 2; mode = classic; joined_at = 100 }
    ∷ []

abbrev read_key : Option (ℕ × ℕ) → ℕ → Option ℕ
read_key none t = none
read_key (some (a, end)) t = if ltb t end then some a else none

abbrev prolong : Option (ℕ × ℕ) → ℕ → Option (ℕ × ℕ)
prolong none end = none
prolong (some (a, old)) end = some (a, end)

later : (k : Option (ℕ × ℕ)) (t u a : ℕ) → t ≤ u → read_key k u ≡ some a → read_key k t ≡ some a
later none t u a h e = cc
later (some (b, end)) t u a h e = ground arith

prolonged :
    (k : Option (ℕ × ℕ)) (now ttl a t : ℕ)
    → read_key k now ≡ some a
    → now ≤ t
    → read_key (prolong k (now + ttl)) t ≡ (if ltb t (now + ttl) then some a else none)
prolonged none now ttl a t e h = cc
prolonged (some (b, end)) now ttl a t e h = ground arith

instance abbrev one_key : ExpiringKey
one_key = record {
  Key = Option (ℕ × ℕ);
  value = read_key;
  set_nx_px = λ k now a ttl. some (a, now + ttl);
  pexpire = λ k now ttl. prolong k (now + ttl);
  del = λ k. none;
  value-later = later;
  value-set_nx_px = λ k now a ttl t e h. refl;
  value-pexpire = prolonged;
  value-del = λ k t. refl;
}

abbrev standbys : Replicas
standbys = record { lease = none; is_leader = λ r. false; fresh_until = λ r. 0 }

abbrev after_first : Replicas
after_first = leadership 15 standbys 1 10

-- The lease of replica 1, which is still a leader by its flag, ended at 25.
abbrev after_both : Replicas
after_both = leadership 15 after_first 2 30

run : Run 15 standbys 0 after_both 30
run = Run.leads 2 30 (Run.leads 1 10 Run.begin (omega arith)) (omega arith)

second_leads : (after_both.is_leader 2 ≡ true) × (30 < after_both.fresh_until 2)
unfolding leadership
second_leads = (refl, omega arith)

first_leads : after_both.is_leader 1 ≡ true
unfolding leadership
first_leads = refl

one_fresh_leader_example : after_both.fresh_until 1 ≤ 30
one_fresh_leader_example =
    one_fresh_leader (λ r. refl) run 2 1 (λ e. absurd (omega arith)) second_leads first_leads
