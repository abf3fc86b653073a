-- ===== src/Matchmaker/Tick.antt =====
-- `tick` and `formMatch` of src/tcp/matchmaker.js. Presence (bus.getNode) and accounts
-- (getRepo().getById) are arguments. What a `SussNtf` carries is not modelled.
use free_fire.Prelude.{
  ℕ, ◌+◌, ◌≡◌, refl, Bool, not, ◌||◌, ◌&&◌, Option, none, some, List, [], ◌∷◌, if◌then◌else◌, ◌==◌,
  leb, length, any, arith, take, Bool-cases, inl, inr,
}
use free_fire.Redis.{Redis, Hash, hget, hdel, hgetall, hget-hdel}
use free_fire.Account.{Account}
use free_fire.Matchmaker.Queue.{Mode, Entry, Waiting, read_entries, ids, hdel_all}
use free_fire.Matchmaker.Groups.{ModeGroup, group_entries, sort_entries}

pub record Config : Type 0 where
  pub min_players : ℕ
  pub timeout_ms : ℕ
  pub match_size : ℕ

-- `enough || timedOut`
abbrev pub is_due : Config → ℕ → List Entry → Bool
is_due c now entries =
    leb c.min_players (length entries) || any (λ e. leb (e.joined_at + c.timeout_ms) now) entries

pub record Formed : Type 0 where
  pub match_id : ℕ
  pub mode : Mode
  pub players : List Entry

-- The players of a formed match that get a SussNtf: those online whose account is there.
unfoldable pub notified : (ℕ → Bool) → (ℕ → Option Account) → List Entry → List (ℕ × Account)
notified online account_of [] = []
notified online account_of (e ∷ es) =
    if online e.account_id
    then (elim (account_of e.account_id) [
      | none ↦ notified online account_of es
      | some a ↦ (e.account_id, a) ∷ notified online account_of es
    ])
    else notified online account_of es

module _ ⦃redis : Redis⦄ where
  pub record Service : Type 0 where
    pub queue : Hash Waiting
    pub seq : ℕ

  pub record Ticked : Type 0 where
    pub formed : List Formed
    pub service : Service

  -- One group of `tick`'s loop with the rest of the loop. A match of no players would read
  -- `entries[0].mode` of nothing, which throws and ends the tick.
  unfoldable pub form_match : List Entry → Service → (Service → Ticked) → Ticked
  form_match [] v rest = record { formed = []; service = record v { seq = v.seq + 1 } }
  form_match (e ∷ es) v rest =
      let t = rest (record { queue = hdel_all (ids (e ∷ es)) v.queue; seq = v.seq + 1 }) in
      record {
        formed = record { match_id = v.seq + 1; mode = e.mode; players = e ∷ es } ∷ t.formed;
        service = t.service;
      }

  unfoldable pub run_groups : Config → ℕ → List ModeGroup → Service → Ticked
  unfolding form_match
  run_groups c now [] v = record { formed = []; service = v }
  run_groups c now (g ∷ gs) v =
      let rest = run_groups c now gs in
      let entries = sort_entries g.entries in
      if is_due c now entries then form_match (take c.match_size entries) v rest else rest v

  -- The guards of `tick`; `ticking` is set for as long as a tick runs.
  unfoldable pub tick : Config → Bool → Bool → Bool → ℕ → Service → Ticked
  tick c is_leader ticking bus_up now v =
      if is_leader && not ticking && bus_up
      then run_groups c now (group_entries (read_entries (hgetall v.queue)) []) v
      else record { formed = []; service = v }

  abbrev pub plays : ℕ → Entry → Bool
  plays id e = e.account_id == id

  abbrev pub in_match : ℕ → Formed → Bool
  in_match id f = any (plays id) f.players

  hget-hdel_all :
      (es : List Entry) (q : Hash Waiting) (id : ℕ)
      → hget (hdel_all (ids es) q) id ≡ (if any (plays id) es then none else hget q id)
  unfolding hdel_all
  hget-hdel_all [] q id = refl
  hget-hdel_all (e ∷ es) q id =
      ground (arith, hget-hdel_all es (hdel q e.account_id) id, hget-hdel q e.account_id id)

  form_match-queue :
      (es : List Entry) (v : Service) (rest : Service → Ticked) (id : ℕ)
      → ((w : Service)
          → hget (rest w).service.queue id
            ≡ (if any (in_match id) (rest w).formed then none else hget w.queue id))
      → let t = form_match es v rest in
        hget t.service.queue id ≡ (if any (in_match id) t.formed then none else hget v.queue id)
  unfolding form_match
  form_match-queue [] v rest id h = refl
  form_match-queue (e ∷ es) v rest id h = ground (
    arith,
    hget-hdel_all (e ∷ es) v.queue id,
    h (record { queue = hdel_all (ids (e ∷ es)) v.queue; seq = v.seq + 1 }),
  )

  -- After the loop, who is in a formed match is out of the queue, and everybody else is there as before.
  pub run_groups-queue :
      (c : Config) (now : ℕ) (gs : List ModeGroup) (v : Service) (id : ℕ)
      → let t = run_groups c now gs v in
        hget t.service.queue id ≡ (if any (in_match id) t.formed then none else hget v.queue id)
  unfolding run_groups
  run_groups-queue c now [] v id = refl
  run_groups-queue c now (g ∷ gs) v id = elim (Bool-cases (is_due c now (sort_entries g.entries))) [
    | inl due ↦ rw due (
        form_match-queue (take c.match_size (sort_entries g.entries)) v (run_groups c now gs) id
          (λ w. run_groups-queue c now gs w id))
    | inr no_match ↦ rw no_match (run_groups-queue c now gs v id)
  ]
