-- ===== src/Matchmaker/Matches.antt =====
-- What the matches of a tick look like (src/tcp/matchmaker.js).
use free_fire.Prelude.{
  ℕ, suc, zero, ◌≤◌, ◌≡◌, refl, Bool, true, not, ◌&&◌, none, List, [], ◌∷◌, if◌then◌else◌, length,
  any, All, arith, take, length-take, Bool-cases, inl, inr,
}
use free_fire.Redis.{Redis, hget, hgetall}
use free_fire.Matchmaker.Queue.{Mode, same_mode, Entry, read_entries}
use free_fire.Matchmaker.Groups.{
  ModeGroup, insert_entry, sort_entries, AllOneMode, group_entries-AllOneMode,
}
use free_fire.Matchmaker.Tick.{
  Config, is_due, Formed, Service, Ticked, form_match, run_groups, run_groups-queue, tick, in_match,
}

module _ (P : Entry → Type 0) where
  All-insert : (e : Entry) (xs : List Entry) → P e → All P xs → All P (insert_entry e xs)
  unfolding insert_entry
  All-insert e [] p h = (p, tt)
  All-insert e (x ∷ xs) p h = ground (arith, All-insert e xs p h.1)

  All-sort : (xs : List Entry) → All P xs → All P (sort_entries xs)
  unfolding sort_entries
  All-sort [] h = tt
  All-sort (e ∷ xs) h = All-insert e (sort_entries xs) h.0 (All-sort xs h.1)

  All-take : (n : ℕ) (xs : List Entry) → All P xs → All P (take n xs)
  All-take zero xs h = tt
  All-take (suc n) [] h = tt
  All-take (suc n) (x ∷ xs) h = (h.0, All-take n xs h.1)

-- Not empty, no larger than the cap, and of one mode.
pub record IsMatch (c : Config) (f : Formed) : Type 0 where
  pub some_player : 1 ≤ length f.players
  pub capped : length f.players ≤ c.match_size
  pub one_mode : All (λ e. same_mode f.mode e.mode ≡ true) f.players

same_mode-swap : (g m n : Mode) → same_mode g m ≡ true → same_mode g n ≡ true → same_mode m n ≡ true
same_mode-swap g m n h k = ground arith

one_mode_of :
    (g m : Mode) (xs : List Entry)
    → same_mode g m ≡ true
    → All (λ e. same_mode g e.mode ≡ true) xs
    → All (λ e. same_mode m e.mode ≡ true) xs
one_mode_of g m [] h k = tt
one_mode_of g m (x ∷ xs) h k = (same_mode-swap g m x.mode h k.0, one_mode_of g m xs h k.1)

module _ ⦃redis : Redis⦄ where
  form_match-IsMatch :
      (c : Config) (mode : Mode) (es : List Entry) (v : Service) (rest : Service → Ticked)
      → length es ≤ c.match_size
      → All (λ e. same_mode mode e.mode ≡ true) es
      → ((w : Service) → All (IsMatch c) (rest w).formed)
      → All (IsMatch c) (form_match es v rest).formed
  unfolding form_match
  form_match-IsMatch c mode [] v rest cap one h = tt
  form_match-IsMatch c mode (e ∷ es) v rest cap one h = (
    record {
      some_player = omega arith;
      capped = cap;
      one_mode = one_mode_of mode e.mode (e ∷ es) one.0 one;
    },
    h _,
  )

  run_groups-IsMatch :
      (c : Config) (now : ℕ) (gs : List ModeGroup) (v : Service)
      → AllOneMode gs
      → All (IsMatch c) (run_groups c now gs v).formed
  unfolding run_groups
  run_groups-IsMatch c now [] v h = tt
  run_groups-IsMatch c now (g ∷ gs) v h =
      elim (Bool-cases (is_due c now (sort_entries g.entries))) [
        | inl due ↦ rw due (
            form_match-IsMatch c g.mode (take c.match_size (sort_entries g.entries)) v
              (run_groups c now gs)
              (omega (arith, length-take c.match_size (sort_entries g.entries)))
              (All-take _ c.match_size _ (All-sort _ g.entries h.0))
              (λ w. run_groups-IsMatch c now gs w h.1))
        | inr no_match ↦ rw no_match (run_groups-IsMatch c now gs v h.1)
      ]

  -- A tick forms matches that are not empty, hold at most `match_size` players and are all of one
  -- mode; it takes exactly their players out of the queue and leaves every other entry as it was.
  pub tick_lem :
      (c : Config) (is_leader ticking bus_up : Bool) (now : ℕ) (v : Service)
      → let t = tick c is_leader ticking bus_up now v in
        All (IsMatch c) t.formed
        × ((id : ℕ)
            → hget t.service.queue id
              ≡ (if any (in_match id) t.formed then none else hget v.queue id))
  unfolding tick
  tick_lem c is_leader ticking bus_up now v =
      elim (Bool-cases (is_leader && not ticking && bus_up)) [
        | inl go ↦ rw go (
          run_groups-IsMatch c now _ v
              (group_entries-AllOneMode (read_entries (hgetall v.queue)) [] tt),
          λ id. run_groups-queue c now _ v id,
        )
        | inr stay ↦ rw stay (tt, λ id. refl)
      ]
