-- ===== src/Rooms/Seats/Free.antt =====
-- The seat that a joiner gets: `pickTeam` and `freeSeat` of src/tcp/rooms.js.
use free_fire.Prelude.{
  ℕ, zero, suc, ◌+◌, ◌-◌, ◌⊎◌, ltb, ◌*◌, ◌≤◌, ◌<◌, ◌≡◌, refl, sym, ◌∙◌, true, false, none, some,
  Option-cases, Bool-cases, inl, inr, List, [], ◌∷◌, if◌then◌else◌, ◌==◌, length, any, arith,
  or_else,
}
use free_fire.Rooms.Record.{Member, Room}
use free_fire.Rooms.Seats.{
  team_count, pick_team, per_team_cap, taken_seats, contains, first_free, free_seat, sits_at,
}

without : ℕ → List ℕ → List ℕ
without u [] = []
without u (t ∷ ts) = if t == u then ts else t ∷ without u ts

contains-without : (u s : ℕ) (ts : List ℕ) → u < s → contains (without u ts) s ≡ contains ts s
unfolding without
contains-without u s [] h = refl
contains-without u s (t ∷ ts) h = ground (arith, contains-without u s ts h)

length-without :
    (u : ℕ) (ts : List ℕ) → contains ts u ≡ true → length (without u ts) + 1 ≡ length ts
unfolding without
length-without u [] h = cc
length-without u (t ∷ ts) h = ground (arith, length-without u ts)

first_free-without :
    (n s u : ℕ) (ts : List ℕ) → u < s → first_free n s (without u ts) ≡ first_free n s ts
unfolding first_free
first_free-without zero s u ts h = refl
first_free-without (suc n) s u ts h =
    rw (contains-without u s ts h, first_free-without n (suc s) u ts (omega arith))

-- The pigeonhole: where no seat of `n` is free, at least `n` are taken.
first_free-none : (n s : ℕ) (ts : List ℕ) → first_free n s ts ≡ none → n ≤ length ts
unfolding first_free
first_free-none zero s ts h = omega arith
first_free-none (suc n) s ts h = elim (Bool-cases (contains ts s)) [
  | inl e ↦ omega (
    arith,
    length-without s ts e,
    first_free-none n (suc s) (without s ts)
        (first_free-without n (suc s) s ts (omega arith) ∙ (rw e at h)),
  )
  | inr e ↦ ground arith
]

record IsFree (n s : ℕ) (ts : List ℕ) (k : ℕ) : Type 0 where
  pub open_seat : contains ts k ≡ false
  pub above : s ≤ k
  pub below : k < s + n

first_free-some : (n s : ℕ) (ts : List ℕ) (k : ℕ) → first_free n s ts ≡ some k → IsFree n s ts k
unfolding first_free
first_free-some zero s ts k h = cc
first_free-some (suc n) s ts k h = elim (Bool-cases (contains ts s)) [
  | inl e ↦ ground (arith, first_free-some n (suc s) ts k)
  | inr e ↦ ground arith
]

length-taken_seats : (g : ℕ) (ms : List Member) → length (taken_seats g ms) ≡ team_count g ms
unfolding taken_seats team_count
length-taken_seats g [] = refl
length-taken_seats g (m ∷ ms) = ground (arith, length-taken_seats g ms)

contains-taken_seats :
    (g k : ℕ) (ms : List Member) → contains (taken_seats g ms) k ≡ any (sits_at g k) ms
unfolding taken_seats
contains-taken_seats g k [] = refl
contains-taken_seats g k (m ∷ ms) = ground (arith, contains-taken_seats g k ms)

team_count-le-length : (ms : List Member) → team_count 1 ms + team_count 2 ms ≤ length ms
unfolding team_count
team_count-le-length [] = omega arith
team_count-le-length (m ∷ ms) = ground (arith, team_count-le-length ms)

-- The team that `pick_team` names has at most half of the members.
pick_team-half : (ms : List Member) → team_count (pick_team ms) ms * 2 ≤ length ms
unfolding pick_team
pick_team-half ms = ground (arith, team_count-le-length ms)

per_team_cap-half : (n : ℕ) → n ≤ per_team_cap n * 2
unfolding per_team_cap
per_team_cap-half n = ground arith

-- Below the room's limit the team that `pick_team` names has a free seat, and `free_seat` finds one:
-- within the team's capacity, and taken by nobody of that team.
pub free_seat-found :
    (room : Room)
    → length room.members < room.max_member_num
    → (k : ℕ) × (free_seat room (pick_team room.members) ≡ some k)
      × (k < per_team_cap room.max_member_num)
      × (any (sits_at (pick_team room.members) k) room.members ≡ false)
unfolding free_seat
free_seat-found room h =
    let ms = room.members in
    let g = pick_team ms in
    let cap = per_team_cap room.max_member_num in
    let taken = taken_seats g ms in
    elim (Option-cases (first_free cap 0 taken)) [
      | inl e ↦ absurd (
          omega (
            arith,
            first_free-none cap 0 taken e,
            length-taken_seats g ms,
            pick_team-half ms,
            per_team_cap-half room.max_member_num,
          ))
      | inr (k, e) ↦
          let f = first_free-some cap 0 taken k e in
          (k, e, omega (arith, f.below), sym (contains-taken_seats g k ms) ∙ f.open_seat)
    ]

-- The team it names is 1 or 2, and so its own group.
pub pick_team_range : (ms : List Member) → (1 ≤ pick_team ms) × (pick_team ms ≤ 2)
unfolding pick_team
pick_team_range ms = ground arith

pub or_else-pick_team : (ms : List Member) → or_else (pick_team ms) 1 ≡ pick_team ms
or_else-pick_team ms = ground (arith, pick_team_range ms)

-- The team that `pick_team` names has no more members than the other.
pub pick_team-smaller :
    (ms : List Member)
    → ((pick_team ms ≡ 1) ⊎ (pick_team ms ≡ 2))
      × (team_count (pick_team ms) ms ≤ team_count (3 - pick_team ms) ms)
unfolding pick_team
pick_team-smaller ms = elim (Bool-cases (ltb (team_count 2 ms) (team_count 1 ms))) [
  | inl e ↦ rw e (inr refl, ground arith)
  | inr e ↦ rw e (inl refl, ground arith)
]
