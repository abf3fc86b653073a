-- ===== src/ReplayGuard/Alarms.antt =====
-- When the replay guard calls a request a replay, and how large its map grows
-- (src/protocol/replayGuard.js).
use free_fire.Prelude.{
  ℕ, zero, suc, ◌+◌, ◌-◌, ◌≤◌, ◌≡◌, refl, sym, subst, ◌∙◌, Bool, true, false, ◌||◌, ◌&&◌, List, [],
  ◌∷◌, ◌++◌, any, not, length, drop, ◌==◌, ltb, leb, arith, Bool-cases, inl, inr, length-drop,
  append-nil, All,
}
use free_fire.ReplayGuard.{
  Config, Mark, Guard, drop_expired, cap, sweep, has_sig, expiry_of, delete_sig, swept, recorded,
  is_live, is_replay,
}
use free_fire.ReplayGuard.Held.{Request, run}

module _ (P : Mark → Type 0) where
  All-drop : (n : ℕ) (ms : List Mark) → All P ms → All P (drop n ms)
  All-drop zero ms h = h
  All-drop (suc n) [] h = h
  All-drop (suc n) (m ∷ ms) h = All-drop n ms h.1

  All-drop_expired : (now : ℕ) (ms : List Mark) → All P ms → All P (drop_expired now ms)
  unfolding drop_expired
  All-drop_expired now [] h = h
  All-drop_expired now (m ∷ ms) h = elim (Bool-cases (leb m.expiry now)) [
    | inl e ↦ rw e (All-drop_expired now ms h.1)
    | inr e ↦ rw e h
  ]

  All-sweep : (c : Config) (now : ℕ) (ms : List Mark) → All P ms → All P (sweep c now ms)
  unfolding sweep cap
  All-sweep c now ms h = All-drop _ _ (All-drop_expired now ms h)

  All-delete_sig : (sig : ℕ) (ms : List Mark) → All P ms → All P (delete_sig sig ms)
  All-delete_sig sig [] h = h
  All-delete_sig sig (m ∷ ms) h = elim (Bool-cases (has_sig sig m)) [
    | inl e ↦ rw e (All-delete_sig sig ms h.1)
    | inr e ↦ rw e (h.0, All-delete_sig sig ms h.1)
  ]

  All-append : (ms : List Mark) (m : Mark) → All P ms → P m → All P (ms ++ m ∷ [])
  All-append [] m h p = (p, h)
  All-append (x ∷ ms) m h p = (h.0, All-append ms m h.1 p)

  All-swept : (c : Config) (now : ℕ) (g : Guard) → All P g.seen → All P (swept c now g).seen
  All-swept c now g h = elim (Bool-cases (ltb 1000 (now - g.last_sweep))) [
    | inl e ↦ rw e (All-sweep c now g.seen h)
    | inr e ↦ rw e h
  ]

  All-recorded :
      (c : Config) (now sig : ℕ) (ms : List Mark)
      → All P ms
      → P (record { sig = sig; expiry = now + c.window })
      → All P (recorded c now sig ms)
  All-recorded c now sig ms h p =
      let marked = delete_sig sig ms ++ record { sig = sig; expiry = now + c.window } ∷ [] in
      let k = All-append (delete_sig sig ms) _ (All-delete_sig sig ms h) p in
      elim (Bool-cases (ltb c.max (length marked))) [
        | inl e ↦ rw e (All-sweep c now marked k)
        | inr e ↦ rw e k
      ]

  All-is_replay :
      (c : Config) (r : Request) (g : Guard)
      → All P g.seen
      → ((r.empty || r.excluded) ≡ false → P (record { sig = r.sig; expiry = r.now + c.window }))
      → All P (is_replay c r.empty r.excluded r.sig r.now g).1.seen
  unfolding is_replay
  All-is_replay c r g h p =
      let k = All-swept c r.now g h in
      elim (Bool-cases (not c.enabled || r.empty || r.excluded)) [
        | inl e ↦ rw e h
        | inr e ↦ elim (Bool-cases (is_live r.now (expiry_of r.sig (swept c r.now g).seen))) [
          | inl f ↦ rw (e, f) k
          | inr f ↦ rw (e, f) (All-recorded c r.now r.sig _ k (p (ground arith)))
        ]
      ]

-- A request that leaves a mark with this signature and expiry
abbrev makes : Config → Mark → Request → Bool
makes c m r = not (r.empty || r.excluded) && r.sig == m.sig && r.now + c.window == m.expiry

abbrev Made : Config → List Request → Mark → Type 0
Made c rs m = any (makes c m) rs ≡ true

any-moved :
    (p : Request → Bool) (r : Request) (rs ss : List Request)
    → any p (rs ++ r ∷ ss) ≡ any p (r ∷ rs ++ ss)
any-moved p r [] ss = refl
any-moved p r (x ∷ rs) ss = ground (arith, any-moved p r rs ss)

All-Made :
    (c : Config) (rs ss : List Request) (ms : List Mark)
    → ((m : Mark) → Made c rs m → Made c ss m)
    → All (Made c rs) ms
    → All (Made c ss) ms
All-Made c rs ss [] f h = h
All-Made c rs ss (m ∷ ms) f h = (f m h.0, All-Made c rs ss ms f h.1)

All-run :
    (c : Config) (rs ss : List Request) (g : Guard)
    → All (Made c ss) g.seen
    → All (Made c (rs ++ ss)) (run c rs g).seen
unfolding run
All-run c [] ss g h = h
All-run c (r ∷ rs) ss g h =
    let k = All-Made c ss (r ∷ ss) g.seen (λ m e. ground arith) h in
    let l = All-is_replay (Made c (r ∷ ss)) c r g k (λ e. ground arith) in
    All-Made c (rs ++ r ∷ ss) (r ∷ rs ++ ss) _ (λ m e. sym (any-moved (makes c m) r rs ss) ∙ e)
      (All-run c rs (r ∷ ss) _ l)

any_mono :
    (p q : Request → Bool)
    → ((r : Request) → p r ≡ true → q r ≡ true)
    → (rs : List Request) → any p rs ≡ true
    → any q rs ≡ true
any_mono p q f [] h = h
any_mono p q f (r ∷ rs) h = elim (Bool-cases (p r)) [
  | inl e ↦ rw (f r e) refl
  | inr e ↦ let rest = any_mono p q f rs (ground arith) in ground arith
]

-- A recorded request with this signature, less than a window ago.
abbrev pub repeats : Config → ℕ → ℕ → Request → Bool
repeats c sig now r = not (r.empty || r.excluded) && r.sig == sig && ltb now (r.now + c.window)

live-repeats :
    (c : Config) (rs : List Request) (sig now : ℕ) (ms : List Mark)
    → All (Made c rs) ms
    → is_live now (expiry_of sig ms) ≡ true
    → any (repeats c sig now) rs ≡ true
live-repeats c rs sig now [] h l = absurd (ground arith)
live-repeats c rs sig now (m ∷ ms) h l = elim (Bool-cases (has_sig sig m)) [
  | inl e ↦ any_mono (makes c m) (repeats c sig now) (λ r k. ground arith) rs h.0
  | inr e ↦ live-repeats c rs sig now ms h.1 (ground arith)
]

abbrev pub initial : Guard
initial = record { seen = []; last_sweep = 0 }

-- A request is called a replay only where one with the same signature, of an endpoint that is guarded
-- and with a body, came before, less than a window ago.
pub is_replay-repeats :
    (c : Config) (rs : List Request) (empty excluded : Bool) (sig now : ℕ)
    → (is_replay c empty excluded sig now (run c rs initial)).0 ≡ true
    → any (repeats c sig now) rs ≡ true
unfolding is_replay
is_replay-repeats c rs empty excluded sig now h =
    let before = run c rs initial in
    let all = All-swept (Made c (rs ++ [])) c now before (All-run c rs [] initial tt) in
    let live : is_live now (expiry_of sig (swept c now before).seen) ≡ true = ground arith in
    subst (λ ss. any (repeats c sig now) ss ≡ true) (append-nil rs)
      (live-repeats c (rs ++ []) sig now _ all live)

length-cap : (max : ℕ) (ms : List Mark) → length (cap max ms) ≤ max
unfolding cap
length-cap max ms = omega (arith, length-drop (length ms - max) ms)

length-swept :
    (c : Config) (now : ℕ) (g : Guard) → length g.seen ≤ c.max → length (swept c now g).seen ≤ c.max
unfolding sweep
length-swept c now g h = elim (Bool-cases (ltb 1000 (now - g.last_sweep))) [
  | inl e ↦ rw e (length-cap c.max (drop_expired now g.seen))
  | inr e ↦ rw e h
]

length-recorded :
    (c : Config) (now sig : ℕ) (ms : List Mark) → length (recorded c now sig ms) ≤ c.max
unfolding sweep
length-recorded c now sig ms =
    let marked = delete_sig sig ms ++ record { sig = sig; expiry = now + c.window } ∷ [] in
    elim (Bool-cases (ltb c.max (length marked))) [
      | inl e ↦ rw e (length-cap c.max (drop_expired now marked))
      | inr e ↦ rw e (ground arith)
    ]

length-is_replay :
    (c : Config) (r : Request) (g : Guard)
    → length g.seen ≤ c.max
    → length (is_replay c r.empty r.excluded r.sig r.now g).1.seen ≤ c.max
unfolding is_replay
length-is_replay c r g h = elim (Bool-cases (not c.enabled || r.empty || r.excluded)) [
  | inl e ↦ rw e h
  | inr e ↦ elim (Bool-cases (is_live r.now (expiry_of r.sig (swept c r.now g).seen))) [
    | inl f ↦ rw (e, f) (length-swept c r.now g h)
    | inr f ↦ rw (e, f) (length-recorded c r.now r.sig (swept c r.now g).seen)
  ]
]

-- However many requests arrive, the map never holds more than the configured number of signatures.
pub length-run :
    (c : Config) (rs : List Request) (g : Guard)
    → length g.seen ≤ c.max
    → length (run c rs g).seen ≤ c.max
unfolding run
length-run c [] g h = h
length-run c (r ∷ rs) g h =
    length-run c rs (is_replay c r.empty r.excluded r.sig r.now g).1 (length-is_replay c r g h)
