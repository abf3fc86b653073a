-- ===== src/ReplayGuard/Window.antt =====
-- A request that comes again within the window (src/protocol/replayGuard.js).
use free_fire.Prelude.{
  ℕ, suc, ◌+◌, ◌≤◌, ◌<◌, ◌≡◌, refl, subst, true, false, List, [], ◌∷◌, any, length, arith,
  Bool-cases, inl, inr, All,
}
use free_fire.ReplayGuard.{
  Config, Mark, Guard, has_sig, expiry_of, delete_sig, swept, is_live, is_replay,
}
use free_fire.ReplayGuard.Held.{
  Holds-is_live, Holds-swept, Holds-capped, Holds-is_replay, Holds, Request, run,
}

Holds-run :
    (c : Config) (rs : List Request) (m : Mark) (n : ℕ) (g : Guard)
    → All (λ r. r.now < m.expiry) rs
    → n + length rs < c.max
    → Holds m n g.seen
    → Holds m (n + length rs) (run c rs g).seen
unfolding run
Holds-run c [] m n g live l h = record {
  older = h.older;
  newer = h.newer;
  split = h.split;
  first = h.first;
  few = omega (arith, h.few);
}
Holds-run c (r ∷ rs) m n g live l h =
    let g' = (is_replay c r.empty r.excluded r.sig r.now g).1 in
    let k =
      Holds-run c rs m (suc n) g' live.1 (omega (arith, l))
        (Holds-is_replay c r m n g live.0 (omega (arith, l)) h) in
    subst (λ j. Holds m j (run c rs g').seen) (omega arith) k

abbrev mark : Config → ℕ → ℕ → Mark
mark c sig now = record { sig = sig; expiry = now + c.window }

any-deleted : (sig : ℕ) (ms : List Mark) → any (has_sig sig) (delete_sig sig ms) ≡ false
any-deleted sig [] = refl
any-deleted sig (m ∷ ms) = elim (Bool-cases (has_sig sig m)) [
  | inl e ↦ rw e (any-deleted sig ms)
  | inr e ↦ rw (e, e) (any-deleted sig ms)
]

Holds-fresh :
    (c : Config) (sig now : ℕ) (g : Guard)
    → c.enabled ≡ true
    → 0 < c.window
    → 0 < c.max
    → (is_replay c false false sig now g).0 ≡ false
    → Holds (mark c sig now) 0 (is_replay c false false sig now g).1.seen
unfolding is_replay
Holds-fresh c sig now g on w l new =
    elim (Bool-cases (is_live now (expiry_of sig (swept c now g).seen))) [
      | inl f ↦ absurd (ground arith)
      | inr f ↦
          rw (on, f)
            (Holds-capped c now (mark c sig now) 0 _ (omega arith) l (record {
              older = delete_sig sig (swept c now g).seen;
              newer = [];
              split = refl;
              first = any-deleted sig (swept c now g).seen;
              few = omega arith;
            }))
    ]

is_replay-live :
    (c : Config) (sig now : ℕ) (g : Guard)
    → c.enabled ≡ true
    → is_live now (expiry_of sig (swept c now g).seen) ≡ true
    → (is_replay c false false sig now g).0 ≡ true
unfolding is_replay
is_replay-live c sig now g on live = simp (on, live) refl

-- A request that the enabled guard let pass is a replay when it comes again within the window,
-- whatever other requests came in between before the window's end, fewer of them than the map holds.
pub is_replay-again :
    (c : Config) (sig now later : ℕ) (g : Guard) (rs : List Request)
    → c.enabled ≡ true
    → (is_replay c false false sig now g).0 ≡ false
    → All (λ r. r.now < now + c.window) rs
    → length rs < c.max
    → later < now + c.window
    → now ≤ later
    → (is_replay c false false sig later (run c rs (is_replay c false false sig now g).1)).0 ≡ true
is_replay-again c sig now later g rs on new live few l o =
    let first = Holds-fresh c sig now g on (omega (arith, l, o)) (omega (arith, few)) new in
    let h = Holds-run c rs (mark c sig now) 0 _ live (omega (arith, few)) first in
    let after = run c rs (is_replay c false false sig now g).1 in
    let k = Holds-swept c later (mark c sig now) (0 + length rs) after l (omega (arith, few)) h in
    let seen =
      Holds-is_live (mark c sig now) (0 + length rs) sig later (swept c later after).seen l
        (ground arith) k in
    is_replay-live c sig later after on seen
