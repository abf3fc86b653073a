-- ===== src/ReplayGuard/Held.antt =====
-- The requests that the replay guard sees, and a mark that it still holds
-- (src/protocol/replayGuard.js).
use free_fire.Prelude.{
  ℕ, zero, suc, ◌+◌, ◌-◌, ◌≤◌, ◌<◌, ◌≡◌, refl, ap, sym, subst, ◌∙◌, Bool, true, false, ◌||◌, List,
  [], ◌∷◌, ◌++◌, some, any, not, length, drop, if◌then◌else◌, ltb, leb, arith, Bool-cases, inl, inr,
  length-append, drop-append, append_assoc,
}
use free_fire.ReplayGuard.{
  Config, Mark, Guard, drop_expired, cap, sweep, has_sig, expiry_of, delete_sig, swept, is_live,
  is_replay,
}

pub record Request : Type 0 where
  pub empty : Bool
  pub excluded : Bool
  pub sig : ℕ
  pub now : ℕ

unfoldable pub run : Config → List Request → Guard → Guard
unfolding is_replay
run c [] g = g
run c (r ∷ rs) g = run c rs (is_replay c r.empty r.excluded r.sig r.now g).1

-- A list holds a mark with at most `n` newer ones, and no older one with its signature.
pub record Holds (m : Mark) (n : ℕ) (ms : List Mark) : Type 0 where
  pub older : List Mark
  pub newer : List Mark
  pub split : ms ≡ older ++ m ∷ newer
  pub first : any (has_sig m.sig) older ≡ false
  pub few : length newer ≤ n

Holds-expiry :
    (m : Mark) (n : ℕ) (ms : List Mark) → Holds m n ms → expiry_of m.sig ms ≡ some m.expiry
Holds-expiry m n ms h = rw h.split (go h.older h.first)
  where
    go :
        (xs : List Mark)
        → any (has_sig m.sig) xs ≡ false
        → expiry_of m.sig (xs ++ m ∷ h.newer) ≡ some m.expiry
    go [] e = ground arith
    go (x ∷ xs) e = let e' : has_sig m.sig x ≡ false = ground arith in rw e' (go xs (ground arith))

pub Holds-is_live :
    (m : Mark) (n sig now : ℕ) (ms : List Mark)
    → now < m.expiry
    → has_sig sig m ≡ true
    → Holds m n ms
    → is_live now (expiry_of sig ms) ≡ true
Holds-is_live m n sig now ms live s h =
    let same : sig ≡ m.sig = ground arith in rw (same, Holds-expiry m n ms h) (ground arith)

Holds-drop_expired :
    (now : ℕ) (m : Mark) (n : ℕ) (xs ys : List Mark)
    → now < m.expiry
    → any (has_sig m.sig) xs ≡ false
    → length ys ≤ n
    → Holds m n (drop_expired now (xs ++ m ∷ ys))
unfolding drop_expired
Holds-drop_expired now m n [] ys l e f =
    let live : leb m.expiry now ≡ false = ground arith in
    rw live (record { older = []; newer = ys; split = refl; first = refl; few = f })
Holds-drop_expired now m n (x ∷ xs) ys l e f = elim (Bool-cases (leb x.expiry now)) [
  | inl d ↦ rw d (Holds-drop_expired now m n xs ys l (ground arith) f)
  | inr d ↦ rw d (record { older = x ∷ xs; newer = ys; split = refl; first = e; few = f })
]

any-drop : (p : Mark → Bool) (k : ℕ) (xs : List Mark) → any p xs ≡ false → any p (drop k xs) ≡ false
any-drop p zero xs e = e
any-drop p (suc k) [] e = refl
any-drop p (suc k) (x ∷ xs) e = any-drop p k xs (ground arith)

Holds-cap :
    (max : ℕ) (m : Mark) (n : ℕ) (ms : List Mark) → n < max → Holds m n ms → Holds m n (cap max ms)
unfolding cap
Holds-cap max m n ms l h =
    let k = length ms - max in
    let size : length ms ≡ length h.older + suc (length h.newer) =
      ap length h.split ∙ length-append h.older (m ∷ h.newer) in
    let small : k ≤ length h.older = omega (arith, size, h.few) in
    record {
      older = drop k h.older;
      newer = h.newer;
      split = ap (drop k) h.split ∙ drop-append k h.older (m ∷ h.newer) small;
      first = any-drop (has_sig m.sig) k h.older h.first;
      few = h.few;
    }

Holds-weaken : (m : Mark) (n : ℕ) (ms : List Mark) → Holds m n ms → Holds m (suc n) ms
Holds-weaken m n ms h = record {
  older = h.older;
  newer = h.newer;
  split = h.split;
  first = h.first;
  few = omega (arith, h.few);
}

Holds-sweep :
    (c : Config) (now : ℕ) (m : Mark) (n : ℕ) (ms : List Mark)
    → now < m.expiry
    → n < c.max
    → Holds m n ms
    → Holds m n (sweep c now ms)
unfolding sweep
Holds-sweep c now m n ms live l h = Holds-cap c.max m n (drop_expired now ms) l (
    subst (λ xs. Holds m n (drop_expired now xs)) (sym h.split)
      (Holds-drop_expired now m n h.older h.newer live h.first h.few))

pub Holds-swept :
    (c : Config) (now : ℕ) (m : Mark) (n : ℕ) (g : Guard)
    → now < m.expiry
    → n < c.max
    → Holds m n g.seen
    → Holds m n (swept c now g).seen
Holds-swept c now m n g live l h = elim (Bool-cases (ltb 1000 (now - g.last_sweep))) [
  | inl e ↦ rw e (Holds-sweep c now m n g.seen live l h)
  | inr e ↦ rw e h
]

delete_sig-append :
    (sig : ℕ) (xs ys : List Mark)
    → delete_sig sig (xs ++ ys) ≡ delete_sig sig xs ++ delete_sig sig ys
delete_sig-append sig [] ys = refl
delete_sig-append sig (x ∷ xs) ys = elim (Bool-cases (has_sig sig x)) [
  | inl e ↦ rw e (delete_sig-append sig xs ys)
  | inr e ↦ rw e (ap (λ zs. x ∷ zs) (delete_sig-append sig xs ys))
]

any-delete_sig :
    (p : Mark → Bool) (sig : ℕ) (xs : List Mark)
    → any p xs ≡ false
    → any p (delete_sig sig xs) ≡ false
any-delete_sig p sig [] e = refl
any-delete_sig p sig (x ∷ xs) e = elim (Bool-cases (has_sig sig x)) [
  | inl d ↦ rw d (any-delete_sig p sig xs (ground arith))
  | inr d ↦
      let fails : p x ≡ false = ground arith in
      rw (d, fails) (any-delete_sig p sig xs (ground arith))
]

length-delete_sig : (sig : ℕ) (xs : List Mark) → length (delete_sig sig xs) ≤ length xs
length-delete_sig sig [] = omega arith
length-delete_sig sig (x ∷ xs) = elim (Bool-cases (has_sig sig x)) [
  | inl d ↦ rw d (omega (arith, length-delete_sig sig xs))
  | inr d ↦ rw d (omega (arith, length-delete_sig sig xs))
]

abbrev pub capped : Config → ℕ → List Mark → List Mark
capped c now ms = if ltb c.max (length ms) then sweep c now ms else ms

pub Holds-capped :
    (c : Config) (now : ℕ) (m : Mark) (n : ℕ) (ms : List Mark)
    → now < m.expiry
    → n < c.max
    → Holds m n ms
    → Holds m n (capped c now ms)
Holds-capped c now m n ms live l h = elim (Bool-cases (ltb c.max (length ms))) [
  | inl e ↦ rw e (Holds-sweep c now m n ms live l h)
  | inr e ↦ rw e h
]

Holds-other :
    (sig : ℕ) (m new : Mark) (n : ℕ) (ms : List Mark)
    → has_sig sig m ≡ false
    → Holds m n ms
    → Holds m (suc n) (delete_sig sig ms ++ new ∷ [])
Holds-other sig m new n ms other h =
    let newer = delete_sig sig h.newer ++ new ∷ [] in
    record {
      older = delete_sig sig h.older;
      newer = newer;
      split =
          ap (λ xs. delete_sig sig xs ++ new ∷ []) h.split
          ∙ ap (λ xs. xs ++ new ∷ []) (delete_sig-append sig h.older (m ∷ h.newer) ∙ rw other refl)
          ∙ append_assoc (delete_sig sig h.older) (m ∷ delete_sig sig h.newer) (new ∷ []);
      first = any-delete_sig (has_sig m.sig) sig h.older h.first;
      few = omega (
        arith,
        length-append (delete_sig sig h.newer) (new ∷ []),
        length-delete_sig sig h.newer,
        h.few,
      );
    }

pub Holds-is_replay :
    (c : Config) (r : Request) (m : Mark) (n : ℕ) (g : Guard)
    → r.now < m.expiry
    → suc n < c.max
    → Holds m n g.seen
    → Holds m (suc n) (is_replay c r.empty r.excluded r.sig r.now g).1.seen
unfolding is_replay
Holds-is_replay c r m n g live l h =
    let k = Holds-swept c r.now m n g live (omega (arith, l)) h in
    elim (Bool-cases (not c.enabled || r.empty || r.excluded)) [
      | inl e ↦ rw e (Holds-weaken m n g.seen h)
      | inr e ↦ elim (Bool-cases (is_live r.now (expiry_of r.sig (swept c r.now g).seen))) [
        | inl f ↦ rw (e, f) (Holds-weaken m n _ k)
        | inr f ↦ elim (Bool-cases (has_sig r.sig m)) [
          | inl s ↦ absurd (ground (arith, Holds-is_live m n r.sig r.now _ live s k))
          | inr s ↦
              rw (e, f) (Holds-capped c r.now m (suc n) _ live l (Holds-other r.sig m _ n _ s k))
        ]
      ]
    ]
