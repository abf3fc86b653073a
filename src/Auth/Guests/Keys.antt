-- ===== src/Auth/Guests/Keys.antt =====
-- What the operations do to the keys of the guests (auth/shared/src/repositories/guests.pg.js).
use free_fire.Prelude.{
  ℕ, ◌≡◌, refl, ap, Bool, false, ◌||◌, some, List, [], ◌∷◌, ◌++◌, map, any, find, ◌==◌, arith,
  Bool-cases, inl, inr,
}
use mathlib.Core.Option
use free_fire.Auth.Guests.{Guest, has_open_id, find_by_dc_id, clashes, insert_user, update_guest}

-- What names a guest, with the flag that blocks it.
pub record Keys : Type 0 where
  pub open_id : ℕ
  pub uid : ℕ
  pub dc_id : ℕ
  pub renovation : Bool

abbrev pub keys_of : Guest → Keys
keys_of g = record { open_id = g.open_id; uid = g.uid; dc_id = g.dc_id; renovation = g.renovation }

abbrev pub clash : Keys → Keys → Bool
clash k l = k.open_id == l.open_id || k.uid == l.uid || k.dc_id == l.dc_id

abbrev pub with_dc_id : ℕ → Keys → Bool
with_dc_id dc_id k = k.dc_id == dc_id

any-clash :
    (g : Guest) (gs : List Guest) → any (clash (keys_of g)) (map keys_of gs) ≡ any (clashes g) gs
any-clash g [] = refl
any-clash g (h ∷ gs) = ap (λ b. clashes g h || b) (any-clash g gs)

map-append : (gs hs : List Guest) → map keys_of (gs ++ hs) ≡ map keys_of gs ++ map keys_of hs
map-append [] hs = refl
map-append (g ∷ gs) hs = ap (λ ks. keys_of g ∷ ks) (map-append gs hs)

pub keys_of-insert_user :
    (g : Guest) (gs hs : List Guest)
    → insert_user g gs ≡ some hs
    → (any (clash (keys_of g)) (map keys_of gs) ≡ false)
      × (map keys_of hs ≡ map keys_of gs ++ keys_of g ∷ [])
unfolding insert_user
keys_of-insert_user g gs hs h = elim (Bool-cases (any (clashes g) gs)) [
  | inl e ↦ ground arith
  | inr e ↦ ground (arith, any-clash g gs, map-append gs (g ∷ []))
]

pub keys_of-update_guest :
    (open_id : ℕ) (f : Guest → Guest)
    → ((g : Guest) → keys_of (f g) ≡ keys_of g)
    → (gs : List Guest) → map keys_of (update_guest open_id f gs) ≡ map keys_of gs
unfolding update_guest
keys_of-update_guest open_id f same [] = refl
keys_of-update_guest open_id f same (g ∷ gs) = elim (Bool-cases (has_open_id open_id g)) [
  | inl e ↦ rw (e, same g, keys_of-update_guest open_id f same gs) refl
  | inr e ↦ rw (e, keys_of-update_guest open_id f same gs) refl
]

pub find_by_dc_id-keys_of :
    (dc_id : ℕ) (gs : List Guest)
    → Option.map keys_of (find_by_dc_id dc_id gs) ≡ find (with_dc_id dc_id) (map keys_of gs)
unfolding find_by_dc_id
find_by_dc_id-keys_of dc_id [] = refl
find_by_dc_id-keys_of dc_id (g ∷ gs) = elim (Bool-cases (g.dc_id == dc_id)) [
  | inl e ↦ rw e refl
  | inr e ↦ rw (e, find_by_dc_id-keys_of dc_id gs) refl
]

pub find-append :
    (p : Keys → Bool) (ks ls : List Keys) (k : Keys)
    → find p ks ≡ some k
    → find p (ks ++ ls) ≡ some k
find-append p [] ls k h = ground arith
find-append p (j ∷ ks) ls k h = elim (Bool-cases (p j)) [
  | inl e ↦ rw e (cc)
  | inr e ↦ rw e (find-append p ks ls k (ground arith))
]

-- A new guest is found behind guests that have not its Discord id.
pub find_new :
    (ks : List Keys) (k : Keys)
    → any (clash k) ks ≡ false
    → find (with_dc_id k.dc_id) (ks ++ k ∷ []) ≡ some k
find_new [] k h = ground arith
find_new (j ∷ ks) k h =
    let other : with_dc_id k.dc_id j ≡ false = ground arith in
    rw other (find_new ks k (ground arith))
