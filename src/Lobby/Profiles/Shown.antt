-- ===== src/Lobby/Profiles/Shown.antt =====
-- What the handlers do to the profile that the selected items show (src/handlers/SelectProfile.js,
-- ChangeClothes.js, EquipSkill.js).
use free_fire.Prelude.{
  ℕ, ◌≡◌, refl, ap, sym, subst, ◌∙◌, Bool, true, false, not, ◌&&◌, some, List, [], ◌∷◌, map, any,
  ◌==◌, arith, Bool-cases, Option-cases, inl, inr, All,
}
use free_fire.Lobby.Profiles.{
  Profile, Selected, select, last_of, sync_selected_items_from_profile, ClothesReq, dress,
  update_profile, of_avatar, wear, put_slot,
}

-- The selected items show a profile, if that is selected.
abbrev pub Shown : Selected → Profile → Type 0
Shown s p =
    p.is_selected ≡ true
    → (p.avatar_id ≡ s.avatar_id) × (p.skin_color ≡ s.skin_color) × (p.clothes ≡ s.clothes)

abbrev pub distinct : List Profile → Bool
distinct [] = true
distinct (p ∷ ps) = not (any (λ q. q.avatar_id == p.avatar_id) ps) && distinct ps

-- A change that keeps the avatars
any-map :
    (f : Profile → Profile)
    → ((p : Profile) → (f p).avatar_id ≡ p.avatar_id)
    → (id : ℕ) (ps : List Profile)
    → any (λ q. q.avatar_id == id) (map f ps) ≡ any (λ q. q.avatar_id == id) ps
any-map f same id [] = refl
any-map f same id (p ∷ ps) = rw (same p, any-map f same id ps) refl

pub distinct-map :
    (f : Profile → Profile)
    → ((p : Profile) → (f p).avatar_id ≡ p.avatar_id)
    → (ps : List Profile) → distinct (map f ps) ≡ distinct ps
distinct-map f same [] = refl
distinct-map f same (p ∷ ps) =
    rw (same p, any-map f same p.avatar_id ps, distinct-map f same ps) refl

any-update_profile :
    (id : ℕ) (f : Profile → Profile)
    → ((p : Profile) → (f p).avatar_id ≡ p.avatar_id)
    → (k : ℕ) (ps : List Profile)
    → any (λ q. q.avatar_id == k) (update_profile id f ps) ≡ any (λ q. q.avatar_id == k) ps
unfolding update_profile
any-update_profile id f same k [] = refl
any-update_profile id f same k (p ∷ ps) = elim (Bool-cases (p.avatar_id == id)) [
  | inl e ↦ rw (e, same p) refl
  | inr e ↦ rw (e, any-update_profile id f same k ps) refl
]

pub distinct-update_profile :
    (id : ℕ) (f : Profile → Profile)
    → ((p : Profile) → (f p).avatar_id ≡ p.avatar_id)
    → (ps : List Profile) → distinct (update_profile id f ps) ≡ distinct ps
unfolding update_profile
distinct-update_profile id f same [] = refl
distinct-update_profile id f same (p ∷ ps) = elim (Bool-cases (p.avatar_id == id)) [
  | inl e ↦ rw (e, same p) refl
  | inr e ↦
      rw (e, any-update_profile id f same p.avatar_id ps, distinct-update_profile id f same ps) refl
]

none_selected :
    (id : ℕ) (s : Selected) (ps : List Profile)
    → any (λ q. q.avatar_id == id) ps ≡ false
    → All (Shown s) (map (select id) ps)
none_selected id s [] h = tt
none_selected id s (p ∷ ps) h = ((λ e. absurd (ground arith)), none_selected id s ps (ground arith))

last_of-any :
    (id : ℕ) (ps : List Profile) (q : Profile)
    → last_of id (map (select id) ps) ≡ some q
    → any (λ r. r.avatar_id == id) ps ≡ true
unfolding last_of
last_of-any id [] q h = absurd (ground arith)
last_of-any id (p ∷ ps) q h = elim (Option-cases (last_of id (map (select id) ps))) [
  | inl e ↦ ground arith
  | inr (r, e) ↦ (let rest = last_of-any id ps r e in ground arith)
]

pub select-Shown :
    (id : ℕ) (s : Selected) (ps : List Profile) (q : Profile)
    → distinct ps ≡ true
    → last_of id (map (select id) ps) ≡ some q
    → All (Shown (sync_selected_items_from_profile q s)) (map (select id) ps)
unfolding last_of sync_selected_items_from_profile
select-Shown id s [] q d h = tt
select-Shown id s (p ∷ ps) q d h = elim (Option-cases (last_of id (map (select id) ps))) [
  | inl e ↦
      (let same : select id p ≡ q = ground arith in
        let mine : p.avatar_id ≡ id = ground arith in
        subst (λ x. All (Shown (sync_selected_items_from_profile x s)) (map (select id) (p ∷ ps)))
          same
          (
            (λ z. (refl, refl, refl)),
            none_selected id (sync_selected_items_from_profile (select id p) s) ps
                (rw⁻¹ mine (ground arith)),
          ))
  | inr (r, e) ↦
      (let there = last_of-any id ps r e in
        let later : last_of id (map (select id) ps) ≡ some q = ground arith in
        (
          (λ z.
              (let mine : p.avatar_id ≡ id = ground arith in
                let there' : any (λ x. x.avatar_id == p.avatar_id) ps ≡ true = rw mine there in
                absurd (ground arith))),
          select-Shown id s ps q (ground arith) later,
        ))
]

-- No profile of the shown avatar is among these, so none of them is selected.
none_shown :
    (s t : Selected) (ps : List Profile)
    → any (λ q. q.avatar_id == s.avatar_id) ps ≡ false
    → All (Shown s) ps
    → All (Shown t) ps
none_shown s t [] h k = tt
none_shown s t (p ∷ ps) h k =
    ((λ z. (let same = (k.0 z).0 in absurd (ground arith))), none_shown s t ps (ground arith) k.1)

wear-Shown : (p : Profile) (s : Selected) → Shown (wear p s) p
wear-Shown p s = λ z. rw z (refl, refl, refl)

unworn :
    (req : ClothesReq) (p : Profile) (s : Selected)
    → p.is_selected ≡ false
    → wear (dress req p) s ≡ s
unworn req p s f = rw f refl

pub change-Shown :
    (req : ClothesReq) (id : ℕ) (s : Selected) (ps : List Profile) (p : Profile)
    → distinct ps ≡ true
    → of_avatar id ps ≡ some p
    → (p.is_selected ≡ true → s.avatar_id ≡ id)
    → All (Shown s) ps
    → All (Shown (wear (dress req p) s)) (update_profile id (dress req) ps)
unfolding update_profile
change-Shown req id s [] p d h mine k = tt
change-Shown req id s (r ∷ ps) p d h mine k = elim (Bool-cases (r.avatar_id == id)) [
  | inl e ↦
      (let here : r ≡ p = ground arith in
        let id' : r.avatar_id ≡ id = ground arith in
        rw e (
          subst (λ x. Shown (wear (dress req p) s) (dress req x)) (sym here)
              (wear-Shown (dress req p) s),
          elim (Bool-cases p.is_selected) [
            | inl f ↦ none_shown s (wear (dress req p) s) ps (rw (mine f, ← id') (ground arith)) k.1
            | inr f ↦ subst (λ x. All (Shown x) ps) (sym (unworn req p s f)) k.1
          ],
        ))
  | inr e ↦ rw e (
    elim (Bool-cases p.is_selected) [
      | inl f ↦ λ z. (let same = (k.0 z).0 in let shown = mine f in absurd (ground arith))
      | inr f ↦ subst (λ x. Shown x r) (sym (unworn req p s f)) k.0
    ],
    change-Shown req id s ps p (ground arith) (ground arith) mine k.1,
  )
]

pub equip-Shown :
    (id slot skill : ℕ) (s : Selected) (ps : List Profile)
    → All (Shown s) ps
    → All (Shown s) (
        update_profile id
          (λ q. record q { equiped_skills = put_slot slot skill q.equiped_skills })
          ps)
unfolding update_profile
equip-Shown id slot skill s [] k = tt
equip-Shown id slot skill s (p ∷ ps) k = elim (Bool-cases (p.avatar_id == id)) [
  | inl e ↦ rw e k
  | inr e ↦ rw e (k.0, equip-Shown id slot skill s ps k.1)
]

pub of_avatar-shown :
    (id : ℕ) (s : Selected) (ps : List Profile) (p : Profile)
    → of_avatar id ps ≡ some p
    → All (Shown s) ps
    → p.is_selected ≡ true
    → s.avatar_id ≡ id
of_avatar-shown id s [] p h k z = absurd (ground arith)
of_avatar-shown id s (r ∷ ps) p h k z = elim (Bool-cases (r.avatar_id == id)) [
  | inl e ↦
      (let here : r ≡ p = ground arith in
        let same = (k.0 (ap (λ x. x.is_selected) here ∙ z)).0 in ground arith)
  | inr e ↦ of_avatar-shown id s ps p (ground arith) k.1 z
]
