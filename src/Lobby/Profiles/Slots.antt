-- ===== src/Lobby/Profiles/Slots.antt =====
-- The slots of the selected items (`syncSelectedItemsFromProfile` of src/handlers/_shared.js).
use free_fire.Prelude.{
  ℕ, zero, suc, ◌≤◌, ◌<◌, ◌≡◌, refl, ap, ◌∙◌, Bool, true, false, Option, none, some, List, [], ◌∷◌,
  if◌then◌else◌, ◌==◌, ltb, length, get_elem?, arith, Bool-cases, inl, inr, length-set,
  get_elem?-set, length-replicate,
}
use free_fire.Lobby.Profiles.{
  Skill, Profile, Selected, put_skill, put_skills, default_slots, sync_selected_items_from_profile,
}

length-put_skill : (slots : List ℕ) (s : Skill) → length (put_skill slots s) ≡ length slots
length-put_skill slots s = elim (Bool-cases (ltb s.slot_id (length slots))) [
  | inl e ↦ rw e (length-set slots s.slot_id s.skill_id)
  | inr e ↦ rw e refl
]

length-put_skills : (slots : List ℕ) (ss : List Skill) → length (put_skills slots ss) ≡ length slots
unfolding put_skills
length-put_skills slots [] = refl
length-put_skills slots (s ∷ ss) =
    length-put_skills (put_skill slots s) ss ∙ length-put_skill slots s

abbrev pub or_old : Option ℕ → Option ℕ → Option ℕ
or_old none old = old
or_old (some k) old = some k

-- The skill that a profile last puts in a slot.
unfoldable pub last_skill : ℕ → List Skill → Option ℕ
last_skill slot [] = none
last_skill slot (s ∷ ss) =
    or_old (last_skill slot ss) (if s.slot_id == slot then some s.skill_id else none)

or_old-later :
    (o old : Option ℕ) (b : Bool) (v : ℕ)
    → or_old o (if b then some v else old) ≡ or_old (or_old o (if b then some v else none)) old
or_old-later none old true v = refl
or_old-later none old false v = refl
or_old-later (some k) old b v = refl

get_elem?-some : (xs : List ℕ) (k : ℕ) → k < length xs → (x : ℕ) × (get_elem? xs k ≡ some x)
get_elem?-some [] k l = absurd (omega arith)
get_elem?-some (x ∷ xs) zero l = (x, refl)
get_elem?-some (x ∷ xs) (suc k) l = get_elem?-some xs k (omega arith)

put_skill-get :
    (slots : List ℕ) (s : Skill) (k : ℕ)
    → k < length slots
    → get_elem? (put_skill slots s) k
      ≡ (if s.slot_id == k then some s.skill_id else get_elem? slots k)
put_skill-get slots s k l =
    let (x, here) = get_elem?-some slots k l in
    elim (Bool-cases (ltb s.slot_id (length slots))) [
      | inl e ↦ rw e (get_elem?-set slots s.slot_id k s.skill_id ∙ rw here refl)
      | inr e ↦ (let other : (s.slot_id == k) ≡ false = ground arith in rw (e, other) refl)
    ]

put_skills-get :
    (slots : List ℕ) (ss : List Skill) (k : ℕ)
    → k < length slots
    → get_elem? (put_skills slots ss) k ≡ or_old (last_skill k ss) (get_elem? slots k)
unfolding put_skills last_skill
put_skills-get slots [] k l = refl
put_skills-get slots (s ∷ ss) k l =
    let l' : k < length (put_skill slots s) = omega (arith, l, length-put_skill slots s) in
    put_skills-get (put_skill slots s) ss k l'
    ∙ ap (or_old (last_skill k ss)) (put_skill-get slots s k l)
    ∙ or_old-later (last_skill k ss) (get_elem? slots k) (s.slot_id == k) s.skill_id

length-default_slots :
    (slots : List ℕ)
    → length (default_slots slots) ≡ (if length slots == 0 then 16 else length slots)
length-default_slots [] = length-replicate {A = ℕ} 16 0
length-default_slots (s ∷ ss) = ground arith

get_elem?-none : (xs : List ℕ) (k : ℕ) → length xs ≤ k → get_elem? xs k ≡ none
get_elem?-none [] k l = refl
get_elem?-none (x ∷ xs) zero l = absurd (omega arith)
get_elem?-none (x ∷ xs) (suc k) l = get_elem?-none xs k (omega arith)

-- Synchronising the selected items with a profile keeps the number of slots, or makes 16 of none, and
-- every slot then has the skill that the profile puts there last, or else what it had, with 0 in new
-- ones: a skill for a slot beyond the end changes nothing.
pub sync_selected_items-slots :
    (p : Profile) (s : Selected) (k : ℕ)
    → let before = default_slots s.slots in
      let after = (sync_selected_items_from_profile p s).slots in
      (length after ≡ (if length s.slots == 0 then 16 else length s.slots))
      × (get_elem? after k ≡ (
          if ltb k (length before)
          then or_old (last_skill k p.equiped_skills) (get_elem? before k)
          else none))
unfolding sync_selected_items_from_profile
sync_selected_items-slots p s k =
    let before = default_slots s.slots in
    let size = length-put_skills before p.equiped_skills in
    (
      size ∙ length-default_slots s.slots,
      elim (Bool-cases (ltb k (length before))) [
        | inl e ↦ rw e (put_skills-get before p.equiped_skills k (ground arith))
        | inr e ↦
            rw e (get_elem?-none (put_skills before p.equiped_skills) k (ground (arith, size)))
      ],
    )
