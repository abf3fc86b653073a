-- ===== src/Lobby/Profiles.antt =====
-- Profiles and selected items: src/handlers/SelectProfile.js, ChangeClothes.js, EquipSkill.js,
-- ChooseEmote.js, ChooseSlots.js, ChooseShow.js and ChooseLoadout.js with the helpers of
-- src/handlers/_shared.js that they call. A number that is missing is 0, a list that is missing [].
pub mod Shown
pub mod Worn
pub mod Slots
use free_fire.Prelude.{
  ℕ, Bool, true, false, not, Option, none, some, List, [], ◌∷◌, ◌++◌, map, find, if◌then◌else◌,
  ◌==◌, ltb, length, set, replicate, or_else,
}

pub record Skill : Type 0 where
  pub slot_id : ℕ
  pub skill_id : ℕ

pub record Profile : Type 0 where
  pub avatar_id : ℕ
  pub unlocked_level : ℕ
  pub skin_color : ℕ
  pub clothes : List ℕ
  pub equiped_skills : List Skill
  pub is_selected : Bool

pub record Emote : Type 0 where
  pub slot_id : ℕ
  pub emote_id : ℕ

pub record Selected : Type 0 where
  pub avatar_id : ℕ
  pub skin_color : ℕ
  pub banner_id : ℕ
  pub head_pic : ℕ
  pub clothes : List ℕ
  pub slots : List ℕ
  pub shows : List ℕ
  pub loadouts : List ℕ
  pub emotes : List Emote

-- The part of an account that these handlers read and write
pub record Look : Type 0 where
  pub profiles : List Profile
  pub selected : Selected

-- What a handler does to the account that the request loaded, and whether it is saved.
pub record Outcome (A : Type 0) : Type 0 where
  pub reply : Option A
  pub look : Look
  pub is_saved : Bool

-- `profile.is_selected = isSel`
abbrev pub select : ℕ → Profile → Profile
select id p = record p { is_selected = p.avatar_id == id }

-- The profile that the loop leaves in `selected`, the last one.
unfoldable pub last_of : ℕ → List Profile → Option Profile
last_of id [] = none
last_of id (p ∷ ps) = elim (last_of id ps) [
  | some q ↦ some q
  | none ↦ if p.avatar_id == id then some p else none
]

abbrev pub put_skill : List ℕ → Skill → List ℕ
put_skill slots s = if ltb s.slot_id (length slots) then set slots s.slot_id s.skill_id else slots

unfoldable pub put_skills : List ℕ → List Skill → List ℕ
put_skills slots [] = slots
put_skills slots (s ∷ ss) = put_skills (put_skill slots s) ss

abbrev pub default_slots : List ℕ → List ℕ
default_slots [] = replicate 16 0
default_slots (s ∷ ss) = s ∷ ss

unfoldable pub sync_selected_items_from_profile : Profile → Selected → Selected
unfolding put_skills
sync_selected_items_from_profile p selected = record selected {
  avatar_id = p.avatar_id;
  skin_color = p.skin_color;
  clothes = p.clothes;
  slots = put_skills (default_slots selected.slots) p.equiped_skills;
}

unfoldable pub handle_select_profile : ℕ → Look → Outcome Profile
unfolding last_of sync_selected_items_from_profile
handle_select_profile id look =
    let profiles = map (select id) look.profiles in
    elim (last_of id profiles) [
      | none ↦ record { reply = none; look = record look { profiles = profiles }; is_saved = false }
      | some p ↦ record {
        reply = some (record p { unlocked_level = or_else p.unlocked_level 1; is_selected = true });
        look = record {
          profiles = profiles;
          selected = sync_selected_items_from_profile p look.selected;
        };
        is_saved = true;
      }
    ]

pub record ClothesReq : Type 0 where
  pub avatar_id : ℕ
  pub clothes : List ℕ
  pub skin_color : Option ℕ

abbrev pub selected_avatar : List Profile → ℕ
selected_avatar ps = elim (find (λ p. p.is_selected) ps) [ none ↦ 0 | some p ↦ p.avatar_id ]

abbrev pub dress : ClothesReq → Profile → Profile
dress req p = record p {
  clothes = elim req.clothes [ [] ↦ p.clothes | c ∷ cs ↦ c ∷ cs ];
  skin_color = elim req.skin_color [ none ↦ p.skin_color | some s ↦ s ];
}

-- The first profile of an avatar is changed in place.
unfoldable pub update_profile : ℕ → (Profile → Profile) → List Profile → List Profile
update_profile id f [] = []
update_profile id f (p ∷ ps) = if p.avatar_id == id then f p ∷ ps else p ∷ update_profile id f ps

abbrev pub of_avatar : ℕ → List Profile → Option Profile
of_avatar id ps = find (λ p. p.avatar_id == id) ps

abbrev pub wear : Profile → Selected → Selected
wear p selected =
    if p.is_selected
    then record selected { avatar_id = p.avatar_id; skin_color = p.skin_color; clothes = p.clothes }
    else selected

unfoldable pub handle_change_clothes : ClothesReq → Look → Outcome Profile
unfolding update_profile
handle_change_clothes req look =
    let id = or_else req.avatar_id (selected_avatar look.profiles) in
    elim (of_avatar id look.profiles) [
      | none ↦ record { reply = none; look = look; is_saved = false }
      | some p ↦ record {
        reply = some (dress req p);
        look = record {
          profiles = update_profile id (dress req) look.profiles;
          selected = wear (dress req p) look.selected;
        };
        is_saved = true;
      }
    ]

unfoldable pub put_slot : ℕ → ℕ → List Skill → List Skill
put_slot slot skill [] = record { slot_id = slot; skill_id = skill } ∷ []
put_slot slot skill (s ∷ ss) =
    if s.slot_id == slot then record s { skill_id = skill } ∷ ss else s ∷ put_slot slot skill ss

-- `avatar` and `skill` are missing where the request lacks them.
unfoldable pub handle_equip_skill : Option ℕ → Option ℕ → ℕ → Look → Outcome (List Profile)
unfolding update_profile put_slot
handle_equip_skill (some avatar) (some skill) slot look = elim (of_avatar avatar look.profiles) [
  | none ↦ record { reply = some look.profiles; look = look; is_saved = false }
  | some p ↦
      (let profiles =
          update_profile avatar
            (λ q. record q { equiped_skills = put_slot slot skill q.equiped_skills })
            look.profiles in
        record {
          reply = some profiles;
          look = record look { profiles = profiles };
          is_saved = true;
        })
]
handle_equip_skill _ _ slot look = record {
  reply = some look.profiles;
  look = look;
  is_saved = false;
}

unfoldable pub put_emote : ℕ → ℕ → List Emote → List Emote
put_emote slot emote [] = record { slot_id = slot; emote_id = emote } ∷ []
put_emote slot emote (e ∷ es) =
    if e.slot_id == slot then record e { emote_id = emote } ∷ es else e ∷ put_emote slot emote es

abbrev pub set_selected : Selected → Look → Outcome Selected
set_selected selected look = record {
  reply = some selected;
  look = record look { selected = selected };
  is_saved = true;
}

unfoldable pub handle_choose_emote : ℕ → ℕ → Look → Outcome Selected
unfolding put_emote
handle_choose_emote slot emote look =
    set_selected (record look.selected { emotes = put_emote slot emote look.selected.emotes }) look

unfoldable pub handle_choose_slots : List ℕ → Look → Outcome Selected
handle_choose_slots slots look = set_selected (record look.selected { slots = slots }) look

unfoldable pub handle_choose_show : List ℕ → Look → Outcome Selected
handle_choose_show shows look = set_selected (record look.selected { shows = shows }) look

unfoldable pub handle_choose_loadout : List ℕ → Look → Outcome Selected
handle_choose_loadout [] look = record { reply = some look.selected; look = look; is_saved = false }
handle_choose_loadout (l ∷ ls) look = set_selected (record look.selected { loadouts = l ∷ ls }) look
