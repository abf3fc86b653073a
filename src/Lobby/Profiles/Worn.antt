-- ===== src/Lobby/Profiles/Worn.antt =====
-- The look that the lobby shows (src/handlers/SelectProfile.js, ChangeClothes.js, EquipSkill.js).
use free_fire.Prelude.{
  ℕ, ◌≡◌, refl, ◌∙◌, true, Option, none, some, List, [], ◌∷◌, map, if◌then◌else◌, or_else,
  Option-cases, inl, inr, All,
}
use free_fire.Lobby.Profiles.{
  Look, Outcome, select, last_of, handle_select_profile, ClothesReq, selected_avatar, dress,
  of_avatar, handle_change_clothes, put_slot, handle_equip_skill, handle_choose_emote,
  handle_choose_slots, handle_choose_show, handle_choose_loadout,
}
use free_fire.Lobby.Profiles.Shown.{
  Shown, distinct, distinct-map, distinct-update_profile, select-Shown, change-Shown, equip-Shown,
  of_avatar-shown,
}

-- Avatars are different, and any selected profile is the one that the selected items show.
pub record IsWorn (look : Look) : Type 0 where
  pub apart : distinct look.profiles ≡ true
  pub shown : All (Shown look.selected) look.profiles

pub data Action : Type 0 where
  selects : ℕ → Action
  changes : ClothesReq → Action
  equips : Option ℕ → Option ℕ → ℕ → Action
  chooses_emote : ℕ → ℕ → Action
  chooses_slots chooses_show chooses_loadout : List ℕ → Action

-- The account as the next request loads it: as before where nothing was saved.
abbrev pub stored : {A : Type 0} → Look → Outcome A → Look
stored look o = if o.is_saved then o.look else look

unfoldable pub act : Action → Look → Look
unfolding handle_select_profile handle_change_clothes handle_equip_skill handle_choose_emote
    handle_choose_slots handle_choose_show handle_choose_loadout
act (selects id) look = stored look (handle_select_profile id look)
act (changes req) look = stored look (handle_change_clothes req look)
act (equips avatar skill slot) look = stored look (handle_equip_skill avatar skill slot look)
act (chooses_emote slot emote) look = stored look (handle_choose_emote slot emote look)
act (chooses_slots slots) look = stored look (handle_choose_slots slots look)
act (chooses_show shows) look = stored look (handle_choose_show shows look)
act (chooses_loadout loadouts) look = stored look (handle_choose_loadout loadouts look)

unfoldable pub act_all : List Action → Look → Look
unfolding act
act_all [] look = look
act_all (a ∷ rest) look = act_all rest (act a look)

select_profile-IsWorn :
    (id : ℕ) (look : Look) → IsWorn look → IsWorn (stored look (handle_select_profile id look))
unfolding handle_select_profile
select_profile-IsWorn id look w = elim (Option-cases (last_of id (map (select id) look.profiles))) [
  | inl e ↦ rw (e, handle_select_profile) w
  | inr (q, e) ↦
      rw (e, handle_select_profile)
        (record {
          apart = distinct-map (select id) (λ p. refl) look.profiles ∙ w.apart;
          shown = select-Shown id look.selected look.profiles q w.apart e;
        })
]

change_clothes-IsWorn :
    (req : ClothesReq) (look : Look)
    → IsWorn look
    → IsWorn (stored look (handle_change_clothes req look))
unfolding handle_change_clothes
change_clothes-IsWorn req look w =
    let id = or_else req.avatar_id (selected_avatar look.profiles) in
    elim (Option-cases (of_avatar id look.profiles)) [
      | inl e ↦ rw (e, handle_change_clothes) w
      | inr (p, e) ↦
          rw (e, handle_change_clothes)
            (record {
              apart = distinct-update_profile id (dress req) (λ q. refl) look.profiles ∙ w.apart;
              shown =
                  change-Shown req id look.selected look.profiles p w.apart e
                    (of_avatar-shown id look.selected look.profiles p e w.shown) w.shown;
            })
    ]

equip_skill-IsWorn :
    (avatar skill : Option ℕ) (slot : ℕ) (look : Look)
    → IsWorn look
    → IsWorn (stored look (handle_equip_skill avatar skill slot look))
unfolding handle_equip_skill
equip_skill-IsWorn none skill slot look w = w
equip_skill-IsWorn (some avatar) none slot look w = w
equip_skill-IsWorn (some avatar) (some skill) slot look w =
    elim (Option-cases (of_avatar avatar look.profiles)) [
      | inl e ↦ rw (e, handle_equip_skill) w
      | inr (p, e) ↦
          rw (e, handle_equip_skill)
            (record {
              apart =
                  distinct-update_profile avatar
                    (λ q. record q { equiped_skills = put_slot slot skill q.equiped_skills })
                    (λ q. refl) look.profiles
                  ∙ w.apart;
              shown = equip-Shown avatar slot skill look.selected look.profiles w.shown;
            })
    ]

loadout-IsWorn :
    (loadouts : List ℕ) (look : Look)
    → IsWorn look
    → IsWorn (stored look (handle_choose_loadout loadouts look))
unfolding handle_choose_loadout
loadout-IsWorn [] look w = w
loadout-IsWorn (l ∷ ls) look w = record { apart = w.apart; shown = w.shown }

act-IsWorn : (a : Action) (look : Look) → IsWorn look → IsWorn (act a look)
unfolding act handle_choose_emote handle_choose_slots handle_choose_show
act-IsWorn (selects id) look w = select_profile-IsWorn id look w
act-IsWorn (changes req) look w = change_clothes-IsWorn req look w
act-IsWorn (equips avatar skill slot) look w = equip_skill-IsWorn avatar skill slot look w
act-IsWorn (chooses_emote slot emote) look w = record { apart = w.apart; shown = w.shown }
act-IsWorn (chooses_slots slots) look w = record { apart = w.apart; shown = w.shown }
act-IsWorn (chooses_show shows) look w = record { apart = w.apart; shown = w.shown }
act-IsWorn (chooses_loadout loadouts) look w = loadout-IsWorn loadouts look w

-- Where avatars are different and the selected items show any selected profile, with its skin and
-- clothes, so it is after any requests to the handlers of profiles and selected items.
pub act_all-IsWorn :
    (actions : List Action) (look : Look) → IsWorn look → IsWorn (act_all actions look)
unfolding act_all
act_all-IsWorn [] look w = w
act_all-IsWorn (a ∷ rest) look w = act_all-IsWorn rest (act a look) (act-IsWorn a look w)
