-- ===== src/Lobby/Tests.antt =====
-- Concrete runs of the lobby's handlers (src/handlers).
use free_fire.Prelude.{ℕ, refl, Bool, true, false, some, List, [], ◌∷◌, ◌==◌, arith}
use free_fire.PlayerStore.Friends.{Social}
use free_fire.Lobby.Profiles.{Profile, Selected, Look}
use free_fire.Lobby.Profiles.Worn.{
  IsWorn, Action, selects, changes, equips, chooses_slots, act_all, act_all-IsWorn,
}
use free_fire.Lobby.Friends.{Net}

abbrev profile : ℕ → Bool → Profile
profile id is_selected = record {
  avatar_id = id;
  unlocked_level = 1;
  skin_color = 5;
  clothes = 203000001 ∷ 204000001 ∷ [];
  equiped_skills =
      record { slot_id = 2; skill_id = 16 } ∷ record { slot_id = 99; skill_id = 7 } ∷ [];
  is_selected = is_selected;
}

abbrev selected : Selected
selected = record {
  avatar_id = 102000004;
  skin_color = 5;
  banner_id = 900000014;
  head_pic = 902000003;
  clothes = 203000001 ∷ 204000001 ∷ [];
  slots = 102000004 ∷ 1 ∷ 2 ∷ 3 ∷ [];
  shows = [];
  loadouts = [];
  emotes = [];
}

abbrev look : Look
look = record {
  profiles = profile 102000004 true ∷ profile 102000005 false ∷ [];
  selected = selected;
}

abbrev actions : List Action
actions =
    selects 102000005
    ∷ changes (record { avatar_id = 0; clothes = 205000001 ∷ []; skin_color = some 3 })
    ∷ selects 9
    ∷ equips (some 102000004) (some 12) 1
    ∷ chooses_slots (1 ∷ [])
    ∷ []

look-IsWorn : IsWorn look
look-IsWorn = record {
  apart = refl;
  shown = ((λ e. (refl, refl, refl)), ((λ e. absurd (ground arith)), tt));
}

act_all-IsWorn_example : IsWorn (act_all actions look)
act_all-IsWorn_example = act_all-IsWorn actions look look-IsWorn

abbrev net : Net
net = record { online = λ a. a == 7; known = λ a. true; fails = false }

abbrev strangers : Social
strangers = record { friendships = []; requests = [] }
