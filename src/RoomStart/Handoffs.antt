-- ===== src/RoomStart/Handoffs.antt =====
-- Who is handed over to a room's match, and with what (src/tcp/handlers/RoomStart.js).
use free_fire.Prelude.{
  ℕ, ◌≡◌, refl, String, Bool, true, false, ◌&&◌, not, Option, none, some, List, [], ◌∷◌, ◌==◌,
  filterb, Option-cases, Bool-cases, inl, inr, ◌||◌, ◌⊎◌, ◌≢◌, if◌then◌else◌, str_eq, arith,
}
use free_fire.Account.{Account}
use free_fire.Rooms.Record.{Member, Room}
use free_fire.RoomStart.{Claims, prepare_claims, Handoff, suss_of, handoffs}

abbrev is_found : Option Account → Bool
is_found none = false
is_found (some a) = true

-- The payload of a token for an account in a team of the match: who it is, and how it looks.
pub record IsClaimOf (account : Account) (match_id group : ℕ) (c : Claims) : Type 0 where
  pub aid : c.aid ≡ (if account.uid == 0 then account.account_id else account.uid)
  pub name : c.name ≡ (if str_eq account.nickname "" then "Player" else account.nickname)
  pub region : c.region ≡ account.region
  pub role : c.role ≡ account.role
  pub mid : c.mid ≡ match_id
  pub team : c.team ≡ group
  pub avatar : c.avatar ≡ account.selected_items.avatar_id
  pub color : c.color ≡ account.selected_items.skin_color
  pub head : c.head ≡ account.selected_items.head_pic
  pub banner : c.banner ≡ account.selected_items.banner_id
  pub clothes : c.clothes ≡ account.selected_items.clothes
  pub slots : c.slots ≡ account.selected_items.slots
  pub emotes : c.emotes ≡ account.selected_items.emotes
  pub shows : c.shows ≡ account.selected_items.shows

prepare_claims-IsClaimOf :
    (account : Account) (match_id team : ℕ)
    → IsClaimOf account match_id team (prepare_claims account match_id team)
unfolding prepare_claims
prepare_claims-IsClaimOf account match_id team = record {
  aid = refl;
  name = refl;
  region = refl;
  role = refl;
  mid = refl;
  team = refl;
  avatar = refl;
  color = refl;
  head = refl;
  banner = refl;
  clothes = refl;
  slots = refl;
  emotes = refl;
  shows = refl;
}

module _ (sign : Claims → String) (host : Account) (account_of : ℕ → Option Account) where
  -- The caller, or a member whom the account store knows.
  abbrev pub reachable : Member → Bool
  reachable m =
      not (m.account_id == 0) && (m.account_id == host.uid || is_found (account_of m.account_id))

  -- Whose account it is: the caller's own, or the one in the account store.
  abbrev pub Owns : ℕ → Account → Type 0
  Owns id account =
      ((id ≡ host.uid) × (account ≡ host)) ⊎ ((id ≢ host.uid) × (account_of id ≡ some account))

  -- A handoff for a member: to its account, with a token of its own account and team.
  pub data IsFor (match_id : ℕ) (addr : String) (room : Room) (m : Member) (h : Handoff)
      : Type 0 where
    handed :
        (account : Account)
        → Owns m.account_id account
        → (c : Claims) → IsClaimOf account match_id m.group_id c
        → h.target ≡ m.account_id
        → h.suss.prepare_token ≡ sign c
        → h.suss.match_id ≡ match_id
        → h.suss.server_addr ≡ addr
        → h.suss.match_mode ≡ 3
        → h.suss.map_id ≡ room.map_id
        → h.suss.game_mode ≡ room.game_mode
        → h.suss.group_mode ≡ room.group_mode
        → IsFor match_id addr room m h

  own_token :
      (match_id : ℕ) (addr : String) (room : Room) (m : Member) (a : Account)
      → Owns m.account_id a
      → IsFor match_id addr room m (record {
        target = m.account_id;
        suss = suss_of sign host account_of match_id addr room m a;
      })
  own_token match_id addr room m a o =
      handed a o (prepare_claims a match_id m.group_id)
        (prepare_claims-IsClaimOf a match_id m.group_id) refl refl refl refl refl refl refl refl

  -- The members and the handoffs, one for one.
  abbrev pub OneForOne : ℕ → String → Room → List Member → List Handoff → Type 0
  OneForOne match_id addr room [] [] = Unit
  OneForOne match_id addr room [] (h ∷ hs) = ⊥
  OneForOne match_id addr room (m ∷ ms) [] = ⊥
  OneForOne match_id addr room (m ∷ ms) (h ∷ hs) =
      IsFor match_id addr room m h × OneForOne match_id addr room ms hs

  -- The caller and the members whom the account store knows, and only these, are handed over, each once
  -- and in order, to the same match at the same address in the room's modes. Each gets a signed token
  -- with its own id, name, region, role, team and looks for that match.
  pub handoffs-OneForOne :
      (match_id : ℕ) (addr : String) (room : Room) (ms : List Member)
      → OneForOne match_id addr room
          (filterb reachable ms)
          (handoffs sign host account_of match_id addr room ms)
  unfolding handoffs
  handoffs-OneForOne match_id addr room [] = tt
  handoffs-OneForOne match_id addr room (m ∷ ms) =
      let ih = handoffs-OneForOne match_id addr room ms in
      elim (Bool-cases (m.account_id == 0)) [
        | inl z ↦ rw z ih
        | inr z ↦ elim (Bool-cases (m.account_id == host.uid)) [
          | inl f ↦ rw (z, f) (own_token match_id addr room m host (inl (ground arith, refl)), ih)
          | inr f ↦ elim (Option-cases (account_of m.account_id)) [
            | inl e ↦ rw (z, f, e) ih
            | inr (a, e) ↦
                rw (z, f, e) (own_token match_id addr room m a (inr (ground arith, e)), ih)
          ]
        ]
      ]
