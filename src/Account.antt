-- ===== src/Account.antt =====
-- The account document that the gateway, the rooms and the matchmaker read (the comment at the head
-- of src/db/player.js lists its fields). A field that is missing in a document is 0, "" or [] here:
-- the program reads each through `|| 0`, `|| ''` or an Array.isArray test.
use free_fire.Prelude.{ℕ, String, Bool, List, or_else}

pub record SelectedItems : Type 0 where
  pub avatar_id : ℕ
  pub skin_color : ℕ
  pub head_pic : ℕ
  pub banner_id : ℕ
  pub clothes : List ℕ
  pub slots : List ℕ
  pub emotes : List ℕ
  pub shows : List ℕ

pub record Account : Type 0 where
  pub uid : ℕ
  pub account_id : ℕ
  pub open_id : String
  pub nickname : String
  pub region : String
  pub role : ℕ
  pub level : ℕ
  pub coins : ℕ
  pub rank : ℕ
  pub cs_rank : ℕ
  pub clan_name : String
  pub banned : Bool
  pub selected_items : SelectedItems

-- `Number(account.uid || account.account_id || 0)`
abbrev pub account_key : Account → ℕ
account_key a = or_else a.uid a.account_id
