-- ===== src/Gateway/Tests.antt =====
-- Two clients of one account, and a connection with two accounts.
use free_fire.Prelude.{
  ℕ, ◌≡◌, refl, ◌==◌, arith, String, str_eq, true, false, Option, none, some, List, [], ◌∷◌, ◌++◌,
  any, if◌then◌else◌,
}
use free_fire.Account.{Account}
use free_fire.Framing.{Frame, heartbeat}
use free_fire.Gateway.{
  Services, Session, Sessions, Connection, handle_frame, handle_frames, on_data, on_close,
  is_banned, destroy, mark_online, write,
}
use free_fire.Gateway.Streams.{on_data-append}
use free_fire.Gateway.Sessions.{is_dispatch, handle_frames-kept_out, handle_frame-takeover}

abbrev account_of : ℕ → Account
account_of uid = record {
  uid = uid;
  account_id = uid;
  open_id = "";
  nickname = "Ana";
  region = "BR";
  role = 0;
  level = 1;
  coins = 0;
  rank = 300;
  cs_rank = 100;
  clan_name = "";
  banned = false;
  selected_items = record {
    avatar_id = 1;
    skin_color = 0;
    head_pic = 5;
    banner_id = 6;
    clothes = [];
    slots = [];
    emotes = [];
    shows = [];
  };
}

-- The payload's first byte stands for the token of account 7 or 8.
abbrev token_of : List ℕ → Option String
token_of [] = none
token_of (b ∷ bs) = some (if b == 7 then "seven" else "eight")

abbrev services : Services
services = record {
  decrypt = token_of;
  by_token = λ t. if str_eq t "seven" then some (account_of 7) else some (account_of 8);
  enforce_bans = true;
  auth_enabled = false;
  auth_row = λ o. none;
}

abbrev auth_frame : ℕ → Frame
auth_frame b = record { cmd = 1; region = 0; payload = some (b ∷ []) }

abbrev session_of : ℕ → ℕ → Session
session_of uid socket = record { socket = socket; account = account_of uid; region = 0 }

abbrev sessions : Sessions
sessions u = if u == 7 then some (session_of 7 1) else none

abbrev fresh_connection : Connection
fresh_connection = record { buf = []; entry = none }

on_data-append_example :
    on_data services 2 ((1 ∷ 0 ∷ 0 ∷ 0 ∷ []) ++ (0 ∷ 1 ∷ 7 ∷ 2 ∷ 0 ∷ [])) fresh_connection sessions
    ≡ (let (d, (mid, first)) = on_data services 2 (1 ∷ 0 ∷ 0 ∷ 0 ∷ []) fresh_connection sessions in
        let (e, (end, second)) = on_data services 2 (0 ∷ 1 ∷ 7 ∷ 2 ∷ 0 ∷ []) d mid in
        (e, (end, first ++ second)))
on_data-append_example =
    on_data-append services 2 (1 ∷ 0 ∷ 0 ∷ 0 ∷ []) (0 ∷ 1 ∷ 7 ∷ 2 ∷ 0 ∷ []) fresh_connection
      sessions

abbrev early_frames : List Frame
early_frames =
    record { cmd = 2; region = 0; payload = none }
    ∷ record { cmd = 3; region = 0; payload = some (1 ∷ []) }
    ∷ record { cmd = 1; region = 0; payload = some [] }
    ∷ []

handle_frames-kept_out_example :
    let o = handle_frames services 2 early_frames none sessions in
    (o.entry ≡ none) × (o.sessions ≡ sessions) × (any is_dispatch o.effects ≡ false)
handle_frames-kept_out_example =
    handle_frames-kept_out services 2 early_frames sessions
      (unfold mathlib.Core.Option.bind in refl)

handle_frame-takeover_example :
    let o = handle_frame services 2 (auth_frame 7) none sessions in
    (o.sessions 7 ≡ some (session_of 7 2))
    × (o.effects ≡ destroy 1 ∷ mark_online 7 ∷ write 2 (heartbeat ∷ []) ∷ [])
    × (on_close 1 (record { buf = []; entry = some (session_of 7 1) }) o.sessions
        ≡ (o.sessions, []))
handle_frame-takeover_example =
    handle_frame-takeover services 2 (auth_frame 7) none sessions (account_of 7) (session_of 7 1)
      (record { buf = []; entry = some (session_of 7 1) }) refl
      (unfold mathlib.Core.Option.bind in refl) (unfold is_banned in refl) refl refl
      (λ e. absurd (omega arith)) refl
