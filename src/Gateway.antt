-- ===== src/Gateway.antt =====
-- The gateway's connections and sessions (src/tcp/gateway.js). A socket is a number. AES decryption,
-- the account store and the auth store are arguments. What a connection does besides changing the
-- sessions is a list of effects, in order. `lastSeen`, which nothing reads, is left out.
pub mod Streams
pub mod Sessions
mod Tests
use free_fire.Prelude.{
  ℕ, zero, suc, String, str_eq, Bool, true, false, not, ◌&&◌, ◌||◌, Option, none, some, List, [],
  ◌∷◌, ◌++◌, if◌then◌else◌, ◌==◌,
}
use mathlib.Core.Option
use free_fire.Account.{Account}
use free_fire.Framing.{Frame, heartbeat, parse_client_frames, encode_server_frame}

abbrev pub auth_cmd : ℕ
auth_cmd = 1

abbrev pub kick_cmd : ℕ
kick_cmd = 11

pub record Session : Type 0 where
  pub socket : ℕ
  pub account : Account
  pub region : ℕ

-- `sessions`, by account
abbrev pub Sessions : Type 0
Sessions = ℕ → Option Session

pub data Effect : Type 0 where
  write : ℕ → List ℕ → Effect
  destroy : ℕ → Effect
  mark_online mark_offline : ℕ → Effect
  cancel leave_room : ℕ → Effect
  -- An application message, with the session and the region it came from.
  dispatch : Session → ℕ → Option (List ℕ) → Effect

-- A row of the auth store
pub record AuthRow : Type 0 where
  pub banned : Bool
  pub authorized : Bool

pub record Services : Type 0 where
  pub decrypt : List ℕ → Option String
  pub by_token : String → Option Account
  pub enforce_bans : Bool
  pub auth_enabled : Bool
  -- `none` where there is no row or the query fails.
  pub auth_row : String → Option AuthRow

abbrev row_bans : Option AuthRow → Bool
row_bans none = false
row_bans (some r) = r.banned || not r.authorized

unfoldable pub is_banned : Services → Account → Bool
is_banned v account =
    v.enforce_bans
    && (account.banned
        || (v.auth_enabled
            && not (str_eq account.open_id "")
            && row_bans (v.auth_row account.open_id)))

unfoldable pub set_session : ℕ → Option Session → Sessions → Sessions
set_session uid e sessions u = if u == uid then e else sessions u

abbrev evicted : ℕ → Option Session → List Effect
evicted socket none = []
evicted socket (some prev) = if prev.socket == socket then [] else destroy prev.socket ∷ []

-- What a frame leaves: the connection's session, all sessions, and the effects.
pub record Outcome : Type 0 where
  pub entry : Option Session
  pub sessions : Sessions
  pub effects : List Effect

abbrev pub outcome : Option Session → Sessions → List Effect → Outcome
outcome entry sessions effects = record { entry = entry; sessions = sessions; effects = effects }

-- `register`, `markOnline` and the init ack of an account that is let in.
unfoldable pub log_in : ℕ → ℕ → Account → Sessions → Outcome
unfolding set_session
log_in socket region account sessions =
    let e : Session = record { socket = socket; account = account; region = region } in
    outcome (some e) (set_session account.uid (some e) sessions) (
      evicted socket (sessions account.uid)
      ++ mark_online account.uid ∷ write socket (heartbeat ∷ []) ∷ [])

-- The account of an AUTH frame; `none` for a payload or a token that is not good.
abbrev pub account_of_frame : Services → Frame → Option Account
account_of_frame v f =
    Option.bind (Option.bind f.payload v.decrypt)
      (λ token. if str_eq token "" then none else v.by_token token)

unfoldable pub authenticate : Services → ℕ → Frame → Option Session → Sessions → Outcome
unfolding log_in is_banned
authenticate v socket f entry sessions = elim (account_of_frame v f) [
  | none ↦ outcome entry sessions (destroy socket ∷ [])
  | some account ↦
      if is_banned v account
      then outcome entry sessions
          (write socket (encode_server_frame kick_cmd (0 ∷ [])) ∷ destroy socket ∷ [])
      else log_in socket f.region account sessions
]

abbrev app_message : Frame → Option Session → List Effect
app_message f none = []
app_message f (some e) = dispatch e f.cmd f.payload ∷ []

-- `entry = (await handleFrame(...)) || entry`
unfoldable pub handle_frame : Services → ℕ → Frame → Option Session → Sessions → Outcome
unfolding authenticate
handle_frame v socket f entry sessions =
    if f.cmd == heartbeat
    then outcome entry sessions (write socket (heartbeat ∷ []) ∷ [])
    else if f.cmd == auth_cmd
    then authenticate v socket f entry sessions
    else outcome entry sessions (app_message f entry)

unfoldable pub handle_frames : Services → ℕ → List Frame → Option Session → Sessions → Outcome
handle_frames v socket [] entry sessions = outcome entry sessions []
handle_frames v socket (f ∷ fs) entry sessions =
    let o = handle_frame v socket f entry sessions in
    let p = handle_frames v socket fs o.entry o.sessions in
    record p { effects = o.effects ++ p.effects }

-- What a connection's closure keeps.
pub record Connection : Type 0 where
  pub buf : List ℕ
  pub entry : Option Session

-- The 'data' callback; the promise chain runs them one after the other.
unfoldable pub on_data :
    Services → ℕ → List ℕ → Connection → Sessions → Connection × (Sessions × List Effect)
unfolding handle_frames
on_data v socket chunk c sessions =
    let p = parse_client_frames (c.buf ++ chunk) in
    let o = handle_frames v socket p.frames c.entry sessions in
    (record { buf = p.rest; entry = o.entry }, (o.sessions, o.effects))

abbrev pub owns : ℕ → Option Session → Bool
owns socket none = false
owns socket (some e) = e.socket == socket

-- The 'close' callback: only the socket that holds the account's session ends it.
unfoldable pub on_close : ℕ → Connection → Sessions → Sessions × List Effect
unfolding set_session
on_close socket c sessions = elim c.entry [
  | none ↦ (sessions, [])
  | some e ↦
      let uid = e.account.uid in
      if owns socket (sessions uid)
      then (set_session uid none sessions, cancel uid ∷ leave_room uid ∷ mark_offline uid ∷ [])
      else (sessions, [])
]

unfoldable pub is_online : ℕ → Sessions → Bool
is_online uid sessions = elim (sessions uid) [ none ↦ false | some e ↦ true ]

-- `pushRaw`; `false` where the account is not connected.
unfoldable pub push_raw : ℕ → ℕ → List ℕ → Sessions → Bool × List Effect
push_raw uid cmd payload sessions = elim (sessions uid) [
  | none ↦ (false, [])
  | some e ↦ (true, write e.socket (encode_server_frame cmd payload) ∷ [])
]

-- `reasonPayload && reasonPayload.length ? reasonPayload : Buffer.from([0])`
abbrev kick_reason : List ℕ → List ℕ
kick_reason [] = 0 ∷ []
kick_reason (b ∷ bs) = b ∷ bs

-- `kick` of an account, which `session.revoke` asks for.
unfoldable pub kick : ℕ → List ℕ → Sessions → Bool × List Effect
kick uid reason sessions = elim (sessions uid) [
  | none ↦ (false, [])
  | some e ↦ (
    true,
    write e.socket (encode_server_frame kick_cmd (kick_reason reason)) ∷ destroy e.socket ∷ [],
  )
]
