-- ===== src/Gateway/Sessions.antt =====
-- Who holds the session of an account (src/tcp/gateway.js).
use free_fire.Prelude.{
  ℕ, ◌≡◌, ◌≢◌, refl, Bool, true, false, not, ◌&&◌, ◌||◌, ◌==◌, Option, none, some, List, [], ◌∷◌,
  ◌++◌, arith, Bool-cases, Option-cases, inl, inr, any, ◌∙◌,
}
use free_fire.Account.{Account}
use free_fire.Framing.{Frame, heartbeat}
use free_fire.Gateway.{
  Services, Session, Sessions, Connection, Effect, handle_frame, handle_frames, on_close, log_in,
  authenticate, set_session, is_banned, account_of_frame, auth_cmd, write, destroy, mark_online,
  dispatch,
}

-- A session stands under its own account's number.
abbrev pub IsKeyed : Sessions → Type 0
IsKeyed sessions = (uid : ℕ) (e : Session) → sessions uid ≡ some e → e.account.uid ≡ uid

-- A frame that lets its sender in
abbrev pub lets_in : Services → Frame → Bool
lets_in v f =
    f.cmd == auth_cmd
    && (elim (account_of_frame v f) [ none ↦ false | some account ↦ not (is_banned v account) ])

abbrev pub is_dispatch : Effect → Bool
is_dispatch (dispatch e cmd payload) = true
is_dispatch _ = false

no_dispatch-append :
    (xs ys : List Effect) → any is_dispatch (xs ++ ys) ≡ (any is_dispatch xs || any is_dispatch ys)
no_dispatch-append [] ys = refl
no_dispatch-append (x ∷ xs) ys = elim (Bool-cases (is_dispatch x)) [
  | inl e ↦ rw e refl
  | inr e ↦ rw e (no_dispatch-append xs ys)
]

module _ (v : Services) (socket : ℕ) where
  handle_frame-kept_out :
      (f : Frame) (sessions : Sessions)
      → lets_in v f ≡ false
      → let o = handle_frame v socket f none sessions in
        (o.entry ≡ none) × (o.sessions ≡ sessions) × (any is_dispatch o.effects ≡ false)
  unfolding handle_frame authenticate
  handle_frame-kept_out f sessions h = elim (Bool-cases (f.cmd == heartbeat)) [
    | inl hb ↦ rw hb (refl, refl, refl)
    | inr hb ↦ elim (Bool-cases (f.cmd == auth_cmd)) [
      | inl au ↦
          rw (hb, au)
            (elim (Option-cases (account_of_frame v f)) [
              | inl e ↦ rw (e, authenticate) (refl, refl, refl)
              | inr (account, e) ↦
                  let banned : is_banned v account ≡ true = ground (arith, rw (au, e) at h) in
                  rw (e, banned, authenticate) (refl, refl, refl)
            ])
      | inr au ↦ rw (hb, au) (refl, refl, refl)
    ]
  ]

  -- As long as no frame of a connection is an AUTH with a good token of an account that is not banned,
  -- nothing of it is dispatched, it has no session and no session changes.
  pub handle_frames-kept_out :
      (fs : List Frame) (sessions : Sessions)
      → any (lets_in v) fs ≡ false
      → let o = handle_frames v socket fs none sessions in
        (o.entry ≡ none) × (o.sessions ≡ sessions) × (any is_dispatch o.effects ≡ false)
  unfolding handle_frames
  handle_frames-kept_out [] sessions h = (refl, refl, refl)
  handle_frames-kept_out (f ∷ fs) sessions h =
      let one = handle_frame-kept_out f sessions (ground arith) in
      let rest = handle_frames-kept_out fs sessions (ground arith) in
      rw (one.0, one.1)
        (
          rest.0,
          rest.1,
          no_dispatch-append (handle_frame v socket f none sessions).effects _
              ∙ rw (one.2, rest.2) refl,
        )

  -- What a frame that lets in does.
  handle_frame-log_in :
      (f : Frame) (entry : Option Session) (sessions : Sessions) (account : Account)
      → f.cmd ≡ auth_cmd
      → account_of_frame v f ≡ some account
      → is_banned v account ≡ false
      → handle_frame v socket f entry sessions ≡ log_in socket f.region account sessions
  unfolding handle_frame authenticate
  handle_frame-log_in f entry sessions account cmd e ok =
      let hb : (f.cmd == heartbeat) ≡ false = ground arith in
      let au : (f.cmd == auth_cmd) ≡ true = ground arith in
      rw (hb, au) (rw (authenticate, e, ok) refl)

  -- An account that logs in on another socket takes its session over: the session is the new socket's,
  -- the old socket is destroyed, and when the old connection closes after that, the session stays, no
  -- queue entry is cancelled and no room is left.
  pub handle_frame-takeover :
      (f : Frame) (entry : Option Session) (sessions : Sessions) (account : Account)
      (prev : Session) (c : Connection)
      → f.cmd ≡ auth_cmd
      → account_of_frame v f ≡ some account
      → is_banned v account ≡ false
      → sessions account.uid ≡ some prev
      → prev.account.uid ≡ account.uid
      → prev.socket ≢ socket
      → c.entry ≡ some prev
      → let o = handle_frame v socket f entry sessions in
        (o.sessions account.uid
          ≡ some (record { socket = socket; account = account; region = f.region }))
        × (o.effects
            ≡ destroy prev.socket ∷ mark_online account.uid ∷ write socket (heartbeat ∷ []) ∷ [])
        × (on_close prev.socket c o.sessions ≡ (o.sessions, []))
  unfolding log_in on_close set_session
  handle_frame-takeover f entry sessions account prev c cmd e ok at_uid same apart held =
      let self : (account.uid == account.uid) ≡ true = ground arith in
      let other : (prev.socket == socket) ≡ false = ground arith in
      let new : (socket == prev.socket) ≡ false = ground arith in
      let key : (prev.account.uid == account.uid) ≡ true = ground arith in
      rw (handle_frame-log_in f entry sessions account cmd e ok, at_uid, held)
        (rw self refl, rw other refl, rw (key, new) refl)

  -- A connection that logs in as a second account keeps the session of the first: after it closes,
  -- the first account's session still stands, on a socket that is gone.
  pub on_close-second_account :
      (f : Frame) (sessions : Sessions) (account : Account) (first : Session) (buf : List ℕ)
      → f.cmd ≡ auth_cmd
      → account_of_frame v f ≡ some account
      → is_banned v account ≡ false
      → sessions first.account.uid ≡ some first
      → first.socket ≡ socket
      → first.account.uid ≢ account.uid
      → let o = handle_frame v socket f (some first) sessions in
        let closed = on_close socket (record { buf = buf; entry = o.entry }) o.sessions in
        (closed.0 first.account.uid ≡ some first) × (closed.0 account.uid ≡ none)
  unfolding log_in on_close set_session
  on_close-second_account f sessions account first buf cmd e ok at_uid own apart =
      let self : (account.uid == account.uid) ≡ true = ground arith in
      let mine : (socket == socket) ≡ true = ground arith in
      let other : (first.account.uid == account.uid) ≡ false = ground arith in
      rw (handle_frame-log_in f (some first) sessions account cmd e ok)
        (rw self (rw mine (rw (other, self) (at_uid, refl))))

  -- A connection that closes while its AUTH frame is still being looked up leaves a session that
  -- nothing ends: the close finds no session, and the frame then registers one for its socket.
  pub on_close-pending_auth :
      (f : Frame) (sessions : Sessions) (account : Account) (c : Connection)
      → f.cmd ≡ auth_cmd
      → account_of_frame v f ≡ some account
      → is_banned v account ≡ false
      → c.entry ≡ none
      → let closed = on_close socket c sessions in
        (closed.1 ≡ [])
        × ((handle_frame v socket f c.entry closed.0).sessions account.uid
            ≡ some (record { socket = socket; account = account; region = f.region }))
  unfolding log_in on_close set_session
  on_close-pending_auth f sessions account c cmd e ok held =
      let self : (account.uid == account.uid) ≡ true = ground arith in
      rw held (refl, rw (handle_frame-log_in f none sessions account cmd e ok) (rw self refl))
