-- ===== src/Auth/Pairings/Sessions.antt =====
-- What the pairings repository promises: a session that is open, then settled once, then gone
-- (auth/shared/src/repositories/pairings.pg.js).
use free_fire.Prelude.{
  ℕ, ◌≤◌, ◌<◌, ◌≡◌, refl, ◌⊎◌, inl, inr, String, Option, none, some, if◌then◌else◌, ltb, arith,
  Bool-cases,
}
use free_fire.Auth.Pairings.{
  Status, pending, completed, failed, Pairing, create_pending, mark_completed, mark_failed, Answer,
  completed_answer, failed_answer, expired_answer, pending_answer, consume_if_completed, sweep,
}

-- A pairing as its users see it.
pub data Session : Type 0 where
  closed : Session
  waiting : String → Session
  settled : Answer → Session

abbrev pub settle_session : Answer → Session → Session
settle_session a closed = closed
settle_session a (waiting uri) = settled a
settle_session a (settled b) = settled b

abbrev pub poll_session : Session → Answer × Session
poll_session closed = (expired_answer, closed)
poll_session (waiting uri) = (pending_answer, waiting uri)
poll_session (settled a) = (a, closed)

abbrev pub session_of : Status → Pairing → Session
session_of pending r = waiting r.redirect_uri
session_of completed r = settled (completed_answer r.redirect_url)
session_of failed r = settled (failed_answer r.error)

-- A row that has expired is as good as none.
abbrev pub view : ℕ → Option Pairing → Session
view now none = closed
view now (some r) = if ltb now r.expires_at then session_of r.status r else closed

-- A statement that settles a pairing, and what it does to the session.
abbrev pub SettledBy : ℕ → Answer → Option Pairing × Option Pairing → Option Pairing → Type 0
SettledBy now a (result, t) row =
    (view now t ≡ settle_session a (view now row))
    × (result ≡ (elim (view now row) [ waiting uri ↦ t | _ ↦ none ]))

-- Each operation on a row does to the session that it stands for what the session's operation does.
abbrev pub RefinesSession : ℕ → Option Pairing → Type 0
RefinesSession now row =
    ((url : String) → SettledBy now (completed_answer (some url)) (mark_completed now url row) row)
    × ((error : String)
        → SettledBy now (failed_answer (some error)) (mark_failed now error row) row)
    × ((consume_if_completed now row).0 ≡ (poll_session (view now row)).0)
    × (view now (consume_if_completed now row).1 ≡ (poll_session (view now row)).1)
    × ((uri : String) (ttl : ℕ)
        → 0 < ttl
        → view now (create_pending uri ttl now none).1 ≡ waiting uri)
    × ((t : ℕ) → t ≤ now → view now (sweep t row) ≡ view now row)
    × ((later : ℕ) → now ≤ later → (view later row ≡ view now row) ⊎ (view later row ≡ closed))

module _ (now : ℕ) where
  mark_completed-SettledBy :
      (url : String) (row : Option Pairing)
      → SettledBy now (completed_answer (some url)) (mark_completed now url row) row
  unfolding mark_completed
  mark_completed-SettledBy url none = (refl, refl)
  mark_completed-SettledBy url (some r) = ground arith

  mark_failed-SettledBy :
      (error : String) (row : Option Pairing)
      → SettledBy now (failed_answer (some error)) (mark_failed now error row) row
  unfolding mark_failed
  mark_failed-SettledBy error none = (refl, refl)
  mark_failed-SettledBy error (some r) = ground arith

  consume-poll :
      (row : Option Pairing)
      → let (answer, t) = consume_if_completed now row in
        (answer ≡ (poll_session (view now row)).0) × (view now t ≡ (poll_session (view now row)).1)
  unfolding consume_if_completed
  consume-poll none = (refl, refl)
  consume-poll (some r) = ground arith

  view-create_pending :
      (uri : String) (ttl : ℕ)
      → 0 < ttl
      → view now (create_pending uri ttl now none).1 ≡ waiting uri
  unfolding create_pending
  view-create_pending uri ttl h = ground arith

  view-sweep : (t : ℕ) (row : Option Pairing) → t ≤ now → view now (sweep t row) ≡ view now row
  unfolding sweep
  view-sweep t none h = refl
  view-sweep t (some r) h = ground arith

  view-later :
      (later : ℕ) (row : Option Pairing)
      → now ≤ later
      → (view later row ≡ view now row) ⊎ (view later row ≡ closed)
  view-later later none h = inl refl
  view-later later (some r) h = elim (Bool-cases (ltb later r.expires_at)) [
    | inl e ↦ inl (ground arith)
    | inr e ↦ inr (ground arith)
  ]

  -- The repository refines a session that is waiting from its creation on, is settled by the first
  -- callback, hands its outcome to the first poll after that, and is closed then: at any time each of
  -- `markCompleted`, `markFailed`, `consumeIfCompleted` and the sweep does to the row what the
  -- session's operation does to the session that the row stands for, with the same answer, and the
  -- passing of time leaves the session as it is or closes it.
  pub pairings-refine-sessions : (row : Option Pairing) → RefinesSession now row
  pairings-refine-sessions row = (
    λ url. mark_completed-SettledBy url row,
    λ error. mark_failed-SettledBy error row,
    (consume-poll row).0,
    (consume-poll row).1,
    view-create_pending,
    λ t. view-sweep t row,
    λ later. view-later later row,
  )
