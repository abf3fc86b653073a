-- ===== src/RoomSettings/Advanced/EventValues.antt =====
-- What the events of the advanced settings are worth (src/tcp/csadvanced.js): the last entry that
-- names an event sets it.
use free_fire.Prelude.{
  ℕ, ◌+◌, ◌*◌, ◌≡◌, refl, Bool, true, false, Option, none, some, List, [], ◌∷◌, if◌then◌else◌, ◌==◌,
  arith, Bool-cases, inl, inr, sym, ap, ◌∙◌,
}
use free_fire.RoomSettings.Advanced.{
  Tables, EcoRow, EventName, win_round, per_kill, loss_round, loss_streak2, loss_streak3,
  first_blood, Events, event_id, set_event, add_event, read_events,
}

abbrev place_of : EventName → ℕ
place_of win_round = 0
place_of per_kill = 1
place_of loss_round = 2
place_of loss_streak2 = 3
place_of loss_streak3 = 4
place_of first_blood = 5

abbrev pub same_event : EventName → EventName → Bool
same_event m n = place_of m == place_of n

event_id-place_of : (n : EventName) → event_id n ≡ place_of n + 152
event_id-place_of win_round = refl
event_id-place_of per_kill = refl
event_id-place_of loss_round = refl
event_id-place_of loss_streak2 = refl
event_id-place_of loss_streak3 = refl
event_id-place_of first_blood = refl

same_event-event_id : (m n : EventName) → (event_id m == event_id n) ≡ same_event m n
same_event-event_id m n = rw (event_id-place_of m, event_id-place_of n) (ground arith)

unfoldable pub value_of : EventName → Events → Option ℕ
value_of n [] = none
value_of n ((m, v) ∷ es) = if same_event m n then some v else value_of n es

-- What an entry says of an event.
abbrev pub says : EventName → ℕ → Option EcoRow → Option ℕ
says n step none = none
says n step (some row) = if same_event row.name n then some (row.min + step * row.step) else none

abbrev pub or_before : Option ℕ → Option ℕ → Option ℕ
or_before none old = old
or_before (some v) old = some v

unfoldable pub last_said : Tables → List (ℕ × ℕ) → EventName → Option ℕ
last_said t [] n = none
last_said t ((id, step) ∷ ps) n = or_before (last_said t ps n) (says n step (t.eco_step id))

value_of-set_event :
    (m n : EventName) (v : ℕ) (es : Events)
    → value_of n (set_event m v es) ≡ (if same_event m n then some v else value_of n es)
unfolding value_of set_event
value_of-set_event m n v [] = refl
value_of-set_event m n v ((k, w) ∷ es) = elim (Bool-cases (event_id k == event_id m)) [
  | inl e ↦
      (let same : same_event k m ≡ true = sym (same_event-event_id k m) ∙ e in
        let place : place_of k ≡ place_of m = ground arith in
        rw e (elim (Bool-cases (same_event m n)) [
          | inl f ↦ (let g : same_event k n ≡ true = ground arith in rw (f, g) refl)
          | inr f ↦ (let g : same_event k n ≡ false = ground arith in rw (f, g) refl)
        ]))
  | inr e ↦
      (let other : same_event k m ≡ false = sym (same_event-event_id k m) ∙ e in
        rw e (elim (Bool-cases (same_event k n)) [
          | inl f ↦ (let g : same_event m n ≡ false = ground arith in rw (f, g) refl)
          | inr f ↦ rw f (value_of-set_event m n v es)
        ]))
]

value_of-add_event :
    (n : EventName) (step : ℕ) (row : Option EcoRow) (es : Events)
    → value_of n (add_event step row es) ≡ or_before (says n step row) (value_of n es)
value_of-add_event n step none es = refl
value_of-add_event n step (some row) es =
    value_of-set_event row.name n (row.min + step * row.step) es
    ∙ (elim (Bool-cases (same_event row.name n)) [ inl e ↦ rw e refl | inr e ↦ rw e refl ])

or_before_assoc : (a b c : Option ℕ) → or_before a (or_before b c) ≡ or_before (or_before a b) c
or_before_assoc none b c = refl
or_before_assoc (some v) b c = refl

value_of-read_events :
    (t : Tables) (ps : List (ℕ × ℕ)) (es : Events) (n : EventName)
    → value_of n (read_events t ps es) ≡ or_before (last_said t ps n) (value_of n es)
unfolding read_events last_said
value_of-read_events t [] es n = refl
value_of-read_events t ((id, step) ∷ ps) es n =
    value_of-read_events t ps (add_event step (t.eco_step id) es) n
    ∙ ap (or_before (last_said t ps n)) (value_of-add_event n step (t.eco_step id) es)
    ∙ or_before_assoc (last_said t ps n) (says n step (t.eco_step id)) (value_of n es)

or_before-none : (a : Option ℕ) → or_before a none ≡ a
or_before-none none = refl
or_before-none (some v) = refl

pub value_of-last_said :
    (t : Tables) (ps : List (ℕ × ℕ)) (n : EventName)
    → value_of n (read_events t ps []) ≡ last_said t ps n
unfolding value_of
value_of-last_said t ps n = value_of-read_events t ps [] n ∙ or_before-none (last_said t ps n)
