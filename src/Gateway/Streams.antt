-- ===== src/Gateway/Streams.antt =====
-- A connection's behaviour does not depend on how TCP cuts its stream (src/tcp/gateway.js).
use free_fire.Prelude.{ℕ, ◌≡◌, refl, sym, List, [], ◌∷◌, ◌++◌, append_assoc}
use free_fire.Framing.{Frame, parse_client_frames}
use free_fire.Framing.Parse.{parse_client_frames-append}
use free_fire.Gateway.{
  Services, Session, Sessions, Connection, Outcome, handle_frame, handle_frames, on_data,
}
use mathlib.Core.Option.{Option}

abbrev then_frames : Services → ℕ → Outcome → List Frame → Outcome
then_frames v socket o gs =
    let p = handle_frames v socket gs o.entry o.sessions in
    record p { effects = o.effects ++ p.effects }

handle_frames-append :
    (v : Services) (socket : ℕ) (fs gs : List Frame) (entry : Option Session) (sessions : Sessions)
    → handle_frames v socket (fs ++ gs) entry sessions
      ≡ then_frames v socket (handle_frames v socket fs entry sessions) gs
unfolding handle_frames
handle_frames-append v socket [] gs entry sessions = refl
handle_frames-append v socket (f ∷ fs) gs entry sessions =
    let o = handle_frame v socket f entry sessions in
    rw (handle_frames-append v socket fs gs o.entry o.sessions) (rw append_assoc refl)

-- Two chunks, one after the other, do what the one chunk does that they make up: the same bytes left
-- over, the same session of the connection, the same sessions and the same effects in order.
pub on_data-append :
    (v : Services) (socket : ℕ) (a b : List ℕ) (c : Connection) (sessions : Sessions)
    → on_data v socket (a ++ b) c sessions ≡ (
        let (d, (mid, first)) = on_data v socket a c sessions in
        let (e, (end, second)) = on_data v socket b d mid in (e, (end, first ++ second)))
unfolding on_data
on_data-append v socket a b c sessions =
    let p = parse_client_frames (c.buf ++ a) in
    let q = parse_client_frames (p.rest ++ b) in
    rw
      (
        sym (append_assoc c.buf a b),
        parse_client_frames-append (c.buf ++ a) b,
        handle_frames-append v socket p.frames q.frames c.entry sessions,
      )
      refl
