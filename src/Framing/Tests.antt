-- ===== src/Framing/Tests.antt =====
-- Concrete runs of src/tcp/framing.js.
use free_fire.Prelude.{ℕ, ◌≡◌, refl, List, [], ◌∷◌, ◌++◌, arith, none, some}
use free_fire.Framing.{Frame, parse_client_frames, parse_loop, next_frame}
use free_fire.Framing.Parse.{resume, parse_client_frames-append}
use free_fire.Framing.RoundTrip.{
  encode_client_frames, parse_client_frames-encode, Splits, parse_client_frames-Splits,
}

-- A heartbeat, a command with two bytes, and a frame that is cut off.
abbrev stream : List ℕ
stream = 2 ∷ 0 ∷ 10 ∷ 1 ∷ 0 ∷ 0 ∷ 0 ∷ 2 ∷ 65 ∷ 66 ∷ 10 ∷ 1 ∷ 0 ∷ []

abbrev sent : List Frame
sent =
    record { cmd = 2; region = 0; payload = none }
    ∷ record { cmd = 10; region = 1; payload = some (65 ∷ 66 ∷ []) }
    ∷ []

parse_stream : parse_client_frames stream ≡ record { frames = sent; rest = 10 ∷ 1 ∷ 0 ∷ [] }
unfolding parse_client_frames parse_loop next_frame
parse_stream = refl

parse_client_frames-append_example :
    parse_client_frames (stream ++ 0 ∷ 0 ∷ 1 ∷ 67 ∷ [])
    ≡ resume (parse_client_frames stream) (0 ∷ 0 ∷ 1 ∷ 67 ∷ [])
parse_client_frames-append_example = parse_client_frames-append stream (0 ∷ 0 ∷ 1 ∷ 67 ∷ [])

parse_client_frames-encode_example :
    parse_client_frames (encode_client_frames sent ++ 10 ∷ 1 ∷ 0 ∷ []) ≡ (
      let p = parse_client_frames (10 ∷ 1 ∷ 0 ∷ []) in
      record { frames = sent ++ p.frames; rest = p.rest })
parse_client_frames-encode_example =
    parse_client_frames-encode sent (10 ∷ 1 ∷ 0 ∷ [])
      (refl, (((λ e. absurd (omega arith)), omega arith), tt))

parse_client_frames-Splits_example : Splits stream (parse_client_frames stream)
parse_client_frames-Splits_example = parse_client_frames-Splits stream (ground arith)
