-- ===== src/Framing/RoundTrip.antt =====
-- The frames of a byte stream against the client's side of the protocol, which the comment at the
-- head of src/tcp/framing.js gives: Cmd, Region and, but for a heartbeat, Len and Payload.
use free_fire.Prelude.{
  ℕ, zero, suc, ◌/◌, ◌%◌, ◌^◌, ◌≤◌, ◌<◌, ◌≡◌, ◌≢◌, refl, ap, ◌∙◌, List, [], ◌∷◌, ◌++◌, arith,
  length, All, length-append, take, drop, take-append-drop, take-length-append, length-take,
  drop-length-append, Option, none, some, append_assoc, if◌then◌else◌, ◌==◌,
}
use free_fire.Framing.{
  Frame, Parsed, read_uint32_be, write_uint32_be, next_frame, parse_client_frames, push, heartbeat,
  encode_server_frame,
}
use free_fire.Framing.Parse.{parse_step, parse_client_frames_induction}

abbrev wire_payload : Option (List ℕ) → List ℕ
wire_payload none = []
wire_payload (some p) = write_uint32_be (length p) ++ p

-- What the client sends for a frame.
abbrev pub encode_client_frame : Frame → List ℕ
encode_client_frame f = f.cmd ∷ f.region ∷ wire_payload f.payload

abbrev pub encode_client_frames : List Frame → List ℕ
encode_client_frames [] = []
encode_client_frames (f ∷ fs) = encode_client_frame f ++ encode_client_frames fs

-- A heartbeat, and no other frame, goes without payload; a payload's length fits in four bytes.
abbrev pub FitsWire : ℕ → Option (List ℕ) → Type 0
FitsWire cmd none = cmd ≡ heartbeat
FitsWire cmd (some p) = (cmd ≢ heartbeat) × (length p < 2 ^ 32)

abbrev pub AllFit : List Frame → Type 0
AllFit = All (λ f. FitsWire f.cmd f.payload)

next_frame-encode :
    (cmd region : ℕ) (p : Option (List ℕ)) (more : List ℕ)
    → FitsWire cmd p
    → let f : Frame = record { cmd = cmd; region = region; payload = p } in
      next_frame (encode_client_frame f ++ more) ≡ some (f, more)
unfolding next_frame
next_frame-encode cmd region none more h = ground arith
next_frame-encode cmd region (some p) more h =
    ground (arith, length-append p more, take-length-append p more, drop-length-append p more)

-- Frames that a client sends are parsed back in order, whatever bytes follow them.
pub parse_client_frames-encode :
    (fs : List Frame) (more : List ℕ)
    → AllFit fs
    → parse_client_frames (encode_client_frames fs ++ more)
      ≡ (let p = parse_client_frames more in record { frames = fs ++ p.frames; rest = p.rest })
parse_client_frames-encode [] more h = refl
parse_client_frames-encode (f ∷ fs) more h = rw append_assoc (
    parse_step _ f (encode_client_frames fs ++ more)
      (next_frame-encode f.cmd f.region f.payload (encode_client_frames fs ++ more) h.0)
    ∙ ap (push f) (parse_client_frames-encode fs more h.1))

abbrev pub AreBytes : List ℕ → Type 0
AreBytes = All (λ b. b < 256)

write-read_uint32_be :
    (a b c d : ℕ)
    → a < 256
    → b < 256
    → c < 256
    → d < 256
    → write_uint32_be (read_uint32_be a b c d) ≡ a ∷ b ∷ c ∷ d ∷ []
write-read_uint32_be a b c d ha hb hc hd = ground (arith)

AreBytes-drop : (n : ℕ) (xs : List ℕ) → AreBytes xs → AreBytes (drop n xs)
AreBytes-drop zero xs h = h
AreBytes-drop (suc n) [] h = h
AreBytes-drop (suc n) (x ∷ xs) h = AreBytes-drop n xs h.1

-- `f` was cut off the front of `buf`.
record Cuts (buf : List ℕ) (f : Frame) (after : List ℕ) : Type 0 where
  wire : encode_client_frame f ++ after ≡ buf
  bytes : AreBytes after
  fits : FitsWire f.cmd f.payload

payload_wire :
    (a b c d : ℕ) (bytes : List ℕ)
    → AreBytes (a ∷ b ∷ c ∷ d ∷ [])
    → read_uint32_be a b c d ≤ length bytes
    → let len = read_uint32_be a b c d in
      (wire_payload (some (take len bytes)) ++ drop len bytes ≡ a ∷ b ∷ c ∷ d ∷ bytes)
      × (length (take len bytes) < 2 ^ 32)
payload_wire a b c d bytes h fits =
    let len = read_uint32_be a b c d in
    let n : length (take len bytes) ≡ len = omega (arith, length-take len bytes) in
    let body = take len bytes ++ drop len bytes in
    (
      ap (λ t. write_uint32_be t ++ body) n
          ∙ (ap (λ t. t ++ body) (write-read_uint32_be a b c d h.0 h.1.0 h.1.1.0 h.1.1.1.0)
              ∙ ap (λ t. a ∷ b ∷ c ∷ d ∷ t) (take-append-drop len bytes)),
      omega arith,
    )

next_frame-Cuts :
    (buf : List ℕ) (f : Frame) (after : List ℕ)
    → next_frame buf ≡ some (f, after)
    → AreBytes buf
    → Cuts buf f after
unfolding next_frame
next_frame-Cuts [] f after e h = cc
next_frame-Cuts (cmd ∷ []) f after e h = cc
next_frame-Cuts (cmd ∷ region ∷ a ∷ b ∷ c ∷ d ∷ bytes) f after e h =
    ground (arith, payload_wire a b c d bytes, AreBytes-drop (read_uint32_be a b c d) bytes)
next_frame-Cuts (cmd ∷ region ∷ []) f after e h = ground arith
next_frame-Cuts (cmd ∷ region ∷ _) f after e h = ground arith

-- No frame that a client sends stands whole at the front of the bytes.
abbrev pub HasNoFrame : List ℕ → Type 0
HasNoFrame buf =
    (f : Frame) (more : List ℕ) → FitsWire f.cmd f.payload → encode_client_frame f ++ more ≢ buf

HasNoFrame-next_frame : (buf : List ℕ) → next_frame buf ≡ none → HasNoFrame buf
HasNoFrame-next_frame buf e f more h p =
    let found = next_frame-encode f.cmd f.region f.payload more h in
    let lost = ap next_frame p ∙ e in cc

-- What a parse took and what it left over make up the buffer again, each frame is one that a client
-- sends, and none is left whole.
pub record Splits (buf : List ℕ) (p : Parsed) : Type 0 where
  pub wire : encode_client_frames p.frames ++ p.rest ≡ buf
  pub fits : AllFit p.frames
  pub no_frame : HasNoFrame p.rest

Splits-push :
    (buf : List ℕ) (f : Frame) (after : List ℕ) (p : Parsed)
    → Cuts buf f after
    → Splits after p
    → Splits buf (push f p)
Splits-push buf f after p c s = record {
  wire =
      append_assoc (encode_client_frame f) _ _
      ∙ (ap (λ t. encode_client_frame f ++ t) s.wire ∙ c.wire);
  fits = (c.fits, s.fits);
  no_frame = s.no_frame;
}

-- For a buffer of bytes: re-encoding the parsed frames and appending the rest gives the buffer back,
-- every frame fits the wire format, and the rest does not begin with a frame that a client sends.
pub parse_client_frames-Splits :
    (buf : List ℕ) → AreBytes buf → Splits buf (parse_client_frames buf)
parse_client_frames-Splits buf =
    parse_client_frames_induction (λ b p. AreBytes b → Splits b p)
      (λ b e h. record { wire = refl; fits = tt; no_frame = HasNoFrame-next_frame b e })
      (λ b f after p e ih h.
        let c = next_frame-Cuts b f after e h in Splits-push b f after p c (ih c.bytes))
      (length buf) buf (omega arith)

-- The server's frame: one byte for a heartbeat; else the command, the payload's length in four
-- bytes, and the payload, so that a reader finds the length where it expects it.
pub encode_server_frame-layout :
    (cmd : ℕ) (payload : List ℕ)
    → length payload < 2 ^ 32
    → (a b c d : ℕ) × (encode_server_frame cmd payload
        ≡ (if cmd == heartbeat then heartbeat ∷ [] else cmd ∷ a ∷ b ∷ c ∷ d ∷ payload))
      × (read_uint32_be a b c d ≡ length payload)
      × AreBytes (a ∷ b ∷ c ∷ d ∷ [])
unfolding encode_server_frame
encode_server_frame-layout cmd payload h =
    let n = length payload in
    (n / 16777216, n / 65536 % 256, n / 256 % 256, n % 256, refl, omega arith, omega arith)
