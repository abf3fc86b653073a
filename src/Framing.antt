-- ===== src/Framing.antt =====
-- The gateway's wire framing (src/tcp/framing.js). A buffer is the list of its bytes; an offset
-- into it is the list that is left.
pub mod Parse
pub mod RoundTrip
mod Tests
use free_fire.Prelude.{
  ℕ, zero, suc, ◌+◌, ◌*◌, ◌/◌, ◌%◌, Option, none, some, List, [], ◌∷◌, ◌++◌, ◌==◌, ltb,
  if◌then◌else◌, length, take, drop,
}

-- CMD.HEARTBEAT
abbrev pub heartbeat : ℕ
heartbeat = 2

pub record Frame : Type 0 where
  pub cmd : ℕ
  pub region : ℕ
  pub payload : Option (List ℕ)

-- Buffer.readUInt32BE on its four bytes, and writeUInt32BE.
abbrev pub read_uint32_be : ℕ → ℕ → ℕ → ℕ → ℕ
read_uint32_be a b c d = ((a * 256 + b) * 256 + c) * 256 + d

abbrev pub write_uint32_be : ℕ → List ℕ
write_uint32_be n = n / 16777216 ∷ n / 65536 % 256 ∷ n / 256 % 256 ∷ n % 256 ∷ []

-- The frames of a buffer, and what is left of it.
pub record Parsed : Type 0 where
  pub frames : List Frame
  pub rest : List ℕ

abbrev pub push : Frame → Parsed → Parsed
push f p = record { frames = f ∷ p.frames; rest = p.rest }

-- The loop's body behind the heartbeat test, on the bytes from the third on.
payload_of : ℕ → ℕ → List ℕ → Option (Frame × List ℕ)
payload_of cmd region (a ∷ b ∷ c ∷ d ∷ bytes) =
    let len = read_uint32_be a b c d in
    if ltb (length bytes) len
    then none
    else some
        (record { cmd = cmd; region = region; payload = some (take len bytes) }, drop len bytes)
payload_of cmd region _ = none

-- One round of the `while` loop: a frame and the bytes behind it, or `none` where the loop ends.
unfoldable pub next_frame : List ℕ → Option (Frame × List ℕ)
unfolding payload_of
next_frame (cmd ∷ region ∷ bytes) =
    if cmd == heartbeat
    then some (record { cmd = cmd; region = region; payload = none }, bytes)
    else payload_of cmd region bytes
next_frame _ = none

-- The `while` loop, with fuel for its rounds.
unfoldable pub parse_loop : ℕ → List ℕ → Parsed
parse_loop zero buf = record { frames = []; rest = buf }
parse_loop (suc fuel) buf = elim (next_frame buf) [
  | none ↦ record { frames = []; rest = buf }
  | some (f, after) ↦ push f (parse_loop fuel after)
]

-- Each round takes two bytes at least, so the buffer's length is fuel enough.
unfoldable pub parse_client_frames : List ℕ → Parsed
parse_client_frames buf = parse_loop (length buf) buf

unfoldable pub encode_server_frame : ℕ → List ℕ → List ℕ
encode_server_frame cmd payload =
    if cmd == heartbeat then heartbeat ∷ [] else (cmd ∷ write_uint32_be (length payload)) ++ payload
