-- ===== src/Framing/Parse.antt =====
-- The parser takes the same frames however the stream is cut into chunks, and loses no byte.
use free_fire.Prelude.{
  ℕ, zero, suc, ◌≤◌, ◌<◌, ◌≡◌, refl, ap, List, [], ◌∷◌, ◌++◌, arith, length, length-append,
  length-drop, take-append, drop-append, none, some, Option-cases, inl, inr,
}
use free_fire.Framing.{
  Frame, Parsed, read_uint32_be, next_frame, parse_loop, parse_client_frames, push,
}

next_frame-shorter :
    (buf : List ℕ) (f : Frame) (after : List ℕ)
    → next_frame buf ≡ some (f, after)
    → length after < length buf
unfolding next_frame
next_frame-shorter [] f after h = cc
next_frame-shorter (cmd ∷ []) f after h = cc
next_frame-shorter (cmd ∷ region ∷ a ∷ b ∷ c ∷ d ∷ bytes) f after h =
    ground (arith, length-drop (read_uint32_be a b c d) bytes)
next_frame-shorter (cmd ∷ region ∷ _) f after h = ground arith

-- A frame that is complete stays the same when more bytes arrive.
next_frame-append :
    (buf more : List ℕ) (f : Frame) (after : List ℕ)
    → next_frame buf ≡ some (f, after)
    → next_frame (buf ++ more) ≡ some (f, after ++ more)
unfolding next_frame
next_frame-append [] more f after h = cc
next_frame-append (cmd ∷ []) more f after h = cc
next_frame-append (cmd ∷ region ∷ a ∷ b ∷ c ∷ d ∷ bytes) more f after h =
    let len = read_uint32_be a b c d in
    ground (arith, length-append bytes more, take-append len bytes more, drop-append len bytes more)
next_frame-append (cmd ∷ region ∷ []) more f after h = ground arith
next_frame-append (cmd ∷ region ∷ _) more f after h = ground arith

-- Any fuel from the buffer's length on gives the same result.
pub parse_loop_fuel :
    (n m : ℕ) (buf : List ℕ) → length buf ≤ n → length buf ≤ m → parse_loop n buf ≡ parse_loop m buf
unfolding parse_loop
parse_loop_fuel zero zero buf p q = refl
parse_loop_fuel zero (suc m) [] p q = unfold next_frame in refl
parse_loop_fuel zero (suc m) (c ∷ buf) p q = absurd (omega arith)
parse_loop_fuel (suc n) zero [] p q = unfold next_frame in refl
parse_loop_fuel (suc n) zero (c ∷ buf) p q = absurd (omega arith)
parse_loop_fuel (suc n) (suc m) buf p q = elim (Option-cases (next_frame buf)) [
  | inl e ↦ rw (e, parse_loop)
  | inr ((f, after), e) ↦
      rw (e, parse_loop)
        (ap (push f) (
          parse_loop_fuel n m after (omega (arith, next_frame-shorter buf f after e))
            (omega (arith, next_frame-shorter buf f after e))))
]

-- The parser by its rounds, without fuel.
pub parse_step :
    (buf : List ℕ) (f : Frame) (after : List ℕ)
    → next_frame buf ≡ some (f, after)
    → parse_client_frames buf ≡ push f (parse_client_frames after)
unfolding parse_client_frames parse_loop
parse_step [] f after e = unfold next_frame in cc e
parse_step (c ∷ cs) f after e =
    rw (e, parse_loop)
      (ap (push f) (
        parse_loop_fuel (length cs) (length after) after
          (omega (arith, next_frame-shorter (c ∷ cs) f after e)) (omega arith)))

pub parse_stop :
    (buf : List ℕ)
    → next_frame buf ≡ none
    → parse_client_frames buf ≡ record { frames = []; rest = buf }
unfolding parse_client_frames parse_loop
parse_stop [] e = refl
parse_stop (c ∷ cs) e = rw (e, parse_loop)

-- Induction over the rounds of a parse.
pub parse_client_frames_induction {ℓ} :
    (P : List ℕ → Parsed → Type ℓ)
    → ((buf : List ℕ) → next_frame buf ≡ none → P buf (record { frames = []; rest = buf }))
    → ((buf : List ℕ) (f : Frame) (after : List ℕ) (p : Parsed)
        → next_frame buf ≡ some (f, after)
        → P after p
        → P buf (push f p))
    → (n : ℕ) (buf : List ℕ) → length buf ≤ n
    → P buf (parse_client_frames buf)
parse_client_frames_induction P stop step zero [] h =
    rw (parse_stop [] (unfold next_frame in refl)) (stop [] (unfold next_frame in refl))
parse_client_frames_induction P stop step zero (c ∷ cs) h = absurd (omega arith)
parse_client_frames_induction P stop step (suc n) buf h = elim (Option-cases (next_frame buf)) [
  | inl e ↦ rw (parse_stop buf e) (stop buf e)
  | inr ((f, after), e) ↦ rw (parse_step buf f after e) (
      step buf f after _ e (
        parse_client_frames_induction P stop step n after
          (omega (arith, next_frame-shorter buf f after e))))
]

-- Parsing goes on where it stopped.
abbrev pub resume : Parsed → List ℕ → Parsed
resume p more =
    let q = parse_client_frames (p.rest ++ more) in
    record { frames = p.frames ++ q.frames; rest = q.rest }

parse_loop-append :
    (n m : ℕ) (a b : List ℕ)
    → length a ≤ m
    → length (a ++ b) ≤ n
    → parse_loop n (a ++ b) ≡ resume (parse_loop m a) b
unfolding parse_loop parse_client_frames
parse_loop-append n zero a b g h = parse_loop_fuel n (length (a ++ b)) (a ++ b) h (omega arith)
parse_loop-append n (suc m) [] b g h =
    unfold next_frame in parse_loop_fuel n (length b) b h (omega arith)
parse_loop-append zero (suc m) (c ∷ a) b g h = absurd (omega arith)
parse_loop-append (suc n) (suc m) (c ∷ cs) b g h =
    let a = c ∷ cs in
    elim (Option-cases (next_frame a)) [
      | inl e ↦
          rw (e, parse_loop) (parse_loop_fuel (suc n) (length (a ++ b)) (a ++ b) h (omega arith))
      | inr ((f, after), e) ↦
          rw (e, next_frame-append a b f after e, parse_loop)
            (ap (push f) (
              parse_loop-append n m after b (omega (arith, next_frame-shorter a f after e)) (
                omega (
                  arith,
                  length-append a b,
                  length-append after b,
                  next_frame-shorter a f after e,
                ))))
    ]

-- Bytes that arrive later never change the frames already taken: parsing a buffer in two parts,
-- the second behind what the first left over, gives the frames and the rest of the whole.
pub parse_client_frames-append :
    (a b : List ℕ) → parse_client_frames (a ++ b) ≡ resume (parse_client_frames a) b
unfolding parse_client_frames
parse_client_frames-append a b =
    parse_loop-append (length (a ++ b)) (length a) a b (omega arith) (omega arith)
