-- ===== src/Ipc/Laws.antt =====
-- About IpcMessage.cpp: messages built, and frames cut off the stream.
use nf_engine.Prelude.{
  ℕ, ◌+◌, ◌/◌, ◌%◌, ◌^◌, ◌≤◌, ◌<◌, ◌≡◌, refl, ap, ◌∙◌, List, [], ◌∷◌, ◌++◌, some, arith, length,
  take, drop, length-take, ltb, if◌then◌else◌, take-all, drop-all,
}
use native.Mathlib.Decide.{dec_lt}
use nf_engine.Bytes.{be16_at, be, be16, to_be}
use nf_engine.Framing.Spec.{Deframed, IsComplete, frame_len}
use nf_engine.Framing.Stream.{Deframed-whole}
use nf_engine.Framing.Laws.{ipc_format, take-be16, two_bytes}
use nf_engine.Ipc.{IpcMessage, body_len, validate, message, body, build_frame}

-- A frame as long as its header says makes a message.
message-whole :
    (fd : ℕ) (frame : List ℕ)
    → 2 ≤ length frame
    → be16_at frame 0 + 2 ≡ length frame
    → message fd frame ≡ some (record { fd = fd; payload = frame })
unfolding message validate body_len
message-whole fd frame long e = ground (arith, two_bytes frame long)

body_lem : (fd : ℕ) (frame : List ℕ) → body (record { fd = fd; payload = frame }) ≡ drop 2 frame
unfolding body
body_lem fd frame = elim (dec_lt 2 (length frame)) [
  | yes more ↦ ground arith
  | no less ↦ ground (arith, drop-all 2 frame (omega arith))
]

-- A frame that the framing cut off the stream makes a message, without an exception, and the body
-- of the message is the rest of the frame.
pub message-frame :
    (fd : ℕ) (xs : List ℕ)
    → IsComplete ipc_format xs
    → (m : IpcMessage) × ((message fd (take (frame_len ipc_format xs) xs) ≡ some m)
        × ((m.payload ≡ take (frame_len ipc_format xs) xs)
            × (body m ≡ drop 2 (take (frame_len ipc_format xs) xs))))
message-frame fd xs (long, whole) = (
  record { fd = fd; payload = frame },
  (
    message-whole fd frame (omega (arith, size)) (omega (arith, size, len)),
    (refl, body_lem fd frame),
  ),
)
  where
    frame : List ℕ
    frame = take (frame_len ipc_format xs) xs

    size : length frame ≡ 2 + be16_at xs 0
    size = omega (arith, length-take (frame_len ipc_format xs) xs)

    len : be16_at frame 0 ≡ be16_at xs 0
    len = take-be16 xs 0 (frame_len ipc_format xs) (omega arith) (omega arith)

-- What is built: the length in two bytes, and the text, cut to 65535 bytes.
abbrev built : List ℕ → List ℕ
built kept = length kept % 2 ^ 16 / 256 % 256 ∷ length kept % 2 ^ 16 % 256 ∷ kept

cut-take :
    (limit : ℕ) (text : List ℕ)
    → (if ltb limit (length text) then take limit text else text) ≡ take limit text
cut-take limit text = elim (dec_lt limit (length text)) [
  | yes long ↦ ground arith
  | no short ↦ ground (arith, take-all limit text (omega arith))
]

build_frame-built : (text : List ℕ) → build_frame text ≡ built (take 0xFFFF text)
unfolding build_frame
build_frame-built text = ap built (cut-take 0xFFFF text)

built-length : (kept : List ℕ) → length kept < 2 ^ 16 → be16_at (built kept) 0 ≡ length kept
unfolding be16_at be
built-length kept h = omega arith

-- The body of a message that was built is the text, cut to 65535 bytes, and the message is accepted.
pub message-build_frame :
    (fd : ℕ) (text : List ℕ)
    → (m : IpcMessage) × ((message fd (build_frame text) ≡ some m) × (body m ≡ take 0xFFFF text))
message-build_frame fd text = (
  record { fd = fd; payload = build_frame text },
  (
    message-whole fd (build_frame text) (rw (build_frame-built text) (omega arith))
        (rw (build_frame-built text) (omega (arith, built-length kept small))),
    body_lem fd (build_frame text) ∙ ap (drop 2) (build_frame-built text),
  ),
)
  where
    kept : List ℕ
    kept = take 0xFFFF text

    small : length kept < 2 ^ 16
    small = omega (arith, length-take 0xFFFF text)

-- A message that was built is one frame of the stream, with nothing behind.
pub build_frame-Deframed :
    (text : List ℕ) → Deframed ipc_format (build_frame text) (build_frame text ∷ []) []
build_frame-Deframed text =
    Deframed-whole ipc_format (build_frame text) (rw (build_frame-built text) (omega arith)) (
      rw (build_frame-built text)
        (omega (arith, built-length (take 0xFFFF text) (omega (arith, length-take 0xFFFF text)))))

-- A message that was built is one frame of the stream with nothing behind, it is accepted, and its
-- body is the text, cut to 65535 bytes.
pub build_frame_roundtrip :
    (fd : ℕ) (text : List ℕ)
    → Deframed ipc_format (build_frame text) (build_frame text ∷ []) []
      × ((m : IpcMessage) × ((message fd (build_frame text) ≡ some m)
            × (body m ≡ take 0xFFFF text)))
build_frame_roundtrip fd text = (build_frame-Deframed text, message-build_frame fd text)

-- A message that is made holds its descriptor and its bytes.
pub message-payload :
    (fd : ℕ) (frame : List ℕ) {m : IpcMessage}
    → message fd frame ≡ some m
    → (m.fd ≡ fd) × (m.payload ≡ frame)
unfolding message
message-payload fd frame made = ground arith

-- A frame that is built, in network order.
pub build_frame-be16 :
    (text : List ℕ)
    → build_frame text ≡ be16 (length (take 0xFFFF text) % 2 ^ 16) ++ take 0xFFFF text
unfolding to_be
build_frame-be16 text = rw (build_frame-built text) (
    ap (λ n. n ∷ length kept % 2 ^ 16 % 256 ∷ kept) high
    ∙ ap (λ n. length kept % 2 ^ 16 / 256 ^ 1 % 256 ∷ n ∷ kept) low)
  where
    kept : List ℕ
    kept = take 0xFFFF text

    high : length kept % 2 ^ 16 / 256 % 256 ≡ length kept % 2 ^ 16 / 256 ^ 1 % 256
    high = omega arith

    low : length kept % 2 ^ 16 % 256 ≡ length kept % 2 ^ 16 / 256 ^ 0 % 256
    low = omega arith
