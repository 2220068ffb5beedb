-- ===== src/Framing/Spec.antt =====
-- What a frame is, apart from the ring: a header of fixed size that announces the body's length,
-- and the body. `Deframed` cuts a stream of bytes into the frames that it holds and the rest.
use nf_engine.Prelude.{
  ℕ, ◌+◌, ◌≤◌, ◌<◌, ◌≡◌, ◌⊎◌, List, [], ◌∷◌, ◌++◌, length, take, drop, ltb, if◌then◌else◌,
}
use nf_engine.Ring.{Ring}
use nf_engine.Ring.Inv.{IsValid, contents}
use nf_engine.Framing.{FramingResult, ok, need_more_data}

-- A kind of frame: how long the header is, and the body length that a header announces, which
-- the bytes behind the header do not change.
pub record Format : Type 0 where
  pub header_size : ℕ
  pub body_len : List ℕ → ℕ
  pub header_pos : 0 < header_size
  pub body_len_stable :
      (xs ys : List ℕ) → header_size ≤ length xs → body_len (xs ++ ys) ≡ body_len xs

module _ (f : Format) where
  open f use {header_size, body_len, header_pos, body_len_stable}

  abbrev pub frame_len : List ℕ → ℕ
  frame_len xs = header_size + body_len xs

  -- The front of the stream is a whole frame.
  abbrev pub IsComplete : List ℕ → Type 0
  IsComplete xs = (header_size ≤ length xs) × (frame_len xs ≤ length xs)

  -- The stream is too short for a header, or for the frame that its header announces.
  abbrev pub IsIncomplete : List ℕ → Type 0
  IsIncomplete xs = (length xs < header_size) ⊎ (length xs < frame_len xs)

  pub data Deframed : List ℕ → List (List ℕ) → List ℕ → Type 0 where
    rest : {xs : List ℕ} → IsIncomplete xs → Deframed xs [] xs
    next :
        {xs : List ℕ} {frames : List (List ℕ)} {ys : List ℕ}
        → IsComplete xs
        → Deframed (drop (frame_len xs) xs) frames ys
        → Deframed xs (take (frame_len xs) xs ∷ frames) ys

-- The frame at the front of a stream, if it is all there.
abbrev pub next_frame : Format → List ℕ → FramingResult
next_frame f xs =
    if ltb (length xs) f.header_size
    then need_more_data
    else if ltb (length xs) (f.header_size + f.body_len xs)
    then need_more_data
    else ok (f.header_size + f.body_len xs)

-- A `tryExtractFrame`, and the law that it finds the next frame of its format.
pub record Framer : Type 0 where
  pub format : Format
  pub extract : Ring → FramingResult
  pub finds : (r : Ring) → IsValid r → extract r ≡ next_frame format (contents r)
