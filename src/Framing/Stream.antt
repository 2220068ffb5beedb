-- ===== src/Framing/Stream.antt =====
-- About streams that arrive in pieces: cutting them into frames.
use nf_engine.Prelude.{
  ℕ, ◌+◌, ◌≤◌, ◌≡◌, refl, sym, ap, ap₂, ◌∙◌, inl, inr, List, [], ◌∷◌, ◌++◌, arith, length, take,
  drop, append_assoc, take-append_le, drop-append_le, length-append, take-append-drop, take-all,
  drop-all,
}
use mathlib.Core.Path.{subst}
use nf_engine.Framing.Spec.{Format, frame_len, IsComplete, IsIncomplete, Deframed, rest, next}

-- The library's `flatten`, by clauses that compute.
abbrev pub join : List (List ℕ) → List ℕ
join [] = []
join (xs ∷ xss) = xs ++ join xss

module _ (f : Format) where
  -- More bytes behind a header leave the frame's length as it is.
  frame_len-append :
      (xs ys : List ℕ) → f.header_size ≤ length xs → frame_len f (xs ++ ys) ≡ frame_len f xs
  frame_len-append xs ys h = ap (◌+◌ f.header_size) (f.body_len_stable xs ys h)

  next_append :
      (xs ys : List ℕ) {fs : List (List ℕ)} {left : List ℕ}
      → IsComplete f xs
      → Deframed f (drop (frame_len f xs) xs ++ ys) fs left
      → Deframed f (xs ++ ys) (take (frame_len f xs) xs ∷ fs) left
  next_append xs ys {fs} {left} whole d =
      subst (λ zs. Deframed f (xs ++ ys) (zs ∷ fs) left) cut
        (next (omega (arith, length-append xs ys, same), omega (arith, length-append xs ys, same))
          (subst (λ zs. Deframed f zs fs left) (sym dropped) d))
    where
      same : frame_len f (xs ++ ys) ≡ frame_len f xs
      same = frame_len-append xs ys whole.0

      cut : take (frame_len f (xs ++ ys)) (xs ++ ys) ≡ take (frame_len f xs) xs
      cut = rw same (take-append_le xs ys (frame_len f xs) whole.1)

      dropped : drop (frame_len f (xs ++ ys)) (xs ++ ys) ≡ drop (frame_len f xs) xs ++ ys
      dropped = rw same (drop-append_le xs ys (frame_len f xs) whole.1)

  -- The frames found in a part of the stream stay found when more arrives, and the search goes
  -- on from the rest.
  pub Deframed-append :
      {xs : List ℕ} {fs : List (List ℕ)} {left : List ℕ}
      → Deframed f xs fs left
      → (ys : List ℕ) (gs : List (List ℕ)) (left' : List ℕ) → Deframed f (left ++ ys) gs left'
      → Deframed f (xs ++ ys) (fs ++ gs) left'
  Deframed-append (rest short) ys gs left' d = d
  Deframed-append (next {xs} whole more) ys gs left' d =
      next_append xs ys whole (Deframed-append more ys gs left' d)

  -- Nothing is lost and nothing made up: the frames, in order, and the rest are the stream.
  pub Deframed-join :
      {xs : List ℕ} {fs : List (List ℕ)} {left : List ℕ}
      → Deframed f xs fs left
      → join fs ++ left ≡ xs
  Deframed-join (rest short) = refl
  Deframed-join (next {xs} {frames} {ys} whole more) =
      append_assoc (take (frame_len f xs) xs) (join frames) ys
      ∙ ap (◌++◌ (take (frame_len f xs) xs)) (Deframed-join more)
      ∙ take-append-drop (frame_len f xs) xs

  -- What is left holds no whole frame.
  pub Deframed-IsIncomplete :
      {xs : List ℕ} {fs : List (List ℕ)} {left : List ℕ}
      → Deframed f xs fs left
      → IsIncomplete f left
  Deframed-IsIncomplete (rest short) = short
  Deframed-IsIncomplete (next whole more) = Deframed-IsIncomplete more

  complete_not-IsIncomplete : (xs : List ℕ) → IsComplete f xs → IsIncomplete f xs → ⊥
  complete_not-IsIncomplete xs c (inl h) = omega (arith, c.0)
  complete_not-IsIncomplete xs c (inr h) = omega (arith, c.1)

  Deframed-unique_of :
      {xs ys : List ℕ} {fs gs : List (List ℕ)} {left left' : List ℕ}
      → Deframed f xs fs left
      → Deframed f ys gs left'
      → xs ≡ ys
      → (fs ≡ gs) × (left ≡ left')
  Deframed-unique_of (rest short) (rest short') e = (refl, e)
  Deframed-unique_of (rest {xs} short) (next whole more) e =
      absurd (complete_not-IsIncomplete xs (rw (e) whole) short)
  Deframed-unique_of (next {xs} whole more) (rest short) e =
      absurd (complete_not-IsIncomplete xs whole (rw e short))
  Deframed-unique_of (next {xs} whole more) (next {xs = ys} whole' more') e =
      let same : frame_len f xs ≡ frame_len f ys = ap (frame_len f) e in
      let (p, q) = Deframed-unique_of more more' (ap₂ drop same e) in
      (ap₂ ◌∷◌ (ap₂ take same e) p, q)

  -- A stream is cut into frames in one way only.
  pub Deframed-unique :
      {xs : List ℕ} {fs gs : List (List ℕ)} {left left' : List ℕ}
      → Deframed f xs fs left
      → Deframed f xs gs left'
      → (fs ≡ gs) × (left ≡ left')
  Deframed-unique d d' = Deframed-unique_of d d' refl

-- Bytes that are one whole frame deframe to themselves.
pub Deframed-whole :
    (f : Format) (xs : List ℕ)
    → f.header_size ≤ length xs
    → frame_len f xs ≡ length xs
    → Deframed f xs (xs ∷ []) []
Deframed-whole f xs h e =
    subst (λ frame. Deframed f xs (frame ∷ []) []) (take-all (frame_len f xs) xs (omega arith))
      (next (h, omega arith)
        (subst (λ left. Deframed f left [] []) (sym (drop-all (frame_len f xs) xs (omega arith)))
          (rest (inl f.header_pos))))
