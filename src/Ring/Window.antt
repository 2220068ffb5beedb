-- ===== src/Ring/Window.antt =====
-- The bytes that stand in a circular stretch of an array, and what cutting and writing does to it.
use nf_engine.Prelude.{
  ℕ, ◌+◌, ◌-◌, ◌≤◌, ◌<◌, ◌≡◌, refl, sym, ap, ap₂, ◌∙◌, min, List, [], ◌++◌, arith, length,
  append_assoc, append-nil, length-append, take, drop, take-append_ge, take-append_le, take-take,
  take-take_le,
}
use native.Mathlib.Decide.{dec_lt}
use nf_engine.Prelude.Slices.{
  slice, blit, length-slice, length-blit, slice-add, slice-blit_before, slice-blit_self,
  slice-blit_after,
}

module _ (buf : List ℕ) where
  -- How many of `s` bytes from index `h` on stand before the end of the array.
  abbrev pub before_end : ℕ → ℕ → ℕ
  before_end h s = min s (length buf - h)

  -- The `s` bytes from index `h` on, going round at the end of the array.
  abbrev pub window : ℕ → ℕ → List ℕ
  window h s = slice h (before_end h s) buf ++ slice 0 (s - before_end h s) buf

  pub window-zero : (h s : ℕ) → s ≡ 0 → window h s ≡ []
  window-zero h s e =
      ap₂ ◌++◌ (ap (λ k. slice h k buf) (let d : before_end h s ≡ 0 = omega arith in d))
        (ap (λ k. slice 0 k buf) (let d : s - before_end h s ≡ 0 = omega arith in d))

  pub length-window : (h s : ℕ) → h ≤ length buf → s ≤ length buf → length (window h s) ≡ s
  length-window h s p q = omega (
    arith,
    length-append (slice h (before_end h s) buf) (slice 0 (s - before_end h s) buf),
    length-slice h (before_end h s) buf (omega arith),
    length-slice 0 (s - before_end h s) buf (omega arith),
  )

  -- A window that does not go round is one slice.
  pub window-flat : (h s : ℕ) → h + s ≤ length buf → window h s ≡ slice h s buf
  window-flat h s p =
      ap₂ ◌++◌ (ap (λ k. slice h k buf) (let d : before_end h s ≡ s = omega arith in d))
        (ap (λ k. slice 0 k buf) (let d : s - before_end h s ≡ 0 = omega arith in d))
      ∙ append-nil (slice h s buf)

  -- One that does is two.
  pub window-round :
      (h s t : ℕ)
      → h ≤ length buf
      → t + length buf ≡ h + s
      → window h s ≡ slice h (length buf - h) buf ++ slice 0 t buf
  window-round h s t p e =
      ap₂ ◌++◌
        (ap (λ k. slice h k buf) (let d : before_end h s ≡ length buf - h = omega arith in d))
        (ap (λ k. slice 0 k buf) (let d : s - before_end h s ≡ t = omega arith in d))

  -- The first `n` bytes and the rest, where they end before the array does, or just there.
  pub window-cut :
      (h s n : ℕ)
      → n ≤ s
      → h + n < length buf
      → window h s ≡ slice h n buf ++ window (h + n) (s - n)
  window-cut h s n p q =
      ap₂ ◌++◌
        (ap (λ k. slice h k buf)
            (let d : before_end h s ≡ n + before_end (h + n) (s - n) = omega arith in d)
          ∙ slice-add h n (before_end (h + n) (s - n)) buf)
        (ap (λ k. slice 0 k buf)
          (let d : s - before_end h s ≡ s - n - before_end (h + n) (s - n) = omega arith in d))
      ∙ append_assoc (slice h n buf) _ _

  pub window-cut_end :
      (h s n : ℕ)
      → n ≤ s
      → s ≤ length buf
      → h + n ≡ length buf
      → window h s ≡ slice h n buf ++ window 0 (s - n)
  window-cut_end h s n p q e =
      ap₂ ◌++◌ (ap (λ k. slice h k buf) (let d : before_end h s ≡ n = omega arith in d)) (
        ap (λ k. slice 0 k buf) (let d : s - before_end h s ≡ s - n = omega arith in d)
        ∙ sym (window-flat 0 (s - n) (omega arith)))

  -- A prefix of a window is a shorter window.
  pub take-window :
      (h s n : ℕ) → h ≤ length buf → s ≤ length buf → take n (window h s) ≡ window h (min n s)
  take-window h s n p q = elim (dec_lt (before_end h s) n) [
    | yes more ↦
        take-append_ge (slice h (before_end h s) buf) _ n (omega (arith, width))
        ∙ ap₂ ◌++◌
            (ap (λ k. slice h k buf)
              (let d : before_end h s ≡ before_end h (min n s) = omega arith in d))
            (take-take (n - length (slice h (before_end h s) buf)) (s - before_end h s) buf
              ∙ ap (λ k. slice 0 k buf)
                  (let d : min (n - length (slice h (before_end h s) buf)) (s - before_end h s)
                        ≡ min n s - before_end h (min n s) =
                      omega (arith, width) in
                    d))
    | no less ↦
        take-append_le (slice h (before_end h s) buf) _ n (omega (arith, width))
        ∙ take-take_le n (before_end h s) (drop h buf) (omega arith)
        ∙ sym (
            window-flat h (min n s) (omega arith)
            ∙ ap (λ k. slice h k buf) (let d : min n s ≡ n = omega arith in d))
  ]
    where
      width : length (slice h (before_end h s) buf) ≡ before_end h s
      width = length-slice h (before_end h s) buf (omega arith)

module _ (buf : List ℕ) (xs : List ℕ) where
  -- Writing just behind a window extends it, whether it goes round or not.
  pub window-blit :
      (h s t : ℕ)
      → t ≡ h + s
      → t + length xs ≤ length buf
      → window (blit buf t xs) h (s + length xs) ≡ window buf h s ++ xs
  window-blit h s t e p =
      window-flat (blit buf t xs) h (s + length xs) (omega (arith, length-blit buf t xs p))
      ∙ slice-add h s (length xs) (blit buf t xs)
      ∙ ap₂ ◌++◌ (slice-blit_before buf t xs h s (omega arith) (omega arith)) (
          ap (λ k. slice k (length xs) (blit buf t xs)) (sym e)
          ∙ slice-blit_self buf t xs (length xs) (omega arith) refl)
      ∙ ap (λ ys. ys ++ xs) (sym (window-flat buf h s (omega arith)))

  pub window-blit_round :
      (h s t : ℕ)
      → h ≤ length buf
      → t + length buf ≡ h + s
      → s + length xs ≤ length buf
      → window (blit buf t xs) h (s + length xs) ≡ window buf h s ++ xs
  window-blit_round h s t hh e p =
      window-round (blit buf t xs) h (s + length xs) (t + length xs) (omega (arith, same))
        (omega (arith, same))
      ∙ ap₂ ◌++◌
          (ap (λ k. slice h (k - h) (blit buf t xs)) same
            ∙ slice-blit_after buf t xs h (length buf - h) (omega arith) (omega arith))
          (slice-add 0 t (length xs) (blit buf t xs)
            ∙ ap₂ ◌++◌ (slice-blit_before buf t xs 0 t (omega arith) (omega arith)) (
                ap (λ k. slice k (length xs) (blit buf t xs)) (let d : 0 + t ≡ t = omega arith in d)
                ∙ slice-blit_self buf t xs (length xs) (omega arith) refl))
      ∙ sym (append_assoc _ _ xs)
      ∙ ap (λ ys. ys ++ xs) (sym (window-round buf h s t hh e))
    where
      same : length (blit buf t xs) ≡ length buf
      same = length-blit buf t xs (omega arith)
