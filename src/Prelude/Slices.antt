-- ===== src/Prelude/Slices.antt =====
-- Stretches of an array: what a `memcpy` out of it reads and a `memcpy` into it leaves.
use Prim.Native.Nat.{ℕ, zero, suc, ◌+◌, ◌-◌, ◌≤◌}
use mathlib.Core.Path.{◌≡◌, sym, ap, ◌∙◌}
use mathlib.Core.List.{List, [], ◌∷◌, ◌++◌}
use native.Mathlib.Omega.{arith}
use nf_engine.Prelude.Lists.{
  length, take, drop, length-append, length-take, length-drop, drop-drop, take-append,
  take-append_le, drop-append_le, drop-append_ge, take-nil, take-append-drop,
}

module _ {ℓ} {A : Type ℓ} where
  -- the `n` elements from index `i` on
  abbrev pub slice : ℕ → ℕ → List A → List A
  slice i n xs = take n (drop i xs)

  -- `xs` with `ys` written from index `i` on; it keeps the length if `ys` fits
  abbrev pub blit : List A → ℕ → List A → List A
  blit xs i ys = take i xs ++ (ys ++ drop (i + length ys) xs)

  pub length-slice : (i n : ℕ) (xs : List A) → i + n ≤ length xs → length (slice i n xs) ≡ n
  length-slice i n xs h = omega (arith, length-take n (drop i xs), length-drop i xs)

  pub length-blit :
      (xs : List A) (i : ℕ) (ys : List A)
      → i + length ys ≤ length xs
      → length (blit xs i ys) ≡ length xs
  length-blit xs i ys h = omega (
    arith,
    length-append (take i xs) (ys ++ drop (i + length ys) xs),
    length-append ys (drop (i + length ys) xs),
    length-take i xs,
    length-drop (i + length ys) xs,
  )

  pub take-add : (m n : ℕ) (xs : List A) → take (m + n) xs ≡ take m xs ++ take n (drop m xs)
  take-add zero n xs = ap (λ k. take k xs) (omega arith)
  take-add (suc m) n [] = take-nil (suc m + n) ∙ sym (take-nil n)
  take-add (suc m) n (x ∷ xs) =
      ap (λ k. take k (x ∷ xs)) (let e : suc m + n ≡ suc (m + n) = omega arith in e)
      ∙ ap (◌∷◌ x) (take-add m n xs)

  -- A stretch is read in one go or in two.
  pub slice-add :
      (i m n : ℕ) (xs : List A) → slice i (m + n) xs ≡ slice i m xs ++ slice (i + m) n xs
  slice-add i m n xs =
      take-add m n (drop i xs) ∙ ap (λ ys. slice i m xs ++ take n ys) (drop-drop i m xs)

  -- A write leaves what stands before it, shows what it wrote, and leaves what stands behind it.
  pub slice-blit_before :
      (xs : List A) (i : ℕ) (ys : List A) (j n : ℕ)
      → i ≤ length xs
      → j + n ≤ i
      → slice j n (blit xs i ys) ≡ slice j n xs
  slice-blit_before xs i ys j n hi h =
      ap (take n) (drop-append_le (take i xs) _ j (omega (arith, length-take i xs)))
      ∙ take-append_le (drop j (take i xs)) _ n
          (omega (arith, length-take i xs, length-drop j (take i xs)))
      ∙ sym back
    where
      back : slice j n xs ≡ take n (drop j (take i xs))
      back =
          ap (slice j n) (sym (take-append-drop i xs))
          ∙ ap (take n) (drop-append_le (take i xs) (drop i xs) j (omega (arith, length-take i xs)))
          ∙ take-append_le (drop j (take i xs)) (drop i xs) n
              (omega (arith, length-take i xs, length-drop j (take i xs)))

  pub slice-blit_self :
      (xs : List A) (i : ℕ) (ys : List A) (n : ℕ)
      → i ≤ length xs
      → length ys ≡ n
      → slice i n (blit xs i ys) ≡ ys
  slice-blit_self xs i ys n hi e =
      ap (take n) (drop-append_ge (take i xs) _ i (omega (arith, length-take i xs)))
      ∙ ap (λ k. take n (drop k (ys ++ drop (i + length ys) xs))) zero_left
      ∙ take-append ys _ n e
    where
      zero_left : i - length (take i xs) ≡ 0
      zero_left = omega (arith, length-take i xs)

  pub slice-blit_after :
      (xs : List A) (i : ℕ) (ys : List A) (j n : ℕ)
      → i + length ys ≤ length xs
      → i + length ys ≤ j
      → slice j n (blit xs i ys) ≡ slice j n xs
  slice-blit_after xs i ys j n hi h = ap (take n) (
      drop-append_ge (take i xs) _ j (omega (arith, length-take i xs))
      ∙ drop-append_ge ys _ (j - length (take i xs)) (omega (arith, length-take i xs))
      ∙ drop-drop (i + length ys) _ xs
      ∙ ap (λ k. drop k xs) (omega (arith, length-take i xs)))
