-- ===== src/Ring/Read.antt =====
-- About the loop of `read`, and `clear`.
use nf_engine.Prelude.{
  ℕ, zero, suc, ◌+◌, ◌-◌, ◌≤◌, ◌<◌, ◌≡◌, refl, sym, ap, ◌∙◌, ◌⊎◌, inl, inr, take-nil, drop-nil,
  false, ◌&&◌, min, List, [], ◌++◌, Option, some, arith, length, take, drop, append_assoc,
  append-nil, length-append, ltb, Bool-cases, take-append_ge, drop-append_ge,
}
use nf_engine.Prelude.Slices.{length-slice}
use native.Mathlib.Decide.{dec_lt}
use nf_engine.Ring.Window.{window-zero}
use nf_engine.Ring.{Ring, capacity, readable, read_len, load, read_pass, read_loop, read, clear}
use nf_engine.Ring.Inv.{IsValid, contents, read_len_lem, read_len-ne-zero}
use nf_engine.Ring.Chunk.{consume-IsValid, contents-consume, capacity-consume, load_lem}

-- What the loop of `read` returns, with `out` copied so far.
abbrev Readout : Ring → ℕ → List ℕ → Option (List ℕ × Ring) → Type 0
Readout r len out result =
    (r' : Ring) × (result ≡ some (out ++ take (len - length out) (contents r), r'))
    × IsValid r'
    × (capacity r' ≡ capacity r)
    × (contents r' ≡ drop (len - length out) (contents r))

read_stopped :
    {r : Ring} (len : ℕ) (out : List ℕ)
    → IsValid r
    → (len - length out ≡ 0) ⊎ (contents r ≡ [])
    → Readout r len out (some (out, r))
read_stopped {r} len out v (inl e) = (r, rw (e, append-nil out), v, refl, rw e)
read_stopped {r} len out v (inr e) = (
  r,
  rw (e, take-nil (len - length out), append-nil out),
  v,
  refl,
  rw (e, drop-nil (len - length out)),
)

read_pass_lem :
    {r : Ring} (len : ℕ) (out : List ℕ)
    → IsValid r
    → length out < len
    → 0 < r.size
    → let (out', r') = read_pass r len out in
      (chunk : List ℕ) × (out' ≡ out ++ chunk)
      × (0 < length chunk)
      × (length out + length chunk ≤ len)
      × (contents r ≡ chunk ++ contents r')
      × IsValid r'
      × (capacity r' ≡ capacity r)
unfolding read_pass
read_pass_lem {r} len out v more left = (
  load r n,
  refl,
  omega (arith, width, read_len-ne-zero v left),
  omega (arith, width),
  contents-consume n v (omega arith),
  consume-IsValid n v (omega arith),
  capacity-consume r n,
)
  where
    n : ℕ
    n = min (read_len r) (len - length out)

    width : length (load r n) ≡ n
    width =
        ap length (load_lem n v (omega arith))
        ∙ length-slice r.head n r.buffer (omega (arith, read_len_lem v, v.head_in))

-- Copying a chunk and then the rest is copying both.
copy_chunk :
    (out chunk more o : List ℕ) (len : ℕ)
    → o ≡ out ++ chunk
    → length out + length chunk ≤ len
    → (o ++ take (len - length o) more ≡ out ++ take (len - length out) (chunk ++ more))
      × (drop (len - length o) more ≡ drop (len - length out) (chunk ++ more))
copy_chunk out chunk more o len e h = (
  rw (e, take-append_ge chunk more (len - length out) (omega arith))
      (append_assoc out chunk _ ∙ ap (λ k. out ++ (chunk ++ take k more)) left),
  rw (e, drop-append_ge chunk more (len - length out) (omega arith)) (ap (λ k. drop k more) left),
)
  where
    left : len - length (out ++ chunk) ≡ len - length out - length chunk
    left = omega (arith, length-append out chunk)

read_done :
    (r : Ring) (len : ℕ) (out : List ℕ)
    → (ltb (length out) len && ltb 0 r.size) ≡ false
    → (len - length out ≡ 0) ⊎ (contents r ≡ [])
read_done r len out e = elim (dec_lt 0 r.size) [
  | yes p ↦ inl (ground arith)
  | no p ↦ inr (window-zero r.buffer r.head r.size (omega arith))
]

read_again :
    {r : Ring} (len : ℕ) (out : List ℕ) (rest : Ring → List ℕ → Option (List ℕ × Ring))
    → IsValid r
    → length out < len
    → 0 < r.size
    → ((r' : Ring) (o : List ℕ)
        → IsValid r'
        → length o ≤ len
        → length out < length o
        → Readout r' len o (rest r' o))
    → let (out', r') = read_pass r len out in Readout r len out (rest r' out')
read_again {r} len out rest v more left ih =
    let (chunk, grown, pos, fits', cut, v', same) = read_pass_lem len out v more left in
    let r' = (read_pass r len out).1 in
    let o : List ℕ = (read_pass r len out).0 in
    let wide : length o ≡ length out + length chunk = ap length grown ∙ length-append out chunk in
    let (r'', e, v'', same', rest') = ih r' o v' (omega (arith, wide)) (omega (arith, wide)) in
    let (taken, dropped) = copy_chunk out chunk (contents r') o len grown fits' in
    (
      r'',
      e
          ∙ ap (λ xs. some (xs, r''))
              (taken ∙ ap (λ ys. out ++ take (len - length out) ys) (sym cut)),
      v'',
      same' ∙ same,
      rest' ∙ (dropped ∙ ap (drop (len - length out)) (sym cut)),
    )

read_loop_lem :
    (fuel : ℕ) {r : Ring} (len : ℕ) (out : List ℕ)
    → IsValid r
    → length out ≤ len
    → len < fuel + length out
    → Readout r len out (read_loop fuel r len out)
unfolding read_loop readable
read_loop_lem zero len out v w f = absurd (omega arith)
read_loop_lem (suc fuel) {r} len out v w f =
    elim (Bool-cases (ltb (length out) len && ltb 0 r.size)) [
      | inl e ↦ rw e (
          read_again len out (λ r' o. read_loop fuel r' len o) v (ground arith) (ground arith)
            (λ r' o v' le lt. read_loop_lem fuel len o v' le (omega arith)))
      | inr e ↦ rw e (read_stopped len out v (read_done r len out e))
    ]

-- `read` ends. It returns the bytes at the front of what the ring holds, as many as asked for or
-- all of them, leaves the rest, and keeps the invariant and the capacity.
pub read_lem :
    {r : Ring} (len : ℕ)
    → IsValid r
    → (r' : Ring) × (read r len ≡ some (take len (contents r), r'))
      × (contents r' ≡ drop len (contents r))
      × (capacity r' ≡ capacity r)
      × IsValid r'
unfolding read
read_lem {r} len v =
    let (r', e, v', same, rest) =
      read_loop_lem (suc len) {r = r} len [] v (omega arith) (omega arith) in
    let all : len - 0 ≡ len = omega arith in
    (
      r',
      e ∙ ap (λ k. some (take k (contents r), r')) all,
      rest ∙ ap (λ k. drop k (contents r)) all,
      same,
      v',
    )

-- `clear` empties a valid ring and keeps the invariant.
pub clear-IsValid : {r : Ring} → IsValid r → IsValid (clear r) × (contents (clear r) ≡ [])
unfolding clear
clear-IsValid {r} v = (kept, window-zero r.buffer 0 0 refl)
  where
    kept : IsValid (clear r)
    kept = record {
      small = v.small;
      head_in = omega (arith, v.head_in);
      tail_in = omega (arith, v.head_in);
      size_in = omega arith;
      tail_at = inl (omega arith);
    }
