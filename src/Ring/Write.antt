-- ===== src/Ring/Write.antt =====
-- About the loop of `write`.
use nf_engine.Prelude.{
  ℕ, zero, suc, ◌+◌, ◌-◌, ◌^◌, ◌≤◌, ◌<◌, ◌≡◌, refl, sym, ap, ◌∙◌, inl, inr, ◌&&◌, min, List, [],
  ◌++◌, Option, some, arith, length, take, drop, append_assoc, append-nil, length-append,
  length-take, length-drop, drop-drop, ltb, Bool-cases,
}
use nf_engine.Prelude.Slices.{take-add}
use nf_engine.Ring.{
  Ring, capacity, writable, write_len, produce, store, add_size, write_pass, write_loop, write,
}
use nf_engine.Ring.Inv.{IsValid, contents, writable_lem, write_len-ne-zero}
use nf_engine.Ring.Chunk.{Extended, produce-Extended}

Extended-refl : {r : Ring} → IsValid r → Extended r [] r
Extended-refl {r} v = record {
  valid = v;
  capacity_kept = refl;
  size_grown = omega arith;
  bytes = sym (append-nil (contents r));
}

Extended-trans :
    {r s t : Ring} (xs ys : List ℕ) → Extended r xs s → Extended s ys t → Extended r (xs ++ ys) t
Extended-trans {r} xs ys a b = record {
  valid = b.valid;
  capacity_kept = b.capacity_kept ∙ a.capacity_kept;
  size_grown = omega (arith, a.size_grown, b.size_grown, length-append xs ys);
  bytes = b.bytes ∙ ap (λ zs. zs ++ ys) a.bytes ∙ append_assoc (contents r) xs ys;
}

-- How many of the bytes from `written` on still fit.
abbrev fits : Ring → List ℕ → ℕ → ℕ
fits r bytes written = min (length bytes - written) (capacity r - r.size)

-- One pass takes a byte at least, and appends what it takes.
write_pass_lem :
    {r : Ring} (bytes : List ℕ) (written : ℕ)
    → IsValid r
    → written < length bytes
    → r.size < capacity r
    → let (n, r') = write_pass r bytes written in
      (0 < n) × (n ≤ length bytes - written) × Extended r (take n (drop written bytes)) r'
unfolding write_pass
write_pass_lem {r} bytes written v more room =
    (omega (arith, write_len-ne-zero v room), omega arith, rw (sym wide) at grown)
  where
    n : ℕ
    n = min (write_len r) (length bytes - written)

    xs : List ℕ
    xs = take n (drop written bytes)

    wide : n ≡ length xs
    wide = omega (arith, length-take n (drop written bytes), length-drop written bytes)

    grown : Extended r xs (produce (store r xs) (length xs))
    grown = produce-Extended xs v (write_len-ne-zero v room) (omega (arith, wide))

-- What the loop of `write` returns, started at `r` with `written` bytes taken.
abbrev Wrote : Ring → List ℕ → ℕ → Option (ℕ × Ring) → Type 0
Wrote r bytes written out =
    (r' : Ring) × (out ≡ some (written + fits r bytes written, r'))
    × Extended r (take (fits r bytes written) (drop written bytes)) r'

-- The loop has nothing left to do.
stopped :
    {r : Ring} (bytes : List ℕ) (written : ℕ)
    → IsValid r
    → fits r bytes written ≡ 0
    → Wrote r bytes written (some (written, r))
stopped {r} bytes written v e = (
  r,
  ap (λ k. some (k, r)) (let d : written ≡ written + fits r bytes written = omega arith in d),
  rw e (Extended-refl v),
)

-- One pass, and then the rest of the loop.
passed :
    {r r' : Ring} (bytes : List ℕ) (written n : ℕ) (out : Option (ℕ × Ring))
    → n ≤ length bytes - written
    → r'.size ≤ capacity r'
    → Extended r (take n (drop written bytes)) r'
    → Wrote r' bytes (written + n) out
    → Wrote r bytes written out
passed {r} {r'} bytes written n out p q a (r'', e, b) = (
  r'',
  rw (← total) (
      e
      ∙ ap (λ k. some (k, r''))
          (let d : written + n + fits r' bytes (written + n)
                ≡ written + (n + fits r' bytes (written + n)) =
              omega arith in
            d)),
  rw (← total, ← chunks) (Extended-trans _ _ a b),
)
  where
    width : length (take n (drop written bytes)) ≡ n
    width = omega (arith, length-take n (drop written bytes), length-drop written bytes)

    total : n + fits r' bytes (written + n) ≡ fits r bytes written
    total = omega (arith, a.size_grown, a.capacity_kept, width)

    chunks :
        take n (drop written bytes) ++ take (fits r' bytes (written + n)) (drop (written + n) bytes)
        ≡ take (n + fits r' bytes (written + n)) (drop written bytes)
    chunks = rw (← drop-drop written n bytes) (sym (take-add n _ (drop written bytes)))

-- A pass of the loop, if the rest of the loop does its part from any larger count.
write_again :
    {r : Ring} (bytes : List ℕ) (written : ℕ) (rest : Ring → ℕ → Option (ℕ × Ring))
    → IsValid r
    → length bytes < 2 ^ 64
    → written < length bytes
    → r.size < capacity r
    → ((r' : Ring) (w : ℕ)
        → IsValid r'
        → w ≤ length bytes
        → written < w
        → Wrote r' bytes w (rest r' w))
    → let (n, r') = write_pass r bytes written in
      Wrote r bytes written (rest r' (add_size written n))
write_again {r} bytes written rest v small more room ih =
    let (some_taken, at_most, a) = write_pass_lem bytes written v more room in
    let n = (write_pass r bytes written).0 in
    let sum : add_size written n ≡ written + n = omega arith in
    rw sum (
      passed bytes written n _ at_most a.valid.size_in a
        (ih _ (written + n) a.valid (omega arith) (omega arith)))

write_loop_lem :
    (fuel : ℕ) {r : Ring} (bytes : List ℕ) (written : ℕ)
    → IsValid r
    → length bytes < 2 ^ 64
    → written ≤ length bytes
    → length bytes < fuel + written
    → Wrote r bytes written (write_loop fuel r bytes written)
unfolding write_loop
write_loop_lem zero bytes written v small w f = absurd (omega arith)
write_loop_lem (suc fuel) {r} bytes written v small w f =
    elim (Bool-cases (ltb written (length bytes) && ltb 0 (writable r))) [
      | inl e ↦ rw e (
          write_again bytes written (λ r' k. write_loop fuel r' bytes k) v small (ground arith)
            (ground (arith, writable_lem v))
            (λ r' k v' le lt. write_loop_lem fuel bytes k v' small le (omega arith)))
      | inr e ↦ rw e (stopped bytes written v (ground (arith, writable_lem v)))
    ]

-- `write` ends. It takes as many bytes as there is room for, appends exactly those, in order, to
-- what the ring holds, returns their number, and keeps the invariant and the capacity.
pub write_lem :
    {r : Ring} (bytes : List ℕ)
    → IsValid r
    → length bytes < 2 ^ 64
    → (r' : Ring) × (write r bytes ≡ some (min (length bytes) (writable r), r'))
      × (contents r' ≡ contents r ++ take (min (length bytes) (writable r)) bytes)
      × (capacity r' ≡ capacity r)
      × IsValid r'
unfolding write
write_lem {r} bytes v small =
    let (r', e, a) =
      write_loop_lem (suc (length bytes)) {r = r} bytes 0 v small (omega arith) (omega arith) in
    let n : 0 + fits r bytes 0 ≡ min (length bytes) (writable r) = omega (arith, writable_lem v) in
    let m : fits r bytes 0 ≡ min (length bytes) (writable r) = omega (arith, writable_lem v) in
    (
      r',
      e ∙ ap (λ k. some (k, r')) n,
      a.bytes ∙ ap (λ k. contents r ++ take k bytes) m,
      a.capacity_kept,
      a.valid,
    )
