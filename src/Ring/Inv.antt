-- ===== src/Ring/Inv.antt =====
-- The representation invariant of the ring, and the bytes that it holds.
use nf_engine.Prelude.{
  ◌≢◌, ℕ, ◌+◌, ◌*◌, ◌^◌, ◌≤◌, ◌<◌, ◌≡◌, refl, ◌⊎◌, inl, List, [], some, arith, length,
  length-replicate, replicate,
}
use nf_engine.Ring.Window.{before_end, window, window-zero, length-window}
use nf_engine.Ring.{Ring, capacity, init, writable, write_ptr, write_len, read_ptr, read_len}

-- `tail` is `head + size`, taken round the end once if need be.
pub record IsValid (r : Ring) : Type 0 where
  pub small : 2 * capacity r < 2 ^ 64
  pub head_in : r.head < capacity r
  pub tail_in : r.tail < capacity r
  pub size_in : r.size ≤ capacity r
  pub tail_at : (r.tail ≡ r.head + r.size) ⊎ (r.tail + capacity r ≡ r.head + r.size)

-- How many of the bytes held stand before the end of the storage.
abbrev pub first : Ring → ℕ
first r = before_end r.buffer r.head r.size

-- The bytes held, oldest first.
abbrev pub contents : Ring → List ℕ
contents r = window r.buffer r.head r.size

pub length-contents : {r : Ring} → IsValid r → length (contents r) ≡ r.size
length-contents {r} v = length-window r.buffer r.head r.size (omega arith) v.size_in

pub contents-empty : (r : Ring) → r.size ≡ 0 → contents r ≡ []
contents-empty r e = window-zero r.buffer r.head r.size e

pub capacity-init : (n : ℕ) → capacity (init n) ≡ n
unfolding init
capacity-init n = length-replicate {A = ℕ} n 0

-- A new ring is valid and empty.
pub init-IsValid : (n : ℕ) → 0 < n → 2 * n < 2 ^ 64 → IsValid (init n) × (contents (init n) ≡ [])
unfolding init
init-IsValid n h k = (
  record {
    small = omega (arith, length-replicate {A = ℕ} n 0);
    head_in = omega (arith, length-replicate {A = ℕ} n 0);
    tail_in = omega (arith, length-replicate {A = ℕ} n 0);
    size_in = omega arith;
    tail_at = inl (omega arith);
  },
  window-zero (replicate n 0) 0 0 refl,
)

-- No `size_t` subtraction wraps.
pub writable_lem : {r : Ring} → IsValid r → writable r + r.size ≡ capacity r
unfolding writable
writable_lem v = omega arith

pub write_len_lem :
    {r : Ring}
    → IsValid r
    → (write_len r + r.tail ≤ capacity r)
      × (write_len r + r.size ≤ capacity r)
      × ((write_len r ≡ 0) ⊎ (write_ptr r ≡ some r.tail))
      × ((write_len r ≡ 0) → r.size ≡ capacity r)
unfolding write_len write_ptr
write_len_lem v = ground arith

pub read_len_lem :
    {r : Ring}
    → IsValid r
    → (read_len r ≡ first r)
      × ((read_len r ≡ 0) ⊎ (read_ptr r ≡ some r.head))
      × ((read_len r ≡ 0) → r.size ≡ 0)
unfolding read_len read_ptr
read_len_lem v = ground arith

pub write_len-ne-zero : {r : Ring} → IsValid r → r.size < capacity r → write_len r ≢ 0
write_len-ne-zero v room e = absurd (omega (arith, (write_len_lem v).3 e))

pub read_len-ne-zero : {r : Ring} → IsValid r → 0 < r.size → read_len r ≢ 0
read_len-ne-zero v some_left e = absurd (omega (arith, (read_len_lem v).2 e))
