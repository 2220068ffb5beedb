-- ===== src/Ring.antt =====
-- shared/algorithm/ByteRingBuffer.h and ByteRingBuffer.cpp (mgmtd/algorithm holds the same text).
-- A pointer into the storage is its offset, and `nullptr` is `none`. A `memcpy` from the storage is
-- a slice of it, and a `memcpy` into it a `blit`. `size_t` arithmetic is taken modulo 2 ^ 64.
-- A method that changes the object returns the new object.
mod Window
pub mod Inv
pub mod Chunk
pub mod Write
pub mod Read
pub mod Buffer
use nf_engine.Prelude.{
  ℕ, zero, suc, ◌+◌, ◌-◌, ◌%◌, ◌^◌, min, Bool, ◌&&◌, List, [], ◌++◌, Option, none, some, length,
  take, drop, replicate, ltb, ◌==◌, if◌then◌else◌,
}
use nf_engine.Prelude.Slices.{slice, blit}

abbrev pub size_mod : ℕ
size_mod = 2 ^ 64

abbrev pub add_size : ℕ → ℕ → ℕ
add_size a b = (a + b) % size_mod

abbrev pub sub_size : ℕ → ℕ → ℕ
sub_size a b = (a + size_mod - b) % size_mod

pub record Ring : Type 0 where
  pub buffer : List ℕ
  pub head : ℕ
  pub tail : ℕ
  pub size : ℕ

abbrev pub capacity : Ring → ℕ
capacity r = length r.buffer

unfoldable pub init : ℕ → Ring
init cap = record { buffer = replicate cap 0; head = 0; tail = 0; size = 0 }

unfoldable pub readable : Ring → ℕ
readable r = r.size

unfoldable pub writable : Ring → ℕ
writable r = sub_size (capacity r) r.size

unfoldable pub write_ptr : Ring → Option ℕ
unfolding writable
write_ptr r = if writable r == 0 then none else some r.tail

unfoldable pub write_len : Ring → ℕ
unfolding writable
write_len r = if writable r == 0 then 0 else min (sub_size (capacity r) r.tail) (writable r)

unfoldable pub produce : Ring → ℕ → Ring
produce r n = record r { tail = add_size r.tail n % capacity r; size = add_size r.size n }

unfoldable pub read_ptr : Ring → Option ℕ
unfolding readable
read_ptr r = if readable r == 0 then none else some r.head

unfoldable pub read_len : Ring → ℕ
unfolding readable
read_len r = if readable r == 0 then 0 else min (sub_size (capacity r) r.head) (readable r)

unfoldable pub consume : Ring → ℕ → Ring
consume r n = record r { head = add_size r.head n % capacity r; size = sub_size r.size n }

-- The bytes that a caller stores through `write_ptr`, before it calls `produce`. Through a null
-- pointer nothing is stored.
unfoldable pub store : Ring → List ℕ → Ring
unfolding write_ptr
store r xs = elim (write_ptr r) [ none ↦ r | some p ↦ record r { buffer = blit r.buffer p xs } ]

-- The `n` bytes that a caller reads through `read_ptr`.
unfoldable pub load : Ring → ℕ → List ℕ
unfolding read_ptr
load r n = elim (read_ptr r) [ none ↦ [] | some p ↦ slice p n r.buffer ]

-- One pass of the loop of `write`: the bytes taken this time, and the object after it.
unfoldable pub write_pass : Ring → List ℕ → ℕ → ℕ × Ring
write_pass r bytes written =
    let n = min (write_len r) (length bytes - written) in
    (n, produce (store r (take n (drop written bytes))) n)

-- The loop of `write`; `none` means that the fuel ran out.
unfoldable pub write_loop : ℕ → Ring → List ℕ → ℕ → Option (ℕ × Ring)
write_loop zero r bytes written = none
write_loop (suc fuel) r bytes written =
    let (n, r') = write_pass r bytes written in
    let rest = write_loop fuel r' bytes (add_size written n) in
    if ltb written (length bytes) && ltb 0 (writable r) then rest else some (written, r)

-- Every pass takes a byte, so one more than the length is enough (`Write`, `Read`).
unfoldable pub write : Ring → List ℕ → Option (ℕ × Ring)
write r bytes = write_loop (suc (length bytes)) r bytes 0

unfoldable pub read_pass : Ring → ℕ → List ℕ → List ℕ × Ring
read_pass r len out = let n = min (read_len r) (len - length out) in (out ++ load r n, consume r n)

-- `out` is what has been copied so far: its length is `readBytes`.
unfoldable pub read_loop : ℕ → Ring → ℕ → List ℕ → Option (List ℕ × Ring)
read_loop zero r len out = none
read_loop (suc fuel) r len out =
    let (out', r') = read_pass r len out in
    let rest = read_loop fuel r' len out' in
    if ltb (length out) len && ltb 0 (readable r) then rest else some (out, r)

unfoldable pub read : Ring → ℕ → Option (List ℕ × Ring)
read r len = read_loop (suc len) r len []

unfoldable pub peek : Ring → ℕ → List ℕ
peek r len =
    let to_read = min len r.size in
    let first = min to_read (sub_size (capacity r) r.head) in
    if ltb first to_read
    then slice r.head first r.buffer ++ slice 0 (to_read - first) r.buffer
    else slice r.head first r.buffer

unfoldable pub clear : Ring → Ring
clear r = record r { head = 0; tail = 0; size = 0 }
