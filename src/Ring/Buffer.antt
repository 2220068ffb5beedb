-- ===== src/Ring/Buffer.antt =====
-- About `write` and `read` of the ring: it is a buffer of bounded capacity, first in, first out.
use nf_engine.Prelude.{ℕ, ◌<◌, ◌^◌, ◌≡◌, min, List, ◌++◌, some, length, take, drop}
use nf_engine.Ring.{Ring, capacity, writable, write, read}
use nf_engine.Ring.Inv.{IsValid, contents}
use nf_engine.Ring.Write.{write_lem}
use nf_engine.Ring.Read.{read_lem}

-- `write` ends. It takes as many bytes as there is room for, appends exactly those, in order, to
-- what the ring holds, and returns their number. `read` ends. It returns the bytes at the front of
-- what the ring holds, as many as asked for or all of them, and leaves the rest. Both keep the invariant
-- and the capacity, if the ring has the invariant and fewer than 2 ^ 64 bytes are written.
pub write_read_lem :
    {r : Ring} (bytes : List ℕ) (len : ℕ)
    → IsValid r
    → length bytes < 2 ^ 64
    → ((r' : Ring) × (write r bytes ≡ some (min (length bytes) (writable r), r'))
        × (contents r' ≡ contents r ++ take (min (length bytes) (writable r)) bytes)
        × (capacity r' ≡ capacity r)
        × IsValid r')
      × ((r' : Ring) × (read r len ≡ some (take len (contents r), r'))
          × (contents r' ≡ drop len (contents r))
          × (capacity r' ≡ capacity r)
          × IsValid r')
write_read_lem bytes len v small = (write_lem bytes v small, read_lem len v)
