-- ===== src/Bytes.antt =====
-- Numbers in network byte order, as the parsers and builders of serverd read and write them: a
-- `memcpy` with `ntohs`, `ntohl`, `be64toh`, and with `htons`, `htonl`, `htobe64`.
-- An element of a `uint8_t` array is read modulo 256.
pub mod Laws
use nf_engine.Prelude.{ℕ, zero, suc, ◌+◌, ◌*◌, ◌/◌, ◌%◌, ◌^◌, List, [], ◌∷◌, ◌++◌, get_or, drop}

unfoldable pub byte_at : List ℕ → ℕ → ℕ
byte_at xs i = get_or xs i 0 % 256

-- The `k` bytes at the front of a list as a number, the first the most significant.
unfoldable pub be : ℕ → List ℕ → ℕ
be zero xs = 0
be (suc k) [] = 0
be (suc k) (x ∷ xs) = x % 256 * 256 ^ k + be k xs

unfoldable pub be16_at : List ℕ → ℕ → ℕ
be16_at xs i = be 2 (drop i xs)

unfoldable pub be32_at : List ℕ → ℕ → ℕ
be32_at xs i = be 4 (drop i xs)

unfoldable pub be64_at : List ℕ → ℕ → ℕ
be64_at xs i = be 8 (drop i xs)

-- The `k` low bytes of a number, the most significant first.
unfoldable pub to_be : ℕ → ℕ → List ℕ
to_be zero v = []
to_be (suc k) v = v / 256 ^ k % 256 ∷ to_be k v

abbrev pub be16 : ℕ → List ℕ
be16 = to_be 2

abbrev pub be32 : ℕ → List ℕ
be32 = to_be 4

abbrev pub be64 : ℕ → List ℕ
be64 = to_be 8
