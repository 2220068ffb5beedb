-- ===== src/Bytes/Laws.antt =====
-- About numbers in network order, written and read.
use nf_engine.Prelude.{ℕ, zero, suc, ◌%◌, ◌^◌, ◌≡◌, refl, ap, List, ◌++◌, arith, length}
use nf_engine.Bytes.{be, to_be}

pub length-to_be : (k v : ℕ) → length (to_be k v) ≡ k
unfolding to_be
length-to_be zero v = refl
length-to_be (suc k) v = ap suc (length-to_be k v)

-- The bytes written are the number modulo its width, whatever follows them.
pub be16_lem : (v : ℕ) (rest : List ℕ) → be 2 (to_be 2 v ++ rest) ≡ v % 2 ^ 16
unfolding be to_be
be16_lem v rest = omega arith

pub be32_lem : (v : ℕ) (rest : List ℕ) → be 4 (to_be 4 v ++ rest) ≡ v % 2 ^ 32
unfolding be to_be
be32_lem v rest = omega arith

pub be64_lem : (v : ℕ) (rest : List ℕ) → be 8 (to_be 8 v ++ rest) ≡ v % 2 ^ 64
unfolding be to_be
be64_lem v rest = omega arith
