-- ===== src/Prelude/Texts.antt =====
-- `std::string`s as lists of bytes: literals, comparison, prefixes and `find`.
use Prim.Native.Char.{code}
use Prim.Native.String.{String}
use Prim.Native.Nat.{ℕ, suc}
use mathlib.Core.Path.{◌≡◌, refl, ap₂}
use mathlib.Core.Bool.{Bool, true, false, ◌&&◌}
use mathlib.Core.List.{List, [], ◌∷◌, ◌++◌}
use mathlib.Core.Option
use mathlib.Core.Option.{Option, none, some}
use native.Mathlib.Omega.{arith}
use nf_engine.Prelude.Tests.{◌==◌, if◌then◌else◌}

abbrev pub Text : Type 0
Text = List ℕ

-- The bytes of an ASCII literal.
abbrev pub codes : String → Text
codes String.[] = []
codes (String.◌∷◌ c s) = code c ∷ codes s

-- Equality of `std::string`s.
unfoldable pub same_bytes : Text → Text → Bool
same_bytes [] [] = true
same_bytes [] (y ∷ ys) = false
same_bytes (x ∷ xs) [] = false
same_bytes (x ∷ xs) (y ∷ ys) = (x == y) && same_bytes xs ys

pub same_bytes→≡ : (xs ys : Text) → same_bytes xs ys ≡ true → xs ≡ ys
unfolding same_bytes
same_bytes→≡ [] [] e = refl
same_bytes→≡ [] (y ∷ ys) e = absurd (let d : ⊥ = ground arith in d)
same_bytes→≡ (x ∷ xs) [] e = absurd (let d : ⊥ = ground arith in d)
same_bytes→≡ (x ∷ xs) (y ∷ ys) e =
    ap₂ ◌∷◌ (let d : x ≡ y = ground arith in d) (same_bytes→≡ xs ys (ground arith))

pub ≡→same_bytes : (xs : Text) → same_bytes xs xs ≡ true
unfolding same_bytes
≡→same_bytes [] = refl
≡→same_bytes (x ∷ xs) = ground (arith, ≡→same_bytes xs)

-- `text.rfind(key, 0) == 0`
unfoldable pub starts_with : Text → Text → Bool
starts_with [] text = true
starts_with (k ∷ key) [] = false
starts_with (k ∷ key) (x ∷ text) = (k == x) && starts_with key text

pub starts_with-append : (key rest : Text) → starts_with key (key ++ rest) ≡ true
unfolding starts_with
starts_with-append [] rest = refl
starts_with-append (k ∷ key) rest = ground (arith, starts_with-append key rest)

-- `text.find(key)`; `none` is `npos`.
unfoldable pub find : Text → Text → Option ℕ
unfolding starts_with
find key [] = if starts_with key [] then some 0 else none
find key (x ∷ text) =
    let later = find key text in if starts_with key (x ∷ text) then some 0 else Option.map suc later
