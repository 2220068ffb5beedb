-- ===== src/Queue/Slots.antt =====
-- Slots of a circular buffer that two counters of 64 bits select.
use nf_engine.Prelude.{
  ℕ, ◌+◌, ◌*◌, ◌/◌, ◌%◌, ◌^◌, ◌≤◌, ◌<◌, ◌≡◌, ◌≢◌, refl, sym, ap, ◌∙◌, List, [], ◌∷◌, ◌++◌, some,
  arith, length, get_elem?, take, map, zero, suc,
}
use native.Mathlib.Nat.{mul_assoc, mul-le-mul_left, div-add-mod, mul-add-mod_self_left}
use native.Mathlib.Decide.{ℕ_discrete, dec_lt}
use mathlib.Core.Logic.{ite}

-- What the constructor's test lets through: a power of two divides 2 ^ 64, and leaves one bit.
pub record IsCapacity (c : ℕ) : Type 0 where
  pub positive : 0 < c
  pub times : ℕ
  pub divides : c * times ≡ 2 ^ 64
  pub small : 2 * c ≤ 2 ^ 64

-- A counter that has wrapped round selects the slot that the full count selects.
pub wrap-mod : {c : ℕ} → IsCapacity c → (n : ℕ) → n % 2 ^ 64 % c ≡ n % c
wrap-mod {c} v n =
    sym (mul-add-mod_self_left c (v.times * (n / 2 ^ 64)) (n % 2 ^ 64)) ∙ ap (λ k. k % c) whole
  where
    whole : c * (v.times * (n / 2 ^ 64)) + n % 2 ^ 64 ≡ n
    whole =
        ap (λ k. k + n % 2 ^ 64) (sym (mul_assoc c v.times (n / 2 ^ 64)))
        ∙ ap (λ k. k * (n / 2 ^ 64) + n % 2 ^ 64) v.divides
        ∙ div-add-mod n (2 ^ 64)

-- Counts less than the capacity apart select different slots.
pub slot-ne : (c i j : ℕ) → i < j → j < i + c → i % c ≢ j % c
slot-ne c i j h k e = elim (dec_lt (i / c) (j / c)) [
  | yes p ↦ omega (
    arith,
    div-add-mod i c,
    div-add-mod j c,
    let d : c * suc (i / c) ≤ c * (j / c) = mul-le-mul_left c p in d,
    e,
  )
  | no p ↦ omega (
    arith,
    div-add-mod i c,
    div-add-mod j c,
    let d : c * (j / c) ≤ c * (i / c) = mul-le-mul_left c (omega arith) in d,
    e,
  )
]

-- An array, of which one element is written.
abbrev pub update {ℓ} : {A : Type ℓ} → (ℕ → A) → ℕ → A → ℕ → A
update f i a j = ite (ℕ_discrete i j) a (f j)

pub update_self {ℓ} : {A : Type ℓ} (f : ℕ → A) (i : ℕ) (a : A) → update f i a i ≡ a
update_self f i a = ground arith

pub update_ne {ℓ} : {A : Type ℓ} (f : ℕ → A) (i j : ℕ) (a : A) → i ≢ j → update f i a j ≡ f j
update_ne f i j a ne = ground arith

module _ {ℓ} {A : Type ℓ} where
  pub get_elem?-append_lt :
      (xs ys : List A) (i : ℕ) → i < length xs → get_elem? (xs ++ ys) i ≡ get_elem? xs i
  get_elem?-append_lt [] ys i h = absurd (omega arith)
  get_elem?-append_lt (x ∷ xs) ys zero h = refl
  get_elem?-append_lt (x ∷ xs) ys (suc i) h = get_elem?-append_lt xs ys i (omega arith)

  pub get_elem?-append_last : (xs : List A) (x : A) → get_elem? (xs ++ x ∷ []) (length xs) ≡ some x
  get_elem?-append_last [] x = refl
  get_elem?-append_last (y ∷ xs) x = get_elem?-append_last xs x

  pub map-take-suc :
      (xs : List A) (n : ℕ)
      → n < length xs
      → map some (take (suc n) xs) ≡ map some (take n xs) ++ get_elem? xs n ∷ []
  map-take-suc [] n h = absurd (omega arith)
  map-take-suc (x ∷ xs) zero h = refl
  map-take-suc (x ∷ xs) (suc n) h = ap (◌∷◌ (some x)) (map-take-suc xs n (omega arith))
