-- ===== src/Prelude/Assoc.antt =====
-- `std::unordered_map` with integer keys, as an association list.
use Prim.Native.Nat.{ℕ}
use mathlib.Core.Path.{◌≡◌, refl, sym, ap, ◌∙◌, subst}
use mathlib.Core.Logic.{◌≢◌, inl, inr}
use native.Mathlib.Decide.{ℕ_discrete}
use mathlib.Core.Bool.{Bool, true, false}
use mathlib.Core.List.{List, [], ◌∷◌}
use mathlib.Core.Option.{Option, none, some}
use native.Mathlib.Omega.{arith}
use nf_engine.Prelude.Tests.{◌==◌, Option-cases, if◌then◌else◌}

module _ {ℓ} {V : Type ℓ} where
  -- `find`
  unfoldable pub lookup : ℕ → List (ℕ × V) → Option V
  lookup k [] = none
  lookup k ((j, v) ∷ m) = if j == k then some v else lookup k m

  -- `count(k) != 0`
  abbrev pub has : ℕ → List (ℕ × V) → Bool
  has k m = elim (lookup k m) [ none ↦ false | some v ↦ true ]

  -- `emplace`: an entry that is there stays.
  unfoldable pub emplace : ℕ → V → List (ℕ × V) → List (ℕ × V)
  unfolding lookup
  emplace k v m = elim (lookup k m) [ none ↦ (k, v) ∷ m | some w ↦ m ]

  -- `m[k] = v`, or a change of the object that an iterator points to.
  unfoldable pub assign : ℕ → V → List (ℕ × V) → List (ℕ × V)
  assign k v [] = (k, v) ∷ []
  assign k v ((j, w) ∷ m) = if j == k then (k, v) ∷ m else (j, w) ∷ assign k v m

  -- `erase(k)`
  unfoldable pub erase : ℕ → List (ℕ × V) → List (ℕ × V)
  erase k [] = []
  erase k ((j, v) ∷ m) = let rest = erase k m in if j == k then rest else (j, v) ∷ rest

  pub lookup-emplace :
      (k j : ℕ) (v : V) (m : List (ℕ × V))
      → lookup j (emplace k v m)
        ≡ (if k == j then elim (lookup k m) [ none ↦ some v | some w ↦ some w ] else lookup j m)
  unfolding lookup emplace
  lookup-emplace k j v m = ground arith

  pub lookup-assign :
      (k j : ℕ) (v : V) (m : List (ℕ × V))
      → lookup j (assign k v m) ≡ (if k == j then some v else lookup j m)
  unfolding lookup assign
  lookup-assign k j v [] = refl
  lookup-assign k j v ((i, w) ∷ m) = ground (arith, lookup-assign k j v m)

  pub lookup-erase :
      (k j : ℕ) (m : List (ℕ × V)) → lookup j (erase k m) ≡ (if k == j then none else lookup j m)
  unfolding lookup erase
  lookup-erase k j [] = ground arith
  lookup-erase k j ((i, w) ∷ m) = ground (arith, lookup-erase k j m)

  -- Another key is not touched.
  pub lookup-assign_ne :
      (k j : ℕ) (v : V) (m : List (ℕ × V)) → k ≢ j → lookup j (assign k v m) ≡ lookup j m
  lookup-assign_ne k j v m ne = ground (arith, lookup-assign k j v m)

  pub lookup-erase_ne : (k j : ℕ) (m : List (ℕ × V)) → k ≢ j → lookup j (erase k m) ≡ lookup j m
  lookup-erase_ne k j m ne = ground (arith, lookup-erase k j m)

  pub lookup-emplace_ne :
      (k j : ℕ) (v : V) (m : List (ℕ × V)) → k ≢ j → lookup j (emplace k v m) ≡ lookup j m
  lookup-emplace_ne k j v m ne = ground (arith, lookup-emplace k j v m)

  pub lookup-assign_self : (k : ℕ) (v : V) (m : List (ℕ × V)) → lookup k (assign k v m) ≡ some v
  lookup-assign_self k v m = ground (arith, lookup-assign k k v m)

  pub lookup-erase_self : (k : ℕ) (m : List (ℕ × V)) → lookup k (erase k m) ≡ none
  lookup-erase_self k m = ground (arith, lookup-erase k k m)

  pub lookup-emplace_new :
      (k : ℕ) (v : V) (m : List (ℕ × V)) → lookup k m ≡ none → lookup k (emplace k v m) ≡ some v
  lookup-emplace_new k v m absent = ground (arith, lookup-emplace k k v m)

  pub lookup-emplace_self :
      (k : ℕ) (v : V) (m : List (ℕ × V)) → (w : V) × (lookup k (emplace k v m) ≡ some w)
  lookup-emplace_self k v m = elim (Option-cases (lookup k m)) [
    | inl absent ↦ (v, lookup-emplace_new k v m absent)
    | inr (w, there) ↦ (w, ground (arith, lookup-emplace k k v m))
  ]

  -- Another key than one that is missing.
  pub found_ne :
      (m : List (ℕ × V)) {k j : ℕ} {v : V} → lookup k m ≡ none → lookup j m ≡ some v → k ≢ j
  found_ne m {v = v} absent found same =
      let d : none ≡ some v = sym absent ∙ ap (λ i. lookup i m) same ∙ found in ground arith

  -- Every entry of the table has the property.
  abbrev pub Entries {κ} : (ℕ → V → Type κ) → List (ℕ × V) → Type (ℓ ⊔ κ)
  Entries P m = (k : ℕ) (v : V) → lookup k m ≡ some v → P k v

  pub Entries-assign {κ} :
      (P : ℕ → V → Type κ) (k : ℕ) (v : V) (m : List (ℕ × V))
      → Entries P m
      → P k v
      → Entries P (assign k v m)
  Entries-assign P k v m all p j w e = elim (ℕ_discrete k j) [
    | yes same ↦
        subst (λ i. P i w) same
          (subst (P k) (let d : v ≡ w = ground (arith, lookup-assign k j v m) in d) p)
    | no other ↦ all j w (sym (lookup-assign_ne k j v m other) ∙ e)
  ]

  pub Entries-erase {κ} :
      (P : ℕ → V → Type κ) (k : ℕ) (m : List (ℕ × V)) → Entries P m → Entries P (erase k m)
  Entries-erase P k m all j w e = elim (ℕ_discrete k j) [
    | yes same ↦ absurd (let d : ⊥ = ground (arith, lookup-erase k j m) in d)
    | no other ↦ all j w (sym (lookup-erase_ne k j m other) ∙ e)
  ]

  pub Entries-emplace {κ} :
      (P : ℕ → V → Type κ) (k : ℕ) (v : V) (m : List (ℕ × V))
      → Entries P m
      → P k v
      → Entries P (emplace k v m)
  unfolding emplace
  Entries-emplace P k v m all p j w e = elim (Option-cases (lookup k m)) [
    | inr (u, there) ↦ all j w (ground arith)
    | inl absent ↦ elim (ℕ_discrete k j) [
      | yes same ↦
          subst (λ i. P i w) same
            (subst (P k) (let d : v ≡ w = ground (arith, lookup-emplace k j v m) in d) p)
      | no other ↦ all j w (sym (lookup-emplace_ne k j v m other) ∙ e)
    ]
  ]

  -- Every value in the table has the property.
  abbrev pub Values {κ} : (V → Type κ) → List (ℕ × V) → Type (ℓ ⊔ κ)
  Values P m = Entries (λ k. P) m

  pub Values-assign {κ} :
      (P : V → Type κ) (k : ℕ) (v : V) (m : List (ℕ × V))
      → Values P m
      → P v
      → Values P (assign k v m)
  Values-assign P = Entries-assign (λ k. P)

  pub Values-erase {κ} :
      (P : V → Type κ) (k : ℕ) (m : List (ℕ × V)) → Values P m → Values P (erase k m)
  Values-erase P = Entries-erase (λ k. P)

  pub Values-emplace {κ} :
      (P : V → Type κ) (k : ℕ) (v : V) (m : List (ℕ × V))
      → Values P m
      → P v
      → Values P (emplace k v m)
  Values-emplace P = Entries-emplace (λ k. P)
