-- ===== src/Database/Pool/Shared.antt =====
-- About the pool of DbManager.cpp between threads: no connection is lost or used twice.
use nf_engine.Prelude.{
  ℕ, zero, suc, ◌+◌, ◌≤◌, ◌<◌, ◌≡◌, ◌≢◌, ◌⊎◌, inl, inr, refl, ap, ◌∙◌, List, [], ◌∷◌, ◌++◌, Option,
  none, some, arith, length, get_elem?, set, replicate, length-append, length-set, length-replicate,
  some_inj, ◌==◌, if◌then◌else◌,
}
use nf_engine.Database.{DbManager, acquire, release}
use nf_engine.Database.Pool.{System, Step, take_step, miss_step, give_step, Reach, start, next}

-- How often a connection is in a pool, and how many threads hold it.
abbrev pub count : ℕ → List ℕ → ℕ
count d [] = 0
count d (x ∷ xs) = (if x == d then 1 else 0) + count d xs

abbrev pub held_by : ℕ → Option ℕ → ℕ
held_by d none = 0
held_by d (some x) = if x == d then 1 else 0

abbrev pub held : ℕ → List (Option ℕ) → ℕ
held d [] = 0
held d (h ∷ hs) = held_by d h + held d hs

-- How many threads hold a connection.
busy : List (Option ℕ) → ℕ
busy [] = 0
busy (none ∷ hs) = busy hs
busy (some x ∷ hs) = suc (busy hs)

count-append : (d : ℕ) (xs ys : List ℕ) → count d (xs ++ ys) ≡ count d xs + count d ys
count-append d [] ys = omega arith
count-append d (x ∷ xs) ys = omega (arith, count-append d xs ys)

held-set :
    (d : ℕ) (hs : List (Option ℕ)) (i : ℕ) (h h' : Option ℕ)
    → get_elem? hs i ≡ some h
    → held d (set hs i h') + held_by d h ≡ held d hs + held_by d h'
held-set d [] i h h' e = absurd (let b : ⊥ = ground arith in b)
held-set d (x ∷ hs) zero h h' e = let same : x ≡ h = some_inj e in rw same (omega arith)
held-set d (x ∷ hs) (suc i) h h' e = omega (arith, held-set d hs i h h' e)

busy-take :
    (hs : List (Option ℕ)) (i d : ℕ)
    → get_elem? hs i ≡ some none
    → (busy (set hs i (some d)) ≡ suc (busy hs)) × (busy hs < length hs)
unfolding busy
busy-take [] i d e = absurd (let b : ⊥ = ground arith in b)
busy-take (none ∷ hs) zero d e = (refl, busy-le hs)
  where
    busy-le : (hs : List (Option ℕ)) → busy hs < suc (length hs)
    busy-le [] = omega arith
    busy-le (none ∷ hs) = omega (arith, busy-le hs)
    busy-le (some x ∷ hs) = omega (arith, busy-le hs)
busy-take (some x ∷ hs) zero d e = absurd (let b : ⊥ = ground arith in b)
busy-take (none ∷ hs) (suc i) d e = omega (arith, busy-take hs i d e)
busy-take (some x ∷ hs) (suc i) d e = omega (arith, busy-take hs i d e)

busy-give :
    (hs : List (Option ℕ)) (i d : ℕ)
    → get_elem? hs i ≡ some (some d)
    → suc (busy (set hs i none)) ≡ busy hs
unfolding busy
busy-give [] i d e = absurd (let b : ⊥ = ground arith in b)
busy-give (none ∷ hs) zero d e = absurd (let b : ⊥ = ground arith in b)
busy-give (some x ∷ hs) zero d e = refl
busy-give (none ∷ hs) (suc i) d e = busy-give hs i d e
busy-give (some x ∷ hs) (suc i) d e = omega (arith, busy-give hs i d e)

List-cases : (xs : List ℕ) → (xs ≡ []) ⊎ ((x : ℕ) × ((rest : List ℕ) × (xs ≡ x ∷ rest)))
List-cases [] = inl refl
List-cases (x ∷ rest) = inr (x, (rest, refl))

acquire-some : (m m' : DbManager) (d : ℕ) → acquire m ≡ (some d, m') → m.pool ≡ d ∷ m'.pool
unfolding acquire
acquire-some m m' d e = elim (List-cases m.pool) [
  | inl empty ↦ absurd (let b : ⊥ = ground arith in b)
  | inr (x, (rest, full)) ↦ ground arith
]

acquire-none : (m m' : DbManager) → acquire m ≡ (none, m') → m' ≡ m
unfolding acquire
acquire-none m m' e = elim (List-cases m.pool) [
  | inl empty ↦ ground arith
  | inr (x, (rest, full)) ↦ absurd (let b : ⊥ = ground arith in b)
]

acquire-full :
    (m : DbManager) → 0 < length m.pool → (d : ℕ) × ((m' : DbManager) × (acquire m ≡ (some d, m')))
unfolding acquire
acquire-full m h = elim (List-cases m.pool) [
  | inl empty ↦ absurd (let b : ⊥ = omega (arith, ap length empty) in b)
  | inr (d, (rest, full)) ↦ (d, (record { pool = rest }, rw (acquire, full) refl))
]

-- Every connection of the pool is in it or held, as often as at first.
record Inv (pool : List ℕ) (threads : ℕ) (s : System) : Type 0 where
  counted : (d : ℕ) → count d s.manager.pool + held d s.holding ≡ count d pool
  sized : length s.manager.pool + busy s.holding ≡ length pool
  all_there : length s.holding ≡ threads

held-idle : (threads d : ℕ) → held d (replicate threads none) ≡ 0
held-idle zero d = refl
held-idle (suc n) d = omega (arith, held-idle n d)

busy-idle : (threads : ℕ) → busy (replicate threads none) ≡ 0
unfolding busy
busy-idle zero = refl
busy-idle (suc n) = busy-idle n

module _ {pool : List ℕ} {threads : ℕ} where
  Step-Inv : {s t : System} → Step s t → Inv pool threads s → Inv pool threads t
  unfolding release
  Step-Inv (take_step {s} i dbc m idle taken) inv = record {
    counted = λ d. omega (
      arith,
      inv.counted d,
      ap (count d) (acquire-some s.manager m dbc taken),
      held-set d s.holding i none (some dbc) idle,
    );
    sized = omega (
      arith,
      inv.sized,
      ap length (acquire-some s.manager m dbc taken),
      (busy-take s.holding i dbc idle).0,
    );
    all_there = length-set s.holding i (some dbc) ∙ inv.all_there;
  }
  Step-Inv (miss_step {s} i m idle missed) inv =
      let same : m ≡ s.manager = acquire-none s.manager m missed in
      record {
        counted = λ d. ap (λ k. count d k.pool + held d s.holding) same ∙ inv.counted d;
        sized = ap (λ k. length k.pool + busy s.holding) same ∙ inv.sized;
        all_there = inv.all_there;
      }
  Step-Inv (give_step {s} i dbc holds) inv = record {
    counted = λ d. omega (
      arith,
      inv.counted d,
      count-append d s.manager.pool (dbc ∷ []),
      held-set d s.holding i (some dbc) none holds,
    );
    sized = omega (
      arith,
      inv.sized,
      length-append s.manager.pool (dbc ∷ []),
      busy-give s.holding i dbc holds,
    );
    all_there = length-set s.holding i none ∙ inv.all_there;
  }

  Reach-Inv : {s : System} → Reach pool threads s → Inv pool threads s
  Reach-Inv start = record {
    counted = λ d. omega (arith, held-idle threads d);
    sized = omega (arith, busy-idle threads);
    all_there = length-replicate threads none;
  }
  Reach-Inv (next r st) = Step-Inv st (Reach-Inv r)

idle_cases : (h : Option (Option ℕ)) → (h ≡ some none) ⊎ (h ≢ some none)
idle_cases none = inr λ e. (let b : ⊥ = ground (arith, e) in b)
idle_cases (some none) = inl refl
idle_cases (some (some d)) = inr λ e. (let b : ⊥ = ground (arith, e) in b)

-- Threads that are no more than the connections of the pool, which are different: whatever their calls
-- of acquire and release, each connection is used by one thread at most, and none is lost: it is in
-- the pool or in use, as often as it was in the pool at first. And each thread that there is
-- holds a connection, or gets one when it calls acquire.
pub pool_shared :
    {pool : List ℕ} {threads : ℕ} {s : System} (i : ℕ)
    → threads ≤ length pool
    → ((d : ℕ) → count d pool ≤ 1)
    → Reach pool threads s
    → ((d : ℕ)
        → (held d s.holding ≤ 1) × (count d s.manager.pool + held d s.holding ≡ count d pool))
      × ((get_elem? s.holding i ≢ some none)
          ⊎ ((d : ℕ) × ((m : DbManager) × (acquire s.manager ≡ (some d, m)))))
pool_shared {s = s} i enough distinct reached =
    let inv = Reach-Inv reached in
    (
      λ d. (omega (arith, inv.counted d, distinct d), inv.counted d),
      elim (idle_cases (get_elem? s.holding i)) [
        | inr other ↦ inl other
        | inl idle ↦ inr (
            acquire-full s.manager
              (omega (arith, inv.sized, inv.all_there, (busy-take s.holding i 0 idle).1)))
      ],
    )
