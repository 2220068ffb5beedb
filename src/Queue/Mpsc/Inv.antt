-- ===== src/Queue/Mpsc/Inv.antt =====
-- The invariant of the threads of shared/algorithm/MpscQueue.h, while no counter has wrapped round.
pub mod Produce
pub mod Claims
pub mod Enqueue
pub mod Consume
use nf_engine.Prelude.{
  ℕ, ◌+◌, ◌-◌, ◌*◌, ◌%◌, ◌^◌, ◌≤◌, ◌<◌, ◌≡◌, ◌≢◌, ◌⊎◌, inl, inr, refl, sym, ap, ◌∙◌, suc, List, [],
  ◌∷◌, ◌++◌, Option, none, some, Bool, true, false, arith, length, get_elem?, take, map,
}
use mathlib.Core.Path.{subst}
use native.Mathlib.Decide.{ℕ_discrete, dec_lt}
use nf_engine.Queue.Slots.{IsCapacity, update, update_self, update_ne, slot-ne}
use nf_engine.Queue.Mpsc.{
  MpscQueue, Producer, Consumer, System, idle, trying, loaded, checked, claimed, stored, waiting,
  scanning, seen, got, cleared,
}

-- Counts less than the capacity apart that select one slot are the same.
pub slot_inj :
    (c low i j : ℕ) → low ≤ i → i < low + c → low ≤ j → j < low + c → i % c ≡ j % c → i ≡ j
slot_inj c low i j li hi lj hj e = elim (dec_lt i j) [
  | yes p ↦ absurd (slot-ne c i j p (omega arith) e)
  | no p ↦ elim (dec_lt j i) [
    | yes q ↦ absurd (slot-ne c j i q (omega arith) (sym e))
    | no q ↦ omega arith
  ]
]

module _ {ℓ} {A : Type ℓ} where
  -- A property of all elements after a write.
  pub update-All {κ} :
      (P : A → Type κ) (f : ℕ → A) (k : ℕ) (a : A)
      → P a
      → ((j : ℕ) → k ≢ j → P (f j))
      → (j : ℕ) → P (update f k a j)
  update-All P f k a new old j = elim (ℕ_discrete k j) [
    | yes same ↦ subst P (sym (ap (update f k a) (sym same) ∙ update_self f k a)) new
    | no ne ↦ subst P (sym (update_ne f k j a ne)) (old j ne)
  ]

  -- The count whose slot a thread has claimed and not yet made ready.
  abbrev pub Owns : Producer A → ℕ → Type 0
  Owns idle t = ⊥
  Owns (trying item) t = ⊥
  Owns (loaded item tail) t = ⊥
  Owns (checked item tail) t = ⊥
  Owns (claimed item tail) t = tail ≡ t
  Owns (stored item tail) t = tail ≡ t

  -- The claim of a slot for an item.
  abbrev pub Claim : ℕ → System A → A → ℕ → Type ℓ
  Claim c s item t =
      (length s.returned ≤ t)
      × (t < length s.claims)
      × (get_elem? s.claims t ≡ some item)
      × (s.queue.ready (t % c) ≡ false)

  -- What a thread in `enqueue` knows.
  abbrev pub ProducerInv : ℕ → System A → Producer A → Type ℓ
  ProducerInv c s idle = Unit
  ProducerInv c s (trying item) = Unit
  ProducerInv c s (loaded item tail) = Unit × (tail ≤ length s.claims)
  ProducerInv c s (checked item tail) =
      Unit
      × ((tail < length s.claims)
          ⊎ ((tail ≡ length s.claims) × (length s.claims < s.published + c)))
  ProducerInv c s (claimed item tail) = Claim c s item tail
  ProducerInv c s (stored item tail) = Claim c s item tail × (s.queue.ptr (tail % c) ≡ some item)

  -- What the thread in `dequeueAll` knows.
  abbrev pub ConsumerInv : ℕ → System A → Consumer A → Type ℓ
  ConsumerInv c s waiting = Unit × (s.published ≡ length s.returned)
  ConsumerInv c s (scanning head) = Unit × (head ≡ length s.returned)
  ConsumerInv c s (seen head) =
      Unit × (head ≡ length s.returned) × (s.queue.ready (length s.returned % c) ≡ true)
  ConsumerInv c s (got head item) =
      (head ≡ length s.returned)
      × (s.queue.ready (length s.returned % c) ≡ true)
      × (item ≡ get_elem? s.claims (length s.returned))
  ConsumerInv c s (cleared head item) =
      (head ≡ length s.returned)
      × (s.queue.ready (length s.returned % c) ≡ true)
      × (item ≡ get_elem? s.claims (length s.returned))

  -- The first count whose pointer is still in its slot.
  abbrev pub first : Consumer A → ℕ → ℕ
  first waiting n = n
  first (scanning head) n = n
  first (seen head) n = n
  first (got head item) n = n
  first (cleared head item) n = suc n

  -- A slot that is ready holds its item.
  abbrev pub Held : ℕ → System A → ℕ → Type ℓ
  Held c s n =
      (i : ℕ)
      → n ≤ i
      → i < length s.claims
      → s.queue.ready (i % c) ≡ true
      → s.queue.ptr (i % c) ≡ get_elem? s.claims i

  pub record IsConsistent (c : ℕ) (s : System A) : Type ℓ where
    pub head : s.queue.head ≡ s.published
    pub tail : s.queue.tail ≡ length s.claims
    pub published : s.published ≤ length s.returned
    pub order : length s.returned ≤ length s.claims
    pub room : length s.claims ≤ s.published + c
    pub given : s.returned ≡ map some (take (length s.returned) s.claims)
    pub free :
        (i : ℕ) → length s.claims ≤ i → i < length s.returned + c → s.queue.ready (i % c) ≡ false
    pub held : Held c s (first s.consumer (length s.returned))
    pub producers : (k : ℕ) → ProducerInv c s (s.producers k)
    pub alone : (j k t : ℕ) → Owns (s.producers j) t → Owns (s.producers k) t → j ≡ k
    pub consumer : ConsumerInv c s s.consumer

  pub le-first : (k : Consumer A) (n : ℕ) → n ≤ first k n
  le-first waiting n = omega arith
  le-first (scanning head) n = omega arith
  le-first (seen head) n = omega arith
  le-first (got head item) n = omega arith
  le-first (cleared head item) n = omega arith
