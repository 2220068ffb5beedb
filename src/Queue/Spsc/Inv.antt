-- ===== src/Queue/Spsc/Inv.antt =====
-- The invariant of the two threads of shared/algorithm/SpscQueue.h.
pub mod Steps
use nf_engine.Prelude.{
  ℕ, ◌+◌, ◌-◌, ◌*◌, ◌%◌, ◌^◌, ◌≤◌, ◌<◌, ◌≡◌, ◌≢◌, refl, sym, ap, ◌∙◌, suc, List, [], ◌∷◌, ◌++◌,
  Option, none, some, ltb, ◌==◌, if◌then◌else◌, arith, length, get_elem?, take, map, length-append,
  take-append_le,
}
use mathlib.Core.Path.{subst}
use native.Mathlib.Decide.{ℕ_discrete, dec_lt}
use nf_engine.Queue.Slots.{
  IsCapacity, update, wrap-mod, slot-ne, update_self, update_ne, get_elem?-append_lt,
  get_elem?-append_last, map-take-suc,
}
use nf_engine.Queue.Spsc.{
  SpscQueue, Producer, Consumer, System, idle, checked, written, waiting, found, got, cleared,
  initial, check_room, write_slot, publish_tail, check_item, read_slot, clear_slot, publish_head,
  Step, Reach, after, used,
}

-- Both counters of a queue that holds at most `c` items, from the counts that never wrap.
pub used_lem :
    (c given taken head tail : ℕ)
    → 2 * c ≤ 2 ^ 64
    → 0 < c
    → given ≤ taken
    → taken ≤ given + c
    → head ≡ given % 2 ^ 64
    → tail ≡ taken % 2 ^ 64
    → ((tail + 1) % 2 ^ 64 + 2 ^ 64 - head) % 2 ^ 64 ≡ taken + 1 - given
used_lem c given taken head tail small pos le room h t = omega arith

module _ {ℓ} {A : Type ℓ} where
  -- The first count whose slot holds its item.
  abbrev pub first : Consumer A → ℕ → ℕ
  first waiting n = n
  first found n = n
  first (got item) n = n
  first (cleared item) n = suc n

  -- What the thread in `enqueue` knows: `n` is the number of items taken.
  abbrev pub ProducerInv : ℕ → ℕ → ℕ → (ℕ → Option A) → Producer A → Type ℓ
  ProducerInv c given n slots idle = Unit
  ProducerInv c given n slots (checked item) = Unit × (n < given + c)
  ProducerInv c given n slots (written item) = (n < given + c) × (slots (n % c) ≡ some item)

  -- What the thread in `dequeue` knows.
  abbrev pub ConsumerInv : ℕ → List A → Consumer A → Type ℓ
  ConsumerInv n accepted waiting = Unit
  ConsumerInv n accepted found = Unit × (n < length accepted)
  ConsumerInv n accepted (got item) = (n < length accepted) × (item ≡ get_elem? accepted n)
  ConsumerInv n accepted (cleared item) = (n < length accepted) × (item ≡ get_elem? accepted n)

  -- From count `n` on, each item that was taken lies in its slot.
  abbrev pub Held : ℕ → ℕ → List A → (ℕ → Option A) → Type ℓ
  Held c n accepted slots =
      (i : ℕ) → n ≤ i → i < length accepted → slots (i % c) ≡ get_elem? accepted i

  pub record IsConsistent (c : ℕ) (s : System A) : Type ℓ where
    pub head : s.queue.head ≡ length s.returned % 2 ^ 64
    pub tail : s.queue.tail ≡ length s.accepted % 2 ^ 64
    pub order : length s.returned ≤ length s.accepted
    pub room : length s.accepted ≤ length s.returned + c
    pub given : s.returned ≡ map some (take (length s.returned) s.accepted)
    pub held : Held c (first s.consumer (length s.returned)) s.accepted s.queue.slots
    pub producer : ProducerInv c (length s.returned) (length s.accepted) s.queue.slots s.producer
    pub consumer : ConsumerInv (length s.returned) s.accepted s.consumer

  pub le-first : (k : Consumer A) (n : ℕ) → n ≤ first k n
  le-first waiting n = omega arith
  le-first found n = omega arith
  le-first (got item) n = omega arith
  le-first (cleared item) n = omega arith

  -- What one thread knows outlives a step of the other.
  pub ConsumerInv-append :
      (n : ℕ) (accepted : List A) (item : A) (k : Consumer A)
      → ConsumerInv n accepted k
      → ConsumerInv n (accepted ++ item ∷ []) k
  ConsumerInv-append n accepted item waiting h = tt
  ConsumerInv-append n accepted item found h =
      (tt, omega (arith, h.1, length-append accepted (item ∷ [])))
  ConsumerInv-append n accepted item (got p) h = (
    omega (arith, h.0, length-append accepted (item ∷ [])),
    h.1 ∙ sym (get_elem?-append_lt accepted (item ∷ []) n h.0),
  )
  ConsumerInv-append n accepted item (cleared p) h = (
    omega (arith, h.0, length-append accepted (item ∷ [])),
    h.1 ∙ sym (get_elem?-append_lt accepted (item ∷ []) n h.0),
  )

  pub ProducerInv-more :
      (c m n : ℕ) (slots : ℕ → Option A) (p : Producer A)
      → ProducerInv c m n slots p
      → ProducerInv c (suc m) n slots p
  ProducerInv-more c m n slots idle h = tt
  ProducerInv-more c m n slots (checked item) h = (tt, omega (arith, h.1))
  ProducerInv-more c m n slots (written item) h = (omega (arith, h.0), h.1)

  pub ProducerInv-slots :
      (c m n : ℕ) (slots slots' : ℕ → Option A) (p : Producer A)
      → (n < m + c → slots' (n % c) ≡ slots (n % c))
      → ProducerInv c m n slots p
      → ProducerInv c m n slots' p
  ProducerInv-slots c m n slots slots' idle e h = tt
  ProducerInv-slots c m n slots slots' (checked item) e h = h
  ProducerInv-slots c m n slots slots' (written item) e h = (h.0, e h.0 ∙ h.1)
