-- ===== src/Queue/Spsc.antt =====
-- shared/algorithm/SpscQueue.h: one thread enqueues, another dequeues, and the two share an array of
-- slots and two counters. Each access to a shared variable is a step, and the steps of the two
-- threads come in any order (the code's acquire and release order them as the model does).
-- The capacity is a power of two, so that `& m_mask` is a remainder.
pub mod Inv
pub mod Fifo
use nf_engine.Prelude.{
  ℕ, ◌+◌, ◌-◌, ◌%◌, ◌^◌, ◌≤◌, ◌<◌, ◌≡◌, ◌≢◌, List, [], ◌∷◌, ◌++◌, Option, none, some, Bool, ltb,
  ◌==◌, if◌then◌else◌,
}
use nf_engine.Queue.Slots.{update}

module _ {ℓ} (A : Type ℓ) where
  pub record SpscQueue : Type ℓ where
    pub slots : ℕ → Option A
    pub head : ℕ
    pub tail : ℕ

  -- Where the thread in `enqueue` stands: not inside, past the test for room, or past the write to
  -- the slot.
  pub data Producer : Type ℓ where
    idle : Producer
    checked : A → Producer
    written : A → Producer

  -- Where the thread in `dequeue` stands: not inside, past the test for an item, with the pointer
  -- read, or with the slot cleared.
  pub data Consumer : Type ℓ where
    waiting : Consumer
    found : Consumer
    got : Option A → Consumer
    cleared : Option A → Consumer

  -- `accepted` and `returned` record what `enqueue` took and what `dequeue` gave; no code reads
  -- them.
  pub record System : Type ℓ where
    pub queue : SpscQueue
    pub producer : Producer
    pub consumer : Consumer
    pub accepted : List A
    pub returned : List (Option A)

  -- The constructor: no item, and both counters at 0.
  unfoldable pub initial : System
  initial = record {
    queue = record { slots = λ _. none; head = 0; tail = 0 };
    producer = idle;
    consumer = waiting;
    accepted = [];
    returned = [];
  }

  -- `next` of `enqueue`: `size_t` wraps round.
  abbrev pub after : ℕ → ℕ
  after counter = (counter + 1) % 2 ^ 64

  -- `next - head` of `enqueue`.
  abbrev pub used : SpscQueue → ℕ
  used q = (after q.tail + 2 ^ 64 - q.head) % 2 ^ 64

  unfoldable pub empty : SpscQueue → Bool
  empty q = q.head == q.tail

  -- `enqueue` reads both counters and refuses, or goes on.
  unfoldable pub check_room : ℕ → A → System → System
  check_room capacity item s = record s {
    producer = if ltb capacity (used s.queue) then idle else checked item;
  }

  -- `slot.ptr = pkt.get()`
  unfoldable pub write_slot : ℕ → A → System → System
  write_slot capacity item s =
      let q = s.queue in
      record s {
        queue = record q { slots = update q.slots (q.tail % capacity) (some item) };
        producer = written item;
      }

  -- `m_tail.store(next)`, from which on the item counts as taken.
  unfoldable pub publish_tail : A → System → System
  publish_tail item s =
      let q = s.queue in
      record s {
        queue = record q { tail = after q.tail };
        producer = idle;
        accepted = s.accepted ++ item ∷ [];
      }

  -- `dequeue` reads both counters and returns a null pointer, or goes on.
  unfoldable pub check_item : System → System
  check_item s = record s { consumer = if s.queue.head == s.queue.tail then waiting else found }

  -- `ptr = slot.ptr`
  unfoldable pub read_slot : ℕ → System → System
  read_slot capacity s = record s { consumer = got (s.queue.slots (s.queue.head % capacity)) }

  -- `slot.ptr = nullptr`
  unfoldable pub clear_slot : ℕ → Option A → System → System
  clear_slot capacity item s =
      let q = s.queue in
      record s {
        queue = record q { slots = update q.slots (q.head % capacity) none };
        consumer = cleared item;
      }

  -- `m_head.store(head + 1)` and the return.
  unfoldable pub publish_head : Option A → System → System
  publish_head item s =
      let q = s.queue in
      record s {
        queue = record q { head = after q.head };
        consumer = waiting;
        returned = s.returned ++ item ∷ [];
      }

  -- One access by either thread.
  pub data Step (capacity : ℕ) : System → System → Type ℓ where
    check_room_step :
        (s : System) (item : A) → s.producer ≡ idle → Step capacity s (check_room capacity item s)
    write_slot_step :
        (s : System) (item : A)
        → s.producer ≡ checked item
        → Step capacity s (write_slot capacity item s)
    publish_tail_step :
        (s : System) (item : A) → s.producer ≡ written item → Step capacity s (publish_tail item s)
    check_item_step : (s : System) → s.consumer ≡ waiting → Step capacity s (check_item s)
    read_slot_step : (s : System) → s.consumer ≡ found → Step capacity s (read_slot capacity s)
    clear_slot_step :
        (s : System) (item : Option A)
        → s.consumer ≡ got item
        → Step capacity s (clear_slot capacity item s)
    publish_head_step :
        (s : System) (item : Option A)
        → s.consumer ≡ cleared item
        → Step capacity s (publish_head item s)

  -- The states that some order of the accesses leads to.
  pub data Reach (capacity : ℕ) : System → Type ℓ where
    start : Reach capacity initial
    next : {s t : System} → Reach capacity s → Step capacity s t → Reach capacity t
