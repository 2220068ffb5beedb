-- ===== src/Queue/Mpsc.antt =====
-- shared/algorithm/MpscQueue.h: any number of threads enqueue, one dequeues, and they share an array
-- of slots, each with a flag, and two counters. Each access to a shared variable is a step, and the
-- steps of the threads come in any order.
pub mod Inv
pub mod Fifo
use nf_engine.Prelude.{
  ℕ, ◌+◌, ◌-◌, ◌%◌, ◌^◌, ◌≡◌, List, [], ◌∷◌, ◌++◌, Option, none, some, Bool, true, false, length,
  leb, ◌==◌, if◌then◌else◌,
}
use nf_engine.Queue.Slots.{update}

module _ {ℓ} (A : Type ℓ) where
  pub record MpscQueue : Type ℓ where
    pub ptr : ℕ → Option A
    pub ready : ℕ → Bool
    pub head : ℕ
    pub tail : ℕ

  -- Where a thread in `enqueue` stands: not inside, at the start of the loop, with the tail read,
  -- past the test for room, with a slot claimed, or with the pointer stored.
  pub data Producer : Type ℓ where
    idle : Producer
    trying : A → Producer
    loaded checked claimed stored : A → ℕ → Producer

  -- Where the thread in `dequeueAll` stands, with its own count: not inside, at the start of the
  -- loop, past the test of the flag, with the pointer read, or with the pointer cleared.
  pub data Consumer : Type ℓ where
    waiting : Consumer
    scanning seen : ℕ → Consumer
    got cleared : ℕ → Option A → Consumer

  -- `claims` records the items in the order in which their slots were claimed, `returned` what
  -- `dequeueAll` has put into `out` over all its calls, and `published` how many of those the shared
  -- head counts; no code reads them.
  pub record System : Type ℓ where
    pub queue : MpscQueue
    pub producers : ℕ → Producer
    pub consumer : Consumer
    pub claims : List A
    pub returned : List (Option A)
    pub published : ℕ

  -- The constructor.
  unfoldable pub initial : System
  initial = record {
    queue = record { ptr = λ _. none; ready = λ _. false; head = 0; tail = 0 };
    producers = λ _. idle;
    consumer = waiting;
    claims = [];
    returned = [];
    published = 0;
  }

  -- Thread `k` goes on to `at`.
  abbrev pub go : ℕ → Producer → System → System
  go k at s = record s { producers = update s.producers k at }

  -- `tail - head` of `enqueue`, which wraps round if the tail that was read is stale.
  abbrev pub held_at : ℕ → ℕ → ℕ
  held_at tail head = (tail + 2 ^ 64 - head) % 2 ^ 64

  -- The head is read; `enqueue` refuses, or goes on.
  unfoldable pub check_room : ℕ → ℕ → A → ℕ → System → System
  check_room capacity k item tail s =
      go k (if leb capacity (held_at tail s.queue.head) then idle else checked item tail) s

  -- The exchange, when it compares. A weak one may fail for no reason, which is a step of its own.
  unfoldable pub exchange : ℕ → A → ℕ → System → System
  exchange k item tail s =
      let q = s.queue in
      let won = go k (claimed item tail) (record s {
        queue = record q { tail = (tail + 1) % 2 ^ 64 };
        claims = s.claims ++ item ∷ [];
      }) in
      if q.tail == tail then won else go k (trying item) s

  -- `slot.ptr = item.get()`
  unfoldable pub store_ptr : ℕ → ℕ → A → ℕ → System → System
  store_ptr capacity k item tail s =
      let q = s.queue in
      go k (stored item tail)
        (record s { queue = record q { ptr = update q.ptr (tail % capacity) (some item) } })

  -- `slot.ready.store(true)`
  unfoldable pub set_ready : ℕ → ℕ → ℕ → System → System
  set_ready capacity k tail s =
      let q = s.queue in
      go k idle (record s { queue = record q { ready = update q.ready (tail % capacity) true } })

  -- The test of the flag: the loop goes on, or it ends and the head is stored.
  unfoldable pub test_ready : ℕ → ℕ → System → System
  test_ready capacity head s =
      let q = s.queue in
      let ended = record s {
        queue = record q { head = head };
        consumer = waiting;
        published = length s.returned;
      } in
      if q.ready (head % capacity) then record s { consumer = seen head } else ended

  -- `ptr = slot.ptr`
  unfoldable pub read_ptr : ℕ → ℕ → System → System
  read_ptr capacity head s = record s { consumer = got head (s.queue.ptr (head % capacity)) }

  -- `slot.ptr = nullptr`
  unfoldable pub clear_ptr : ℕ → ℕ → Option A → System → System
  clear_ptr capacity head item s =
      let q = s.queue in
      record s {
        queue = record q { ptr = update q.ptr (head % capacity) none };
        consumer = cleared head item;
      }

  -- `slot.ready.store(false)`, `out.emplace_back(ptr)` and `++head`.
  unfoldable pub clear_ready : ℕ → ℕ → Option A → System → System
  clear_ready capacity head item s =
      let q = s.queue in
      record s {
        queue = record q { ready = update q.ready (head % capacity) false };
        consumer = scanning ((head + 1) % 2 ^ 64);
        returned = s.returned ++ item ∷ [];
      }

  -- One access by a thread; `k` numbers those that enqueue.
  pub data Step (c : ℕ) : System → System → Type ℓ where
    enter_step :
        (s : System) (k : ℕ) (item : A) → s.producers k ≡ idle → Step c s (go k (trying item) s)
    load_tail_step :
        (s : System) (k : ℕ) (item : A)
        → s.producers k ≡ trying item
        → Step c s (go k (loaded item s.queue.tail) s)
    check_room_step :
        (s : System) (k : ℕ) (item : A) (tail : ℕ)
        → s.producers k ≡ loaded item tail
        → Step c s (check_room c k item tail s)
    exchange_step :
        (s : System) (k : ℕ) (item : A) (tail : ℕ)
        → s.producers k ≡ checked item tail
        → Step c s (exchange k item tail s)
    spurious_step :
        (s : System) (k : ℕ) (item : A) (tail : ℕ)
        → s.producers k ≡ checked item tail
        → Step c s (go k (trying item) s)
    store_ptr_step :
        (s : System) (k : ℕ) (item : A) (tail : ℕ)
        → s.producers k ≡ claimed item tail
        → Step c s (store_ptr c k item tail s)
    set_ready_step :
        (s : System) (k : ℕ) (item : A) (tail : ℕ)
        → s.producers k ≡ stored item tail
        → Step c s (set_ready c k tail s)
    scan_step :
        (s : System)
        → s.consumer ≡ waiting
        → Step c s (record s { consumer = scanning s.queue.head })
    test_ready_step :
        (s : System) (head : ℕ) → s.consumer ≡ scanning head → Step c s (test_ready c head s)
    read_ptr_step : (s : System) (head : ℕ) → s.consumer ≡ seen head → Step c s (read_ptr c head s)
    clear_ptr_step :
        (s : System) (head : ℕ) (item : Option A)
        → s.consumer ≡ got head item
        → Step c s (clear_ptr c head item s)
    clear_ready_step :
        (s : System) (head : ℕ) (item : Option A)
        → s.consumer ≡ cleared head item
        → Step c s (clear_ready c head item s)

  -- The states that some order of the accesses leads to.
  pub data Reach (c : ℕ) : System → Type ℓ where
    start : Reach c initial
    next : {s t : System} → Reach c s → Step c s t → Reach c t
