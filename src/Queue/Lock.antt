-- ===== src/Queue/Lock.antt =====
-- shared/algorithm/LockQueue.h: a queue behind a mutex, so that each call is one step.
pub mod Fifo
use nf_engine.Prelude.{
  ℕ, ◌+◌, ◌≤◌, ◌<◌, ◌≡◌, ◌≢◌, refl, sym, ap, ◌∙◌, List, [], ◌∷◌, ◌++◌, append_assoc, append-nil,
  Bool, true, false, not, ◌&&◌, ltb, leb, ◌==◌, if◌then◌else◌, arith, length, ◌↔◌, ◌⊎◌,
  length-append, Bool-cases, inl, inr,
}

module _ {ℓ} (A : Type ℓ) where
  -- A capacity of 0 stands for no bound.
  pub record LockQueue : Type ℓ where
    pub capacity : ℕ
    pub items : List A

  unfoldable pub enqueue : A → LockQueue → Bool × LockQueue
  enqueue item q =
      if not (q.capacity == 0) && leb q.capacity (length q.items)
      then (false, q)
      else (true, record q { items = q.items ++ item ∷ [] })

  -- The loop that moves the front of the queue to the end of `out`.
  unfoldable pub move_all : List A → List A → List A
  move_all [] out = out
  move_all (item ∷ items) out = move_all items (out ++ item ∷ [])

  -- `out` is cleared first; the result is `out` and the queue.
  unfoldable pub dequeue_all : LockQueue → List A × LockQueue
  unfolding move_all
  dequeue_all q = (move_all q.items [], record q { items = [] })

  pub data Call : Type ℓ where
    put : A → Call
    take_all : Call

  -- What a sequence of calls has left: the items that `enqueue` took and those that `dequeueAll`
  -- gave, in their order, and the queue.
  pub record Trace : Type ℓ where
    pub accepted : List A
    pub returned : List A
    pub queue : LockQueue

  unfoldable pub call : Call → Trace → Trace
  unfolding enqueue dequeue_all
  call (put item) t =
      let (done, q) = enqueue item t.queue in
      record t { accepted = if done then t.accepted ++ item ∷ [] else t.accepted; queue = q }
  call take_all t =
      let (out, q) = dequeue_all t.queue in record t { returned = t.returned ++ out; queue = q }

  unfoldable pub calls : List Call → Trace → Trace
  unfolding call
  calls [] t = t
  calls (c ∷ cs) t = calls cs (call c t)

  -- The constructor.
  unfoldable pub created : ℕ → Trace
  created capacity = record {
    accepted = [];
    returned = [];
    queue = record { capacity = capacity; items = [] };
  }
