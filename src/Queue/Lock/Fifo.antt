-- ===== src/Queue/Lock/Fifo.antt =====
-- shared/algorithm/LockQueue.h as a first-in first-out queue.
use nf_engine.Prelude.{
  ℕ, ◌≤◌, ◌≡◌, ◌≢◌, refl, sym, ap, ◌∙◌, List, [], ◌∷◌, ◌++◌, append_assoc, append-nil, false, not,
  ◌&&◌, leb, ◌==◌, arith, length, ◌↔◌, ◌⊎◌, length-append, Bool-cases, inl, inr,
}
use nf_engine.Queue.Lock.{
  LockQueue, enqueue, move_all, Call, put, take_all, Trace, call, calls, created,
}

module _ {ℓ} {A : Type ℓ} where
  move_all_lem : (items out : List A) → move_all A items out ≡ out ++ items
  unfolding move_all
  move_all_lem [] out = sym (append-nil out)
  move_all_lem (item ∷ items) out =
      move_all_lem items (out ++ item ∷ []) ∙ append_assoc out (item ∷ []) items

  record IsFifo (capacity : ℕ) (t : Trace A) : Type ℓ where
    pub same : t.queue.capacity ≡ capacity
    pub order : t.accepted ≡ t.returned ++ t.queue.items
    pub bound : (capacity ≡ 0) ⊎ (length t.queue.items ≤ capacity)

  call-IsFifo : {n : ℕ} (c : Call A) {t : Trace A} → IsFifo n t → IsFifo n (call A c t)
  unfolding call
  call-IsFifo {n} (put item) {t} inv =
      elim (Bool-cases
        (not (t.queue.capacity == 0) && leb t.queue.capacity (length t.queue.items))) [
          | inl full ↦ rw full inv
          | inr free ↦ rw free (record {
            same = inv.same;
            order =
                ap (λ xs. xs ++ item ∷ []) inv.order
                ∙ append_assoc t.returned t.queue.items (item ∷ []);
            bound = ground (arith, inv.same, inv.bound, length-append t.queue.items (item ∷ []));
          })
        ]
  call-IsFifo take_all {t} inv = record {
    same = inv.same;
    order =
        inv.order
        ∙ ap (λ xs. t.returned ++ xs) (sym (move_all_lem t.queue.items []))
        ∙ sym (append-nil (t.returned ++ move_all A t.queue.items []));
    bound = inr (omega arith);
  }

  calls-IsFifo : {n : ℕ} (cs : List (Call A)) {t : Trace A} → IsFifo n t → IsFifo n (calls A cs t)
  unfolding calls
  calls-IsFifo [] inv = inv
  calls-IsFifo (c ∷ cs) inv = calls-IsFifo cs (call-IsFifo c inv)

  created-IsFifo : (n : ℕ) → IsFifo n (created A n)
  unfolding created
  created-IsFifo n = record { same = refl; order = refl; bound = inr (omega arith) }

  enqueue-full :
      {n : ℕ} (item : A) (q : LockQueue A)
      → q.capacity ≡ n
      → (n ≡ 0) ⊎ (length q.items ≤ n)
      → ((enqueue A item q).0 ≡ false) ↔ ((n ≢ 0) × (length q.items ≡ n))
  unfolding enqueue
  enqueue-full item q same bound =
      (λ e. (λ z. ground arith, ground arith), λ h. ground (arith, h.0, h.1))

  -- After any calls on a new queue, the items that `dequeueAll` has given, followed by those in
  -- the queue, are the items that `enqueue` took, in their order; the next `enqueue` refuses
  -- exactly when the capacity is not 0 and the queue holds as many items, which it never exceeds.
  pub lock_fifo :
      (n : ℕ) (cs : List (Call A)) (item : A)
      → (let t = calls A cs (created A n) in
          (t.accepted ≡ t.returned ++ t.queue.items)
          × ((n ≡ 0) ⊎ (length t.queue.items ≤ n))
          × (((enqueue A item t.queue).0 ≡ false) ↔ ((n ≢ 0) × (length t.queue.items ≡ n))))
  lock_fifo n cs item =
      (inv.order, inv.bound, enqueue-full item (calls A cs (created A n)).queue inv.same inv.bound)
    where
      inv : IsFifo n (calls A cs (created A n))
      inv = calls-IsFifo cs (created-IsFifo n)
