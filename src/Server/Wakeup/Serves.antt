-- ===== src/Server/Wakeup/Serves.antt =====
-- About the loop of TcpWorker.cpp: the worker handles what it was given, and ends when it is stopped.
use nf_engine.Prelude.{
  ℕ, zero, suc, ◌<◌, ◌≡◌, ◌≢◌, ◌⊎◌, inl, inr, refl, sym, ap, ◌∙◌, List, [], ◌∷◌, ◌++◌, true, false,
  arith, ltb, leb, length, ◌≤◌, append-nil, Bool-cases,
}
use nf_engine.Server.Wakeup.{
  idle, enqueued, not_yet, stop_done, Consuming, testing, waiting, draining, taking, last_taking,
  ended, Worker, enqueue_rx, take_item, consume_at, Act, consume, act, acts, started, alone,
}
use nf_engine.Server.Wakeup.Inv.{
  Rests, Waits, Producing-cases, List-cases, Inv, consume-consume_at, consume-Inv, acts-Inv,
  started-Inv,
}
use nf_engine.Server.Wakeup.Stopped.{left_loop, acts_inside}
use mathlib.Core.Path.{subst}

ended_cases : (c : Consuming) → (c ≡ ended) ⊎ (c ≢ ended)
ended_cases testing = inr λ e. (let b : ⊥ = ground (arith, e) in b)
ended_cases waiting = inr λ e. (let b : ⊥ = ground (arith, e) in b)
ended_cases draining = inr λ e. (let b : ⊥ = ground (arith, e) in b)
ended_cases taking = inr λ e. (let b : ⊥ = ground (arith, e) in b)
ended_cases last_taking = inr λ e. (let b : ⊥ = ground (arith, e) in b)
ended_cases ended = inl refl

module _ {A : Type 0} where
  -- After some steps of its own the worker has handled all that was accepted, and it ends if it was
  -- told to stop.
  abbrev pub Serves : Worker A → Type 0
  Serves w =
      (n : ℕ) × (((alone A n w).handled ≡ w.accepted)
        × (((alone A n w).consumer ≡ ended) ⊎ (w.stopper ≢ stop_done)))

  abbrev Keeps : Worker A → Worker A → Type 0
  Keeps w w' = (w'.accepted ≡ w.accepted) × ((w'.stopper ≡ w.stopper) × (w'.producer ≡ w.producer))

  -- A step of the worker changes neither what was accepted nor what the other threads do.
  consume-Keeps : (w : Worker A) → Keeps w (act A consume w)
  unfolding act consume_at take_item
  consume-Keeps w = by_place w.consumer refl
    where
      taken : (behind : Consuming) → Keeps w (take_item A behind w)
      taken behind = elim (List-cases w.items) [
        | inl e ↦ rw (take_item, e) (refl, (refl, refl))
        | inr (item, (rest, e)) ↦ rw (take_item, e) (refl, (refl, refl))
      ]

      by_place : (c : Consuming) → w.consumer ≡ c → Keeps w (act A consume w)
      by_place testing e =
          subst (Keeps w) (sym (consume-consume_at testing w e)) (elim (Bool-cases w.running) [
            | inl on ↦ rw on (refl, (refl, refl))
            | inr off ↦ rw off (refl, (refl, refl))
          ])
      by_place waiting e =
          subst (Keeps w) (sym (consume-consume_at waiting w e))
            (elim (Bool-cases (ltb 0 w.counter)) [
              | inl up ↦ rw up (refl, (refl, refl))
              | inr down ↦ rw down (refl, (refl, refl))
            ])
      by_place draining e =
          subst (Keeps w) (sym (consume-consume_at draining w e))
            (elim (Bool-cases (ltb 0 w.counter)) [
              | inl up ↦ rw up (refl, (refl, refl))
              | inr down ↦ rw down (refl, (refl, refl))
            ])
      by_place taking e = subst (Keeps w) (sym (consume-consume_at taking w e)) (taken testing)
      by_place last_taking e =
          subst (Keeps w) (sym (consume-consume_at last_taking w e)) (taken ended)
      by_place ended e = subst (Keeps w) (sym (consume-consume_at ended w e)) (refl, (refl, refl))

  consume-Serves : (w : Worker A) → Serves (act A consume w) → Serves w
  unfolding alone
  consume-Serves w (n, (all, last)) = (
    suc n,
    (
      all ∙ (consume-Keeps w).0,
      elim last [ inl e ↦ inl e | inr going ↦ inr λ e. going ((consume-Keeps w).1.0 ∙ e) ],
    ),
  )

  -- A worker with nothing left that nobody told to stop.
  empty-Serves : (w : Worker A) → Inv w → w.items ≡ [] → w.stopper ≢ stop_done → Serves w
  unfolding alone
  empty-Serves w inv empty going =
      (zero, (sym (inv.order ∙ ap (λ xs. w.handled ++ xs) empty ∙ append-nil w.handled), inr going))

  taking_rest :
      (c : Consuming) (w : Worker A) (item : A) (rest : List A)
      → (c ≡ taking) ⊎ (c ≡ last_taking)
      → w.consumer ≡ c
      → w.items ≡ item ∷ rest
      → ((act A consume w).consumer ≡ c) × ((act A consume w).items ≡ rest)
  unfolding act consume_at take_item
  taking_rest c w item rest (inl t) e full = rw (act, e, t, take_item, full) (refl, refl)
  taking_rest c w item rest (inr t) e full = rw (act, e, t, take_item, full) (refl, refl)

  last_taken :
      (behind : Consuming) (w : Worker A)
      → act A consume w ≡ take_item A behind w
      → w.items ≡ []
      → ((act A consume w).consumer ≡ behind) × ((act A consume w).items ≡ [])
  unfolding take_item
  last_taken behind w step empty =
      subst (λ k. (k.consumer ≡ behind) × (k.items ≡ [])) (sym step)
        (rw (take_item, empty) (refl, empty))

  ended-Serves : (w : Worker A) → Inv w → w.items ≡ [] → w.consumer ≡ ended → Serves w
  unfolding alone
  ended-Serves w inv empty e =
      (zero, (sym (inv.order ∙ ap (λ xs. w.handled ++ xs) empty ∙ append-nil w.handled), inl e))

  last-Serves :
      (items : List A) (w : Worker A)
      → Inv w
      → w.consumer ≡ last_taking
      → w.items ≡ items
      → Serves w
  unfolding act consume_at take_item
  last-Serves [] w inv e empty =
      let (c, left) = last_taken ended w (consume-consume_at last_taking w e) empty in
      consume-Serves w (ended-Serves (act A consume w) (consume-Inv w inv) left c)
  last-Serves (item ∷ rest) w inv e full =
      let (c, left) = taking_rest last_taking w item rest (inr refl) e full in
      consume-Serves w (last-Serves rest (act A consume w) (consume-Inv w inv) c left)

  testing-Serves : (w : Worker A) → Inv w → w.consumer ≡ testing → w.items ≡ [] → Serves w
  unfolding act consume_at
  testing-Serves w inv e empty = elim (Bool-cases w.running) [
    | inl on ↦ empty-Serves w inv empty λ d. (let b : ⊥ = ground (arith, inv.flags) in b)
    | inr off ↦ consume-Serves w (
        last-Serves [] (act A consume w) (consume-Inv w inv) (rw (act, e, off) refl)
          (rw (act, e, off) empty))
  ]

  taking-Serves :
      (items : List A) (w : Worker A) → Inv w → w.consumer ≡ taking → w.items ≡ items → Serves w
  unfolding act consume_at take_item
  taking-Serves [] w inv e empty =
      let (c, left) = last_taken testing w (consume-consume_at taking w e) empty in
      consume-Serves w (testing-Serves (act A consume w) (consume-Inv w inv) c left)
  taking-Serves (item ∷ rest) w inv e full =
      let (c, left) = taking_rest taking w item rest (inl refl) e full in
      consume-Serves w (taking-Serves rest (act A consume w) (consume-Inv w inv) c left)

  drained-Serves : (w : Worker A) → Inv w → w.consumer ≡ draining → w.counter ≡ 0 → Serves w
  unfolding consume_at
  drained-Serves w inv e zero_now =
      let step : act A consume w ≡ record w { consumer = taking } =
        consume-consume_at draining w e ∙ rw (consume_at, zero_now) refl in
      consume-Serves w (
        taking-Serves (act A consume w).items (act A consume w) (consume-Inv w inv)
          (ap (λ k. k.consumer) step) refl)

  draining-Serves : (w : Worker A) → Inv w → w.consumer ≡ draining → Serves w
  unfolding consume_at
  draining-Serves w inv e = elim (Bool-cases (ltb 0 w.counter)) [
    | inr down ↦ drained-Serves w inv e (ground arith)
    | inl up ↦
        let step : act A consume w ≡ record w { counter = 0 } =
          consume-consume_at draining w e ∙ rw (consume_at, up) refl in
        consume-Serves w (
          drained-Serves (act A consume w) (consume-Inv w inv) (ap (λ k. k.consumer) step ∙ e)
            (ap (λ k. k.counter) step))
  ]

  waiting-Serves : (w : Worker A) → Inv w → w.producer ≡ idle → w.consumer ≡ waiting → Serves w
  unfolding consume_at
  waiting-Serves w inv free e = elim (Bool-cases (ltb 0 w.counter)) [
    | inl up ↦
        let step : act A consume w ≡ record w { consumer = draining } =
          consume-consume_at waiting w e ∙ rw (consume_at, up) refl in
        consume-Serves w
          (draining-Serves (act A consume w) (consume-Inv w inv) (ap (λ k. k.consumer) step))
    | inr down ↦
        let zero_now : w.counter ≡ 0 = ground arith in
        empty-Serves w inv
          (elim (inv.awake (subst Rests (sym e) tt)) [
            | inl empty ↦ empty
            | inr (inl busy) ↦ absurd (let b : ⊥ = ground arith in b)
            | inr (inr up) ↦ absurd (let b : ⊥ = omega (arith, up, zero_now) in b)
          ])
          (λ d.
            let up : 0 < w.counter = inv.halted (subst Waits (sym e) tt) d in
            (let b : ⊥ = omega (arith, up, zero_now) in b))
  ]

  Inv-Serves : (w : Worker A) → Inv w → w.producer ≡ idle → w.consumer ≢ ended → Serves w
  unfolding consume_at
  Inv-Serves w inv free going = by_place w.consumer refl
    where
      by_place : (c : Consuming) → w.consumer ≡ c → Serves w
      by_place waiting e = waiting-Serves w inv free e
      by_place draining e = draining-Serves w inv e
      by_place taking e = taking-Serves w.items w inv e refl
      by_place last_taking e = last-Serves w.items w inv e refl
      by_place ended e = absurd (going e)
      by_place testing e = elim (Bool-cases w.running) [
        | inl on ↦
            let step : act A consume w ≡ record w { consumer = waiting } =
              consume-consume_at testing w e ∙ rw (consume_at, on) refl in
            consume-Serves w (
              waiting-Serves (act A consume w) (consume-Inv w inv)
                (ap (λ k. k.producer) step ∙ free) (ap (λ k. k.consumer) step))
        | inr off ↦
            let step : act A consume w ≡ record w { consumer = last_taking } =
              consume-consume_at testing w e ∙ rw (consume_at, off) refl in
            consume-Serves w (
              last-Serves (act A consume w).items (act A consume w) (consume-Inv w inv)
                (ap (λ k. k.consumer) step) refl)
      ]

  accepts :
      (item : A) (w : Worker A)
      → (w.producer ≡ enqueued)
        ⊎ ((w.capacity ≤ length w.items)
            ⊎ ((enqueue_rx A item w).accepted ≡ w.accepted ++ item ∷ []))
  unfolding enqueue_rx
  accepts item w = elim (Producing-cases w.producer) [
    | inr busy ↦ inl busy
    | inl free ↦ inr (elim (Bool-cases (leb w.capacity (length w.items))) [
      | inl full ↦ inl (ground arith)
      | inr room ↦ inr (rw (enqueue_rx, free, room) refl)
    ])
  ]

  -- Whatever the reactor, the worker, the thread that stops it and the signals have done, in any order:
  -- what was accepted is what was handled, in its order, followed by what is in the queue; the next item
  -- is accepted, unless the reactor is inside enqueueRx already or the queue is full; as long as
  -- stop was not called the worker is in its loop; and the reactor is inside enqueueRx, about to wake
  -- the worker, or the worker is at its end, or it handles all that was accepted in some steps of its
  -- own, and comes to its end if stop has returned.
  pub worker_serves :
      (capacity : ℕ) (done : List (Act A)) (item : A)
      → let w = acts A done (started A capacity) in
        (w.accepted ≡ w.handled ++ w.items)
        × ((w.producer ≡ enqueued)
            ⊎ ((w.capacity ≤ length w.items)
                ⊎ ((enqueue_rx A item w).accepted ≡ w.accepted ++ item ∷ [])))
        × ((w.stopper ≢ not_yet) ⊎ ((w.running ≡ true) × (left_loop w.consumer ≡ false)))
        × ((w.producer ≡ enqueued)
            ⊎ ((w.consumer ≡ ended)
                ⊎ ((n : ℕ) × (((alone A n w).handled ≡ w.accepted)
                      × (((alone A n w).consumer ≡ ended) ⊎ (w.stopper ≢ stop_done))))))
  worker_serves capacity done item = (inv.order, accepts item w, acts_inside capacity done, serving)
    where
      w : Worker A
      w = acts A done (started A capacity)

      inv : Inv w
      inv = acts-Inv done (started-Inv capacity)

      serving : (w.producer ≡ enqueued) ⊎ ((w.consumer ≡ ended) ⊎ Serves w)
      serving = elim (Producing-cases w.producer) [
        | inr busy ↦ inl busy
        | inl free ↦ inr (elim (ended_cases w.consumer) [
          | inl e ↦ inl e
          | inr going ↦ inr (Inv-Serves w inv free going)
        ])
      ]
