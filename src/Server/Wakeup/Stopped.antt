-- ===== src/Server/Wakeup/Stopped.antt =====
-- About the loop of TcpWorker.cpp: only `stop` brings the worker to its end.
use nf_engine.Prelude.{
  ℕ, ◌≡◌, ◌≢◌, ◌⊎◌, inl, inr, refl, sym, ap, List, [], ◌∷◌, Bool, true, false, arith, length, ltb,
  leb, Bool-cases,
}
use mathlib.Core.Path.{subst}
use nf_engine.Server.Wakeup.{
  not_yet, Consuming, testing, waiting, draining, taking, last_taking, ended, Worker, enqueue_rx,
  wake, stop, take_item, consume_at, interrupt, Act, put, wake_up, stop_on, consume, signalled, act,
  acts, started,
}
use nf_engine.Server.Wakeup.Inv.{List-cases, Producing-cases, Stopping-cases, consume-consume_at}

-- Whether the worker has left its loop.
abbrev pub left_loop : Consuming → Bool
left_loop testing = false
left_loop waiting = false
left_loop draining = false
left_loop taking = false
left_loop last_taking = true
left_loop ended = true

module _ {A : Type 0} where
  -- `stop` was called, or the worker is in its loop and goes on.
  abbrev Goes : Worker A → Type 0
  Goes w = (w.stopper ≢ not_yet) ⊎ ((w.running ≡ true) × (left_loop w.consumer ≡ false))

  enqueue_rx-Goes : (item : A) (w : Worker A) → Goes w → Goes (enqueue_rx A item w)
  unfolding enqueue_rx
  enqueue_rx-Goes item w g = elim (Producing-cases w.producer) [
    | inr busy ↦ rw (enqueue_rx, busy) g
    | inl free ↦
        rw (enqueue_rx, free)
          (elim (Bool-cases (leb w.capacity (length w.items))) [
            | inl full ↦ rw full g
            | inr room ↦ rw room g
          ])
  ]

  wake-Goes : (w : Worker A) → Goes w → Goes (wake A w)
  unfolding wake
  wake-Goes w g = elim (Producing-cases w.producer) [
    | inl free ↦ rw (wake, free) g
    | inr busy ↦ rw (wake, busy) g
  ]

  stop-Goes : (w : Worker A) → Goes w → Goes (stop A w)
  unfolding stop
  stop-Goes w g = elim (Stopping-cases w.stopper) [
    | inl e ↦ rw (stop, e) (inl λ d. (let b : ⊥ = ground (arith, d) in b))
    | inr (inl e) ↦ rw (stop, e) (inl λ d. (let b : ⊥ = ground (arith, d) in b))
    | inr (inr e) ↦ rw (stop, e) g
  ]

  take_item-Goes :
      (behind : Consuming) (w : Worker A)
      → (left_loop behind ≡ false) ⊎ (w.stopper ≢ not_yet)
      → Goes w
      → Goes (take_item A behind w)
  unfolding take_item
  take_item-Goes behind w stays g = elim (List-cases w.items) [
    | inl e ↦
        rw (take_item, e)
          (elim stays [
            | inr told ↦ inl told
            | inl inside ↦ elim g [ inl told ↦ inl told | inr (on, _) ↦ inr (on, inside) ]
          ])
    | inr (item, (rest, e)) ↦ rw (take_item, e) g
  ]

  -- A worker that has left its loop was told to stop.
  told : (w : Worker A) → Goes w → left_loop w.consumer ≡ true → w.stopper ≢ not_yet
  told w (inl t) out = t
  told w (inr (on, inside)) out = absurd (let b : ⊥ = ground arith in b)

  consume-Goes : (w : Worker A) → Goes w → Goes (act A consume w)
  unfolding consume_at
  consume-Goes w g = by_place w.consumer refl
    where
      inside : (c : Consuming) → left_loop c ≡ false → Goes w → Goes (record w { consumer = c })
      inside c i (inl t) = inl t
      inside c i (inr (on, _)) = inr (on, i)

      by_place : (c : Consuming) → w.consumer ≡ c → Goes (act A consume w)
      by_place testing e =
          subst Goes (sym (consume-consume_at testing w e)) (elim (Bool-cases w.running) [
            | inl on ↦ rw (consume_at, on) (elim g [ inl t ↦ inl t | inr _ ↦ inr (refl, refl) ])
            | inr off ↦
                rw (consume_at, off)
                  (elim g [ inl t ↦ inl t | inr (on, _) ↦ absurd (let b : ⊥ = ground arith in b) ])
          ])
      by_place waiting e =
          subst Goes (sym (consume-consume_at waiting w e)) (elim (Bool-cases (ltb 0 w.counter)) [
            | inl up ↦ rw (consume_at, up) (inside draining refl g)
            | inr down ↦ rw (consume_at, down) g
          ])
      by_place draining e =
          subst Goes (sym (consume-consume_at draining w e)) (elim (Bool-cases (ltb 0 w.counter)) [
            | inl up ↦ rw (consume_at, up) g
            | inr down ↦ rw (consume_at, down) (inside taking refl g)
          ])
      by_place taking e =
          subst Goes (sym (consume-consume_at taking w e)) (take_item-Goes testing w (inl refl) g)
      by_place last_taking e =
          subst Goes (sym (consume-consume_at last_taking w e))
            (take_item-Goes ended w (inr (told w g (ap left_loop e))) g)
      by_place ended e = subst Goes (sym (consume-consume_at ended w e)) g

  interrupt-Goes : (w : Worker A) → Goes w → Goes (interrupt A w)
  unfolding interrupt
  interrupt-Goes w g = by_place w.consumer refl
    where
      by_place : (c : Consuming) → w.consumer ≡ c → Goes (interrupt A w)
      by_place waiting e =
          rw (interrupt, e) (elim g [ inl t ↦ inl t | inr (on, _) ↦ inr (on, refl) ])
      by_place testing e = rw (interrupt, e) g
      by_place draining e = rw (interrupt, e) g
      by_place taking e = rw (interrupt, e) g
      by_place last_taking e = rw (interrupt, e) g
      by_place ended e = rw (interrupt, e) g

  acts-Goes : (more : List (Act A)) (w : Worker A) → Goes w → Goes (acts A more w)
  unfolding acts act
  acts-Goes [] w g = g
  acts-Goes (put item ∷ more) w g = acts-Goes more (enqueue_rx A item w) (enqueue_rx-Goes item w g)
  acts-Goes (wake_up ∷ more) w g = acts-Goes more (wake A w) (wake-Goes w g)
  acts-Goes (stop_on ∷ more) w g = acts-Goes more (stop A w) (stop-Goes w g)
  acts-Goes (consume ∷ more) w g = acts-Goes more (act A consume w) (consume-Goes w g)
  acts-Goes (signalled ∷ more) w g = acts-Goes more (interrupt A w) (interrupt-Goes w g)

  -- A worker that was not told to stop is in its loop.
  pub acts_inside :
      (capacity : ℕ) (done : List (Act A))
      → let w = acts A done (started A capacity) in
        (w.stopper ≢ not_yet) ⊎ ((w.running ≡ true) × (left_loop w.consumer ≡ false))
  unfolding started
  acts_inside capacity done = acts-Goes done (started A capacity) (inr (refl, refl))
