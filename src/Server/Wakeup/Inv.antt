-- ===== src/Server/Wakeup/Inv.antt =====
-- About the loop of TcpWorker.cpp: no packet is left behind while the worker sleeps.
use nf_engine.Prelude.{
  ℕ, ◌<◌, ◌≡◌, ◌⊎◌, inl, inr, refl, sym, ap, ◌∙◌, List, [], ◌∷◌, ◌++◌, false, arith, length, ltb,
  leb, append_assoc, Bool-cases,
}
use mathlib.Core.Path.{subst}
use nf_engine.Server.Wakeup.{
  Producing, idle, enqueued, Stopping, not_yet, flagged, stop_done, Consuming, testing, waiting,
  draining, taking, last_taking, ended, Worker, wakeup, enqueue_rx, wake, stop, take_item,
  consume_at, interrupt, Act, put, wake_up, stop_on, consume, signalled, act, acts, started,
}

-- The worker is before the wait or in it.
abbrev pub Rests : Consuming → Type 0
Rests testing = Unit {0}
Rests waiting = Unit {0}
Rests draining = ⊥
Rests taking = ⊥
Rests last_taking = ⊥
Rests ended = ⊥

abbrev pub Waits : Consuming → Type 0
Waits testing = ⊥
Waits waiting = Unit {0}
Waits draining = ⊥
Waits taking = ⊥
Waits last_taking = ⊥
Waits ended = ⊥

pub Producing-cases : (p : Producing) → (p ≡ idle) ⊎ (p ≡ enqueued)
Producing-cases idle = inl refl
Producing-cases enqueued = inr refl

pub Stopping-cases : (s : Stopping) → (s ≡ not_yet) ⊎ ((s ≡ flagged) ⊎ (s ≡ stop_done))
Stopping-cases not_yet = inl refl
Stopping-cases flagged = inr (inl refl)
Stopping-cases stop_done = inr (inr refl)

wakeup-pos : (counter : ℕ) → 0 < wakeup counter
unfolding wakeup
wakeup-pos counter = ground arith

module _ {A : Type 0} where
  pub List-cases : (xs : List A) → (xs ≡ []) ⊎ ((x : A) × ((rest : List A) × (xs ≡ x ∷ rest)))
  List-cases [] = inl refl
  List-cases (x ∷ rest) = inr (x, (rest, refl))

  -- What was accepted is handled or in the queue; a worker that rests has an empty queue, or a write
  -- to the eventfd is on its way or not read yet; and so it is for a stop.
  pub record Inv (w : Worker A) : Type 0 where
    pub order : w.accepted ≡ w.handled ++ w.items
    pub awake : Rests w.consumer → (w.items ≡ []) ⊎ ((w.producer ≡ enqueued) ⊎ (0 < w.counter))
    pub flags : (w.running ≡ false) ⊎ (w.stopper ≡ not_yet)
    pub halted : Waits w.consumer → w.stopper ≡ stop_done → 0 < w.counter

  enqueue_rx-Inv : (item : A) (w : Worker A) → Inv w → Inv (enqueue_rx A item w)
  unfolding enqueue_rx
  enqueue_rx-Inv item w inv = elim (Producing-cases w.producer) [
    | inr busy ↦ rw (enqueue_rx, busy) inv
    | inl free ↦
        rw (enqueue_rx, free)
          (elim (Bool-cases (leb w.capacity (length w.items))) [
            | inl full ↦ rw full inv
            | inr room ↦ rw room (record {
              order =
                  ap (λ xs. xs ++ item ∷ []) inv.order ∙ append_assoc w.handled w.items (item ∷ []);
              awake = λ r. inr (inl refl);
              flags = inv.flags;
              halted = inv.halted;
            })
          ])
  ]

  wake-Inv : (w : Worker A) → Inv w → Inv (wake A w)
  unfolding wake wakeup
  wake-Inv w inv = elim (Producing-cases w.producer) [
    | inl free ↦ rw (wake, free) inv
    | inr busy ↦
        rw (wake, busy)
          (record {
            order = inv.order;
            awake = λ r. inr (inr (wakeup-pos w.counter));
            flags = inv.flags;
            halted = λ r e. wakeup-pos w.counter;
          })
  ]

  stop-Inv : (w : Worker A) → Inv w → Inv (stop A w)
  unfolding stop wakeup
  stop-Inv w inv = elim (Stopping-cases w.stopper) [
    | inl e ↦
        rw (stop, e)
          (record {
            order = inv.order;
            awake = inv.awake;
            flags = inl refl;
            halted = λ r d. absurd (let b : ⊥ = ground arith in b);
          })
    | inr (inl e) ↦
        rw (stop, e)
          (record {
            order = inv.order;
            awake = λ r. inr (inr (wakeup-pos w.counter));
            flags = inl (let f : w.running ≡ false = ground (arith, inv.flags) in f);
            halted = λ r d. wakeup-pos w.counter;
          })
    | inr (inr e) ↦ rw (stop, e) inv
  ]

  interrupt-Inv : (w : Worker A) → Inv w → Inv (interrupt A w)
  unfolding interrupt
  interrupt-Inv w inv = by_place w.consumer refl
    where
      by_place : (c : Consuming) → w.consumer ≡ c → Inv (interrupt A w)
      by_place waiting e =
          rw (interrupt, e)
            (record {
              order = inv.order;
              awake = λ r. inv.awake (subst Rests (sym e) tt);
              flags = inv.flags;
              halted = λ r d. absurd r;
            })
      by_place testing e = rw (interrupt, e) inv
      by_place draining e = rw (interrupt, e) inv
      by_place taking e = rw (interrupt, e) inv
      by_place last_taking e = rw (interrupt, e) inv
      by_place ended e = rw (interrupt, e) inv

  take_item-Inv :
      (behind : Consuming) (w : Worker A)
      → (Waits behind → ⊥)
      → (Rests w.consumer → ⊥)
      → (Waits w.consumer → ⊥)
      → Inv w
      → Inv (take_item A behind w)
  unfolding take_item
  take_item-Inv behind w up here here' inv = elim (List-cases w.items) [
    | inl none_left ↦
        rw (take_item, none_left)
          (record {
            order = inv.order;
            awake = λ r. inl none_left;
            flags = inv.flags;
            halted = λ r d. absurd (up r);
          })
    | inr (item, (rest, some_left)) ↦
        rw (take_item, some_left)
          (record {
            order =
                inv.order
                ∙ ap (λ xs. w.handled ++ xs) some_left
                ∙ sym (append_assoc w.handled (item ∷ []) rest);
            awake = λ r. absurd (here r);
            flags = inv.flags;
            halted = λ r d. absurd (here' r);
          })
  ]

  pub consume-consume_at :
      (c : Consuming) (w : Worker A) → w.consumer ≡ c → act A consume w ≡ consume_at A c w
  unfolding act
  consume-consume_at c w e = ap (λ k. consume_at A k w) e

  pub consume-Inv : (w : Worker A) → Inv w → Inv (act A consume w)
  unfolding act consume_at
  consume-Inv w inv = by_place w.consumer refl
    where
      by_place : (c : Consuming) → w.consumer ≡ c → Inv (act A consume w)
      by_place testing e =
          subst Inv (sym (consume-consume_at testing w e)) (elim (Bool-cases w.running) [
            | inl on ↦ rw on (record {
              order = inv.order;
              awake = λ r. inv.awake (subst Rests (sym e) tt);
              flags = inr (let f : w.stopper ≡ not_yet = ground (arith, inv.flags) in f);
              halted = λ r d. absurd (let b : ⊥ = ground (arith, inv.flags) in b);
            })
            | inr off ↦ rw off (record {
              order = inv.order;
              awake = λ r. absurd r;
              flags = inl refl;
              halted = λ r d. absurd r;
            })
          ])
      by_place waiting e =
          subst Inv (sym (consume-consume_at waiting w e)) (elim (Bool-cases (ltb 0 w.counter)) [
            | inl up ↦ rw up (record {
              order = inv.order;
              awake = λ r. absurd r;
              flags = inv.flags;
              halted = λ r d. absurd r;
            })
            | inr down ↦ rw down inv
          ])
      by_place draining e =
          subst Inv (sym (consume-consume_at draining w e)) (elim (Bool-cases (ltb 0 w.counter)) [
            | inl up ↦ rw up (record {
              order = inv.order;
              awake = λ r. absurd (subst Rests e r);
              flags = inv.flags;
              halted = λ r d. absurd (subst Waits e r);
            })
            | inr down ↦ rw down (record {
              order = inv.order;
              awake = λ r. absurd r;
              flags = inv.flags;
              halted = λ r d. absurd r;
            })
          ])
      by_place taking e =
          subst Inv (sym (consume-consume_at taking w e))
            (take_item-Inv testing w (λ b. b) (λ r. subst Rests e r) (λ r. subst Waits e r) inv)
      by_place last_taking e =
          subst Inv (sym (consume-consume_at last_taking w e))
            (take_item-Inv ended w (λ b. b) (λ r. subst Rests e r) (λ r. subst Waits e r) inv)
      by_place ended e = subst Inv (sym (consume-consume_at ended w e)) inv

  pub acts-Inv : (more : List (Act A)) {w : Worker A} → Inv w → Inv (acts A more w)
  unfolding acts act
  acts-Inv [] inv = inv
  acts-Inv (put item ∷ more) {w} inv = acts-Inv more (enqueue_rx-Inv item w inv)
  acts-Inv (wake_up ∷ more) {w} inv = acts-Inv more (wake-Inv w inv)
  acts-Inv (stop_on ∷ more) {w} inv = acts-Inv more (stop-Inv w inv)
  acts-Inv (consume ∷ more) {w} inv = acts-Inv more (consume-Inv w inv)
  acts-Inv (signalled ∷ more) {w} inv = acts-Inv more (interrupt-Inv w inv)

  pub started-Inv : (capacity : ℕ) → Inv (started A capacity)
  unfolding started
  started-Inv capacity = record {
    order = refl;
    awake = λ r. inl refl;
    flags = inr refl;
    halted = λ r d. absurd r;
  }
