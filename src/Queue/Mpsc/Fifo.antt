-- ===== src/Queue/Mpsc/Fifo.antt =====
-- shared/algorithm/MpscQueue.h as a first-in first-out queue, in every order of the accesses.
use nf_engine.Prelude.{
  ℕ, leb→le, true, ◌+◌, ◌-◌, ◌%◌, ◌↔◌, ◌⊎◌, ◌∙◌, leb, if◌then◌else◌, ◌^◌, ◌≤◌, ◌<◌, ◌≡◌, refl, [],
  ◌∷◌, some, arith, length, take, map, length-append, Bool-cases, inl, inr, ◌==◌,
}
use nf_engine.Queue.Mpsc.{
  System, initial, Step, enter_step, load_tail_step, check_room_step, exchange_step, spurious_step,
  store_ptr_step, set_ready_step, scan_step, test_ready_step, read_ptr_step, clear_ptr_step,
  clear_ready_step, Reach, start, next, check_room, exchange, store_ptr, set_ready, test_ready,
  read_ptr, clear_ptr, clear_ready, idle, checked, loaded, held_at,
}
use mathlib.Core.Path.{subst}
use native.Mathlib.Decide.{dec_lt}
use nf_engine.Queue.Slots.{update_self}
use nf_engine.Queue.Mpsc.Inv.{IsConsistent}
use nf_engine.Queue.Mpsc.Inv.Produce.{at_point}
use nf_engine.Queue.Mpsc.Inv.Enqueue.{
  enter-IsConsistent, load_tail-IsConsistent, check_room-IsConsistent, exchange-IsConsistent,
  store_ptr-IsConsistent, set_ready-IsConsistent,
}
use nf_engine.Queue.Mpsc.Inv.Consume.{
  scan-IsConsistent, test_ready-IsConsistent, read_ptr-IsConsistent, clear_ptr-IsConsistent,
  clear_ready-IsConsistent,
}

-- The wrapped difference of two counters, compared with a capacity.
refused_lem :
    (c head t : ℕ)
    → head < 2 ^ 64
    → t < 2 ^ 64
    → (c ≤ (t + 2 ^ 64 - head) % 2 ^ 64) ↔ ((head + c ≤ t) ⊎ ((t < head) × (head + c ≤ t + 2 ^ 64)))
refused_lem c head t h k = (
  (λ far. elim (dec_lt t head) [
    | yes stale ↦ inr (stale, omega arith)
    | no now ↦ inl (omega arith)
  ]),
  (λ far. elim far [ inl full ↦ omega arith | inr (stale, near) ↦ omega arith ]),
)

module _ {ℓ} {A : Type ℓ} {c : ℕ} (positive : 0 < c) where
  initial-IsConsistent : IsConsistent c (initial A)
  unfolding initial
  initial-IsConsistent = record {
    head = refl;
    tail = refl;
    published = omega arith;
    order = omega arith;
    room = omega arith;
    given = refl;
    free = λ i lo hi. refl;
    held = λ i lo hi flag. absurd (omega arith);
    producers = λ k. tt;
    alone = λ j k t o o'. absurd o;
    consumer = (tt, refl);
  }

  -- No step takes a claim back.
  Step-claims : {s t : System A} → Step A c s t → length s.claims ≤ length t.claims
  unfolding check_room exchange store_ptr set_ready test_ready read_ptr clear_ptr clear_ready
  Step-claims (exchange_step s k item tail e) = elim (Bool-cases (s.queue.tail == tail)) [
    | inl won ↦ rw won (omega (arith, length-append s.claims (item ∷ [])))
    | inr lost ↦ rw lost (omega arith)
  ]
  Step-claims (test_ready_step s head e) = ground arith
  Step-claims (enter_step s k item e) = omega arith
  Step-claims (load_tail_step s k item e) = omega arith
  Step-claims (check_room_step s k item tail e) = omega arith
  Step-claims (spurious_step s k item tail e) = omega arith
  Step-claims (store_ptr_step s k item tail e) = omega arith
  Step-claims (set_ready_step s k item tail e) = omega arith
  Step-claims (scan_step s e) = omega arith
  Step-claims (read_ptr_step s head e) = omega arith
  Step-claims (clear_ptr_step s head item e) = omega arith
  Step-claims (clear_ready_step s head item e) = omega arith

  Step-IsConsistent :
      {s t : System A}
      → Step A c s t
      → length s.claims < 2 ^ 64
      → length t.claims < 2 ^ 64
      → IsConsistent c s
      → IsConsistent c t
  Step-IsConsistent (enter_step s k item e) m n inv = enter-IsConsistent inv k item
  Step-IsConsistent (load_tail_step s k item e) m n inv = load_tail-IsConsistent inv k item
  Step-IsConsistent (check_room_step s k item tail e) m n inv =
      check_room-IsConsistent inv k item tail m e
  Step-IsConsistent (exchange_step s k item tail e) m n inv =
      exchange-IsConsistent inv k item tail n e
  Step-IsConsistent (spurious_step s k item tail e) m n inv = enter-IsConsistent inv k item
  Step-IsConsistent (store_ptr_step s k item tail e) m n inv =
      store_ptr-IsConsistent inv k item tail e
  Step-IsConsistent (set_ready_step s k item tail e) m n inv =
      set_ready-IsConsistent inv k item tail e
  Step-IsConsistent (scan_step s e) m n inv = scan-IsConsistent inv positive e
  Step-IsConsistent (test_ready_step s head e) m n inv = test_ready-IsConsistent inv positive head e
  Step-IsConsistent (read_ptr_step s head e) m n inv = read_ptr-IsConsistent inv positive head e
  Step-IsConsistent (clear_ptr_step s head item e) m n inv =
      clear_ptr-IsConsistent inv positive head item e
  Step-IsConsistent (clear_ready_step s head item e) m n inv =
      clear_ready-IsConsistent inv positive head item m e

  Reach-IsConsistent : {s : System A} → Reach A c s → length s.claims < 2 ^ 64 → IsConsistent c s
  Reach-IsConsistent start m = initial-IsConsistent
  Reach-IsConsistent (next {s} {t} r st) m =
      let before : length s.claims < 2 ^ 64 = omega (arith, Step-claims st, m) in
      Step-IsConsistent st before m (Reach-IsConsistent r before)

  -- In every state that some order of the threads' accesses leads to, with fewer than 2 ^ 64 slots
  -- claimed so far, what `dequeueAll` has given over all its calls is exactly the items whose slots
  -- were claimed, from the first on and in the order of the claims, none twice and none lost, and
  -- those still inside are no more than the capacity.
  pub mpsc_fifo :
      {s : System A}
      → Reach A c s
      → length s.claims < 2 ^ 64
      → (s.returned ≡ map some (take (length s.returned) s.claims))
        × (length s.returned ≤ length s.claims)
        × (length s.claims ≤ length s.returned + c)
  mpsc_fifo r small =
      let inv = Reach-IsConsistent r small in
      (inv.given, inv.order, omega (arith, inv.room, inv.published))

  -- In every such state, a thread that has read the tail `t` is refused exactly when `t` is a
  -- capacity ahead of the head, so that the queue is full, or when the head has passed `t` meanwhile
  -- by no more than 2 ^ 64 less the capacity, so that the queue may have room or even be empty.
  pub mpsc_refuses :
      {s : System A} {k : ℕ} {item : A} {t : ℕ}
      → Reach A c s
      → length s.claims < 2 ^ 64
      → s.producers k ≡ loaded item t
      → ((check_room A c k item t s).producers k ≡ idle)
        ↔ ((s.published + c ≤ t) ⊎ ((t < s.published) × (s.published + c ≤ t + 2 ^ 64)))
  unfolding check_room
  mpsc_refuses {s} {k} {item} {t} r small e = (
    (λ refused. law.0 (leb→le c (held_at A t s.queue.head) (full refused))),
    (λ far. at_k ∙ ground (arith, law.1 far)),
  )
    where
      inv : IsConsistent c s
      inv = Reach-IsConsistent r small

      law :
          (c ≤ held_at A t s.queue.head)
          ↔ ((s.published + c ≤ t) ⊎ ((t < s.published) × (s.published + c ≤ t + 2 ^ 64)))
      law =
          subst
            (λ n. (c ≤ held_at A t s.queue.head) ↔ ((n + c ≤ t) ⊎ ((t < n) × (n + c ≤ t + 2 ^ 64))))
            inv.head
            (refused_lem c s.queue.head t (omega (arith, inv.head, inv.published, inv.order, small))
              (omega (arith, (at_point inv k e).1, small)))

      at_k :
          (check_room A c k item t s).producers k
          ≡ (if leb c (held_at A t s.queue.head) then idle else checked item t)
      at_k = update_self s.producers k _

      full :
          (check_room A c k item t s).producers k ≡ idle → leb c (held_at A t s.queue.head) ≡ true
      full refused = ground (arith, at_k)
