-- ===== src/Tests/Queues.antt =====
-- The queues at concrete inputs.
use nf_engine.Prelude.{
  ℕ, ◌+◌, ◌≤◌, ◌≡◌, ◌≢◌, ◌↔◌, ◌⊎◌, ◌^◌, refl, List, [], ◌∷◌, ◌++◌, map, true, false, some, arith,
  length, take,
}
use native.Mathlib.Decide.{ℕ_discrete}
use nf_engine.Queue.Slots.{IsCapacity}
use nf_engine.Queue.Spsc.{
  System, idle, initial, check_room, write_slot, publish_tail, check_item, read_slot, clear_slot,
  publish_head, empty, Reach, start, next, check_room_step, write_slot_step, publish_tail_step,
  check_item_step, read_slot_step, clear_slot_step, publish_head_step,
}
use nf_engine.Queue.Spsc.Fifo.{spsc_fifo}
use nf_engine.Queue.Lock.{Call, put, take_all, calls, created, enqueue}
use nf_engine.Queue.Lock.Fifo.{lock_fifo}

two_slots : IsCapacity 2
two_slots = record {
  positive = omega arith;
  times = 2 ^ 63;
  divides = omega arith;
  small = omega arith;
}

-- An item goes in while `dequeue` has found the one before it and not yet taken it.
abbrev enqueued : ℕ → System ℕ → System ℕ
enqueued item s = publish_tail ℕ item (write_slot ℕ 2 item (check_room ℕ 2 item s))

abbrev overlapped : System ℕ
overlapped =
    publish_head ℕ (some 7)
      (clear_slot ℕ 2 (some 7) (read_slot ℕ 2 (enqueued 8 (check_item ℕ (enqueued 7 (initial ℕ))))))

overlapped-Reach : Reach ℕ 2 overlapped
unfolding initial check_room write_slot publish_tail check_item read_slot clear_slot publish_head
    ℕ_discrete
overlapped-Reach =
    next
      (next
        (next
          (next
            (next
              (next
                (next
                  (next (next (next start (check_room_step _ 7 refl)) (write_slot_step _ 7 refl))
                    (publish_tail_step _ 7 refl))
                  (check_item_step _ refl))
                (check_room_step _ 8 refl))
              (write_slot_step _ 8 refl))
            (publish_tail_step _ 8 refl))
          (read_slot_step _ refl))
        (clear_slot_step _ (some 7) refl))
      (publish_head_step _ (some 7) refl)

spsc_fifo_example :
    (overlapped.returned ≡ map some (take (length overlapped.returned) overlapped.accepted))
    × (length overlapped.returned ≤ length overlapped.accepted)
    × (length overlapped.accepted ≤ length overlapped.returned + 2)
    × (((check_room ℕ 2 9 overlapped).producer ≡ idle)
        ↔ (length overlapped.accepted ≡ length overlapped.returned + 2))
    × ((empty ℕ overlapped.queue ≡ true) ↔ (overlapped.returned ≡ map some overlapped.accepted))
spsc_fifo_example = spsc_fifo two_slots overlapped-Reach 9

-- The third item finds the queue full.
abbrev some_calls : List (Call ℕ)
some_calls = put 5 ∷ take_all ∷ put 6 ∷ put 7 ∷ put 8 ∷ []

lock_fifo_example :
    (let t = calls ℕ some_calls (created ℕ 2) in
      (t.accepted ≡ t.returned ++ t.queue.items)
      × ((◌≡◌ {A = ℕ} 2 0) ⊎ (length t.queue.items ≤ 2))
      × (((enqueue ℕ 9 t.queue).0 ≡ false) ↔ ((◌≢◌ {A = ℕ} 2 0) × (length t.queue.items ≡ 2))))
lock_fifo_example = lock_fifo 2 some_calls 9
