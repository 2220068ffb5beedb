-- ===== src/Tests/Claims.antt =====
-- The queue of several producers at concrete inputs.
use nf_engine.Prelude.{ℕ, ◌+◌, ◌^◌, ◌≤◌, ◌<◌, ◌≡◌, ◌↔◌, ◌⊎◌, refl, map, some, arith, length, take}
use native.Mathlib.Decide.{ℕ_discrete}
use nf_engine.Queue.Mpsc.{
  System, idle, trying, loaded, scanning, initial, go, check_room, exchange, store_ptr, set_ready,
  test_ready, read_ptr, clear_ptr, clear_ready, Reach, start, next, enter_step, load_tail_step,
  check_room_step, exchange_step, store_ptr_step, set_ready_step, scan_step, test_ready_step,
  read_ptr_step, clear_ptr_step, clear_ready_step,
}
use nf_engine.Queue.Mpsc.Fifo.{mpsc_fifo, mpsc_refuses}

-- Thread 0 enqueues 7; thread 1 reads the tail before that.
abbrev entered : System ℕ
entered =
    go ℕ 0 (loaded 7 0) (go ℕ 0 (trying 7) (go ℕ 1 (loaded 8 0) (go ℕ 1 (trying 8) (initial ℕ))))

abbrev enqueued : System ℕ
enqueued = set_ready ℕ 2 0 0 (store_ptr ℕ 2 0 7 0 (exchange ℕ 0 7 0 (check_room ℕ 2 0 7 0 entered)))

abbrev dequeued : System ℕ
dequeued = test_ready ℕ 2 1 (
    clear_ready ℕ 2 0 (some 7) (
      clear_ptr ℕ 2 0 (some 7)
        (read_ptr ℕ 2 0 (test_ready ℕ 2 0 (record enqueued { consumer = scanning 0 })))))

enqueued-Reach : Reach ℕ 2 enqueued
unfolding initial check_room exchange store_ptr set_ready ℕ_discrete
enqueued-Reach =
    next
      (next
        (next
          (next
            (next
              (next (next (next start (enter_step _ 1 8 refl)) (load_tail_step _ 1 8 refl))
                (enter_step _ 0 7 refl))
              (load_tail_step _ 0 7 refl))
            (check_room_step _ 0 7 0 refl))
          (exchange_step _ 0 7 0 refl))
        (store_ptr_step _ 0 7 0 refl))
      (set_ready_step _ 0 7 0 refl)

dequeued-Reach : Reach ℕ 2 dequeued
unfolding initial check_room exchange store_ptr set_ready test_ready read_ptr clear_ptr clear_ready
    ℕ_discrete
dequeued-Reach =
    next
      (next
        (next
          (next (next (next enqueued-Reach (scan_step _ refl)) (test_ready_step _ 0 refl))
            (read_ptr_step _ 0 refl))
          (clear_ptr_step _ 0 (some 7) refl))
        (clear_ready_step _ 0 (some 7) refl))
      (test_ready_step _ 1 refl)

mpsc_fifo_example :
    (dequeued.returned ≡ map some (take (length dequeued.returned) dequeued.claims))
    × (length dequeued.returned ≤ length dequeued.claims)
    × (length dequeued.claims ≤ length dequeued.returned + 2)
unfolding initial check_room exchange store_ptr set_ready test_ready read_ptr clear_ptr clear_ready
    ℕ_discrete
mpsc_fifo_example = mpsc_fifo (omega arith) dequeued-Reach (omega arith)

-- The queue is empty again, and thread 1 is refused with the tail that it read.
mpsc_refuses_example : ((check_room ℕ 2 1 8 0 dequeued).producers 1 ≡ idle) ↔ (
    (dequeued.published + 2 ≤ 0)
    ⊎ ((0 < dequeued.published) × (dequeued.published + 2 ≤ 0 + 2 ^ 64)))
unfolding initial check_room exchange store_ptr set_ready test_ready read_ptr clear_ptr clear_ready
    ℕ_discrete
mpsc_refuses_example =
    mpsc_refuses (omega arith) {k = 1} {item = 8} dequeued-Reach (omega arith) refl
