-- ===== src/Tests/Workers.antt =====
-- The wakeup of a worker at a concrete input.
use nf_engine.Prelude.{ℕ, ◌≡◌, ◌≢◌, ◌⊎◌, ◌≤◌, length, List, [], ◌∷◌, ◌++◌, true, false}
use nf_engine.Server.Wakeup.{
  enqueue_rx, enqueued, not_yet, ended, stop_done, Worker, Act, put, wake_up, stop_on, consume,
  signalled, acts, started, alone,
}
use nf_engine.Server.Wakeup.Stopped.{left_loop}
use nf_engine.Server.Wakeup.Serves.{worker_serves}

-- The worker waits, two packets come, a signal ends the wait, and the worker is stopped.
abbrev some_acts : List (Act ℕ)
some_acts =
    consume ∷ put 7 ∷ wake_up ∷ signalled ∷ put 8 ∷ stop_on ∷ consume ∷ wake_up ∷ stop_on ∷ []

abbrev woken : Worker ℕ
woken = acts ℕ some_acts (started ℕ 2)

worker_serves_example :
    (woken.accepted ≡ woken.handled ++ woken.items)
    × ((woken.producer ≡ enqueued)
        ⊎ ((woken.capacity ≤ length woken.items)
            ⊎ ((enqueue_rx ℕ 9 woken).accepted ≡ woken.accepted ++ 9 ∷ [])))
    × ((woken.stopper ≢ not_yet) ⊎ ((woken.running ≡ true) × (left_loop woken.consumer ≡ false)))
    × ((woken.producer ≡ enqueued)
        ⊎ ((woken.consumer ≡ ended)
            ⊎ ((n : ℕ) × (((alone ℕ n woken).handled ≡ woken.accepted)
                  × (((alone ℕ n woken).consumer ≡ ended) ⊎ (woken.stopper ≢ stop_done))))))
worker_serves_example = worker_serves 2 some_acts 9
