-- ===== src/Server/Wakeup.antt =====
-- How a reactor wakes a worker: enqueueRx, stop and the loop of processPacket in
-- serverd/protocol/tcp/TcpWorker.cpp (TlsWorker, UdpWorker and IpcWorker have the same loop), with the
-- eventfd of shared/io/Epoll.cpp. A call of the queue is one step here (Queue.Spsc has its accesses), a
-- read or write of the eventfd one, and a test of m_running one; they come in any order.
pub mod Inv
pub mod Stopped
pub mod Serves
use nf_engine.Prelude.{
  ℕ, zero, suc, ◌+◌, ◌-◌, ◌^◌, ◌≡◌, refl, List, [], ◌∷◌, ◌++◌, Bool, true, false, arith, length,
  ltb, leb, ◌==◌, if◌then◌else◌,
}

-- Where the reactor is in `enqueueRx`: not in it, or about to write to the eventfd.
pub data Producing : Type 0 where
  idle enqueued : Producing

-- Where the thread that stops the worker is.
pub data Stopping : Type 0 where
  not_yet flagged stop_done : Stopping

-- Where the worker is in `processPacket`: before the test of m_running, in the wait, in drainWakeup,
-- in the loop that dequeues, in the loop behind it, or at its end.
pub data Consuming : Type 0 where
  testing waiting draining taking last_taking ended : Consuming

-- A write to the eventfd fails when the counter is at its greatest.
unfoldable pub wakeup : ℕ → ℕ
wakeup counter = if counter == 2 ^ 64 - 2 then counter else suc counter

module _ (A : Type 0) where
  pub record Worker : Type 0 where
    pub capacity : ℕ
    pub items : List A
    pub counter : ℕ
    pub running : Bool
    pub producer : Producing
    pub stopper : Stopping
    pub consumer : Consuming
    pub accepted : List A
    pub handled : List A

  -- The call of the queue in `enqueueRx`, which drops what the queue refuses.
  unfoldable pub enqueue_rx : A → Worker → Worker
  enqueue_rx item w = elim w.producer [
    | idle ↦ if leb w.capacity (length w.items) then w else record w {
      items = w.items ++ item ∷ [];
      accepted = w.accepted ++ item ∷ [];
      producer = enqueued;
    }
    | enqueued ↦ w
  ]

  -- The wakeup in `enqueueRx`.
  unfoldable pub wake : Worker → Worker
  unfolding wakeup
  wake w = elim w.producer [
    | idle ↦ w
    | enqueued ↦ record w { counter = wakeup w.counter; producer = idle }
  ]

  -- The two statements of `stop`.
  unfoldable pub stop : Worker → Worker
  unfolding wakeup
  stop w = elim w.stopper [
    | not_yet ↦ record w { running = false; stopper = flagged }
    | flagged ↦ record w { counter = wakeup w.counter; stopper = stop_done }
    | stop_done ↦ w
  ]

  unfoldable pub take_item : Consuming → Worker → Worker
  take_item behind w = elim w.items [
    | [] ↦ record w { consumer = behind }
    | item ∷ rest ↦ record w { items = rest; handled = w.handled ++ item ∷ [] }
  ]

  -- The next step of `processPacket`. A wait ends when the eventfd can be read; a read sets its counter
  -- to 0, and fails at 0.
  unfoldable pub consume_at : Consuming → Worker → Worker
  unfolding take_item
  consume_at testing w =
      if w.running then record w { consumer = waiting } else record w { consumer = last_taking }
  consume_at waiting w = if ltb 0 w.counter then record w { consumer = draining } else w
  consume_at draining w =
      if ltb 0 w.counter then record w { counter = 0 } else record w { consumer = taking }
  consume_at taking w = take_item testing w
  consume_at last_taking w = take_item ended w
  consume_at ended w = w

  -- A signal ends the wait, which returns -1.
  unfoldable pub interrupt : Worker → Worker
  interrupt w = elim w.consumer [
    | waiting ↦ record w { consumer = testing }
    | testing ↦ w
    | draining ↦ w
    | taking ↦ w
    | last_taking ↦ w
    | ended ↦ w
  ]

  pub data Act : Type 0 where
    put : A → Act
    wake_up stop_on consume signalled : Act

  unfoldable pub act : Act → Worker → Worker
  unfolding enqueue_rx wake stop consume_at interrupt
  act (put item) w = enqueue_rx item w
  act wake_up w = wake w
  act stop_on w = stop w
  act consume w = consume_at w.consumer w
  act signalled w = interrupt w

  unfoldable pub acts : List Act → Worker → Worker
  unfolding act
  acts [] w = w
  acts (a ∷ more) w = acts more (act a w)

  -- The worker after `start`.
  unfoldable pub started : ℕ → Worker
  started capacity = record {
    capacity = capacity;
    items = [];
    counter = 0;
    running = true;
    producer = idle;
    stopper = not_yet;
    consumer = testing;
    accepted = [];
    handled = [];
  }

  -- The worker runs alone for some steps.
  unfoldable pub alone : ℕ → Worker → Worker
  unfolding act
  alone zero w = w
  alone (suc n) w = alone n (act consume w)
