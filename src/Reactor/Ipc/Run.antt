-- ===== src/Reactor/Ipc/Run.antt =====
-- processTxQueue and the event loop of serverd/ipc/IpcReactor.cpp, one event at a time.
pub mod Inv
pub mod Total
use nf_engine.Prelude.{ℕ, List, [], ◌∷◌, ◌++◌, Option, none, some, if◌then◌else◌}
use nf_engine.Ipc.{IpcMessage}
use nf_engine.Reactor.Tcp.{insert}
use nf_engine.Reactor.Receive.{Recv}
use nf_engine.Reactor.Transmit.{Send}
use nf_engine.Reactor.Ipc.{
  IpcReactor, Handled, accept_connection, close_connection, receive, flush_tx_buffer,
  process_message,
}

unfoldable pub process_messages : IpcReactor → List IpcMessage → List ℕ → IpcReactor × List ℕ
unfolding process_message insert
process_messages s [] dirty = (s, dirty)
process_messages s (m ∷ more) dirty =
    let (s', went_in) = process_message s m in
    process_messages s' more (if went_in then insert m.fd dirty else dirty)

-- The answers of `send` are given for each descriptor.
unfoldable pub flush_dirty : IpcReactor → List ℕ → (ℕ → List Send) → Handled
unfolding flush_tx_buffer
flush_dirty s [] answers = (s, [])
flush_dirty s (fd ∷ more) answers =
    let (s', calls) = flush_tx_buffer s fd (answers fd) in
    let (s'', calls') = flush_dirty s' more answers in (s'', calls ++ calls')

-- The messages are those that `dequeueAll` took off the queue.
unfoldable pub process_tx_queue : IpcReactor → List IpcMessage → (ℕ → List Send) → Handled
unfolding process_messages flush_dirty
process_tx_queue s messages answers =
    let (s', dirty) = process_messages s messages [] in flush_dirty s' dirty answers

-- What epoll reports, with the answers of the kernel that the handler meets. An event with both
-- EPOLLIN and EPOLLOUT is a `readable` followed by a `writable`.
pub data Event : Type 0 where
  woken : List IpcMessage → (ℕ → List Send) → Event
  accepted : List ℕ → Event
  hung_up : ℕ → Event
  readable : ℕ → List Recv → Event
  writable : ℕ → List Send → Event

-- `none` is an exception, which ends the thread.
unfoldable pub handle : IpcReactor → Event → Option Handled
unfolding process_tx_queue accept_connection close_connection receive flush_tx_buffer
handle s (woken messages answers) = some (process_tx_queue s messages answers)
handle s (accepted fds) = some (accept_connection s fds)
handle s (hung_up fd) = some (close_connection s fd)
handle s (readable fd events) = receive s fd events
handle s (writable fd events) = some (flush_tx_buffer s fd events)

unfoldable pub run : IpcReactor → List Event → Option Handled
unfolding handle
run s [] = some (s, [])
run s (e ∷ more) = elim (handle s e) [
  | none ↦ none
  | some (s', calls) ↦ elim (run s' more) [
    | none ↦ none
    | some (s'', calls') ↦ some (s'', calls ++ calls')
  ]
]
