-- ===== src/Reactor/Tcp/Run.antt =====
-- The event loop of TcpReactor::start, one event at a time.
pub mod Laws
use nf_engine.Prelude.{ℕ, List, [], ◌∷◌, ◌++◌, Bool}
use nf_engine.Packet.{Addr, Packet}
use nf_engine.Reactor.Receive.{Recv}
use nf_engine.Reactor.Transmit.{Send}
use nf_engine.Reactor.Tcp.{
  TcpReactor, Handled, accept_connection, close_connection, receive, flush_tx_buffer,
  process_tx_queue,
}

-- What epoll reports, with the answers of the kernel that the handler meets. An event with both
-- EPOLLIN and EPOLLOUT is a `readable` followed by a `writable`.
pub data Event : Type 0 where
  accepted : List (ℕ × Addr) → Event
  hung_up : ℕ → Event
  readable : ℕ → Bool → List Recv → Event
  writable : ℕ → List Send → Event
  woken : List Packet → (ℕ → List Send) → Event

unfoldable pub handle : TcpReactor → Event → Handled
handle s (accepted peers) = accept_connection s peers
handle s (hung_up fd) = close_connection s fd
handle s (readable fd hello events) = receive s fd hello events
handle s (writable fd events) = flush_tx_buffer s fd events
handle s (woken packets answers) = process_tx_queue s packets answers

unfoldable pub run : TcpReactor → List Event → Handled
run s [] = (s, [])
run s (e ∷ more) =
    let (s', calls) = handle s e in let (s'', calls') = run s' more in (s'', calls ++ calls')
