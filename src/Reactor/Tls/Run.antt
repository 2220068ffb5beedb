-- ===== src/Reactor/Tls/Run.antt =====
-- The event loop of TlsReactor::start, one event at a time.
pub mod Laws
use nf_engine.Prelude.{ℕ, List, [], ◌∷◌, ◌++◌, Bool}
use nf_engine.Packet.{Packet}
use nf_engine.Reactor.Tls.{
  TlsReactor, Handled, HandoverItem, Ssl, close_connection, on_readable, on_writable,
  process_wakeup,
}

-- What epoll reports, with the answers of OpenSSL that the handler meets. An event with both
-- EPOLLIN and EPOLLOUT is a `readable` followed by a `writable`.
pub data Event : Type 0 where
  woken : List (HandoverItem × Bool) → List Packet → (ℕ → Ssl) → Event
  hung_up : ℕ → Event
  readable writable : ℕ → Ssl → Event

unfoldable pub handle : TlsReactor → Event → Handled
unfolding process_wakeup close_connection on_readable on_writable
handle s (woken items packets answers) = process_wakeup s items packets answers
handle s (hung_up fd) = close_connection s fd
handle s (readable fd ssl) = on_readable s fd ssl
handle s (writable fd ssl) = on_writable s fd ssl

unfoldable pub run : TlsReactor → List Event → Handled
unfolding handle
run s [] = (s, [])
run s (e ∷ more) =
    let (s', calls) = handle s e in let (s'', calls') = run s' more in (s'', calls ++ calls')
