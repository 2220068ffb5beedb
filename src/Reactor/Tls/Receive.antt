-- ===== src/Reactor/Tls/Receive.antt =====
-- The loop of TlsReactor::receive on one connection. What `SSL_read` and `SSL_get_error` answer is a
-- list of events, one for each call.
pub mod Laws
use nf_engine.Prelude.{ℕ, List, [], ◌∷◌, ◌++◌, true, false, length, ◌==◌, if◌then◌else◌}
use nf_engine.Ring.{Ring, write_len, produce, store}
use nf_engine.Framing.Tls.{try_extract_frame}
use nf_engine.Reactor.Receive.{Reason, rx_full, recv_failed, idle, broken, stuck, drain_all}

-- What `SSL_get_error` says of a call that did nothing.
pub data SslError : Type 0 where
  want_read want_write other : SslError

pub data SslRead : Type 0 where
  bytes : List ℕ → SslRead
  error : SslError → SslRead

-- How a call of `receive` ends: it returns, it asks epoll for EPOLLOUT and returns, or it has
-- closed the connection.
pub data Ending : Type 0 where
  waiting writing : Ring → Ending
  closed : Reason → Ending
  unanswered : Ending
  out_of_fuel : Ending

abbrev pub after : List (List ℕ) → List (List ℕ) × Ending → List (List ℕ) × Ending
after frames (more, e) = (frames ++ more, e)

unfoldable pub stop : SslError → Ring → Ending
stop want_read r = waiting r
stop want_write r = writing r
stop other r = closed recv_failed

-- The inner loop is that of TcpReactor::receive.
unfoldable pub receive_loop : List SslRead → Ring → List (List ℕ) × Ending
unfolding stop
receive_loop [] r = if write_len r == 0 then ([], closed rx_full) else ([], unanswered)
receive_loop (bytes xs ∷ events) r = elim (write_len r == 0) [
  | true ↦ ([], closed rx_full)
  | false ↦ elim (drain_all try_extract_frame (produce (store r xs) (length xs))) [
    | idle frames r' ↦ after frames (receive_loop events r')
    | broken frames why ↦ (frames, closed why)
    | stuck ↦ ([], out_of_fuel)
  ]
]
receive_loop (error e ∷ events) r =
    if write_len r == 0 then ([], closed rx_full) else ([], stop e r)
