-- ===== src/Reactor/Ipc.antt =====
-- serverd/ipc/IpcReactor.cpp: the control socket. The loops on one connection are those of
-- Reactor.Receive and Reactor.Transmit; here are the table of connections, the choice of a worker in
-- turn, and the close after the last byte of a reply.
pub mod Laws
pub mod Run
use nf_engine.Prelude.{
  ℕ, ◌+◌, ◌%◌, ◌^◌, List, [], ◌∷◌, ◌++◌, Bool, true, false, Option, none, some, ◌==◌, if◌then◌else◌,
}
use nf_engine.Prelude.Assoc.{lookup, emplace, assign, erase}
use nf_engine.Ring.{Ring, init, readable}
use nf_engine.Ipc.{IpcMessage, message}
use nf_engine.Framing.Ipc.{try_extract_frame}
use nf_engine.Reactor.Receive.{Recv, Ending, waiting, closed, unanswered, out_of_fuel, receive_loop}
use nf_engine.Reactor.Transmit.{Send, Flushed, emptied, blocked, failed, flush_loop, fill}

-- IPC_MAX_RX_BUFFER_SIZE and IPC_MAX_TX_BUFFER_SIZE.
abbrev pub ring_size : ℕ
ring_size = 65536

pub record Conn : Type 0 where
  pub rx : Ring
  pub tx : Ring

-- `workers` is the number of IpcWorkers, and `rr` counts the messages.
pub record IpcReactor : Type 0 where
  pub workers : ℕ
  pub rr : ℕ
  pub conns : List (ℕ × Conn)

pub data Call : Type 0 where
  epoll_add epoll_del close_fd mod_rx_tx : ℕ → Call
  enqueue_rx : ℕ → IpcMessage → Call
  send : ℕ → List ℕ → Call

abbrev pub Handled : Type 0
Handled = IpcReactor × List Call

-- `accept` answers with these descriptors, and then with an error.
unfoldable pub accept_connection : IpcReactor → List ℕ → Handled
unfolding emplace init
accept_connection s [] = (s, [])
accept_connection s (fd ∷ more) =
    let conn : Conn = record { rx = init ring_size; tx = init ring_size } in
    let (s', calls) = accept_connection (record s { conns = emplace fd conn s.conns }) more in
    (s', epoll_add fd ∷ calls)

unfoldable pub close_connection : IpcReactor → ℕ → Handled
unfolding erase
close_connection s fd = (record s { conns = erase fd s.conns }, epoll_del fd ∷ close_fd fd ∷ [])

-- The frames become messages for the workers in turn; `none` is the exception of a message's
-- constructor.
unfoldable pub post : IpcReactor → ℕ → List (List ℕ) → Option Handled
unfolding message
post s fd [] = some (s, [])
post s fd (frame ∷ more) =
    let rest = post (record s { rr = (s.rr + 1) % 2 ^ 64 }) fd more in
    elim (message fd frame) [
      | none ↦ none
      | some m ↦ elim rest [
        | none ↦ none
        | some (s', calls) ↦ some (s', enqueue_rx (s.rr % s.workers) m ∷ calls)
      ]
    ]

-- How `receive` leaves the connection.
unfoldable pub finish : IpcReactor → ℕ → Conn → Ending → Handled
unfolding assign close_connection
finish s fd conn (waiting r) = (record s { conns = assign fd (record conn { rx = r }) s.conns }, [])
finish s fd conn (closed why) = close_connection s fd
finish s fd conn unanswered = (s, [])
finish s fd conn out_of_fuel = (s, [])

unfoldable pub receive : IpcReactor → ℕ → List Recv → Option Handled
unfolding lookup post finish receive_loop
receive s fd events = elim (lookup fd s.conns) [
  | none ↦ some (s, [])
  | some conn ↦
      let (frames, e) = receive_loop try_extract_frame events conn.rx in
      elim (post s fd frames) [
        | none ↦ none
        | some (s', calls) ↦ let (s'', calls') = finish s' fd conn e in some (s'', calls ++ calls')
      ]
]

-- The connection is closed when all is sent.
unfoldable pub flushed : IpcReactor → ℕ → Conn → List ℕ × Flushed → Handled
unfolding assign close_connection
flushed s fd conn (out, emptied r) =
    let (s', calls) = close_connection s fd in (s', send fd out ∷ calls)
flushed s fd conn (out, blocked r) = (
  record s { conns = assign fd (record conn { tx = r }) s.conns },
  send fd out ∷ mod_rx_tx fd ∷ [],
)
flushed s fd conn (out, failed) =
    let (s', calls) = close_connection s fd in (s', send fd out ∷ calls)
flushed s fd conn (out, Flushed.unanswered) = (s, send fd out ∷ [])

unfoldable pub flush_tx_buffer : IpcReactor → ℕ → List Send → Handled
unfolding lookup flushed readable flush_loop
flush_tx_buffer s fd events = elim (lookup fd s.conns) [
  | none ↦ (s, [])
  | some conn ↦
      if readable conn.tx == 0 then (s, []) else flushed s fd conn (flush_loop events conn.tx)
]

-- One message of the loop of `processTxQueue`; the Boolean says that its descriptor is dirty now.
unfoldable pub process_message : IpcReactor → IpcMessage → IpcReactor × Bool
unfolding lookup assign fill
process_message s m = elim (lookup m.fd s.conns) [
  | none ↦ (s, false)
  | some conn ↦ elim (fill conn.tx m.payload) [
    | none ↦ (s, false)
    | some (tx, went_in) ↦
        (record s { conns = assign m.fd (record conn { tx = tx }) s.conns }, went_in)
  ]
]
