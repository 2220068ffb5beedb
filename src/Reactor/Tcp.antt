-- ===== src/Reactor/Tcp.antt =====
-- serverd/protocol/tcp/TcpReactor.cpp with TcpConnection.h: the handlers that the event loop calls.
-- What the kernel answers (`accept`, `recv`, `send`) is an argument, and the calls that a handler
-- makes on epoll, the sockets, the workers and the TLS server are listed in order.
pub mod Inv
pub mod Run
pub mod Isolated
use nf_engine.Prelude.{
  ℕ, ◌%◌, ◌<◌, List, [], ◌∷◌, ◌++◌, map, Bool, true, false, ◌&&◌, Option, none, some, length, ltb,
  ◌==◌, if◌then◌else◌,
}
use nf_engine.Prelude.Assoc.{lookup, emplace, assign, erase}
use nf_engine.Ring.{Ring, init, readable}
use nf_engine.Packet.{Addr, Packet, packet, tcp}
use nf_engine.Framing.Tcp.{try_extract_frame}
use nf_engine.Reactor.Receive.{Recv, Ending, waiting, closed, unanswered, out_of_fuel, receive_loop}
use nf_engine.Reactor.Transmit.{Send, Flushed, emptied, blocked, failed, flush_loop, fill}

-- TCP_MAX_RX_BUFFER_SIZE and TCP_MAX_TX_BUFFER_SIZE.
abbrev pub ring_size : ℕ
ring_size = 65536

-- TcpConnection
pub record Conn : Type 0 where
  pub peer : Addr
  pub rx : Ring
  pub tx : Ring

-- TcpReactor: `workers` is the number of TcpWorkers, `has_tls` says that there is a TLS server.
pub record TcpReactor : Type 0 where
  pub server_addr : Addr
  pub workers : ℕ
  pub has_tls : Bool
  pub conns : List (ℕ × Conn)

pub data Call : Type 0 where
  epoll_add epoll_del close_fd : ℕ → Call
  mod_rx mod_rx_tx : ℕ → Call
  enqueue_rx : ℕ → Packet → Call
  handle_tls : ℕ → Addr → Addr → Call
  send : ℕ → List ℕ → Call

-- The state after a handler, and what it called.
abbrev pub Handled : Type 0
Handled = TcpReactor × List Call

-- One connection of the loop of `acceptConnection`.
unfoldable pub accept_one : TcpReactor → ℕ → Addr → Handled
accept_one s fd peer = (record s { conns = emplace fd conn s.conns }, epoll_add fd ∷ [])
  where
    conn : Conn
    conn = record { peer = peer; rx = init ring_size; tx = init ring_size }

-- `accept` answers with these connections, and then with an error.
unfoldable pub accept_connection : TcpReactor → List (ℕ × Addr) → Handled
accept_connection s [] = (s, [])
accept_connection s ((fd, peer) ∷ more) =
    let (s', calls) = accept_one s fd peer in
    let (s'', calls') = accept_connection s' more in (s'', calls ++ calls')

unfoldable pub close_connection : TcpReactor → ℕ → Handled
close_connection s fd = (record s { conns = erase fd s.conns }, epoll_del fd ∷ close_fd fd ∷ [])

unfoldable pub handover_to_tls : TcpReactor → ℕ → Handled
unfolding close_connection
handover_to_tls s fd = elim (lookup fd s.conns) [
  | none ↦ close_connection s fd
  | some conn ↦ (
    record s { conns = erase fd s.conns },
    epoll_del fd ∷ handle_tls fd s.server_addr conn.peer ∷ [],
  )
]

-- A frame becomes a packet for the worker that the descriptor selects.
unfoldable pub to_worker : TcpReactor → ℕ → Conn → List ℕ → Call
to_worker s fd conn payload =
    enqueue_rx (fd % s.workers) (packet fd tcp payload conn.peer s.server_addr)

-- The end of `receive`: the frames have gone to the workers.
unfoldable pub received : TcpReactor → ℕ → Conn → List (List ℕ) × Ending → Handled
unfolding close_connection to_worker
received s fd conn (frames, waiting r) = (
  record s { conns = assign fd (record conn { rx = r }) s.conns },
  map (to_worker s fd conn) frames,
)
received s fd conn (frames, closed why) =
    let (s', calls) = close_connection s fd in (s', map (to_worker s fd conn) frames ++ calls)
received s fd conn (frames, unanswered) = (s, map (to_worker s fd conn) frames)
received s fd conn (frames, out_of_fuel) = (s, map (to_worker s fd conn) frames)

-- `receive`; `hello` is the answer of `isTlsClientHello`, which peeks at the socket.
unfoldable pub receive : TcpReactor → ℕ → Bool → List Recv → Handled
unfolding handover_to_tls received
receive s fd hello events =
    if s.has_tls && hello then handover_to_tls s fd else elim (lookup fd s.conns) [
      | none ↦ (s, [])
      | some conn ↦ received s fd conn (receive_loop try_extract_frame events conn.rx)
    ]

unfoldable pub flushed : TcpReactor → ℕ → Conn → List ℕ × Flushed → Handled
unfolding close_connection
flushed s fd conn (out, emptied r) =
    (record s { conns = assign fd (record conn { tx = r }) s.conns }, send fd out ∷ mod_rx fd ∷ [])
flushed s fd conn (out, blocked r) = (
  record s { conns = assign fd (record conn { tx = r }) s.conns },
  send fd out ∷ mod_rx_tx fd ∷ [],
)
flushed s fd conn (out, failed) =
    let (s', calls) = close_connection s fd in (s', send fd out ∷ calls)
flushed s fd conn (out, Flushed.unanswered) = (s, send fd out ∷ [])

unfoldable pub flush_tx_buffer : TcpReactor → ℕ → List Send → Handled
unfolding flushed readable
flush_tx_buffer s fd events = elim (lookup fd s.conns) [
  | none ↦ (s, [])
  | some conn ↦
      if readable conn.tx == 0 then (s, []) else flushed s fd conn (flush_loop events conn.tx)
]

-- One packet of the loop of `processTxQueue`. A packet for a connection that is gone, or that does
-- not fit, is dropped; the Boolean says that the descriptor is dirty now.
unfoldable pub process_packet : TcpReactor → Packet → TcpReactor × Bool
process_packet s pkt = elim (lookup pkt.fd s.conns) [
  | none ↦ (s, false)
  | some conn ↦ elim (fill conn.tx pkt.payload) [
    | none ↦ (s, false)
    | some (tx, went_in) ↦
        (record s { conns = assign pkt.fd (record conn { tx = tx }) s.conns }, went_in)
  ]
]

-- `dirtyFds.insert(fd)`
unfoldable pub insert : ℕ → List ℕ → List ℕ
insert fd [] = fd ∷ []
insert fd (other ∷ more) = if other == fd then other ∷ more else other ∷ insert fd more

unfoldable pub process_packets : TcpReactor → List Packet → List ℕ → TcpReactor × List ℕ
process_packets s [] dirty = (s, dirty)
process_packets s (pkt ∷ more) dirty =
    let (s', went_in) = process_packet s pkt in
    process_packets s' more (if went_in then insert pkt.fd dirty else dirty)

-- The answers of `send` are given for each descriptor.
unfoldable pub flush_dirty : TcpReactor → List ℕ → (ℕ → List Send) → Handled
flush_dirty s [] answers = (s, [])
flush_dirty s (fd ∷ more) answers =
    let (s', calls) = flush_tx_buffer s fd (answers fd) in
    let (s'', calls') = flush_dirty s' more answers in (s'', calls ++ calls')

-- The packets are those that `dequeueAll` took off the queue.
unfoldable pub process_tx_queue : TcpReactor → List Packet → (ℕ → List Send) → Handled
unfolding process_packets flush_dirty
process_tx_queue s packets answers =
    let (s', dirty) = process_packets s packets [] in flush_dirty s' dirty answers
