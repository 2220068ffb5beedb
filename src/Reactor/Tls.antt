-- ===== src/Reactor/Tls.antt =====
-- serverd/protocol/tls/TlsReactor.cpp with TlsConnection.h and TlsHandshake.cpp: the handlers that
-- the event loop calls. What OpenSSL answers is an argument, one answer for each call; the calls
-- that a handler makes on epoll, the sockets, the workers and OpenSSL are listed in order.
pub mod Transmit
pub mod Receive
pub mod Interest
pub mod Inv
pub mod Run
use nf_engine.Prelude.{
  ℕ, ◌%◌, List, [], ◌∷◌, ◌++◌, map, Bool, true, false, Option, none, some, if◌then◌else◌,
}
use nf_engine.Prelude.Assoc.{lookup, emplace, assign, erase}
use nf_engine.Ring.{Ring, init}
use nf_engine.Packet.{Addr, Packet, packet, tls}
use nf_engine.Queue.Lock.{LockQueue, enqueue}
use nf_engine.Reactor.Tcp.{insert}
use nf_engine.Reactor.Tls.Receive.{
  SslError, want_read, want_write, other, SslRead, Ending, waiting, writing, closed, unanswered,
  out_of_fuel, receive_loop,
}
use nf_engine.Reactor.Tls.Transmit.{
  SslWrite, Flushed, emptied, stopped, blocked, failed, flush_loop, has_packets,
}

-- TLS_MAX_RX_BUFFER_SIZE and the budget of `flushTx`.
abbrev pub ring_size : ℕ
ring_size = 65536

abbrev pub budget : ℕ
budget = 256

-- TlsHandoverItem: `sockets` of the TCP connection.
pub record HandoverItem : Type 0 where
  pub fd : ℕ
  pub server : Addr
  pub peer : Addr

-- TlsConnection
pub record Conn : Type 0 where
  pub server : Addr
  pub peer : Addr
  pub rx : Ring
  pub tx : List Packet

pub record TlsReactor : Type 0 where
  pub workers : ℕ
  pub conns : List (ℕ × Conn)

pub data Call : Type 0 where
  epoll_add epoll_del close_fd : ℕ → Call
  mod_rx mod_rx_tx : ℕ → Call
  enqueue_rx : ℕ → Packet → Call
  ssl_write : ℕ → List ℕ → Call
  wakeup : Call

abbrev pub Handled : Type 0
Handled = TlsReactor × List Call

pub data HandshakeStep : Type 0 where
  done step_read step_write fail : HandshakeStep

-- The answer of `SSL_accept`.
pub data SslAccept : Type 0 where
  accepted : SslAccept
  error : SslError → SslAccept

-- `TlsHandshake::drive`
unfoldable pub drive : SslAccept → HandshakeStep
drive accepted = done
drive (error want_read) = step_read
drive (error want_write) = step_write
drive (error other) = fail

-- What OpenSSL answers in one call of a handler: whether the handshake is finished at its start and
-- when `updateInterest` asks, and what the calls return.
pub record Ssl : Type 0 where
  pub finished : Bool
  pub accept : SslAccept
  pub finished_then : Bool
  pub reads : List SslRead
  pub writes : List SslWrite

-- `handover`, called by the TCP thread: `non_blocking` is the answer of `setNonBlocking`.
unfoldable pub handover :
    Bool → HandoverItem → LockQueue HandoverItem → LockQueue HandoverItem × List Call
unfolding enqueue
handover non_blocking item q =
    let (taken, q') = enqueue HandoverItem item q in
    if non_blocking
    then if taken then (q', wakeup ∷ []) else (q, close_fd item.fd ∷ [])
    else (q, close_fd item.fd ∷ [])

-- `enqueueTx`, called by the router: `taken` is the answer of the queue of packets.
unfoldable pub enqueue_tx : Bool → List Call
enqueue_tx taken = if taken then wakeup ∷ [] else []

unfoldable pub new_conn : HandoverItem → Conn
new_conn item = record { server = item.server; peer = item.peer; rx = init ring_size; tx = [] }

-- The items that `dequeueAll` took, each with the answer of `SSL_new`.
unfoldable pub process_handover : TlsReactor → List (HandoverItem × Bool) → Handled
unfolding new_conn
process_handover s [] = (s, [])
process_handover s ((item, has_ssl) ∷ more) =
    let s1 =
      (if has_ssl then record s { conns = emplace item.fd (new_conn item) s.conns } else s) in
    let call = (if has_ssl then epoll_add item.fd else close_fd item.fd) in
    let (s', calls) = process_handover s1 more in (s', call ∷ calls)

unfoldable pub close_connection : TlsReactor → ℕ → Handled
close_connection s fd = (record s { conns = erase fd s.conns }, epoll_del fd ∷ close_fd fd ∷ [])

-- `finished` is the answer of `SSL_is_init_finished`.
unfoldable pub update_interest : TlsReactor → ℕ → Bool → List Call
update_interest s fd finished = elim (lookup fd s.conns) [
  | none ↦ []
  | some conn ↦
      if finished
      then if has_packets conn.tx then mod_rx_tx fd ∷ [] else mod_rx fd ∷ []
      else mod_rx_tx fd ∷ []
]

-- A frame becomes a packet for the worker that the descriptor selects.
unfoldable pub to_worker : TlsReactor → ℕ → Conn → List ℕ → Call
to_worker s fd conn payload =
    enqueue_rx (fd % s.workers) (packet fd tls payload conn.peer conn.server)

-- The end of `receive`.
unfoldable pub received : TlsReactor → ℕ → Conn → List (List ℕ) × Ending → Handled
unfolding close_connection to_worker
received s fd conn (frames, waiting r) = (
  record s { conns = assign fd (record conn { rx = r }) s.conns },
  map (to_worker s fd conn) frames,
)
received s fd conn (frames, writing r) = (
  record s { conns = assign fd (record conn { rx = r }) s.conns },
  map (to_worker s fd conn) frames ++ mod_rx_tx fd ∷ [],
)
received s fd conn (frames, closed why) =
    let (s', calls) = close_connection s fd in (s', map (to_worker s fd conn) frames ++ calls)
received s fd conn (frames, unanswered) = (s, map (to_worker s fd conn) frames)
received s fd conn (frames, out_of_fuel) = (s, map (to_worker s fd conn) frames)

unfoldable pub receive : TlsReactor → ℕ → List SslRead → Handled
unfolding received
receive s fd reads = elim (lookup fd s.conns) [
  | none ↦ (s, [])
  | some conn ↦ received s fd conn (receive_loop reads conn.rx)
]

-- The end of `flushTx`.
unfoldable pub flushed : TlsReactor → ℕ → Conn → List ℕ × Flushed → Handled
unfolding close_connection
flushed s fd conn (out, emptied) =
    (record s { conns = assign fd (record conn { tx = [] }) s.conns }, ssl_write fd out ∷ [])
flushed s fd conn (out, stopped q) =
    (record s { conns = assign fd (record conn { tx = q }) s.conns }, ssl_write fd out ∷ [])
flushed s fd conn (out, blocked q) = (
  record s { conns = assign fd (record conn { tx = q }) s.conns },
  ssl_write fd out ∷ mod_rx_tx fd ∷ [],
)
flushed s fd conn (out, failed) =
    let (s', calls) = close_connection s fd in (s', ssl_write fd out ∷ calls)
flushed s fd conn (out, Flushed.unanswered) = (s, ssl_write fd out ∷ [])

unfoldable pub flush_tx : TlsReactor → ℕ → ℕ → List SslWrite → Handled
unfolding flushed
flush_tx s fd budget writes = elim (lookup fd s.conns) [
  | none ↦ (s, [])
  | some conn ↦ flushed s fd conn (flush_loop budget conn.tx writes)
]

unfoldable pub drive_handshake : TlsReactor → ℕ → Ssl → Handled
unfolding drive update_interest receive close_connection
drive_handshake s fd ssl = elim (lookup fd s.conns) [
  | none ↦ (s, [])
  | some conn ↦ elim (drive ssl.accept) [
    | done ↦
        let (s', calls) = receive s fd ssl.reads in
        (s', update_interest s fd ssl.finished_then ++ calls)
    | step_read ↦ (s, mod_rx fd ∷ [])
    | step_write ↦ (s, mod_rx_tx fd ∷ [])
    | fail ↦ close_connection s fd
  ]
]

unfoldable pub on_readable : TlsReactor → ℕ → Ssl → Handled
unfolding drive_handshake receive
on_readable s fd ssl = if ssl.finished then receive s fd ssl.reads else drive_handshake s fd ssl

unfoldable pub on_writable : TlsReactor → ℕ → Ssl → Handled
unfolding drive_handshake flush_tx update_interest
on_writable s fd ssl =
    let (s', calls) = flush_tx s fd budget ssl.writes in
    let served : Handled = (s', calls ++ update_interest s' fd ssl.finished_then) in
    if ssl.finished then served else drive_handshake s fd ssl

-- One packet of the first loop of `processTxQueue`; a packet for a connection that is gone is
-- dropped. The Boolean says that the descriptor is dirty now.
unfoldable pub queue_packet : TlsReactor → Packet → TlsReactor × Bool
queue_packet s pkt = elim (lookup pkt.fd s.conns) [
  | none ↦ (s, false)
  | some conn ↦
      (record s { conns = assign pkt.fd (record conn { tx = conn.tx ++ pkt ∷ [] }) s.conns }, true)
]

unfoldable pub queue_packets : TlsReactor → List Packet → List ℕ → TlsReactor × List ℕ
unfolding queue_packet insert
queue_packets s [] dirty = (s, dirty)
queue_packets s (pkt ∷ more) dirty =
    let (s', queued) = queue_packet s pkt in
    queue_packets s' more (if queued then insert pkt.fd dirty else dirty)

-- The second loop, on one descriptor.
unfoldable pub serve : TlsReactor → ℕ → Ssl → Handled
unfolding update_interest flush_tx
serve s fd ssl =
    let (s', calls) = flush_tx s fd budget ssl.writes in
    (s', update_interest s fd ssl.finished ++ calls)

-- The answers of OpenSSL are given for each descriptor.
unfoldable pub serve_all : TlsReactor → List ℕ → (ℕ → Ssl) → Handled
unfolding serve
serve_all s [] answers = (s, [])
serve_all s (fd ∷ more) answers =
    let (s', calls) = serve s fd (answers fd) in
    let (s'', calls') = serve_all s' more answers in (s'', calls ++ calls')

-- The packets are those that `dequeueAll` took off the queue.
unfoldable pub process_tx_queue : TlsReactor → List Packet → (ℕ → Ssl) → Handled
unfolding queue_packets serve_all
process_tx_queue s packets answers =
    let (s', dirty) = queue_packets s packets [] in serve_all s' dirty answers

-- `processWakeup`
unfoldable pub process_wakeup :
    TlsReactor → List (HandoverItem × Bool) → List Packet → (ℕ → Ssl) → Handled
unfolding process_handover process_tx_queue
process_wakeup s items packets answers =
    let (s', calls) = process_handover s items in
    let (s'', calls') = process_tx_queue s' packets answers in (s'', calls ++ calls')
