-- ===== src/Reactor/Tcp/Run/Laws.antt =====
-- What holds of the reactor after any events.
use nf_engine.Prelude.{ℕ, ◌<◌, ◌^◌, List, [], ◌∷◌, length}
use nf_engine.Packet.{Packet}
use nf_engine.Reactor.Transmit.{Send}
use nf_engine.Reactor.Tcp.{
  TcpReactor, flush_tx_buffer, process_packet, process_packets, flush_dirty, process_tx_queue,
}
use nf_engine.Reactor.Tcp.Inv.{
  Inv, Answers, Accepts, accept_connection-Inv, close_connection-Inv, receive-Inv,
  flush_tx_buffer-Inv, process_packet-Inv,
}
use nf_engine.Reactor.Tcp.Run.{Event, accepted, hung_up, readable, writable, woken, handle, run}

-- A vector in memory is shorter than `size_t` can count.
abbrev pub AreSmall : List Packet → Type 0
AreSmall [] = Unit {0}
AreSmall (pkt ∷ more) = (length pkt.payload < 2 ^ 64) × AreSmall more

-- `send` answers as documented in each `flushTxBuffer` of `processTxQueue`.
abbrev pub AcceptAll : TcpReactor → List ℕ → (ℕ → List Send) → Type 0
AcceptAll s [] answers = Unit {0}
AcceptAll s (fd ∷ more) answers =
    Accepts s fd (answers fd) × AcceptAll (flush_tx_buffer s fd (answers fd)).0 more answers

-- What the handler of an event relies on.
abbrev pub Permits : TcpReactor → Event → Type 0
Permits s (accepted peers) = Unit {0}
Permits s (hung_up fd) = Unit {0}
Permits s (readable fd hello events) = Answers s fd events
Permits s (writable fd events) = Accepts s fd events
Permits s (woken packets answers) =
    AreSmall packets
    × AcceptAll (process_packets s packets []).0 (process_packets s packets []).1 answers

abbrev pub PermitsAll : TcpReactor → List Event → Type 0
PermitsAll s [] = Unit {0}
PermitsAll s (e ∷ more) = Permits s e × PermitsAll (handle s e).0 more

process_packets-Inv :
    (s : TcpReactor) (packets : List Packet) (dirty : List ℕ)
    → Inv s
    → AreSmall packets
    → Inv (process_packets s packets dirty).0
unfolding process_packets
process_packets-Inv s [] dirty v small = v
process_packets-Inv s (pkt ∷ more) dirty v small =
    process_packets-Inv (process_packet s pkt).0 more _ (process_packet-Inv s pkt v small.0) small.1

flush_dirty-Inv :
    (s : TcpReactor) (fds : List ℕ) (answers : ℕ → List Send)
    → Inv s
    → AcceptAll s fds answers
    → Inv (flush_dirty s fds answers).0
unfolding flush_dirty
flush_dirty-Inv s [] answers v obeys = v
flush_dirty-Inv s (fd ∷ more) answers v obeys =
    flush_dirty-Inv (flush_tx_buffer s fd (answers fd)).0 more answers
      (flush_tx_buffer-Inv s fd (answers fd) v obeys.0) obeys.1

handle-Inv : (s : TcpReactor) (e : Event) → Inv s → Permits s e → Inv (handle s e).0
unfolding handle process_tx_queue
handle-Inv s (accepted peers) v p = accept_connection-Inv s peers v
handle-Inv s (hung_up fd) v p = close_connection-Inv s fd v
handle-Inv s (readable fd hello events) v p = receive-Inv s fd hello events v p
handle-Inv s (writable fd events) v p = flush_tx_buffer-Inv s fd events v p
handle-Inv s (woken packets answers) v p =
    flush_dirty-Inv (process_packets s packets []).0 (process_packets s packets []).1 answers
      (process_packets-Inv s packets [] v p.0) p.1

-- After any events, every connection of the reactor has valid rings of 64 KB, and no whole frame
-- waits in its receive ring, as long as `recv` and `send` move no more than they were asked to.
pub run-Inv :
    (s : TcpReactor) (events : List Event) → Inv s → PermitsAll s events → Inv (run s events).0
unfolding run
run-Inv s [] v p = v
run-Inv s (e ∷ more) v p = run-Inv (handle s e).0 more (handle-Inv s e v p.0) p.1
