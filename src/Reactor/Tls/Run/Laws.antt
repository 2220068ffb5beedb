-- ===== src/Reactor/Tls/Run/Laws.antt =====
-- What holds of TlsReactor after any events.
use nf_engine.Prelude.{ℕ, ◌≤◌, List, [], ◌∷◌, length}
use nf_engine.Packet.{Packet}
use nf_engine.Reactor.Tls.{
  TlsReactor, Ssl, budget, process_handover, flush_tx, queue_packet, queue_packets, serve,
  serve_all, process_tx_queue, process_wakeup,
}
use nf_engine.Reactor.Tls.Inv.{
  Inv, Answers, process_handover-Inv, close_connection-Inv, on_readable-Inv, on_writable-Inv,
  flush_tx-Inv, queue_packet-Inv,
}
use nf_engine.Reactor.Tls.Run.{Event, woken, hung_up, readable, writable, handle, run}

-- The router sends packets of which nothing has been written.
abbrev pub AreFresh : List Packet → Type 0
AreFresh [] = Unit {0}
AreFresh (pkt ∷ more) = (pkt.tx_offset ≤ length pkt.payload) × AreFresh more

-- What the handler of an event relies on.
abbrev pub Permits : TlsReactor → Event → Type 0
Permits s (woken items packets answers) = AreFresh packets
Permits s (hung_up fd) = Unit {0}
Permits s (readable fd ssl) = Answers s fd ssl.reads
Permits s (writable fd ssl) = Answers s fd ssl.reads

abbrev pub PermitsAll : TlsReactor → List Event → Type 0
PermitsAll s [] = Unit {0}
PermitsAll s (e ∷ more) = Permits s e × PermitsAll (handle s e).0 more

queue_packets-Inv :
    (s : TlsReactor) (packets : List Packet) (dirty : List ℕ)
    → Inv s
    → AreFresh packets
    → Inv (queue_packets s packets dirty).0
unfolding queue_packets
queue_packets-Inv s [] dirty v fresh = v
queue_packets-Inv s (pkt ∷ more) dirty v fresh =
    queue_packets-Inv (queue_packet s pkt).0 more _ (queue_packet-Inv s pkt v fresh.0) fresh.1

serve_all-Inv :
    (s : TlsReactor) (fds : List ℕ) (answers : ℕ → Ssl) → Inv s → Inv (serve_all s fds answers).0
unfolding serve_all serve
serve_all-Inv s [] answers v = v
serve_all-Inv s (fd ∷ more) answers v =
    serve_all-Inv (flush_tx s fd budget (answers fd).writes).0 more answers
      (flush_tx-Inv s fd budget (answers fd).writes v)

handle-Inv : (s : TlsReactor) (e : Event) → Inv s → Permits s e → Inv (handle s e).0
unfolding handle process_wakeup process_tx_queue
handle-Inv s (woken items packets answers) v fresh =
    let s1 : TlsReactor = (process_handover s items).0 in
    serve_all-Inv (queue_packets s1 packets []).0 (queue_packets s1 packets []).1 answers
      (queue_packets-Inv s1 packets [] (process_handover-Inv s items v) fresh)
handle-Inv s (hung_up fd) v p = close_connection-Inv s fd v
handle-Inv s (readable fd ssl) v p = on_readable-Inv s fd ssl v p
handle-Inv s (writable fd ssl) v p = on_writable-Inv s fd ssl v p

-- After any events, every TLS connection has a valid ring of 64 KB in which no whole frame waits,
-- and each packet in line on it is addressed to its descriptor and written no further than its
-- end, as long as `SSL_read` brings no more than it was asked for and new packets are as the
-- router makes them.
pub tls_run-Inv :
    (s : TlsReactor) (events : List Event) → Inv s → PermitsAll s events → Inv (run s events).0
unfolding run
tls_run-Inv s [] v p = v
tls_run-Inv s (e ∷ more) v p = tls_run-Inv (handle s e).0 more (handle-Inv s e v p.0) p.1
