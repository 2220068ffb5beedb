-- ===== src/Tests/Secure.antt =====
-- The TLS and the UDP reactor at concrete inputs.
use nf_engine.Prelude.{ℕ, zero, suc, inl, ◌≡◌, List, [], ◌∷◌, map, true, arith}
use nf_engine.Prelude.Assoc.{lookup}
use nf_engine.Ring.Inv.{contents}
use nf_engine.Packet.{Addr, Packet}
use nf_engine.Framing.Laws.{packet_format}
use nf_engine.Reactor.Receive.Outcome.{Explains}
use nf_engine.Reactor.Tls.Receive.{bytes, error, want_read, want_write, receive_loop}
use nf_engine.Reactor.Tls.Receive.Laws.{plain, plain_read, tls_receive_lem}
use nf_engine.Reactor.Tls.Transmit.{wrote, has_packets}
use nf_engine.Reactor.Tls.Transmit
use nf_engine.Reactor.Tls.{TlsReactor, Conn, HandoverItem, Ssl, accepted, process_tx_queue}
use nf_engine.Reactor.Tls.Inv.{Inv}
use nf_engine.Reactor.Tls.Run.{Event, woken, hung_up, writable, run}
use nf_engine.Reactor.Tls.Run.Laws.{tls_run-Inv}
use nf_engine.Reactor.Udp
use nf_engine.Reactor.Udp.{UdpReactor, SendTo, sent, receive_packets, datagram}
use nf_engine.Reactor.Udp.Laws.{
  Receives, AreWorkers, unsent, was_full, datagrams, wakes, addressed, receive_packets_lem,
  process_tx_queue_lem,
}
use nf_engine.Tests.Inputs.{a_packet}
use nf_engine.Tests.Network.{packet_bytes, free_ring, free_ring-IsValid, room}

-- Three bytes of which the first is written, and two bytes.
abbrev first_packet : Packet
first_packet = record a_packet { payload = 1 ∷ 2 ∷ 3 ∷ []; tx_offset = 1 }

abbrev second_packet : Packet
second_packet = record a_packet { payload = 4 ∷ 5 ∷ [] }

abbrev in_line : List Packet
in_line = first_packet ∷ second_packet ∷ []

abbrev client : Addr
client = record { ip = 5; port = 6 }

abbrev item : HandoverItem
item = record { fd = 4; server = record { ip = 0; port = 9000 }; peer = client }

abbrev conn : Conn
conn = record { server = item.server; peer = client; rx = free_ring; tx = first_packet ∷ [] }

abbrev reactor : TlsReactor
reactor = record { workers = 2; conns = (4, conn) ∷ [] }

abbrev blocked_ssl : Ssl
blocked_ssl = record {
  finished = true;
  accept = accepted;
  finished_then = true;
  reads = [];
  writes = wrote 1 ∷ Transmit.SslWrite.error want_write ∷ [];
}

-- One byte of the first packet is left.
abbrev conn_then : Conn
conn_then = record conn { tx = record first_packet { tx_offset = 2 } ∷ second_packet ∷ [] }

tls_receive_lem_example :
    Explains packet_format 20
      (contents free_ring)
      (map plain_read (bytes packet_bytes ∷ error want_read ∷ []))
      (receive_loop (bytes packet_bytes ∷ error want_read ∷ []) free_ring).0
      (plain (receive_loop (bytes packet_bytes ∷ error want_read ∷ []) free_ring).1)
tls_receive_lem_example =
    tls_receive_lem (bytes packet_bytes ∷ error want_read ∷ []) free_ring free_ring-IsValid
      (inl (omega arith)) (omega arith) (λ space. room, λ frames r' e. tt)

abbrev no_conns : TlsReactor
no_conns = record { workers = 2; conns = [] }

no_conns-Inv : Inv no_conns
unfolding lookup
no_conns-Inv k v e = absurd (let d : ⊥ = ground arith in d)

-- A connection comes, a packet for it is queued, and it hangs up.
abbrev some_events : List Event
some_events =
    woken ((item, true) ∷ []) (second_packet ∷ []) (λ fd. blocked_ssl)
    ∷ writable 4 blocked_ssl
    ∷ hung_up 4
    ∷ []

tls_run-Inv_example : Inv (run no_conns some_events).0
tls_run-Inv_example =
    tls_run-Inv no_conns some_events no_conns-Inv ((omega arith, tt), (λ c e. tt, (tt, tt)))

abbrev udp_packet : Packet
udp_packet = record a_packet { payload = 1 ∷ [] }

abbrev udp_reactor : UdpReactor
udp_reactor = record {
  fd = 3;
  server_addr = record { ip = 0; port = 9001 };
  workers = 2;
  queue = udp_packet ∷ second_packet ∷ [];
}

abbrev some_datagrams : List Udp.RecvFrom
some_datagrams =
    datagram client (1 ∷ 2 ∷ [])
    ∷ Udp.RecvFrom.intr
    ∷ datagram client (3 ∷ [])
    ∷ Udp.RecvFrom.again
    ∷ []

receive_packets_lem_example :
    Receives udp_reactor some_datagrams (receive_packets udp_reactor some_datagrams)
    × AreWorkers udp_reactor.workers (receive_packets udp_reactor some_datagrams)
receive_packets_lem_example = receive_packets_lem udp_reactor some_datagrams (omega arith)

-- The first packet is sent, and a signal interrupts the second.
abbrev answers : ℕ → SendTo
answers i = elim i [ zero ↦ sent | suc j ↦ SendTo.intr ]

process_tx_queue_lem_example :
    ((Udp.process_tx_queue udp_reactor answers).0.queue ≡ unsent udp_reactor.queue answers)
    × (datagrams (Udp.process_tx_queue udp_reactor answers).1 ≡ map addressed udp_reactor.queue)
    × (wakes (Udp.process_tx_queue udp_reactor answers).1 ≡ was_full udp_reactor.queue answers)
process_tx_queue_lem_example = process_tx_queue_lem udp_reactor answers (omega arith)
