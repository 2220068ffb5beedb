-- ===== src/Tests/Network.antt =====
-- The ring, the framing and the reactor at concrete inputs.
use nf_engine.Prelude.{
  ℕ, ◌≤◌, ◌≡◌, refl, List, [], ◌∷◌, ◌++◌, true, false, some, inl, inr, min, arith, length, take,
  drop, replicate,
}
use nf_engine.Prelude.Assoc.{lookup}
use nf_engine.Ring.{Ring, capacity, writable, write_len, write, read}
use nf_engine.Ring.Inv.{IsValid, contents}
use nf_engine.Ring.Buffer.{write_read_lem}
use nf_engine.Packet.{Addr}
use nf_engine.Framing.Spec.{next_frame}
use nf_engine.Framing.Laws.{packet_format, ipc_format, tcp_framer, framers_find}
use nf_engine.Framing.Tcp
use nf_engine.Framing.Tls
use nf_engine.Framing.Ipc
use nf_engine.Framing.Mgmt
use nf_engine.Reactor.Receive.{bytes, again, drain}
use nf_engine.Reactor.Receive.Drain.{Drains, drain-Drains}
use nf_engine.Reactor.Transmit.{sent}
use nf_engine.Reactor.Tcp.{Conn, TcpReactor, receive, flush_tx_buffer, close_connection}
use nf_engine.Reactor.Tcp.Inv.{Inv}
use nf_engine.Reactor.Tcp.Run.{Event, readable, hung_up, accepted, run}
use nf_engine.Reactor.Tcp.Run.Laws.{run-Inv}
use nf_engine.Reactor.Tcp.Isolated.{LeavesAlone, handlers_isolated}

-- A ring of four bytes that goes round the end: it holds 7, 8 and 9.
abbrev wrapped : Ring
wrapped = record { buffer = 9 ∷ 0 ∷ 7 ∷ 8 ∷ []; head = 2; tail = 1; size = 3 }

wrapped-IsValid : IsValid wrapped
wrapped-IsValid = record {
  small = omega arith;
  head_in = omega arith;
  tail_in = omega arith;
  size_in = omega arith;
  tail_at = inr refl;
}

write_read_lem_example :
    ((r' : Ring) × (write wrapped (5 ∷ 6 ∷ []) ≡ some (min 2 (writable wrapped), r'))
      × (contents r' ≡ contents wrapped ++ take (min 2 (writable wrapped)) (5 ∷ 6 ∷ []))
      × (capacity r' ≡ capacity wrapped)
      × IsValid r')
    × ((r' : Ring) × (read wrapped 2 ≡ some (take 2 (contents wrapped), r'))
        × (contents r' ≡ drop 2 (contents wrapped))
        × (capacity r' ≡ capacity wrapped)
        × IsValid r')
write_read_lem_example = write_read_lem (5 ∷ 6 ∷ []) 2 wrapped-IsValid (omega arith)

-- A ping's header that announces no body, and three bytes more.
abbrev pub packet_bytes : List ℕ
packet_bytes = 1 ∷ 144 ∷ 0 ∷ 0 ∷ (replicate 12 7 ++ (1 ∷ 16 ∷ 0 ∷ []))

abbrev packet_ring : Ring
packet_ring = record { buffer = packet_bytes ++ (0 ∷ []); head = 0; tail = 19; size = 19 }

packet_ring-IsValid : IsValid packet_ring
packet_ring-IsValid = record {
  small = omega arith;
  head_in = omega arith;
  tail_in = omega arith;
  size_in = omega arith;
  tail_at = inl refl;
}

framers_find_example :
    (Tcp.try_extract_frame packet_ring ≡ next_frame packet_format (contents packet_ring))
    × (Tls.try_extract_frame packet_ring ≡ next_frame packet_format (contents packet_ring))
    × (Ipc.try_extract_frame packet_ring ≡ next_frame ipc_format (contents packet_ring))
    × (Mgmt.try_extract_frame packet_ring ≡ next_frame ipc_format (contents packet_ring))
framers_find_example = framers_find packet_ring-IsValid

drain-Drains_example :
    Drains packet_format 20 (contents packet_ring) (drain tcp_framer.extract 20 packet_ring)
drain-Drains_example = drain-Drains tcp_framer 20 packet_ring packet_ring-IsValid (omega arith)

-- A ring with room for a packet and a bit.
abbrev pub free_ring : Ring
free_ring = record { buffer = replicate 20 0; head = 0; tail = 0; size = 0 }

pub free_ring-IsValid : IsValid free_ring
free_ring-IsValid = record {
  small = omega arith;
  head_in = omega arith;
  tail_in = omega arith;
  size_in = omega arith;
  tail_at = inl refl;
}

pub room : length packet_bytes ≤ write_len free_ring
unfolding write_len writable
room = omega arith

abbrev idle_reactor : TcpReactor
idle_reactor = record {
  server_addr = record { ip = 0; port = 9000 };
  workers = 2;
  has_tls = true;
  conns = [];
}

idle_reactor-Inv : Inv idle_reactor
unfolding lookup
idle_reactor-Inv k v e = absurd (let d : ⊥ = ground arith in d)

abbrev peer : Addr
peer = record { ip = 5; port = 6 }

-- Two connections, one of which has nothing to read yet and the other hangs up.
abbrev some_events : List Event
some_events = accepted ((4, peer) ∷ (5, peer) ∷ []) ∷ readable 5 false (again ∷ []) ∷ hung_up 4 ∷ []

run-Inv_example : Inv (run idle_reactor some_events).0
run-Inv_example = run-Inv idle_reactor some_events idle_reactor-Inv (tt, (λ c e. tt, (tt, tt)))

-- Two connections: a packet comes on the first, which has three bytes to send; so has the second.
abbrev first_conn : Conn
first_conn = record { peer = peer; rx = free_ring; tx = wrapped }

abbrev second_conn : Conn
second_conn = record { peer = peer; rx = packet_ring; tx = wrapped }

abbrev busy_reactor : TcpReactor
busy_reactor = record idle_reactor { conns = (4, first_conn) ∷ (5, second_conn) ∷ [] }

-- The handlers find the first connection, and the second is there to be left alone.
busy_reactor_has :
    (lookup 4 busy_reactor.conns ≡ some first_conn)
    × (lookup 5 busy_reactor.conns ≡ some second_conn)
unfolding lookup
busy_reactor_has = (refl, refl)

handlers_isolated_example :
    LeavesAlone busy_reactor 4 5 (receive busy_reactor 4 false (bytes packet_bytes ∷ again ∷ []))
    × (LeavesAlone busy_reactor 4 5 (flush_tx_buffer busy_reactor 4 (sent 2 ∷ sent 1 ∷ []))
        × LeavesAlone busy_reactor 4 5 (close_connection busy_reactor 4))
handlers_isolated_example =
    handlers_isolated busy_reactor 4 5 (omega arith) false (bytes packet_bytes ∷ again ∷ [])
      (sent 2 ∷ sent 1 ∷ [])
