-- ===== src/Reactor/Tcp/Inv.antt =====
-- About the handlers of TcpReactor.cpp, one by one, and the rings of the connections.
use nf_engine.Prelude.{
  ℕ, ◌<◌, ◌^◌, ◌≡◌, ap, ◌∙◌, inl, inr, List, [], ◌∷◌, Bool, ◌&&◌, some, arith, length, ◌==◌,
  Bool-cases, Option-cases,
}
use mathlib.Core.Path.{subst}
use nf_engine.Prelude.Assoc.{lookup, Values, Values-assign, Values-erase, Values-emplace}
use nf_engine.Ring.{capacity, init, readable}
use nf_engine.Ring.Inv.{IsValid, contents, init-IsValid, capacity-init}
use nf_engine.Packet.{Addr, Packet}
use nf_engine.Framing.Spec.{IsIncomplete}
use nf_engine.Framing.Laws.{packet_format, tcp_framer}
use nf_engine.Framing.Stream.{Deframed-IsIncomplete}
use nf_engine.Reactor.Receive.{Recv, Ending, waiting, closed, unanswered, out_of_fuel, receive_loop}
use nf_engine.Reactor.Receive.Outcome.{Respects, Explains}
use nf_engine.Reactor.Receive.Laws.{receive_lem}
use nf_engine.Reactor.Transmit.{Send, Flushed, emptied, blocked, failed, flush_loop}
use nf_engine.Reactor.Transmit.Flush.{Takes, Sends, flush_lem}
use nf_engine.Reactor.Transmit.Fill.{fill_lem}
use nf_engine.Reactor.Tcp.{
  TcpReactor, Conn, ring_size, accept_one, accept_connection, close_connection, handover_to_tls,
  received, receive, flushed, flush_tx_buffer, process_packet,
}

-- Between two events both rings are valid and of the size they were made with, and the receive
-- ring holds no whole frame.
pub record IsConn (c : Conn) : Type 0 where
  pub rx_valid : IsValid c.rx
  pub rx_size : capacity c.rx ≡ ring_size
  pub rx_cut : IsIncomplete packet_format (contents c.rx)
  pub tx_valid : IsValid c.tx
  pub tx_size : capacity c.tx ≡ ring_size

abbrev pub Inv : TcpReactor → Type 0
Inv s = Values IsConn s.conns

IsConn-new :
    (peer : Addr) → IsConn (record { peer = peer; rx = init ring_size; tx = init ring_size })
IsConn-new peer = record {
  rx_valid = (init-IsValid ring_size (omega arith) (omega arith)).0;
  rx_size = capacity-init ring_size;
  rx_cut = inl (omega (arith, ap length (init-IsValid ring_size (omega arith) (omega arith)).1));
  tx_valid = (init-IsValid ring_size (omega arith) (omega arith)).0;
  tx_size = capacity-init ring_size;
}

-- A new connection starts with empty rings.
pub accept_connection-Inv :
    (s : TcpReactor) (peers : List (ℕ × Addr)) → Inv s → Inv (accept_connection s peers).0
unfolding accept_connection accept_one
accept_connection-Inv s [] v = v
accept_connection-Inv s ((fd, peer) ∷ more) v =
    accept_connection-Inv (accept_one s fd peer).0 more
      (Values-emplace IsConn fd _ s.conns v (IsConn-new peer))

pub close_connection-Inv : (s : TcpReactor) (fd : ℕ) → Inv s → Inv (close_connection s fd).0
unfolding close_connection
close_connection-Inv s fd v = Values-erase IsConn fd s.conns v

handover_to_tls-Inv : (s : TcpReactor) (fd : ℕ) → Inv s → Inv (handover_to_tls s fd).0
unfolding handover_to_tls
handover_to_tls-Inv s fd v = elim (Option-cases (lookup fd s.conns)) [
  | inl e ↦ rw (e, handover_to_tls) (Values-erase IsConn fd s.conns v)
  | inr (c, e) ↦ rw (e, handover_to_tls) (Values-erase IsConn fd s.conns v)
]

received-Inv :
    (s : TcpReactor) (fd : ℕ) (c : Conn) (events : List Recv) (frames : List (List ℕ)) (e : Ending)
    → Inv s
    → IsConn c
    → Explains packet_format ring_size (contents c.rx) events frames e
    → Inv (received s fd c (frames, e)).0
unfolding received
received-Inv s fd c events frames (waiting r) v k (valid, size, cut) =
    Values-assign IsConn fd (record c { rx = r }) s.conns v
      (record {
        rx_valid = valid;
        rx_size = size;
        rx_cut = Deframed-IsIncomplete packet_format cut;
        tx_valid = k.tx_valid;
        tx_size = k.tx_size;
      })
received-Inv s fd c events frames (closed why) v k x = Values-erase IsConn fd s.conns v
received-Inv s fd c events frames unanswered v k x = v
received-Inv s fd c events frames out_of_fuel v k x = v

-- What `receive` relies on: `recv` answers as documented for the connection's ring.
abbrev pub Answers : TcpReactor → ℕ → List Recv → Type 0
Answers s fd events = (c : Conn) → lookup fd s.conns ≡ some c → Respects tcp_framer events c.rx

pub receive-Inv :
    (s : TcpReactor) (fd : ℕ) (hello : Bool) (events : List Recv)
    → Inv s
    → Answers s fd events
    → Inv (receive s fd hello events).0
unfolding receive
receive-Inv s fd hello events v obeys = elim (Bool-cases (s.has_tls && hello)) [
  | inl e ↦ rw (e, receive) (handover_to_tls-Inv s fd v)
  | inr e ↦ elim (Option-cases (lookup fd s.conns)) [
    | inl absent ↦ rw (e, absent, receive) v
    | inr (c, there) ↦
        rw (e, there, receive)
          (received-Inv s fd c events _ _ v (v fd c there) (
            subst
              (λ n.
                Explains packet_format n (contents c.rx) events
                  (receive_loop tcp_framer.extract events c.rx).0
                  (receive_loop tcp_framer.extract events c.rx).1)
              (v fd c there).rx_size
              (receive_lem tcp_framer events c.rx (v fd c there).rx_valid (v fd c there).rx_cut
                (omega (arith, (v fd c there).rx_size)) (obeys c there))))
  ]
]

flushed-Inv :
    (s : TcpReactor) (fd : ℕ) (c : Conn) (held out : List ℕ) (e : Flushed)
    → Inv s
    → IsConn c
    → Sends ring_size held (out, e)
    → Inv (flushed s fd c (out, e)).0
unfolding flushed
flushed-Inv s fd c held out (emptied r) v k x =
    Values-assign IsConn fd (record c { tx = r }) s.conns v
      (record {
        rx_valid = k.rx_valid;
        rx_size = k.rx_size;
        rx_cut = k.rx_cut;
        tx_valid = x.0;
        tx_size = x.1;
      })
flushed-Inv s fd c held out (blocked r) v k x =
    Values-assign IsConn fd (record c { tx = r }) s.conns v
      (record {
        rx_valid = k.rx_valid;
        rx_size = k.rx_size;
        rx_cut = k.rx_cut;
        tx_valid = x.0;
        tx_size = x.1;
      })
flushed-Inv s fd c held out failed v k x = Values-erase IsConn fd s.conns v
flushed-Inv s fd c held out Flushed.unanswered v k x = v

-- What `flushTxBuffer` relies on: `send` takes no more than it was given.
abbrev pub Accepts : TcpReactor → ℕ → List Send → Type 0
Accepts s fd events = (c : Conn) → lookup fd s.conns ≡ some c → Takes events c.tx

pub flush_tx_buffer-Inv :
    (s : TcpReactor) (fd : ℕ) (events : List Send)
    → Inv s
    → Accepts s fd events
    → Inv (flush_tx_buffer s fd events).0
unfolding flush_tx_buffer
flush_tx_buffer-Inv s fd events v obeys = elim (Option-cases (lookup fd s.conns)) [
  | inl absent ↦ rw (absent, flush_tx_buffer) v
  | inr (c, there) ↦ elim (Bool-cases (readable c.tx == 0)) [
    | inl e ↦ rw (there, e, flush_tx_buffer) v
    | inr e ↦
        rw (there, e, flush_tx_buffer)
          (flushed-Inv s fd c (contents c.tx) (flush_loop events c.tx).0 (flush_loop events c.tx).1
            v (v fd c there)
            (subst (λ n. Sends n (contents c.tx) (flush_loop events c.tx)) (v fd c there).tx_size
              (flush_lem events c.tx (v fd c there).tx_valid (obeys c there))))
  ]
]

pub process_packet-Inv :
    (s : TcpReactor) (pkt : Packet)
    → Inv s
    → length pkt.payload < 2 ^ 64
    → Inv (process_packet s pkt).0
unfolding process_packet
process_packet-Inv s pkt v small = elim (Option-cases (lookup pkt.fd s.conns)) [
  | inl absent ↦ rw (absent, process_packet) v
  | inr (c, there) ↦
      let k : IsConn c = v pkt.fd c there in
      let (tx, went_in, e, line, size, valid) = fill_lem pkt.payload k.tx_valid small in
      rw (there, process_packet)
        (rw (e, process_packet)
          (Values-assign IsConn pkt.fd (record c { tx = tx }) s.conns v
            (record {
              rx_valid = k.rx_valid;
              rx_size = k.rx_size;
              rx_cut = k.rx_cut;
              tx_valid = valid;
              tx_size = size ∙ k.tx_size;
            })))
]
