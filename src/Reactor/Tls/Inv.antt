-- ===== src/Reactor/Tls/Inv.antt =====
-- About the handlers of TlsReactor.cpp, one by one, and their connections.
use nf_engine.Prelude.{
  ℕ, ◌≤◌, ◌≡◌, refl, ap, inl, inr, List, [], ◌∷◌, ◌++◌, map, Bool, true, false, some, arith, length,
  Bool-cases, Option-cases,
}
use mathlib.Core.Path.{subst}
use nf_engine.Prelude.Assoc.{lookup, Entries, Entries-assign, Entries-erase, Entries-emplace}
use nf_engine.Ring.{capacity}
use nf_engine.Ring.Inv.{IsValid, contents, init-IsValid, capacity-init}
use nf_engine.Packet.{Packet}
use nf_engine.Framing.Spec.{IsIncomplete}
use nf_engine.Framing.Laws.{packet_format}
use nf_engine.Framing.Stream.{Deframed-IsIncomplete}
use nf_engine.Reactor.Receive.Outcome.{Explains}
use nf_engine.Reactor.Tls.Receive.{
  SslRead, Ending, waiting, writing, closed, unanswered, out_of_fuel, receive_loop,
}
use nf_engine.Reactor.Tls.Receive.Laws.{plain, plain_read, Obeys, tls_receive_lem}
use nf_engine.Reactor.Tls.Transmit.{
  SslWrite, Flushed, emptied, stopped, blocked, failed, flush_loop,
}
use nf_engine.Reactor.Tls.Transmit.Left.{FitAll, FitAll-append, Left, flush_loop-Left}
use nf_engine.Reactor.Tls.{
  TlsReactor, Conn, HandoverItem, Ssl, HandshakeStep, done, step_read, step_write, fail, drive,
  ring_size, budget, new_conn, process_handover, close_connection, received, receive, flushed,
  flush_tx, drive_handshake, on_readable, on_writable, queue_packet,
}

-- Between two events the ring is valid, of the size it was made with, and holds no whole frame,
-- and the packets in line are for the connection's descriptor.
pub record IsConn (fd : ℕ) (c : Conn) : Type 0 where
  pub rx_valid : IsValid c.rx
  pub rx_size : capacity c.rx ≡ ring_size
  pub rx_cut : IsIncomplete packet_format (contents c.rx)
  pub tx_fits : FitAll fd c.tx

abbrev pub Inv : TlsReactor → Type 0
Inv s = Entries IsConn s.conns

new_conn-IsConn : (item : HandoverItem) → IsConn item.fd (new_conn item)
unfolding new_conn
new_conn-IsConn item = record {
  rx_valid = (init-IsValid ring_size (omega arith) (omega arith)).0;
  rx_size = capacity-init ring_size;
  rx_cut = inl (omega (arith, ap length (init-IsValid ring_size (omega arith) (omega arith)).1));
  tx_fits = tt;
}

pub process_handover-Inv :
    (s : TlsReactor) (items : List (HandoverItem × Bool)) → Inv s → Inv (process_handover s items).0
unfolding process_handover
process_handover-Inv s [] v = v
process_handover-Inv s ((item, true) ∷ more) v =
    process_handover-Inv (record s { conns = _ }) more
      (Entries-emplace IsConn item.fd _ s.conns v (new_conn-IsConn item))
process_handover-Inv s ((item, false) ∷ more) v = process_handover-Inv s more v

pub close_connection-Inv : (s : TlsReactor) (fd : ℕ) → Inv s → Inv (close_connection s fd).0
unfolding close_connection
close_connection-Inv s fd v = Entries-erase IsConn fd s.conns v

received-Inv :
    (s : TlsReactor) (fd : ℕ) (c : Conn) (reads : List SslRead) (frames : List (List ℕ))
    (e : Ending)
    → Inv s
    → IsConn fd c
    → Explains packet_format ring_size (contents c.rx) (map plain_read reads) frames (plain e)
    → Inv (received s fd c (frames, e)).0
unfolding received
received-Inv s fd c reads frames (waiting r) v k (valid, size, cut) =
    Entries-assign IsConn fd (record c { rx = r }) s.conns v
      (record {
        rx_valid = valid;
        rx_size = size;
        rx_cut = Deframed-IsIncomplete packet_format cut;
        tx_fits = k.tx_fits;
      })
received-Inv s fd c reads frames (writing r) v k (valid, size, cut) =
    Entries-assign IsConn fd (record c { rx = r }) s.conns v
      (record {
        rx_valid = valid;
        rx_size = size;
        rx_cut = Deframed-IsIncomplete packet_format cut;
        tx_fits = k.tx_fits;
      })
received-Inv s fd c reads frames (closed why) v k x = close_connection-Inv s fd v
received-Inv s fd c reads frames unanswered v k x = v
received-Inv s fd c reads frames out_of_fuel v k x = v

-- What `receive` relies on: `SSL_read` answers as documented for the connection's ring.
abbrev pub Answers : TlsReactor → ℕ → List SslRead → Type 0
Answers s fd reads = (c : Conn) → lookup fd s.conns ≡ some c → Obeys reads c.rx

pub receive-Inv :
    (s : TlsReactor) (fd : ℕ) (reads : List SslRead)
    → Inv s
    → Answers s fd reads
    → Inv (receive s fd reads).0
unfolding receive
receive-Inv s fd reads v obeys = elim (Option-cases (lookup fd s.conns)) [
  | inl absent ↦ rw (absent, receive) v
  | inr (c, there) ↦
      let k : IsConn fd c = v fd c there in
      rw (there, receive)
        (received-Inv s fd c reads (receive_loop reads c.rx).0 (receive_loop reads c.rx).1 v k (
          subst
            (λ n.
              Explains packet_format n (contents c.rx) (map plain_read reads)
                (receive_loop reads c.rx).0 (plain (receive_loop reads c.rx).1))
            k.rx_size
            (tls_receive_lem reads c.rx k.rx_valid k.rx_cut (omega (arith, k.rx_size))
              (obeys c there))))
]

flushed-Inv :
    (s : TlsReactor) (fd : ℕ) (c : Conn) (out : List ℕ) (e : Flushed)
    → Inv s
    → IsConn fd c
    → Left fd e
    → Inv (flushed s fd c (out, e)).0
unfolding flushed
flushed-Inv s fd c out emptied v k x =
    Entries-assign IsConn fd (record c { tx = [] }) s.conns v
      (record { rx_valid = k.rx_valid; rx_size = k.rx_size; rx_cut = k.rx_cut; tx_fits = tt })
flushed-Inv s fd c out (stopped q) v k x =
    Entries-assign IsConn fd (record c { tx = q }) s.conns v
      (record { rx_valid = k.rx_valid; rx_size = k.rx_size; rx_cut = k.rx_cut; tx_fits = x })
flushed-Inv s fd c out (blocked q) v k x =
    Entries-assign IsConn fd (record c { tx = q }) s.conns v
      (record { rx_valid = k.rx_valid; rx_size = k.rx_size; rx_cut = k.rx_cut; tx_fits = x })
flushed-Inv s fd c out failed v k x = close_connection-Inv s fd v
flushed-Inv s fd c out Flushed.unanswered v k x = v

pub flush_tx-Inv :
    (s : TlsReactor) (fd n : ℕ) (writes : List SslWrite) → Inv s → Inv (flush_tx s fd n writes).0
unfolding flush_tx
flush_tx-Inv s fd n writes v = elim (Option-cases (lookup fd s.conns)) [
  | inl absent ↦ rw (absent, flush_tx) v
  | inr (c, there) ↦
      rw (there, flush_tx)
        (flushed-Inv s fd c (flush_loop n c.tx writes).0 (flush_loop n c.tx writes).1 v
          (v fd c there) (flush_loop-Left fd n c.tx writes (v fd c there).tx_fits))
]

shaken-Inv :
    (s : TlsReactor) (fd : ℕ) (ssl : Ssl) (c : Conn) (step : HandshakeStep)
    → lookup fd s.conns ≡ some c
    → drive ssl.accept ≡ step
    → Inv s
    → Answers s fd ssl.reads
    → Inv (drive_handshake s fd ssl).0
unfolding drive_handshake
shaken-Inv s fd ssl c done there e v obeys =
    rw (there, drive_handshake) (rw (e, drive_handshake) (receive-Inv s fd ssl.reads v obeys))
shaken-Inv s fd ssl c step_read there e v obeys =
    rw (there, drive_handshake) (rw (e, drive_handshake) v)
shaken-Inv s fd ssl c step_write there e v obeys =
    rw (there, drive_handshake) (rw (e, drive_handshake) v)
shaken-Inv s fd ssl c fail there e v obeys =
    rw (there, drive_handshake) (rw (e, drive_handshake) (close_connection-Inv s fd v))

drive_handshake-Inv :
    (s : TlsReactor) (fd : ℕ) (ssl : Ssl)
    → Inv s
    → Answers s fd ssl.reads
    → Inv (drive_handshake s fd ssl).0
unfolding drive_handshake
drive_handshake-Inv s fd ssl v obeys = elim (Option-cases (lookup fd s.conns)) [
  | inl absent ↦ rw (absent, drive_handshake) v
  | inr (c, there) ↦ shaken-Inv s fd ssl c (drive ssl.accept) there refl v obeys
]

pub on_readable-Inv :
    (s : TlsReactor) (fd : ℕ) (ssl : Ssl)
    → Inv s
    → Answers s fd ssl.reads
    → Inv (on_readable s fd ssl).0
unfolding on_readable
on_readable-Inv s fd ssl v obeys = elim (Bool-cases ssl.finished) [
  | inl e ↦ rw (e, on_readable) (receive-Inv s fd ssl.reads v obeys)
  | inr e ↦ rw (e, on_readable) (drive_handshake-Inv s fd ssl v obeys)
]

pub on_writable-Inv :
    (s : TlsReactor) (fd : ℕ) (ssl : Ssl)
    → Inv s
    → Answers s fd ssl.reads
    → Inv (on_writable s fd ssl).0
unfolding on_writable
on_writable-Inv s fd ssl v obeys = elim (Bool-cases ssl.finished) [
  | inl e ↦ rw (e, on_writable) (flush_tx-Inv s fd budget ssl.writes v)
  | inr e ↦ rw (e, on_writable) (drive_handshake-Inv s fd ssl v obeys)
]

pub queue_packet-Inv :
    (s : TlsReactor) (pkt : Packet)
    → Inv s
    → pkt.tx_offset ≤ length pkt.payload
    → Inv (queue_packet s pkt).0
unfolding queue_packet
queue_packet-Inv s pkt v fits = elim (Option-cases (lookup pkt.fd s.conns)) [
  | inl absent ↦ rw (absent, queue_packet) v
  | inr (c, there) ↦
      let k : IsConn pkt.fd c = v pkt.fd c there in
      rw (there, queue_packet)
        (Entries-assign IsConn pkt.fd (record c { tx = c.tx ++ pkt ∷ [] }) s.conns v
          (record {
            rx_valid = k.rx_valid;
            rx_size = k.rx_size;
            rx_cut = k.rx_cut;
            tx_fits = FitAll-append pkt.fd c.tx pkt k.tx_fits (refl, fits);
          }))
]
