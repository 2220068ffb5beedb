-- ===== src/Reactor/Tls/Transmit.antt =====
-- The loops of TlsReactor::flushTx on one connection, with the offset of a packet of
-- serverd/packet/Packet.cpp. What `SSL_write` and `SSL_get_error` answer is a list of events.
pub mod Laws
pub mod Left
use nf_engine.Prelude.{
  ℕ, zero, suc, ◌+◌, List, [], ◌∷◌, ◌++◌, Bool, true, false, length, take, drop, ltb, if◌then◌else◌,
}
use nf_engine.Packet.{Packet}
use nf_engine.Reactor.Tls.Receive.{SslError, want_read, want_write, other}

-- `wrote n`: `SSL_write` took `n` bytes.
pub data SslWrite : Type 0 where
  wrote : ℕ → SslWrite
  error : SslError → SslWrite

-- `!txQueue().empty()`
abbrev pub has_packets : List Packet → Bool
has_packets [] = false
has_packets (pkt ∷ more) = true

-- `updateTxOffset`
unfoldable pub update_tx_offset : Packet → ℕ → Packet
update_tx_offset pkt n =
    let offset = pkt.tx_offset + n in
    record pkt {
      tx_offset = if ltb (length pkt.payload) offset then length pkt.payload else offset;
    }

-- The bytes of a packet that are still to be written.
abbrev pub unwritten : Packet → List ℕ
unwritten pkt = drop pkt.tx_offset pkt.payload

-- How the loop on one packet ends: the packet is written and these events are left, it goes back
-- to the queue, or the connection is closed.
pub data Written : Type 0 where
  whole : List SslWrite → Written
  back : Packet → Written
  failed : Written
  unanswered : Written

unfoldable pub give_up : SslError → Packet → Written
give_up want_read pkt = back pkt
give_up want_write pkt = back pkt
give_up other pkt = failed

-- The inner loop, and the bytes that `SSL_write` took.
unfoldable pub write_packet : List SslWrite → Packet → List ℕ × Written
unfolding update_tx_offset give_up
write_packet [] pkt =
    if ltb pkt.tx_offset (length pkt.payload) then ([], Written.unanswered) else ([], whole [])
write_packet (wrote n ∷ events) pkt = elim (ltb pkt.tx_offset (length pkt.payload)) [
  | true ↦
      let (more, e) = write_packet events (update_tx_offset pkt n) in
      (take n (unwritten pkt) ++ more, e)
  | false ↦ ([], whole (wrote n ∷ events))
]
write_packet (error e ∷ events) pkt =
    if ltb pkt.tx_offset (length pkt.payload)
    then ([], give_up e pkt)
    else ([], whole (error e ∷ events))

-- How `flushTx` ends: with no packet left, with the budget used up, with EPOLLOUT asked for, or
-- with the connection closed.
pub data Flushed : Type 0 where
  emptied : Flushed
  stopped blocked : List Packet → Flushed
  failed : Flushed
  unanswered : Flushed

-- What the outer loop does after a packet; `more` is the loop on the packets behind it, `q`.
unfoldable pub flush_next :
    (List SslWrite → List ℕ × Flushed) → List Packet → List ℕ × Written → List ℕ × Flushed
flush_next more q (out, whole events) = let (out', e) = more events in (out ++ out', e)
flush_next more q (out, back pkt) = (out, blocked (pkt ∷ q))
flush_next more q (out, Written.failed) = (out, Flushed.failed)
flush_next more q (out, Written.unanswered) = (out, Flushed.unanswered)

-- The outer loop; `budget - used` packets may still be written.
unfoldable pub flush_loop : ℕ → List Packet → List SslWrite → List ℕ × Flushed
unfolding write_packet flush_next
flush_loop zero q events = ([], stopped q)
flush_loop (suc budget) [] events = ([], emptied)
flush_loop (suc budget) (pkt ∷ q) events =
    flush_next (flush_loop budget q) q (write_packet events pkt)
