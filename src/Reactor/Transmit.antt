-- ===== src/Reactor/Transmit.antt =====
-- The transmit side of TcpReactor and IpcReactor: `processTxQueue` puts the packets taken off the
-- queue into the rings of their connections, and `flushTxBuffer` gives a ring's bytes to `send`.
-- What `send` answers is a list of events, one for each call.
pub mod Flush
pub mod Fill
pub mod Laws
use nf_engine.Prelude.{
  ℕ, List, [], ◌∷◌, ◌++◌, Bool, true, false, Option, none, some, length, ltb, ◌==◌, if◌then◌else◌,
}
use nf_engine.Ring.{Ring, readable, writable, read_len, load, consume, write}

-- One answer of `send`: how many bytes it took, EAGAIN, or another error.
pub data Send : Type 0 where
  sent : ℕ → Send
  again fail : Send

-- How `flushTxBuffer` ends: with the ring empty, with the socket full, or with the connection closed.
-- `unanswered`: the list of events is too short.
pub data Flushed : Type 0 where
  emptied blocked : Ring → Flushed
  failed : Flushed
  unanswered : Flushed

-- The loop of `flushTxBuffer`, and the bytes that `send` took.
unfoldable pub flush_loop : List Send → Ring → List ℕ × Flushed
flush_loop [] r = if readable r == 0 then ([], emptied r) else ([], unanswered)
flush_loop (again ∷ events) r = if readable r == 0 then ([], emptied r) else ([], blocked r)
flush_loop (fail ∷ events) r = if readable r == 0 then ([], emptied r) else ([], failed)
flush_loop (sent n ∷ events) r = elim (readable r == 0) [
  | true ↦ ([], emptied r)
  | false ↦ elim (ltb n (read_len r)) [
    | true ↦ (load r n, blocked (consume r n))
    | false ↦ let (more, e) = flush_loop events (consume r n) in (load r n ++ more, e)
  ]
]

-- One packet of `processTxQueue`: its bytes go into the ring whole, or the packet is dropped. The
-- Boolean says that they went in. `none`: the loop of `write` ran out of fuel.
unfoldable pub fill : Ring → List ℕ → Option (Ring × Bool)
fill tx payload =
    if ltb (writable tx) (length payload)
    then some (tx, false)
    else elim (write tx payload) [ none ↦ none | some (n, tx') ↦ some (tx', true) ]
