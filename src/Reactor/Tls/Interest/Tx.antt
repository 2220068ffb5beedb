-- ===== src/Reactor/Tls/Interest/Tx.antt =====
-- `processTxQueue` and `onWritable` of TlsReactor.cpp, and what they ask of epoll.
use nf_engine.Prelude.{ℕ, ◌≡◌, ◌⊎◌, List, [], ◌∷◌, true, some, arith}
use nf_engine.Prelude.Assoc.{lookup}
use nf_engine.Packet.{Packet}
use nf_engine.Reactor.Tls.Transmit.{has_packets}
use nf_engine.Reactor.Tls.{
  TlsReactor, Conn, Ssl, Handled, budget, update_interest, flush_tx, on_writable,
}
use nf_engine.Reactor.Tls.Interest.{asked, asked-append, Untouched, Settled, update_interest-asked}

-- Either nothing was done for a descriptor, or it is settled.
abbrev Served : ℕ → TlsReactor → Handled → Type 0
Served fd s h = Untouched fd s h ⊎ Settled fd h

abbrev In : ℕ → List ℕ → Type 0
In fd [] = ⊥
In fd (other ∷ more) = (other ≡ fd) ⊎ In fd more

-- After `onWritable` on a connection whose handshake is finished, the last thing asked of epoll is
-- to report when the connection is writable if it has packets left, and not to if it has none.
pub on_writable-asks :
    (s : TlsReactor) (fd : ℕ) (ssl : Ssl) (c : Conn)
    → ssl.finished ≡ true
    → ssl.finished_then ≡ true
    → lookup fd (on_writable s fd ssl).0.conns ≡ some c
    → asked fd (on_writable s fd ssl).1 ≡ some (has_packets c.tx)
unfolding on_writable
on_writable-asks s fd ssl c fin fin' found =
    let flushed : Handled = flush_tx s fd budget ssl.writes in
    ground (
      arith,
      asked-append fd flushed.1 (update_interest flushed.0 fd ssl.finished_then),
      update_interest-asked flushed.0 fd ssl.finished_then {c = c} (
          let d : lookup fd (flush_tx s fd budget ssl.writes).0.conns ≡ some c = ground arith in d),
    )
