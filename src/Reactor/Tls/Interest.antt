-- ===== src/Reactor/Tls/Interest.antt =====
-- What TlsReactor.cpp asks of epoll for a connection that has packets to write.
pub mod Tx
use nf_engine.Prelude.{
  ℕ, ◌≡◌, ◌≢◌, refl, sym, ap, ◌∙◌, ◌⊎◌, inl, inr, List, [], ◌∷◌, ◌++◌, Bool, true, false, Option,
  none, some, ◌==◌, if◌then◌else◌, arith, length, ◌+◌, Bool-cases, Option-cases, some_inj,
}
use mathlib.Core.Path.{subst}
use native.Mathlib.Decide.{ℕ_discrete}
use nf_engine.Prelude.Assoc.{
  lookup, assign, erase, lookup-assign_ne, lookup-erase_ne, lookup-assign_self, lookup-erase_self,
}
use nf_engine.Packet.{Packet}
use nf_engine.Reactor.Tcp.{insert}
use nf_engine.Reactor.Tls.Transmit.{
  SslWrite, Flushed, emptied, stopped, blocked, failed, unanswered, flush_loop, has_packets,
}
use nf_engine.Reactor.Tls.Transmit.Laws.{Sends, flush_loop_lem}
use nf_engine.Reactor.Tls.{
  TlsReactor, Conn, Ssl, Call, epoll_add, epoll_del, close_fd, mod_rx, mod_rx_tx, enqueue_rx,
  ssl_write, wakeup, Handled, budget, update_interest, flushed, flush_tx, queue_packet,
  queue_packets, serve, serve_all, process_tx_queue, on_writable, close_connection,
}

-- Whether a call asks epoll to report that a descriptor is writable, or no more.
abbrev pub setting : ℕ → Call → Option Bool
setting fd (mod_rx other) = if other == fd then some false else none
setting fd (mod_rx_tx other) = if other == fd then some true else none
setting fd (epoll_add other) = if other == fd then some false else none
setting fd (epoll_del other) = none
setting fd (close_fd other) = none
setting fd (enqueue_rx worker pkt) = none
setting fd (ssl_write other out) = none
setting fd wakeup = none

-- The last such call for a descriptor.
unfoldable pub asked : ℕ → List Call → Option Bool
asked fd [] = none
asked fd (c ∷ more) = elim (asked fd more) [ none ↦ setting fd c | some b ↦ some b ]

pub asked-append :
    (fd : ℕ) (xs ys : List Call)
    → asked fd (xs ++ ys) ≡ elim (asked fd ys) [ none ↦ asked fd xs | some b ↦ some b ]
unfolding asked
asked-append fd [] ys = ground arith
asked-append fd (c ∷ xs) ys = ground (arith, asked-append fd xs ys)

-- The call that `update_interest` makes.
pub update_interest-asked :
    (s : TlsReactor) (fd : ℕ) (finished : Bool) {c : Conn}
    → lookup fd s.conns ≡ some c
    → asked fd (update_interest s fd finished) ≡ some (if finished then has_packets c.tx else true)
unfolding update_interest asked
update_interest-asked s fd finished found = ground arith

update_interest-other :
    (s : TlsReactor) (fd other : ℕ) (finished : Bool)
    → other ≢ fd
    → asked fd (update_interest s other finished) ≡ none
unfolding update_interest asked
update_interest-other s fd other finished ne = ground arith

-- A handler that was called for another descriptor.
abbrev pub Untouched : ℕ → TlsReactor → Handled → Type 0
Untouched fd s h = (lookup fd h.0.conns ≡ lookup fd s.conns) × (asked fd h.1 ≡ none)

-- Where packets are left, the handler has asked for EPOLLOUT.
abbrev pub Settled : ℕ → Handled → Type 0
Settled fd h =
    (c : Conn) → lookup fd h.0.conns ≡ some c → has_packets c.tx ≡ true → asked fd h.1 ≡ some true

flushed-Untouched :
    (s : TlsReactor) (fd other : ℕ) (c : Conn) (out : List ℕ) (e : Flushed)
    → other ≢ fd
    → Untouched fd s (flushed s other c (out, e))
unfolding flushed close_connection asked
flushed-Untouched s fd other c out emptied ne =
    (lookup-assign_ne other fd _ s.conns ne, ground arith)
flushed-Untouched s fd other c out (stopped q) ne =
    (lookup-assign_ne other fd _ s.conns ne, ground arith)
flushed-Untouched s fd other c out (blocked q) ne =
    (lookup-assign_ne other fd _ s.conns ne, ground arith)
flushed-Untouched s fd other c out failed ne = (lookup-erase_ne other fd s.conns ne, ground arith)
flushed-Untouched s fd other c out unanswered ne = (refl, ground arith)

pub flush_tx-Untouched :
    (s : TlsReactor) (fd other n : ℕ) (writes : List SslWrite)
    → other ≢ fd
    → Untouched fd s (flush_tx s other n writes)
unfolding flush_tx asked
flush_tx-Untouched s fd other n writes ne = elim (Option-cases (lookup other s.conns)) [
  | inl absent ↦ rw (absent, flush_tx) (refl, refl)
  | inr (c, there) ↦
      rw (there, flush_tx)
        (flushed-Untouched s fd other c (flush_loop n c.tx writes).0 (flush_loop n c.tx writes).1
          ne)
]

pub serve-Untouched :
    (s : TlsReactor) (fd other : ℕ) (ssl : Ssl) → other ≢ fd → Untouched fd s (serve s other ssl)
unfolding serve
serve-Untouched s fd other ssl ne = (
  (flush_tx-Untouched s fd other budget ssl.writes ne).0,
  ground (
    arith,
    asked-append fd (update_interest s other ssl.finished) (flush_tx s other budget ssl.writes).1,
    (flush_tx-Untouched s fd other budget ssl.writes ne).1,
    update_interest-other s fd other ssl.finished ne,
  ),
)

has_packets-more :
    (q q' : List Packet) (n : ℕ)
    → length q' + n ≡ length q
    → has_packets q' ≡ true
    → has_packets q ≡ true
has_packets-more q [] n e h = cc
has_packets-more [] (pkt ∷ q') n e h = absurd (omega arith)
has_packets-more (other ∷ q) (pkt ∷ q') n e h = refl

-- The calls before the end of `flushTx` have asked for EPOLLOUT if there were packets.
flushed-Settled :
    (s : TlsReactor) (fd n : ℕ) (c : Conn) (before : List Call) (out : List ℕ) (e : Flushed)
    → lookup fd s.conns ≡ some c
    → (has_packets c.tx ≡ true → asked fd before ≡ some true)
    → Sends n c.tx (out, e)
    → Settled fd ((flushed s fd c (out, e)).0, before ++ (flushed s fd c (out, e)).1)
unfolding flushed close_connection asked
flushed-Settled s fd n c before out emptied there armed d c' found h =
    ground (arith, lookup-assign_self fd (record c { tx = [] }) s.conns)
flushed-Settled s fd n c before out (stopped q) there armed d c' found h =
    let left : has_packets q ≡ true =
      ground (arith, lookup-assign_self fd (record c { tx = q }) s.conns) in
    ground (
      arith,
      asked-append fd before (ssl_write fd out ∷ []),
      armed (has_packets-more c.tx q n d.1 left),
    )
flushed-Settled s fd n c before out (blocked q) there armed d c' found h =
    asked-append fd before (ssl_write fd out ∷ mod_rx_tx fd ∷ []) ∙ (ground arith)
flushed-Settled s fd n c before out failed there armed d c' found h =
    ground (arith, lookup-erase_self fd s.conns)
flushed-Settled s fd n c before out unanswered there armed d c' found h =
    let left : has_packets c.tx ≡ true = ground arith in
    ground (arith, asked-append fd before (ssl_write fd out ∷ []), armed left)

pub serve-Settled : (s : TlsReactor) (fd : ℕ) (ssl : Ssl) → Settled fd (serve s fd ssl)
unfolding serve flush_tx
serve-Settled s fd ssl = elim (Option-cases (lookup fd s.conns)) [
  | inl absent ↦ rw (absent, flush_tx) λ c found h. absurd (let d : ⊥ = ground arith in d)
  | inr (c, there) ↦
      rw (there, flush_tx)
        (flushed-Settled s fd budget c (update_interest s fd ssl.finished)
          (flush_loop budget c.tx ssl.writes).0 (flush_loop budget c.tx ssl.writes).1 there
          (λ h. ground (arith, update_interest-asked s fd ssl.finished there))
          (flush_loop_lem budget c.tx ssl.writes))
]
