-- ===== src/Reactor/Tls/Transmit/Left.antt =====
-- The packets that TlsReactor::flushTx leaves in the queue.
use nf_engine.Prelude.{
  ℕ, zero, suc, ◌≤◌, ◌≡◌, List, [], ◌∷◌, ◌++◌, ltb, arith, length, Bool-cases, inl, inr,
}
use nf_engine.Packet.{Packet}
use nf_engine.Reactor.Tls.Receive.{SslError, want_read, want_write, other}
use nf_engine.Reactor.Tls.Transmit.{
  SslWrite, wrote, error, update_tx_offset, Written, whole, back, give_up, write_packet, Flushed,
  emptied, stopped, blocked, failed, unanswered, flush_next, flush_loop,
}

-- A packet for the descriptor, of which no more than all has been written.
abbrev pub Fits : ℕ → Packet → Type 0
Fits fd pkt = (pkt.fd ≡ fd) × (pkt.tx_offset ≤ length pkt.payload)

abbrev pub FitAll : ℕ → List Packet → Type 0
FitAll fd [] = Unit
FitAll fd (pkt ∷ more) = Fits fd pkt × FitAll fd more

pub FitAll-append :
    (fd : ℕ) (q : List Packet) (pkt : Packet)
    → FitAll fd q
    → Fits fd pkt
    → FitAll fd (q ++ pkt ∷ [])
FitAll-append fd [] pkt h p = (p, tt)
FitAll-append fd (first ∷ q) pkt h p = (h.0, FitAll-append fd q pkt h.1 p)

update_tx_offset-Fits :
    (fd : ℕ) (pkt : Packet) (n : ℕ) → Fits fd pkt → Fits fd (update_tx_offset pkt n)
unfolding update_tx_offset
update_tx_offset-Fits fd pkt n h = ground arith

abbrev Back : ℕ → Written → Type 0
Back fd (whole events) = Unit
Back fd (back pkt) = Fits fd pkt
Back fd Written.failed = Unit
Back fd Written.unanswered = Unit

give_up-Back : (fd : ℕ) (e : SslError) (pkt : Packet) → Fits fd pkt → Back fd (give_up e pkt)
unfolding give_up
give_up-Back fd want_read pkt h = h
give_up-Back fd want_write pkt h = h
give_up-Back fd other pkt h = tt

write_packet-Back :
    (fd : ℕ) (events : List SslWrite) (pkt : Packet)
    → Fits fd pkt
    → Back fd (write_packet events pkt).1
unfolding write_packet
write_packet-Back fd [] pkt h = elim (Bool-cases (ltb pkt.tx_offset (length pkt.payload))) [
  | inl e ↦ rw (e, write_packet) tt
  | inr e ↦ rw (e, write_packet) tt
]
write_packet-Back fd (wrote n ∷ events) pkt h =
    elim (Bool-cases (ltb pkt.tx_offset (length pkt.payload))) [
      | inl e ↦
          rw (e, write_packet)
            (write_packet-Back fd events (update_tx_offset pkt n)
              (update_tx_offset-Fits fd pkt n h))
      | inr e ↦ rw (e, write_packet) tt
    ]
write_packet-Back fd (error why ∷ events) pkt h =
    elim (Bool-cases (ltb pkt.tx_offset (length pkt.payload))) [
      | inl e ↦ rw (e, write_packet) (give_up-Back fd why pkt h)
      | inr e ↦ rw (e, write_packet) tt
    ]

-- The packets that stay.
abbrev pub Left : ℕ → Flushed → Type 0
Left fd emptied = Unit
Left fd (stopped q) = FitAll fd q
Left fd (blocked q) = FitAll fd q
Left fd failed = Unit
Left fd unanswered = Unit

flush_next-Left :
    (fd : ℕ) (more : List SslWrite → List ℕ × Flushed) (q : List Packet) (out : List ℕ)
    (w : Written)
    → FitAll fd q
    → Back fd w
    → ((events : List SslWrite) → Left fd (more events).1)
    → Left fd (flush_next more q (out, w)).1
unfolding flush_next
flush_next-Left fd more q out (whole events) h b rest = rest events
flush_next-Left fd more q out (back pkt) h b rest = (b, h)
flush_next-Left fd more q out Written.failed h b rest = tt
flush_next-Left fd more q out Written.unanswered h b rest = tt

pub flush_loop-Left :
    (fd budget : ℕ) (q : List Packet) (events : List SslWrite)
    → FitAll fd q
    → Left fd (flush_loop budget q events).1
unfolding flush_loop
flush_loop-Left fd zero q events h = h
flush_loop-Left fd (suc budget) [] events h = tt
flush_loop-Left fd (suc budget) (pkt ∷ q) events h =
    flush_next-Left fd (flush_loop budget q) q (write_packet events pkt).0
      (write_packet events pkt).1 h.1 (write_packet-Back fd events pkt h.0)
      (λ more. flush_loop-Left fd budget q more h.1)
