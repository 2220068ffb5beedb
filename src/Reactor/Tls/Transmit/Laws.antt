-- ===== src/Reactor/Tls/Transmit/Laws.antt =====
-- What TlsReactor::flushTx writes.
use nf_engine.Prelude.{
  ℕ, zero, suc, ◌+◌, ◌≤◌, ◌<◌, ◌≡◌, refl, sym, ap, ap₂, ◌∙◌, List, [], ◌∷◌, ◌++◌, false, length,
  take, drop, ltb, arith, append_assoc, drop-drop, drop-all, take-append-drop, Bool-cases, inl, inr,
}
use mathlib.Core.Path.{subst}
use nf_engine.Packet.{Packet}
use nf_engine.Reactor.Tls.Receive.{SslError, want_read, want_write, other}
use nf_engine.Reactor.Tls.Transmit.{
  SslWrite, wrote, error, update_tx_offset, unwritten, Written, whole, back, give_up, write_packet,
  Flushed, emptied, stopped, blocked, failed, unanswered, flush_next, flush_loop,
}

-- The bytes of a queue that are still to be written, in their order.
abbrev pub pending : List Packet → List ℕ
pending [] = []
pending (pkt ∷ more) = unwritten pkt ++ pending more

-- An offset that is held back at the end of the payload leaves nothing, as the true one would.
unwritten-update :
    (pkt : Packet) (n : ℕ) → unwritten (update_tx_offset pkt n) ≡ drop n (unwritten pkt)
unfolding update_tx_offset
unwritten-update pkt n = elim (Bool-cases (ltb (length pkt.payload) (pkt.tx_offset + n))) [
  | inl past ↦ rw past (
      drop-all (length pkt.payload) pkt.payload (omega arith)
      ∙ sym (
          drop-drop pkt.tx_offset n pkt.payload
          ∙ drop-all (pkt.tx_offset + n) pkt.payload (ground arith)))
  | inr within ↦ rw within (sym (drop-drop pkt.tx_offset n pkt.payload))
]

-- What the loop on one packet has done with the bytes `held` of it.
abbrev Writes : List ℕ → List ℕ × Written → Type 0
Writes held (out, whole events) = out ≡ held
Writes held (out, back pkt) = out ++ unwritten pkt ≡ held
Writes held (out, Written.failed) = (lost : List ℕ) × (out ++ lost ≡ held)
Writes held (out, Written.unanswered) = Unit {0}

Writes-more :
    (sent held : List ℕ) (out : List ℕ) (w : Written)
    → Writes held (out, w)
    → Writes (sent ++ held) (sent ++ out, w)
Writes-more sent held out (whole events) h = ap (λ xs. sent ++ xs) h
Writes-more sent held out (back pkt) h =
    append_assoc sent out (unwritten pkt) ∙ ap (λ xs. sent ++ xs) h
Writes-more sent held out Written.failed (lost, h) =
    (lost, append_assoc sent out lost ∙ ap (λ xs. sent ++ xs) h)
Writes-more sent held out Written.unanswered h = tt

give_up-Writes : (e : SslError) (pkt : Packet) → Writes (unwritten pkt) ([], give_up e pkt)
unfolding give_up
give_up-Writes want_read pkt = refl
give_up-Writes want_write pkt = refl
give_up-Writes other pkt = (unwritten pkt, refl)

nothing_left : (pkt : Packet) → ltb pkt.tx_offset (length pkt.payload) ≡ false → unwritten pkt ≡ []
nothing_left pkt e = drop-all pkt.tx_offset pkt.payload (ground arith)

write_packet-Writes :
    (events : List SslWrite) (pkt : Packet) → Writes (unwritten pkt) (write_packet events pkt)
unfolding write_packet
write_packet-Writes [] pkt = elim (Bool-cases (ltb pkt.tx_offset (length pkt.payload))) [
  | inl e ↦ rw (e, write_packet) tt
  | inr e ↦ rw (e, write_packet) (sym (nothing_left pkt e))
]
write_packet-Writes (wrote n ∷ events) pkt =
    elim (Bool-cases (ltb pkt.tx_offset (length pkt.payload))) [
      | inl e ↦
          rw (e, write_packet)
            (subst (λ held. Writes held (take n (unwritten pkt) ++ next_out.0, next_out.1))
              (ap (λ xs. take n (unwritten pkt) ++ xs) (unwritten-update pkt n)
                ∙ take-append-drop n (unwritten pkt))
              (Writes-more (take n (unwritten pkt)) (unwritten (update_tx_offset pkt n)) next_out.0
                next_out.1 (write_packet-Writes events (update_tx_offset pkt n))))
      | inr e ↦ rw (e, write_packet) (sym (nothing_left pkt e))
    ]
  where
    next_out : List ℕ × Written
    next_out = write_packet events (update_tx_offset pkt n)
write_packet-Writes (error e ∷ events) pkt =
    elim (Bool-cases (ltb pkt.tx_offset (length pkt.payload))) [
      | inl more ↦ rw (more, write_packet) (give_up-Writes e pkt)
      | inr none_left ↦ rw (none_left, write_packet) (sym (nothing_left pkt none_left))
    ]

-- What `flushTx` with a budget has done with a queue of packets.
abbrev pub Sends : ℕ → List Packet → List ℕ × Flushed → Type 0
Sends budget q (out, emptied) = out ≡ pending q
Sends budget q (out, stopped q') = (out ++ pending q' ≡ pending q) × (length q' + budget ≡ length q)
Sends budget q (out, blocked q') =
    (out ++ pending q' ≡ pending q) × (length q < length q' + budget) × (length q' ≤ length q)
Sends budget q (out, failed) = (lost : List ℕ) × (out ++ lost ≡ pending q)
Sends budget q (out, unanswered) = Unit {0}

Sends-packet :
    (budget : ℕ) (pkt : Packet) (q : List Packet) (sent out : List ℕ) (e : Flushed)
    → sent ≡ unwritten pkt
    → Sends budget q (out, e)
    → Sends (suc budget) (pkt ∷ q) (sent ++ out, e)
Sends-packet budget pkt q sent out emptied w h = ap₂ (λ xs ys. xs ++ ys) w h
Sends-packet budget pkt q sent out (stopped q') w h =
    (append_assoc sent out (pending q') ∙ ap₂ (λ xs ys. xs ++ ys) w h.0, omega (arith, h.1))
Sends-packet budget pkt q sent out (blocked q') w h = (
  append_assoc sent out (pending q') ∙ ap₂ (λ xs ys. xs ++ ys) w h.0,
  omega (arith, h.1),
  omega (arith, h.2),
)
Sends-packet budget pkt q sent out failed w (lost, h) =
    (lost, append_assoc sent out lost ∙ ap₂ (λ xs ys. xs ++ ys) w h)
Sends-packet budget pkt q sent out unanswered w h = tt

flush_step :
    (budget : ℕ) (pkt : Packet) (q : List Packet) (out : List ℕ) (w : Written)
    → Writes (unwritten pkt) (out, w)
    → ((events : List SslWrite) → Sends budget q (flush_loop budget q events))
    → Sends (suc budget) (pkt ∷ q) (flush_next (flush_loop budget q) q (out, w))
unfolding flush_next
flush_step budget pkt q out (whole events) d more =
    Sends-packet budget pkt q out (flush_loop budget q events).0 (flush_loop budget q events).1 d
      (more events)
flush_step budget pkt q out (back pkt') d more = (
  sym (append_assoc out (unwritten pkt') (pending q)) ∙ ap (λ xs. xs ++ pending q) d,
  omega arith,
  omega arith,
)
flush_step budget pkt q out Written.failed (lost, d) more =
    (lost ++ pending q, sym (append_assoc out lost (pending q)) ∙ ap (λ xs. xs ++ pending q) d)
flush_step budget pkt q out Written.unanswered d more = tt

pub flush_loop_lem :
    (budget : ℕ) (q : List Packet) (events : List SslWrite)
    → Sends budget q (flush_loop budget q events)
unfolding flush_loop
flush_loop_lem zero q events = (refl, omega arith)
flush_loop_lem (suc budget) [] events = refl
flush_loop_lem (suc budget) (pkt ∷ q) events =
    flush_step budget pkt q (write_packet events pkt).0 (write_packet events pkt).1
      (write_packet-Writes events pkt) (flush_loop_lem budget q)
