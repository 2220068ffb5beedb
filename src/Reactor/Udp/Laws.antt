-- ===== src/Reactor/Udp/Laws.antt =====
-- What UdpReactor.cpp hands to the workers, sends, and keeps.
use Prim.Native.Nat.{bit_xor}
use mathlib.Core.Path.{subst}
use native.Mathlib.Nat.{mod-lt}
use nf_engine.Prelude.{
  take, length-take, ◌==◌, ◌%◌, ◌≢◌, ℕ, suc, ◌+◌, ◌≤◌, ◌<◌, ◌≡◌, refl, sym, ap, ◌∙◌, List, [], ◌∷◌,
  ◌++◌, append_assoc, append-nil, map, Bool, true, false, ◌||◌, arith, length, length-append,
}
use nf_engine.Packet.{Addr, Packet, packet, udp}
use nf_engine.Reactor.Udp.{
  UdpReactor, Call, enqueue_rx, send_to, wakeup, RecvFrom, datagram, SendTo, sent, queue_size,
  worker, to_worker, receive_packets, push, after_send, flush_packet, flush_packets,
  process_tx_queue,
}

-- The datagrams among some answers.
abbrev pub datagrams_of : List RecvFrom → List (Addr × List ℕ)
datagrams_of [] = []
datagrams_of (datagram client payload ∷ events) = (client, payload) ∷ datagrams_of events
datagrams_of (RecvFrom.intr ∷ events) = datagrams_of events
datagrams_of (RecvFrom.again ∷ events) = datagrams_of events
datagrams_of (RecvFrom.fail ∷ events) = datagrams_of events

-- Answers after which `recvfrom` is called again, and the others.
abbrev pub GoesOn : RecvFrom → Type 0
GoesOn (datagram client payload) = payload ≢ []
GoesOn RecvFrom.intr = Unit {0}
GoesOn RecvFrom.again = ⊥
GoesOn RecvFrom.fail = ⊥

abbrev pub AllGoOn : List RecvFrom → Type 0
AllGoOn [] = Unit {0}
AllGoOn (e ∷ events) = GoesOn e × AllGoOn events

abbrev pub Stops : List RecvFrom → Type 0
Stops [] = Unit {0}
Stops (e ∷ events) = GoesOn e → ⊥

-- A datagram as the workers are to get it: its first 4096 bytes, from its sender to the server, for
-- the worker that the address and the port of the sender select.
abbrev pub delivered : UdpReactor → Addr × List ℕ → Call
delivered s (client, payload) = enqueue_rx (bit_xor client.ip client.port % s.workers) (record {
  fd = s.fd;
  conn_info = record { protocol = udp; src = client; dst = s.server_addr };
  payload = take 4096 payload;
  tx_offset = 0;
})

-- Every call is for a worker that there is.
abbrev pub AreWorkers : ℕ → List Call → Type 0
AreWorkers n [] = Unit {0}
AreWorkers n (enqueue_rx i pkt ∷ calls) = (i < n) × AreWorkers n calls
AreWorkers n (send_to client payload ∷ calls) = AreWorkers n calls
AreWorkers n (wakeup ∷ calls) = AreWorkers n calls

abbrev keep : SendTo → Packet → List Packet → List Packet
keep sent pkt more = more
keep SendTo.again pkt more = pkt ∷ more
keep SendTo.intr pkt more = pkt ∷ more
keep SendTo.fail pkt more = more

-- The packets whose `sendto` asked to be called again.
abbrev pub unsent : List Packet → (ℕ → SendTo) → List Packet
unsent [] answers = []
unsent (pkt ∷ more) answers = keep (answers 0) pkt (unsent more (λ i. answers (suc i)))

abbrev is_full : SendTo → Bool
is_full sent = false
is_full SendTo.again = true
is_full SendTo.intr = false
is_full SendTo.fail = false

-- Whether the socket was full for one of the packets.
abbrev pub was_full : List Packet → (ℕ → SendTo) → Bool
was_full [] answers = false
was_full (pkt ∷ more) answers = is_full (answers 0) || was_full more (λ i. answers (suc i))

-- What was given to `sendto`.
abbrev pub datagrams : List Call → List (Addr × List ℕ)
datagrams [] = []
datagrams (enqueue_rx i pkt ∷ more) = datagrams more
datagrams (send_to client payload ∷ more) = (client, payload) ∷ datagrams more
datagrams (wakeup ∷ more) = datagrams more

abbrev pub wakes : List Call → Bool
wakes [] = false
wakes (enqueue_rx i pkt ∷ more) = wakes more
wakes (send_to client payload ∷ more) = wakes more
wakes (wakeup ∷ more) = true

abbrev pub addressed : Packet → Addr × List ℕ
addressed pkt = (pkt.conn_info.dst, pkt.payload)

-- What the calls of `receivePackets` are for these answers of `recvfrom`.
abbrev pub Receives : UdpReactor → List RecvFrom → List Call → Type 0
Receives s events calls =
    (heard : List RecvFrom) × ((rest : List RecvFrom) × ((events ≡ heard ++ rest)
        × (AllGoOn heard × (Stops rest × (calls ≡ map (delivered s) (datagrams_of heard))))))

receive_packets-datagram :
    (s : UdpReactor) (client : Addr) (x : ℕ) (xs : List ℕ) (events : List RecvFrom)
    → receive_packets s (datagram client (x ∷ xs) ∷ events)
      ≡ delivered s (client, x ∷ xs) ∷ receive_packets s events
unfolding receive_packets to_worker worker packet
receive_packets-datagram s client x xs events =
    let some_bytes : (length (take 4096 (x ∷ xs)) == 0) ≡ false =
      ground (arith, length-take 4096 (x ∷ xs)) in
    rw (receive_packets, some_bytes) refl

receive_packets-Receives :
    (s : UdpReactor) (events : List RecvFrom) → Receives s events (receive_packets s events)
unfolding receive_packets to_worker worker packet
receive_packets-Receives s [] = ([], ([], (refl, (tt, (tt, refl)))))
receive_packets-Receives s (datagram client [] ∷ events) =
    ([], (datagram client [] ∷ events, (refl, (tt, (λ ne. ne refl, refl)))))
receive_packets-Receives s (datagram client (x ∷ xs) ∷ events) =
    let (heard, (rest, (split, (on, (off, same))))) = receive_packets-Receives s events in
    (
      datagram client (x ∷ xs) ∷ heard,
      (
        rest,
        (
          ap (λ es. datagram client (x ∷ xs) ∷ es) split,
          (
            (λ e. (let b : ⊥ = ground (arith, e) in b), on),
            (
              off,
              receive_packets-datagram s client x xs events
                  ∙ ap (λ cs. delivered s (client, x ∷ xs) ∷ cs) same,
            ),
          ),
        ),
      ),
    )
receive_packets-Receives s (RecvFrom.intr ∷ events) =
    let (heard, (rest, (split, (on, (off, same))))) = receive_packets-Receives s events in
    (RecvFrom.intr ∷ heard, (rest, (ap (λ es. RecvFrom.intr ∷ es) split, ((tt, on), (off, same)))))
receive_packets-Receives s (RecvFrom.again ∷ events) =
    ([], (RecvFrom.again ∷ events, (refl, (tt, (λ b. b, refl)))))
receive_packets-Receives s (RecvFrom.fail ∷ events) =
    ([], (RecvFrom.fail ∷ events, (refl, (tt, (λ b. b, refl)))))

delivered-AreWorkers :
    (s : UdpReactor) (ds : List (Addr × List ℕ))
    → 0 < s.workers
    → AreWorkers s.workers (map (delivered s) ds)
delivered-AreWorkers s [] some_workers = tt
delivered-AreWorkers s ((client, payload) ∷ ds) some_workers =
    (mod-lt (bit_xor client.ip client.port) some_workers, delivered-AreWorkers s ds some_workers)

-- With a worker at least: `receivePackets` calls `recvfrom` until a datagram is empty or there is an
-- error other than EINTR, and hands each datagram before that, in the order of arrival, to the worker
-- that the address and the port of its sender select, which exists: its first 4096 bytes, as a packet
-- from its sender to the server.
pub receive_packets_lem :
    (s : UdpReactor) (events : List RecvFrom)
    → 0 < s.workers
    → Receives s events (receive_packets s events) × AreWorkers s.workers (receive_packets s events)
receive_packets_lem s events some_workers =
    let (heard, (rest, (split, (on, (off, same))))) = receive_packets-Receives s events in
    (
      (heard, (rest, (split, (on, (off, same))))),
      subst (AreWorkers s.workers) (sym same)
          (delivered-AreWorkers s (datagrams_of heard) some_workers),
    )

abbrev Flushes : UdpReactor → List Packet → (ℕ → SendTo) → Type 0
Flushes s packets answers =
    ((flush_packets s packets answers).0.queue ≡ s.queue ++ unsent packets answers)
    × (datagrams (flush_packets s packets answers).1 ≡ map addressed packets)
    × (wakes (flush_packets s packets answers).1 ≡ was_full packets answers)

push_room :
    (s : UdpReactor) (pkt : Packet)
    → length s.queue < queue_size
    → (push s pkt).0 ≡ record s { queue = s.queue ++ pkt ∷ [] }
unfolding push
push_room s pkt room = ground arith

-- What a packet that is kept leaves to the packets behind it.
abbrev pushed : UdpReactor → Packet → UdpReactor
pushed s pkt = record s { queue = s.queue ++ pkt ∷ [] }

module _ (s : UdpReactor) (pkt : Packet) (more : List Packet) (answers : ℕ → SendTo) where
  flush_step :
      (answer : SendTo)
      → answers 0 ≡ answer
      → length s.queue < queue_size
      → Flushes s more (λ i. answers (suc i))
      → Flushes (pushed s pkt) more (λ i. answers (suc i))
      → Flushes s (pkt ∷ more) answers
  unfolding flush_packets flush_packet after_send
  flush_step sent e room kept ih = rw e (kept.0, ap (◌∷◌ (addressed pkt)) kept.1, kept.2)
  flush_step SendTo.again e room kept ih = rw e (
      rw (push_room s pkt room) (
        ih.0 ∙ append_assoc s.queue (pkt ∷ []) (unsent more (λ i. answers (suc i))),
        ap (◌∷◌ (addressed pkt)) ih.1,
        refl,
      ))
  flush_step SendTo.intr e room kept ih = rw e (
      rw (push_room s pkt room) (
        ih.0 ∙ append_assoc s.queue (pkt ∷ []) (unsent more (λ i. answers (suc i))),
        ap (◌∷◌ (addressed pkt)) ih.1,
        ih.2,
      ))
  flush_step SendTo.fail e room kept ih = rw e (kept.0, ap (◌∷◌ (addressed pkt)) kept.1, kept.2)

-- The loop on the packets, with room in the queue for all of them.
flush_packets_lem :
    (s : UdpReactor) (packets : List Packet) (answers : ℕ → SendTo)
    → length s.queue + length packets ≤ queue_size
    → Flushes s packets answers
unfolding flush_packets
flush_packets_lem s [] answers room = (sym (append-nil s.queue), refl, refl)
flush_packets_lem s (pkt ∷ more) answers room =
    flush_step s pkt more answers (answers 0) refl (omega arith)
      (flush_packets_lem s more (λ i. answers (suc i)) (omega arith))
      (flush_packets_lem (pushed s pkt) more (λ i. answers (suc i))
        (omega (arith, length-append s.queue (pkt ∷ []))))

-- `processTxQueue` gives every packet of the queue to `sendto` once, in their order, and keeps
-- exactly those for which `sendto` answered EAGAIN or EINTR, in their order; one that it refused with
-- another error is dropped. It wakes itself up for them exactly if one of them found the socket full: after EINTR alone the packets stay in the
-- queue until something else wakes the reactor.
pub process_tx_queue_lem :
    (s : UdpReactor) (answers : ℕ → SendTo)
    → length s.queue ≤ queue_size
    → ((process_tx_queue s answers).0.queue ≡ unsent s.queue answers)
      × (datagrams (process_tx_queue s answers).1 ≡ map addressed s.queue)
      × (wakes (process_tx_queue s answers).1 ≡ was_full s.queue answers)
unfolding process_tx_queue
process_tx_queue_lem s answers bound =
    flush_packets_lem (record s { queue = [] }) s.queue answers (omega arith)
