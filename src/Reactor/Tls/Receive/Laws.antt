-- ===== src/Reactor/Tls/Receive/Laws.antt =====
-- The loop of TlsReactor::receive beside that of TcpReactor::receive.
use nf_engine.Prelude.{ℕ, ◌≤◌, ◌≡◌, refl, sym, List, [], ◌∷◌, map, arith, length}
use mathlib.Core.Path.{subst}
use nf_engine.Ring.{Ring, capacity, produce, store}
use nf_engine.Ring.Inv.{IsValid, contents}
use nf_engine.Framing.Spec.{IsIncomplete}
use nf_engine.Framing.Laws.{packet_format, tls_framer}
use nf_engine.Framing.Tls.{try_extract_frame}
use nf_engine.Reactor.Receive.{Recv, Received, Drained, idle, broken, stuck, drain_all}
use nf_engine.Reactor.Receive
use nf_engine.Reactor.Receive.Outcome.{Respects, Explains}
use nf_engine.Reactor.Receive.Laws.{receive_lem}
use nf_engine.Reactor.Tls.Receive.{
  want_read, want_write, other, SslRead, bytes, error, Ending, waiting, writing, closed, unanswered,
  out_of_fuel, receive_loop,
}

-- The answer of `recv` that TcpReactor treats in the same way, but for the events of epoll.
abbrev pub plain_read : SslRead → Recv
plain_read (bytes xs) = Recv.bytes xs
plain_read (error want_read) = Recv.again
plain_read (error want_write) = Recv.again
plain_read (error other) = Recv.fail

abbrev pub plain : Ending → Receive.Ending
plain (waiting r) = Receive.waiting r
plain (writing r) = Receive.waiting r
plain (closed why) = Receive.closed why
plain unanswered = Receive.unanswered
plain out_of_fuel = Receive.out_of_fuel

abbrev plain_out : List (List ℕ) × Ending → Received
plain_out (frames, e) = (frames, plain e)

abbrev Same : List SslRead → Ring → Type 0
Same events r =
    plain_out (receive_loop events r)
    ≡ Receive.receive_loop try_extract_frame (map plain_read events) r

bytes-Same :
    (xs : List ℕ) (events : List SslRead) (r : Ring) (d : Drained)
    → drain_all try_extract_frame (produce (store r xs) (length xs)) ≡ d
    → ((r' : Ring) → Same events r')
    → Same (bytes xs ∷ events) r
unfolding receive_loop Receive.receive_loop
bytes-Same xs events r (idle frames r') e same = ground (arith, same r')
bytes-Same xs events r (broken frames why) e same = ground arith
bytes-Same xs events r stuck e same = ground arith

receive_loop-Same : (events : List SslRead) (r : Ring) → Same events r
unfolding receive_loop Receive.receive_loop
receive_loop-Same [] r = ground arith
receive_loop-Same (bytes xs ∷ events) r =
    bytes-Same xs events r _ refl (λ r'. receive_loop-Same events r')
receive_loop-Same (error want_read ∷ events) r = ground arith
receive_loop-Same (error want_write ∷ events) r = ground arith
receive_loop-Same (error other ∷ events) r = ground arith

-- The bytes that `SSL_read` has brought, and what it must obey, as for `recv`.
abbrev pub Obeys : List SslRead → Ring → Type 0
Obeys events r = Respects tls_framer (map plain_read events) r

-- One call of `receive` hands the workers exactly the frames of the stream of bytes held before
-- and decrypted bytes that arrived, in their order. What is left waits in the ring, or the
-- connection is closed, when `SSL_read` has no more to give or the ring is full of a frame that is
-- longer than it.
pub tls_receive_lem :
    (events : List SslRead) (r : Ring)
    → IsValid r
    → IsIncomplete packet_format (contents r)
    → packet_format.header_size ≤ capacity r
    → Obeys events r
    → Explains packet_format
        (capacity r)
        (contents r)
        (map plain_read events)
        (receive_loop events r).0
        (plain (receive_loop events r).1)
tls_receive_lem events r v short fit obeys =
    subst
      (λ out. Explains packet_format (capacity r) (contents r) (map plain_read events) out.0 out.1)
      (sym (receive_loop-Same events r))
      (receive_lem tls_framer (map plain_read events) r v short fit obeys)
