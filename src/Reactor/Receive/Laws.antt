-- ===== src/Reactor/Receive/Laws.antt =====
-- One call of `receive`: what it hands to the workers, for any way in which the bytes arrive.
use nf_engine.Prelude.{ℕ, suc, ◌≤◌, ◌≡◌, ◌≢◌, refl, sym, List, [], ◌∷◌, ◌++◌, arith, length}
use mathlib.Core.Path.{subst, subst₂}
use native.Mathlib.Decide.{ℕ_discrete}
use nf_engine.Ring.{Ring, capacity, write_len, produce, store}
use nf_engine.Ring.Inv.{IsValid, contents}
use nf_engine.Ring.Chunk.{produce-Extended}
use nf_engine.Framing.Spec.{Framer, IsIncomplete}
use nf_engine.Framing.Stream.{Deframed-IsIncomplete}
use nf_engine.Reactor.Receive.{
  Recv, bytes, eof, intr, again, fail, rx_full, peer_closed, recv_failed, Drained, idle, broken,
  stuck, waiting, closed, unanswered, out_of_fuel, Received, after, drain_all, receive_loop,
}
use nf_engine.Reactor.Receive.Outcome.{
  arrived, Respects, Explains, Explains-after, Explains-close, Explains-wait, full-Blame,
}
use nf_engine.Reactor.Receive.Drain.{Drains, drain-Drains}

receive_full :
    (m : Framer) (events : List Recv) (r : Ring)
    → write_len r ≡ 0
    → receive_loop m.extract events r ≡ ([], closed rx_full)
unfolding receive_loop
receive_full m [] r e = ground arith
receive_full m (bytes xs ∷ events) r e = ground arith
receive_full m (eof ∷ events) r e = ground arith
receive_full m (intr ∷ events) r e = ground arith
receive_full m (again ∷ events) r e = ground arith
receive_full m (fail ∷ events) r e = ground arith

-- What a call that ends as `out` has done.
abbrev Outcome : Framer → ℕ → List ℕ → List Recv → Received → Type 0
Outcome m c held events out = Explains m.format c held events out.0 out.1

receive_bytes :
    (m : Framer) (c : ℕ) (xs : List ℕ) (events : List Recv) (r : Ring) (d : Drained)
    → write_len r ≢ 0
    → drain_all m.extract (produce (store r xs) (length xs)) ≡ d
    → Drains m.format c (contents r ++ xs) d
    → ((frames : List (List ℕ)) (r' : Ring)
        → d ≡ idle frames r'
        → IsValid r'
        → capacity r' ≡ c
        → IsIncomplete m.format (contents r')
        → Outcome m c (contents r') events (receive_loop m.extract events r'))
    → Outcome m c (contents r) (bytes xs ∷ events) (receive_loop m.extract (bytes xs ∷ events) r)
unfolding receive_loop
receive_bytes m c xs events r (idle frames r') room e (v, same, cut) next_call =
    subst (Outcome m c (contents r) (bytes xs ∷ events)) (sym eq) (
      Explains-after m.format c (contents r) xs events frames (contents r') _ _ cut
        (next_call frames r' refl v same (Deframed-IsIncomplete m.format cut)))
  where
    eq :
        receive_loop m.extract (bytes xs ∷ events) r
        ≡ after frames (receive_loop m.extract events r')
    eq = ground arith
receive_bytes m c xs events r (broken frames why) room e d next_call = absurd d
receive_bytes m c xs events r stuck room e d next_call = absurd d

-- The calls of `recv` that bring no bytes, with room in the ring.
module _ (m : Framer) (events : List Recv) (r : Ring) (room : write_len r ≢ 0) where
  receive_none : receive_loop m.extract [] r ≡ ([], unanswered)
  unfolding receive_loop
  receive_none = ground arith

  receive_eof : receive_loop m.extract (eof ∷ events) r ≡ ([], closed peer_closed)
  unfolding receive_loop
  receive_eof = ground arith

  receive_intr : receive_loop m.extract (intr ∷ events) r ≡ receive_loop m.extract events r
  unfolding receive_loop
  receive_intr = ground arith

  receive_again : receive_loop m.extract (again ∷ events) r ≡ ([], waiting r)
  unfolding receive_loop
  receive_again = ground arith

  receive_fail : receive_loop m.extract (fail ∷ events) r ≡ ([], closed recv_failed)
  unfolding receive_loop
  receive_fail = ground arith

-- A call that finds the ring full closes the connection; any other reads from the socket.
with_room :
    (m : Framer) (events : List Recv) (r : Ring)
    → IsValid r
    → IsIncomplete m.format (contents r)
    → m.format.header_size ≤ capacity r
    → (write_len r ≢ 0
        → Outcome m (capacity r) (contents r) events (receive_loop m.extract events r))
    → Outcome m (capacity r) (contents r) events (receive_loop m.extract events r)
with_room m events r v short fit go = elim (ℕ_discrete (write_len r) 0) [
  | yes e ↦ subst (Outcome m (capacity r) (contents r) events) (sym (receive_full m events r e)) (
      Explains-close m.format (capacity r) (contents r) events rx_full short
        (full-Blame m.format (arrived events) v short fit e))
  | no room ↦ go room
]

pub receive_lem :
    (m : Framer) (events : List Recv) (r : Ring)
    → IsValid r
    → IsIncomplete m.format (contents r)
    → m.format.header_size ≤ capacity r
    → Respects m events r
    → let (frames, e) = receive_loop m.extract events r in
      Explains m.format (capacity r) (contents r) events frames e
receive_lem m [] r v short fit obeys =
    with_room m [] r v short fit
      λ room. subst (Outcome m (capacity r) (contents r) []) (sym (receive_none m [] r room)) tt
receive_lem m (bytes xs ∷ events) r v short fit obeys =
    with_room m (bytes xs ∷ events) r v short fit λ room.
      let grown = produce-Extended xs v room (obeys.0 room) in
      let r1 = produce (store r xs) (length xs) in
      let cut : Drains m.format (capacity r) (contents r ++ xs) (drain_all m.extract r1) =
        subst₂ (λ c zs. Drains m.format c zs (drain_all m.extract r1)) grown.capacity_kept
          grown.bytes (drain-Drains m (suc r1.size) r1 grown.valid (omega arith)) in
      receive_bytes m (capacity r) xs events r (drain_all m.extract r1) room refl cut
        λ frames r' e v' same short'.
          subst (λ c. Outcome m c (contents r') events (receive_loop m.extract events r')) same
            (receive_lem m events r' v' short' (omega (arith, same, fit)) (obeys.1 frames r' e))
receive_lem m (eof ∷ events) r v short fit obeys = with_room m (eof ∷ events) r v short fit λ room.
    subst (Outcome m (capacity r) (contents r) (eof ∷ events)) (sym (receive_eof m events r room))
      (Explains-close m.format (capacity r) (contents r) (eof ∷ events) peer_closed short refl)
receive_lem m (intr ∷ events) r v short fit obeys =
    with_room m (intr ∷ events) r v short fit λ room.
      subst (Outcome m (capacity r) (contents r) (intr ∷ events))
        (sym (receive_intr m events r room))
        (skip (receive_loop m.extract events r) (receive_lem m events r v short fit obeys))
  where
    skip :
        (out : Received)
        → Outcome m (capacity r) (contents r) events out
        → Outcome m (capacity r) (contents r) (intr ∷ events) out
    skip (frames, waiting r') d = d
    skip (frames, closed why) d = d
    skip (frames, unanswered) d = d
    skip (frames, out_of_fuel) d = d
receive_lem m (again ∷ events) r v short fit obeys =
    with_room m (again ∷ events) r v short fit λ room.
      subst (Outcome m (capacity r) (contents r) (again ∷ events))
        (sym (receive_again m events r room))
        (Explains-wait m.format (capacity r) r (contents r) (again ∷ events) v refl refl refl short)
receive_lem m (fail ∷ events) r v short fit obeys =
    with_room m (fail ∷ events) r v short fit λ room.
      subst (Outcome m (capacity r) (contents r) (fail ∷ events))
        (sym (receive_fail m events r room))
        (Explains-close m.format (capacity r) (contents r) (fail ∷ events) recv_failed short refl)
