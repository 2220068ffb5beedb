-- ===== src/Reactor/Ipc/Run/Inv.antt =====
-- The handlers of IpcReactor.cpp, one by one, and the rings of the connections.
use nf_engine.Prelude.{
  ℕ, ◌+◌, ◌%◌, ◌^◌, ◌<◌, ◌≡◌, ◌≢◌, refl, sym, ap, ◌∙◌, inl, inr, List, [], ◌∷◌, none, some, arith,
  length, ◌==◌, Bool-cases, Option-cases,
}
use mathlib.Core.Path.{subst}
use nf_engine.Prelude.Assoc.{lookup, Values, Values-assign, Values-erase, Values-emplace}
use nf_engine.Ring.{capacity, init, readable}
use nf_engine.Ring.Inv.{IsValid, contents, init-IsValid, capacity-init}
use nf_engine.Ipc.{IpcMessage, message}
use nf_engine.Framing.Spec.{IsIncomplete}
use nf_engine.Framing.Laws.{ipc_format, ipc_framer}
use nf_engine.Framing.Stream.{Deframed-IsIncomplete}
use nf_engine.Framing.Ipc.{try_extract_frame}
use nf_engine.Reactor.Receive.{Recv, Ending, waiting, closed, unanswered, out_of_fuel, receive_loop}
use nf_engine.Reactor.Receive.Outcome.{Respects, Explains}
use nf_engine.Reactor.Receive.Laws.{receive_lem}
use nf_engine.Reactor.Transmit.{Send, Flushed, emptied, blocked, failed, flush_loop}
use nf_engine.Reactor.Transmit.Flush.{Takes, Sends, flush_lem}
use nf_engine.Reactor.Transmit.Fill.{fill_lem}
use nf_engine.Reactor.Ipc.{
  Call, IpcReactor, Conn, Handled, ring_size, accept_connection, close_connection, post, finish,
  receive, flushed, flush_tx_buffer, process_message,
}
use nf_engine.Reactor.Ipc.Laws.{post-Explains, receive-step}

-- Between two events both rings are valid and of the size they were made with, and the receive
-- ring holds no whole frame.
pub record IsConn (c : Conn) : Type 0 where
  pub rx_valid : IsValid c.rx
  pub rx_size : capacity c.rx ≡ ring_size
  pub rx_cut : IsIncomplete ipc_format (contents c.rx)
  pub tx_valid : IsValid c.tx
  pub tx_size : capacity c.tx ≡ ring_size

abbrev pub Inv : IpcReactor → Type 0
Inv s = Values IsConn s.conns

new-IsConn : IsConn (record { rx = init ring_size; tx = init ring_size })
new-IsConn = record {
  rx_valid = (init-IsValid ring_size (omega arith) (omega arith)).0;
  rx_size = capacity-init ring_size;
  rx_cut = inl (omega (arith, ap length (init-IsValid ring_size (omega arith) (omega arith)).1));
  tx_valid = (init-IsValid ring_size (omega arith) (omega arith)).0;
  tx_size = capacity-init ring_size;
}

pub accept_connection-Inv :
    (s : IpcReactor) (fds : List ℕ) → Inv s → Inv (accept_connection s fds).0
unfolding accept_connection
accept_connection-Inv s [] v = v
accept_connection-Inv s (fd ∷ more) v =
    accept_connection-Inv (record s { conns = _ }) more
      (Values-emplace IsConn fd _ s.conns v new-IsConn)

pub close_connection-Inv : (s : IpcReactor) (fd : ℕ) → Inv s → Inv (close_connection s fd).0
unfolding close_connection
close_connection-Inv s fd v = Values-erase IsConn fd s.conns v

finish-Inv :
    (s : IpcReactor) (fd : ℕ) (c : Conn) (events : List Recv) (frames : List (List ℕ)) (e : Ending)
    → Inv s
    → IsConn c
    → Explains ipc_format ring_size (contents c.rx) events frames e
    → Inv (finish s fd c e).0
unfolding finish
finish-Inv s fd c events frames (waiting r) v k (valid, size, cut) =
    Values-assign IsConn fd (record c { rx = r }) s.conns v
      (record {
        rx_valid = valid;
        rx_size = size;
        rx_cut = Deframed-IsIncomplete ipc_format cut;
        tx_valid = k.tx_valid;
        tx_size = k.tx_size;
      })
finish-Inv s fd c events frames (closed why) v k x = Values-erase IsConn fd s.conns v
finish-Inv s fd c events frames unanswered v k x = v
finish-Inv s fd c events frames out_of_fuel v k x = v

-- Posting changes no connection.
post-conns :
    (s s' : IpcReactor) (fd : ℕ) (frames : List (List ℕ)) {calls : List Call}
    → post s fd frames ≡ some (s', calls)
    → s'.conns ≡ s.conns
unfolding post
post-conns s s' fd [] e = ground arith
post-conns s s' fd (frame ∷ more) e = elim (Option-cases (message fd frame)) [
  | inl thrown ↦ absurd (let d : ⊥ = ground arith in d)
  | inr (m, made) ↦ elim (Option-cases (post (record s { rr = (s.rr + 1) % 2 ^ 64 }) fd more)) [
    | inl thrown ↦ absurd (let d : ⊥ = ground arith in d)
    | inr ((k, calls'), rest) ↦
        let d : k.conns ≡ s.conns =
          post-conns (record s { rr = (s.rr + 1) % 2 ^ 64 }) k fd more rest in
        ground arith
  ]
]

receive-absent :
    (s : IpcReactor) (fd : ℕ) (events : List Recv)
    → lookup fd s.conns ≡ none
    → receive s fd events ≡ some (s, [])
unfolding receive
receive-absent s fd events absent = rw (receive, absent) refl

-- What `receive` relies on: `recv` answers as documented for the connection's ring, and ends the
-- call.
abbrev pub Answers : IpcReactor → ℕ → List Recv → Type 0
Answers s fd events =
    (c : Conn)
    → lookup fd s.conns ≡ some c
    → Respects ipc_framer events c.rx
      × ((receive_loop try_extract_frame events c.rx).1 ≢ unanswered)

-- `receive` throws no exception.
pub receive-Inv :
    (s : IpcReactor) (fd : ℕ) (events : List Recv)
    → Inv s
    → Answers s fd events
    → (out : Handled) × (receive s fd events ≡ some out) × Inv out.0
receive-Inv s fd events v obeys = elim (Option-cases (lookup fd s.conns)) [
  | inl absent ↦ ((s, []), receive-absent s fd events absent, v)
  | inr (c, there) ↦
      let k : IsConn c = v fd c there in
      let explained : Explains ipc_format ring_size (contents c.rx) events
          (receive_loop try_extract_frame events c.rx).0
          (receive_loop try_extract_frame events c.rx).1 =
        subst
          (λ n.
            Explains ipc_format n (contents c.rx) events
              (receive_loop try_extract_frame events c.rx).0
              (receive_loop try_extract_frame events c.rx).1)
          k.rx_size
          (receive_lem ipc_framer events c.rx k.rx_valid k.rx_cut (omega (arith, k.rx_size))
            (obeys c there).0) in
      let (s', (calls, (e, _))) =
        post-Explains s fd ring_size (contents c.rx) events _ _ explained (obeys c there).1 in
      (
        _,
        receive-step s s' fd c events calls there e,
        finish-Inv s' fd c events (receive_loop try_extract_frame events c.rx).0
            (receive_loop try_extract_frame events c.rx).1
            (subst (Values IsConn) (sym (post-conns s s' fd _ e)) v) k explained,
      )
]

flushed-Inv :
    (s : IpcReactor) (fd : ℕ) (c : Conn) (held out : List ℕ) (e : Flushed)
    → Inv s
    → IsConn c
    → Sends ring_size held (out, e)
    → Inv (flushed s fd c (out, e)).0
unfolding flushed
flushed-Inv s fd c held out (emptied r) v k x = Values-erase IsConn fd s.conns v
flushed-Inv s fd c held out (blocked r) v k x =
    Values-assign IsConn fd (record c { tx = r }) s.conns v
      (record {
        rx_valid = k.rx_valid;
        rx_size = k.rx_size;
        rx_cut = k.rx_cut;
        tx_valid = x.0;
        tx_size = x.1;
      })
flushed-Inv s fd c held out failed v k x = Values-erase IsConn fd s.conns v
flushed-Inv s fd c held out Flushed.unanswered v k x = v

-- What `flushTxBuffer` relies on: `send` takes no more than it was given.
abbrev pub Accepts : IpcReactor → ℕ → List Send → Type 0
Accepts s fd events = (c : Conn) → lookup fd s.conns ≡ some c → Takes events c.tx

pub flush_tx_buffer-Inv :
    (s : IpcReactor) (fd : ℕ) (events : List Send)
    → Inv s
    → Accepts s fd events
    → Inv (flush_tx_buffer s fd events).0
unfolding flush_tx_buffer
flush_tx_buffer-Inv s fd events v obeys = elim (Option-cases (lookup fd s.conns)) [
  | inl absent ↦ rw (absent, flush_tx_buffer) v
  | inr (c, there) ↦ elim (Bool-cases (readable c.tx == 0)) [
    | inl e ↦ rw (there, e, flush_tx_buffer) v
    | inr e ↦
        rw (there, e, flush_tx_buffer)
          (flushed-Inv s fd c (contents c.tx) (flush_loop events c.tx).0 (flush_loop events c.tx).1
            v (v fd c there)
            (subst (λ n. Sends n (contents c.tx) (flush_loop events c.tx)) (v fd c there).tx_size
              (flush_lem events c.tx (v fd c there).tx_valid (obeys c there))))
  ]
]

pub process_message-Inv :
    (s : IpcReactor) (m : IpcMessage)
    → Inv s
    → length m.payload < 2 ^ 64
    → Inv (process_message s m).0
unfolding process_message
process_message-Inv s m v small = elim (Option-cases (lookup m.fd s.conns)) [
  | inl absent ↦ rw (absent, process_message) v
  | inr (c, there) ↦
      let k : IsConn c = v m.fd c there in
      let (tx, went_in, e, line, size, valid) = fill_lem m.payload k.tx_valid small in
      rw (there, process_message)
        (rw (e, process_message)
          (Values-assign IsConn m.fd (record c { tx = tx }) s.conns v
            (record {
              rx_valid = k.rx_valid;
              rx_size = k.rx_size;
              rx_cut = k.rx_cut;
              tx_valid = valid;
              tx_size = size ∙ k.tx_size;
            })))
]
