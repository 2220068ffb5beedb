-- ===== src/Tests/Control.antt =====
-- The control socket's reactor at concrete inputs.
use nf_engine.Prelude.{
  ℕ, ◌+◌, ◌*◌, ◌^◌, ◌<◌, ◌≤◌, ◌≡◌, ◌≢◌, refl, sym, ap, ◌∙◌, List, [], ◌∷◌, some, false, inl, inr,
  arith, replicate, length, length-replicate, Bool-cases, Option-cases, some_inj, ◌==◌,
}
use mathlib.Core.Path.{subst}
use nf_engine.Prelude.Assoc.{lookup, emplace, Values-emplace, lookup-erase_ne, lookup-assign_ne}
use nf_engine.Ring.{
  Ring, init, readable, write_len, read_len, writable, produce, store, read, peek, read_loop,
  read_pass, load, consume,
}
use nf_engine.Bytes.{byte_at}
use nf_engine.Ring.Inv.{IsValid, contents, init-IsValid, capacity-init}
use nf_engine.Framing.Ipc.{try_extract_frame}
use nf_engine.Framing.Laws.{ipc_framer}
use nf_engine.Reactor.Receive.{
  bytes, eof, again, closed, unanswered, peer_closed, Drained, idle, broken, stuck, after, drain,
  drain_all, receive_loop,
}
use nf_engine.Reactor.Receive.Outcome.{Respects}
use nf_engine.Reactor.Transmit.{Send, sent, Flushed, emptied, blocked, failed, flush_loop}
use nf_engine.Reactor.Transmit.Flush.{Takes}
use nf_engine.Reactor.Ipc.{
  IpcReactor, Conn, Call, Handled, ring_size, receive, flushed, flush_tx_buffer, close_connection,
}
use nf_engine.Reactor.Ipc.Run.{Event, woken, hung_up, handle, run}
use nf_engine.Reactor.Ipc.Run.Inv.{Inv, IsConn, Answers, Accepts}
use nf_engine.Reactor.Ipc.Run.Total.{AcceptAll, PermitsAll, ipc_run-Inv}
use nf_engine.Reactor.Ipc.Laws.{posted, Settles, receive-posts, flush_tx_buffer-Settles}

-- A connection that waits for a request, with three bytes of a reply to send.
abbrev rx_ring : Ring
rx_ring = record { buffer = replicate 8 0; head = 0; tail = 0; size = 0 }

abbrev tx_ring : Ring
tx_ring = record { buffer = 0 ∷ 1 ∷ 65 ∷ 0 ∷ []; head = 0; tail = 3; size = 3 }

abbrev client : Conn
client = record { rx = rx_ring; tx = tx_ring }

abbrev reactor : IpcReactor
reactor = record { workers = 2; rr = 0; conns = (6, client) ∷ [] }

client_there : lookup 6 reactor.conns ≡ some client
unfolding lookup
client_there = refl

rx_ring-IsValid : IsValid rx_ring
rx_ring-IsValid = record {
  small = omega arith;
  head_in = omega arith;
  tail_in = omega arith;
  size_in = omega arith;
  tail_at = inl refl;
}

tx_ring-IsValid : IsValid tx_ring
tx_ring-IsValid = record {
  small = omega arith;
  head_in = omega arith;
  tail_in = omega arith;
  size_in = omega arith;
  tail_at = inl refl;
}

abbrev request : List ℕ
request = 0 ∷ 1 ∷ 65 ∷ 0 ∷ []

request_fits : length request ≤ write_len rx_ring
unfolding write_len writable
request_fits = omega arith

request_ends :
    (receive_loop try_extract_frame (bytes request ∷ eof ∷ []) rx_ring).1 ≡ closed peer_closed
unfolding receive_loop write_len drain try_extract_frame produce store byte_at peek read read_loop
    read_pass load read_len consume
request_ends = refl

not_open : closed peer_closed ≢ unanswered
not_open e = let d : ⊥ = ground arith in d

receive-posts_example :
    (s' : IpcReactor) × ((calls : List Call) × ((receive reactor 6 (bytes request ∷ eof ∷ [])
          ≡ some (s', calls))
        × (posted calls ≡ (receive_loop try_extract_frame (bytes request ∷ eof ∷ []) rx_ring).0)))
receive-posts_example =
    receive-posts reactor 6 client (bytes request ∷ eof ∷ []) client_there rx_ring-IsValid
      (inl (omega arith)) (omega arith) (λ space. request_fits, λ frames r' e. tt)
      (λ e. not_open (sym request_ends ∙ e))

reply_fits : 3 ≤ read_len tx_ring
unfolding read_len
reply_fits = omega arith

all_sent : (flush_loop (sent 3 ∷ []) tx_ring).1 ≢ Flushed.unanswered
unfolding flush_loop readable read_len consume load
all_sent e = let d : ⊥ = ground (arith, e) in d

flush_tx_buffer-Settles_example :
    Settles (contents tx_ring) 6 (sent 3 ∷ []) (flush_tx_buffer reactor 6 (sent 3 ∷ []))
flush_tx_buffer-Settles_example =
    flush_tx_buffer-Settles reactor 6 client (sent 3 ∷ []) client_there tx_ring-IsValid
      (omega arith) (reply_fits, tt) all_sent

-- A call of `receive` that ends with EAGAIN is answered.
receive_loop-again : (r : Ring) → (receive_loop try_extract_frame (again ∷ []) r).1 ≢ unanswered
unfolding receive_loop
receive_loop-again r e = elim (Bool-cases (write_len r == 0)) [
  | inl full ↦ let d : ⊥ = ground (arith, e) in d
  | inr room ↦ let d : ⊥ = ground (arith, e) in d
]

receive_loop-answered :
    (xs : List ℕ) (r : Ring)
    → (receive_loop try_extract_frame (bytes xs ∷ again ∷ []) r).1 ≢ unanswered
unfolding receive_loop
receive_loop-answered xs r e = elim (Bool-cases (write_len r == 0)) [
  | inl full ↦ let d : ⊥ = ground (arith, e) in d
  | inr room ↦ by_frames room (drain_all try_extract_frame (produce (store r xs) (length xs))) refl
]
  where
    by_frames :
        (write_len r == 0) ≡ false
        → (d : Drained) → drain_all try_extract_frame (produce (store r xs) (length xs)) ≡ d
        → ⊥
    by_frames room (idle frames r') f =
        let same : receive_loop try_extract_frame (bytes xs ∷ again ∷ []) r
            ≡ after frames (receive_loop try_extract_frame (again ∷ []) r') =
          rw (receive_loop, room) (rw (receive_loop, f) refl) in
        receive_loop-again r' (sym (ap (λ k. k.1) same) ∙ e)
    by_frames room (broken frames why) f = let d : ⊥ = ground (arith, e) in d
    by_frames room stuck f = let d : ⊥ = ground (arith, e) in d

init-room : (n : ℕ) → 4 ≤ n → 2 * n < 2 ^ 64 → 4 ≤ write_len (init n)
unfolding init write_len writable
init-room n long small = ground (arith, length-replicate {A = ℕ} n 0)

-- A ring of n + 3 bytes that holds three.
abbrev reply_ring : ℕ → Ring
reply_ring n = record { buffer = 0 ∷ 1 ∷ 65 ∷ replicate n 0; head = 0; tail = 3; size = 3 }

reply_ring-IsValid : (n : ℕ) → 0 < n → 2 * (n + 3) < 2 ^ 64 → IsValid (reply_ring n)
reply_ring-IsValid n some_room small = record {
  small = omega (arith, length-replicate {A = ℕ} n 0);
  head_in = omega arith;
  tail_in = omega (arith, length-replicate {A = ℕ} n 0);
  size_in = omega arith;
  tail_at = inl refl;
}

reply_ring-read_len : (n : ℕ) → n < 2 ^ 63 → 2 ≤ read_len (reply_ring n)
unfolding read_len
reply_ring-read_len n small = ground (arith, length-replicate {A = ℕ} n 0)

-- One connection of a client that has sent nothing, and one with a reply in line.
abbrev new_client : Conn
new_client = record { rx = init ring_size; tx = init ring_size }

abbrev reply_client : Conn
reply_client = record { rx = init ring_size; tx = reply_ring 65533 }

abbrev busy_reactor : IpcReactor
busy_reactor = record {
  workers = 2;
  rr = 0;
  conns = emplace 7 reply_client (emplace 6 new_client []);
}

busy_reactor_has :
    (lookup 7 busy_reactor.conns ≡ some reply_client)
    × (lookup 6 busy_reactor.conns ≡ some new_client)
unfolding lookup emplace
busy_reactor_has = (refl, refl)

new_rx : IsValid (init ring_size) × (contents (init ring_size) ≡ [])
new_rx = init-IsValid ring_size (omega arith) (omega arith)

new_client-IsConn : IsConn new_client
new_client-IsConn = record {
  rx_valid = new_rx.0;
  rx_size = capacity-init ring_size;
  rx_cut = inl (omega (arith, ap length new_rx.1));
  tx_valid = new_rx.0;
  tx_size = capacity-init ring_size;
}

reply_client-IsConn : IsConn reply_client
reply_client-IsConn = record {
  rx_valid = new_rx.0;
  rx_size = capacity-init ring_size;
  rx_cut = inl (omega (arith, ap length new_rx.1));
  tx_valid = reply_ring-IsValid 65533 (omega arith) (omega arith);
  tx_size = omega (arith, length-replicate {A = ℕ} 65533 0);
}

no_clients-Inv : Inv (record { workers = 2; rr = 0; conns = [] })
unfolding lookup
no_clients-Inv k v e = absurd (let d : ⊥ = ground arith in d)

busy_reactor-Inv : Inv busy_reactor
busy_reactor-Inv =
    Values-emplace IsConn 7 reply_client (emplace 6 new_client [])
      (Values-emplace IsConn 6 new_client [] no_clients-Inv new_client-IsConn) reply_client-IsConn

-- `send` takes two of the three bytes of the reply, a request comes, a reply to it goes into the ring
-- and finds the socket full, and a client hangs up.
abbrev some_events : List Event
some_events =
    Event.writable 7 (sent 2 ∷ [])
    ∷ Event.readable 6 (bytes request ∷ again ∷ [])
    ∷ woken (record { fd = 6; payload = request } ∷ []) (λ fd. Send.again ∷ [])
    ∷ hung_up 7
    ∷ []

flushed-other :
    (s : IpcReactor) (fd other : ℕ) (c : Conn) (result : List ℕ × Flushed)
    → fd ≢ other
    → lookup other (flushed s fd c result).0.conns ≡ lookup other s.conns
unfolding flushed close_connection
flushed-other s fd other c (out, emptied r) ne = lookup-erase_ne fd other s.conns ne
flushed-other s fd other c (out, blocked r) ne = lookup-assign_ne fd other _ s.conns ne
flushed-other s fd other c (out, failed) ne = lookup-erase_ne fd other s.conns ne
flushed-other s fd other c (out, Flushed.unanswered) ne = refl

flush_tx_buffer-other :
    (s : IpcReactor) (fd other : ℕ) (events : List Send)
    → fd ≢ other
    → lookup other (flush_tx_buffer s fd events).0.conns ≡ lookup other s.conns
unfolding flush_tx_buffer
flush_tx_buffer-other s fd other events ne = elim (Option-cases (lookup fd s.conns)) [
  | inl absent ↦ rw (flush_tx_buffer, absent) refl
  | inr (c, there) ↦ elim (Bool-cases (readable c.tx == 0)) [
    | inl e ↦ rw (flush_tx_buffer, there, e) refl
    | inr e ↦ rw (flush_tx_buffer, there, e) (flushed-other s fd other c _ ne)
  ]
]

-- A socket that is full takes nothing.
AcceptAll-again : (s : IpcReactor) (fds : List ℕ) → AcceptAll s fds (λ fd. Send.again ∷ [])
AcceptAll-again s [] = tt
AcceptAll-again s (fd ∷ more) =
    (λ c there. tt, AcceptAll-again (flush_tx_buffer s fd (Send.again ∷ [])).0 more)

busy_reactor-Accepts : Accepts busy_reactor 7 (sent 2 ∷ [])
busy_reactor-Accepts c there =
    subst (λ k. Takes (sent 2 ∷ []) k.tx) (some_inj (sym busy_reactor_has.0 ∙ there))
      (reply_ring-read_len 65533 (omega arith), tt)

-- The connection that is read is as it was.
still_there :
    (out : Handled)
    → handle busy_reactor (Event.writable 7 (sent 2 ∷ [])) ≡ some out
    → lookup 6 out.0.conns ≡ some new_client
unfolding handle
still_there out e =
    ap (λ (h : Handled). lookup 6 h.0.conns) (sym (some_inj e))
    ∙ flush_tx_buffer-other busy_reactor 7 6 (sent 2 ∷ []) (omega arith)
    ∙ busy_reactor_has.1

new_client-Answers :
    (s : IpcReactor) → lookup 6 s.conns ≡ some new_client → Answers s 6 (bytes request ∷ again ∷ [])
new_client-Answers s there c found =
    subst
      (λ k.
        Respects ipc_framer (bytes request ∷ again ∷ []) k.rx
        × ((receive_loop try_extract_frame (bytes request ∷ again ∷ []) k.rx).1 ≢ unanswered))
      (some_inj (sym there ∙ found))
      (
        (λ space. init-room ring_size (omega arith) (omega arith), λ frames r' e. tt),
        receive_loop-answered request (init ring_size),
      )

some_events-PermitsAll : PermitsAll busy_reactor some_events
some_events-PermitsAll = (
  busy_reactor-Accepts,
  λ out e. (
    new_client-Answers out.0 (still_there out e),
    λ out' e'. (((omega arith, tt), AcceptAll-again _ _), λ out'' e''. (tt, λ o f. tt)),
  ),
)

ipc_run-Inv_example : (out : Handled) × (run busy_reactor some_events ≡ some out) × Inv out.0
ipc_run-Inv_example = ipc_run-Inv busy_reactor some_events busy_reactor-Inv some_events-PermitsAll
