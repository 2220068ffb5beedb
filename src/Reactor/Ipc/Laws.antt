-- ===== src/Reactor/Ipc/Laws.antt =====
-- About IpcReactor.cpp: requests to the workers, and replies to the client.
use nf_engine.Prelude.{
  ℕ, ◌+◌, ◌%◌, ◌^◌, ◌≤◌, ◌≡◌, ◌≢◌, refl, sym, ap, ap₂, ◌∙◌, List, [], ◌∷◌, ◌++◌, none, some, arith,
  inl, inr, ◌⊎◌, ltb, ◌==◌, Bool-cases, drop, take,
}
use mathlib.Core.Path.{subst}
use nf_engine.Prelude.Assoc.{lookup, lookup-assign_self, lookup-erase_self}
use nf_engine.Ring.{Ring, capacity, readable, read_len, consume}
use nf_engine.Ring.Inv.{IsValid, contents}
use nf_engine.Ipc.{IpcMessage, message}
use nf_engine.Ipc.Laws.{message-frame}
use nf_engine.Framing.Spec.{Deframed, rest, next, IsIncomplete, frame_len}
use nf_engine.Framing.Ipc.{try_extract_frame}
use nf_engine.Framing.Laws.{ipc_format, ipc_framer}
use nf_engine.Reactor.Receive.{Recv, Ending, waiting, closed, unanswered, out_of_fuel, receive_loop}
use nf_engine.Reactor.Receive.Outcome.{Respects, Explains, arrived}
use nf_engine.Reactor.Receive.Laws.{receive_lem}
use nf_engine.Reactor.Transmit.{
  Send, sent, again, fail, Flushed, emptied, blocked, failed, flush_loop,
}
use nf_engine.Reactor.Transmit.Flush.{Takes, Sends, flush_lem}
use nf_engine.Reactor.Ipc.{
  IpcReactor, Conn, Call, Handled, epoll_del, close_fd, mod_rx_tx, enqueue_rx, post, finish,
  receive, flushed, flush_tx_buffer, close_connection,
}

-- The payloads that the workers get, in the order of the calls.
abbrev pub posted : List Call → List (List ℕ)
posted [] = []
posted (enqueue_rx i m ∷ calls) = m.payload ∷ posted calls
posted (Call.epoll_add fd ∷ calls) = posted calls
posted (Call.epoll_del fd ∷ calls) = posted calls
posted (Call.close_fd fd ∷ calls) = posted calls
posted (Call.mod_rx_tx fd ∷ calls) = posted calls
posted (Call.send fd out ∷ calls) = posted calls

post-step :
    (s s' : IpcReactor) (fd : ℕ) (frame : List ℕ) (more : List (List ℕ)) (m : IpcMessage)
    (calls : List Call)
    → message fd frame ≡ some m
    → post (record s { rr = (s.rr + 1) % 2 ^ 64 }) fd more ≡ some (s', calls)
    → post s fd (frame ∷ more) ≡ some (s', enqueue_rx (s.rr % s.workers) m ∷ calls)
unfolding post
post-step s s' fd frame more m calls e f = ground arith

post-Deframed :
    (s : IpcReactor) (fd : ℕ) (xs : List ℕ) (frames : List (List ℕ)) (ys : List ℕ)
    → Deframed ipc_format xs frames ys
    → (s' : IpcReactor) × ((calls : List Call) × ((post s fd frames ≡ some (s', calls))
          × (posted calls ≡ frames)))
unfolding post
post-Deframed s fd xs frames ys (rest short) = (s, ([], (refl, refl)))
post-Deframed s fd xs frames ys (next {frames = more} whole later) =
    let (m, (made, (same, _))) = message-frame fd xs whole in
    let (s', (calls, (e, f))) =
      post-Deframed (record s { rr = (s.rr + 1) % 2 ^ 64 }) fd (drop (frame_len ipc_format xs) xs)
        more ys later in
    (
      s',
      (
        enqueue_rx (s.rr % s.workers) m ∷ calls,
        (post-step s s' fd (take (frame_len ipc_format xs) xs) more m calls made e, ap₂ ◌∷◌ same f),
      ),
    )

-- Frames that a call explains are posted.
pub post-Explains :
    (s : IpcReactor) (fd c : ℕ) (held : List ℕ) (events : List Recv) (frames : List (List ℕ))
    (e : Ending)
    → Explains ipc_format c held events frames e
    → e ≢ unanswered
    → (s' : IpcReactor) × ((calls : List Call) × ((post s fd frames ≡ some (s', calls))
          × (posted calls ≡ frames)))
post-Explains s fd c held events frames (waiting r) (v, same, d) ne =
    post-Deframed s fd (held ++ arrived events) frames (contents r) d
post-Explains s fd c held events frames (closed why) (used, unread, left, split, d, blame) ne =
    post-Deframed s fd (held ++ used) frames left d
post-Explains s fd c held events frames unanswered x ne = absurd (ne refl)
post-Explains s fd c held events frames out_of_fuel x ne = absurd x

posted-append : (xs ys : List Call) → posted ys ≡ [] → posted (xs ++ ys) ≡ posted xs
posted-append [] ys e = e
posted-append (enqueue_rx i m ∷ xs) ys e = ap (◌∷◌ m.payload) (posted-append xs ys e)
posted-append (Call.epoll_add fd ∷ xs) ys e = posted-append xs ys e
posted-append (Call.epoll_del fd ∷ xs) ys e = posted-append xs ys e
posted-append (Call.close_fd fd ∷ xs) ys e = posted-append xs ys e
posted-append (Call.mod_rx_tx fd ∷ xs) ys e = posted-append xs ys e
posted-append (Call.send fd out ∷ xs) ys e = posted-append xs ys e

finish-posts-none :
    (s : IpcReactor) (fd : ℕ) (conn : Conn) (e : Ending) → posted (finish s fd conn e).1 ≡ []
unfolding finish close_connection
finish-posts-none s fd conn (waiting r) = refl
finish-posts-none s fd conn (closed why) = refl
finish-posts-none s fd conn unanswered = refl
finish-posts-none s fd conn out_of_fuel = refl

pub receive-step :
    (s s' : IpcReactor) (fd : ℕ) (conn : Conn) (events : List Recv) (calls : List Call)
    → lookup fd s.conns ≡ some conn
    → post s fd (receive_loop try_extract_frame events conn.rx).0 ≡ some (s', calls)
    → receive s fd events
      ≡ some (
        (finish s' fd conn (receive_loop try_extract_frame events conn.rx).1).0,
        calls ++ (finish s' fd conn (receive_loop try_extract_frame events conn.rx).1).1,
      )
unfolding receive
receive-step s s' fd conn events calls there e = rw (receive, there) (rw (receive, e) refl)

-- A call of `receive` on a connection with a valid ring, which holds no whole frame, throws no
-- exception: each frame that it cuts off the stream is a message, and the workers get exactly
-- those frames, in order.
pub receive-posts :
    (s : IpcReactor) (fd : ℕ) (conn : Conn) (events : List Recv)
    → lookup fd s.conns ≡ some conn
    → IsValid conn.rx
    → IsIncomplete ipc_format (contents conn.rx)
    → 2 ≤ capacity conn.rx
    → Respects ipc_framer events conn.rx
    → (receive_loop try_extract_frame events conn.rx).1 ≢ unanswered
    → (s' : IpcReactor) × ((calls : List Call) × ((receive s fd events ≡ some (s', calls))
          × (posted calls ≡ (receive_loop try_extract_frame events conn.rx).0)))
receive-posts s fd conn events there v short fit obeys answered =
    let (k, (calls, (e, f))) =
      post-Explains s fd (capacity conn.rx) (contents conn.rx) events _ _
        (receive_lem ipc_framer events conn.rx v short fit obeys) answered in
    (
      _,
      (
        _,
        (
          receive-step s k fd conn events calls there e,
          posted-append calls _ (finish-posts-none k fd conn _) ∙ f,
        ),
      ),
    )

-- `send` answers with an error other than EAGAIN before it answers with EAGAIN.
abbrev pub HasFail : List Send → Type 0
HasFail [] = ⊥
HasFail (sent n ∷ events) = HasFail events
HasFail (again ∷ events) = ⊥
HasFail (fail ∷ events) = Unit {0}

-- What `flushTxBuffer` does for a connection whose ring holds `held`: its calls, in order, and the
-- connection after it. All bytes are sent, and then the connection is closed; or a front part is sent,
-- epoll is asked for EPOLLOUT, and the rest is in the ring; or `send` failed after a front part,
-- and the connection is closed.
abbrev pub Settles : List ℕ → ℕ → List Send → Handled → Type 0
Settles held fd events (s, calls) =
    ((calls ≡ Call.send fd held ∷ epoll_del fd ∷ close_fd fd ∷ []) × (lookup fd s.conns ≡ none))
    ⊎ (((out : List ℕ) × ((conn : Conn) × ((calls ≡ Call.send fd out ∷ mod_rx_tx fd ∷ [])
              × ((lookup fd s.conns ≡ some conn)
                  × (IsValid conn.tx × (out ++ contents conn.tx ≡ held))))))
        ⊎ (HasFail events
            × ((out : List ℕ) × ((lost : List ℕ) × ((calls
                      ≡ Call.send fd out ∷ epoll_del fd ∷ close_fd fd ∷ [])
                    × ((lookup fd s.conns ≡ none) × (out ++ lost ≡ held)))))))

flush_loop-HasFail :
    (events : List Send) (r : Ring) → (flush_loop events r).1 ≡ failed → HasFail events
unfolding flush_loop
flush_loop-HasFail [] r e = absurd (let b : ⊥ = ground (arith, e) in b)
flush_loop-HasFail (again ∷ events) r e = absurd (let b : ⊥ = ground (arith, e) in b)
flush_loop-HasFail (fail ∷ events) r e = tt
flush_loop-HasFail (sent n ∷ events) r e = elim (Bool-cases (readable r == 0)) [
  | inl empty ↦ absurd (let b : ⊥ = ground (arith, e) in b)
  | inr held ↦ elim (Bool-cases (ltb n (read_len r))) [
    | inl part ↦ absurd (let b : ⊥ = ground (arith, e) in b)
    | inr whole ↦ flush_loop-HasFail events (consume r n) (ground (arith, e))
  ]
]

flushed-Settles :
    (s : IpcReactor) (fd : ℕ) (conn : Conn) (events : List Send) (held : List ℕ) (c : ℕ)
    (result : List ℕ × Flushed)
    → Sends c held result
    → result.1 ≢ Flushed.unanswered
    → (result.1 ≡ failed → HasFail events)
    → Settles held fd events (flushed s fd conn result)
unfolding flushed close_connection
flushed-Settles s fd conn events held c (out, emptied r) (v, k, e, none_left) ended reason =
    inl
      (ap (λ xs. Call.send fd xs ∷ epoll_del fd ∷ close_fd fd ∷ []) e, lookup-erase_self fd s.conns)
flushed-Settles s fd conn events held c (out, blocked r) (v, k, e) ended reason =
    inr (inl (out, (record conn { tx = r }, (refl, (lookup-assign_self fd _ s.conns, (v, e))))))
flushed-Settles s fd conn events held c (out, failed) (lost, e) ended reason =
    inr (inr (reason refl, (out, (lost, (refl, (lookup-erase_self fd s.conns, e))))))
flushed-Settles s fd conn events held c (out, Flushed.unanswered) x ended reason =
    absurd (ended refl)

-- A reply is sent from its first byte to its last before the connection is closed: where the ring
-- of a connection holds bytes, the calls of `flushTxBuffer` are to send them all and then to close; or
-- to send a front part and ask for EPOLLOUT, with the rest still in the ring; or, if `send` failed,
-- to send a front part and close; as long as `send` takes no more than asked and answers each call.
pub flush_tx_buffer-Settles :
    (s : IpcReactor) (fd : ℕ) (conn : Conn) (events : List Send)
    → lookup fd s.conns ≡ some conn
    → IsValid conn.tx
    → conn.tx.size ≢ 0
    → Takes events conn.tx
    → (flush_loop events conn.tx).1 ≢ Flushed.unanswered
    → Settles (contents conn.tx) fd events (flush_tx_buffer s fd events)
unfolding flush_tx_buffer readable
flush_tx_buffer-Settles s fd conn events there v held obeys ended =
    subst (Settles (contents conn.tx) fd events) (sym same) (
      flushed-Settles s fd conn events (contents conn.tx) (capacity conn.tx) _
        (flush_lem events conn.tx v obeys) ended (flush_loop-HasFail events conn.tx))
  where
    same : flush_tx_buffer s fd events ≡ flushed s fd conn (flush_loop events conn.tx)
    same = ground arith
