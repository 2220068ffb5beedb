-- ===== src/Reactor/Tcp/Isolated.antt =====
-- TcpReactor.cpp: the handlers of one connection leave the others alone.
use nf_engine.Prelude.{
  ℕ, ◌≡◌, ◌≢◌, refl, inl, inr, List, [], ◌∷◌, ◌++◌, map, Bool, ◌&&◌, Bool-cases, Option-cases, ◌==◌,
}
use nf_engine.Prelude.Assoc.{lookup, lookup-assign_ne, lookup-erase_ne}
use nf_engine.Packet.{packet}
use nf_engine.Reactor.Receive.{Recv, Ending, waiting, closed, unanswered, out_of_fuel}
use nf_engine.Reactor.Transmit.{Send, Flushed, emptied, blocked, failed}
use nf_engine.Reactor.Tcp.{
  TcpReactor, Conn, Call, epoll_add, epoll_del, close_fd, mod_rx, mod_rx_tx, enqueue_rx, handle_tls,
  send, close_connection, handover_to_tls, to_worker, received, receive, flushed, flush_tx_buffer,
}

-- Every call is about this descriptor: what is sent to it, asked of epoll for it, closed, handed to
-- the TLS server, or given to a worker as a packet from it.
abbrev pub IsFor : ℕ → Call → Type 0
IsFor fd (epoll_add k) = k ≡ fd
IsFor fd (epoll_del k) = k ≡ fd
IsFor fd (close_fd k) = k ≡ fd
IsFor fd (mod_rx k) = k ≡ fd
IsFor fd (mod_rx_tx k) = k ≡ fd
IsFor fd (enqueue_rx i pkt) = pkt.fd ≡ fd
IsFor fd (handle_tls k server peer) = k ≡ fd
IsFor fd (send k out) = k ≡ fd

abbrev pub AreFor : ℕ → List Call → Type 0
AreFor fd [] = Unit {0}
AreFor fd (call ∷ calls) = IsFor fd call × AreFor fd calls

AreFor-to_worker :
    (s : TcpReactor) (fd : ℕ) (conn : Conn) (frames : List (List ℕ)) (calls : List Call)
    → AreFor fd calls
    → AreFor fd (map (to_worker s fd conn) frames ++ calls)
unfolding to_worker packet
AreFor-to_worker s fd conn [] calls h = h
AreFor-to_worker s fd conn (frame ∷ frames) calls h =
    (refl, AreFor-to_worker s fd conn frames calls h)

AreFor-frames :
    (s : TcpReactor) (fd : ℕ) (conn : Conn) (frames : List (List ℕ))
    → AreFor fd (map (to_worker s fd conn) frames)
unfolding to_worker packet
AreFor-frames s fd conn [] = tt
AreFor-frames s fd conn (frame ∷ frames) = (refl, AreFor-frames s fd conn frames)

-- A handler for `fd` that leaves connection `other` as it is, and calls nothing for it.
abbrev pub LeavesAlone : TcpReactor → ℕ → ℕ → TcpReactor × List Call → Type 0
LeavesAlone s fd other (s', calls) =
    (lookup other s'.conns ≡ lookup other s.conns) × AreFor fd calls

module _ (s : TcpReactor) (fd other : ℕ) (ne : fd ≢ other) where
  close_connection-LeavesAlone : LeavesAlone s fd other (close_connection s fd)
  unfolding close_connection
  close_connection-LeavesAlone = (lookup-erase_ne fd other s.conns ne, (refl, (refl, tt)))

  handover_to_tls-LeavesAlone : LeavesAlone s fd other (handover_to_tls s fd)
  unfolding handover_to_tls close_connection
  handover_to_tls-LeavesAlone = elim (Option-cases (lookup fd s.conns)) [
    | inl e ↦ rw (handover_to_tls, e) (lookup-erase_ne fd other s.conns ne, (refl, (refl, tt)))
    | inr (c, e) ↦ rw (handover_to_tls, e) (lookup-erase_ne fd other s.conns ne, (refl, (refl, tt)))
  ]

  received-LeavesAlone :
      (c : Conn) (frames : List (List ℕ)) (e : Ending)
      → LeavesAlone s fd other (received s fd c (frames, e))
  unfolding received close_connection
  received-LeavesAlone c frames (waiting r) =
      (lookup-assign_ne fd other (record c { rx = r }) s.conns ne, AreFor-frames s fd c frames)
  received-LeavesAlone c frames (closed why) = (
    lookup-erase_ne fd other s.conns ne,
    AreFor-to_worker s fd c frames (epoll_del fd ∷ close_fd fd ∷ []) (refl, (refl, tt)),
  )
  received-LeavesAlone c frames unanswered = (refl, AreFor-frames s fd c frames)
  received-LeavesAlone c frames out_of_fuel = (refl, AreFor-frames s fd c frames)

  flushed-LeavesAlone :
      (c : Conn) (out : List ℕ) (e : Flushed) → LeavesAlone s fd other (flushed s fd c (out, e))
  unfolding flushed close_connection
  flushed-LeavesAlone c out (emptied r) =
      (lookup-assign_ne fd other (record c { tx = r }) s.conns ne, (refl, (refl, tt)))
  flushed-LeavesAlone c out (blocked r) =
      (lookup-assign_ne fd other (record c { tx = r }) s.conns ne, (refl, (refl, tt)))
  flushed-LeavesAlone c out failed =
      (lookup-erase_ne fd other s.conns ne, (refl, (refl, (refl, tt))))
  flushed-LeavesAlone c out Flushed.unanswered = (refl, (refl, tt))

  -- `receive`, `flushTxBuffer` and `closeConnection` change no connection but the one that they are
  -- called for, and call epoll, the socket, the workers and the TLS server for this one only, whatever
  -- the kernel answers.
  pub handlers_isolated :
      (hello : Bool) (reads : List Recv) (sends : List Send)
      → LeavesAlone s fd other (receive s fd hello reads)
        × (LeavesAlone s fd other (flush_tx_buffer s fd sends)
            × LeavesAlone s fd other (close_connection s fd))
  unfolding receive flush_tx_buffer
  handlers_isolated hello reads sends = (of_receive, (of_flush, close_connection-LeavesAlone))
    where
      of_receive : LeavesAlone s fd other (receive s fd hello reads)
      of_receive = elim (Bool-cases (s.has_tls && hello)) [
        | inl e ↦ rw (receive, e) handover_to_tls-LeavesAlone
        | inr e ↦ elim (Option-cases (lookup fd s.conns)) [
          | inl absent ↦ rw (receive, e, absent) (refl, tt)
          | inr (c, there) ↦ rw (receive, e, there) (received-LeavesAlone c _ _)
        ]
      ]

      of_flush : LeavesAlone s fd other (flush_tx_buffer s fd sends)
      of_flush = elim (Option-cases (lookup fd s.conns)) [
        | inl absent ↦ rw (flush_tx_buffer, absent) (refl, tt)
        | inr (c, there) ↦ elim (Bool-cases (c.tx.size == 0)) [
          | inl e ↦ rw (flush_tx_buffer, there, e) (refl, tt)
          | inr e ↦ rw (flush_tx_buffer, there, e) (flushed-LeavesAlone c _ _)
        ]
      ]
