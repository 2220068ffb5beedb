-- ===== src/Reactor/Ipc/Run/Total.antt =====
-- What holds of IpcReactor after any events.
use nf_engine.Prelude.{ℕ, ◌<◌, ◌^◌, ◌≡◌, refl, List, [], ◌∷◌, ◌++◌, some, length}
use nf_engine.Ipc.{IpcMessage}
use nf_engine.Reactor.Transmit.{Send}
use nf_engine.Reactor.Ipc.{IpcReactor, Handled, flush_tx_buffer, process_message}
use nf_engine.Reactor.Ipc.Run.{
  process_messages, flush_dirty, process_tx_queue, Event, woken, accepted, hung_up, readable,
  writable, handle, run,
}
use nf_engine.Reactor.Ipc.Run.Inv.{
  Inv, Answers, Accepts, accept_connection-Inv, close_connection-Inv, receive-Inv,
  flush_tx_buffer-Inv, process_message-Inv,
}

-- A vector in memory is shorter than `size_t` can count.
abbrev pub AreSmall : List IpcMessage → Type 0
AreSmall [] = Unit {0}
AreSmall (m ∷ more) = (length m.payload < 2 ^ 64) × AreSmall more

-- `send` answers as documented in each `flushTxBuffer` of `processTxQueue`.
abbrev pub AcceptAll : IpcReactor → List ℕ → (ℕ → List Send) → Type 0
AcceptAll s [] answers = Unit {0}
AcceptAll s (fd ∷ more) answers =
    Accepts s fd (answers fd) × AcceptAll (flush_tx_buffer s fd (answers fd)).0 more answers

-- What the handler of an event relies on.
abbrev pub Permits : IpcReactor → Event → Type 0
Permits s (woken messages answers) =
    AreSmall messages
    × AcceptAll (process_messages s messages []).0 (process_messages s messages []).1 answers
Permits s (accepted fds) = Unit {0}
Permits s (hung_up fd) = Unit {0}
Permits s (readable fd events) = Answers s fd events
Permits s (writable fd events) = Accepts s fd events

abbrev pub PermitsAll : IpcReactor → List Event → Type 0
PermitsAll s [] = Unit {0}
PermitsAll s (e ∷ more) =
    Permits s e × ((out : Handled) → handle s e ≡ some out → PermitsAll out.0 more)

process_messages-Inv :
    (s : IpcReactor) (messages : List IpcMessage) (dirty : List ℕ)
    → Inv s
    → AreSmall messages
    → Inv (process_messages s messages dirty).0
unfolding process_messages
process_messages-Inv s [] dirty v small = v
process_messages-Inv s (m ∷ more) dirty v small =
    process_messages-Inv (process_message s m).0 more _ (process_message-Inv s m v small.0) small.1

flush_dirty-Inv :
    (s : IpcReactor) (fds : List ℕ) (answers : ℕ → List Send)
    → Inv s
    → AcceptAll s fds answers
    → Inv (flush_dirty s fds answers).0
unfolding flush_dirty
flush_dirty-Inv s [] answers v obeys = v
flush_dirty-Inv s (fd ∷ more) answers v obeys =
    flush_dirty-Inv (flush_tx_buffer s fd (answers fd)).0 more answers
      (flush_tx_buffer-Inv s fd (answers fd) v obeys.0) obeys.1

handle-Inv :
    (s : IpcReactor) (e : Event)
    → Inv s
    → Permits s e
    → (out : Handled) × (handle s e ≡ some out) × Inv out.0
unfolding handle process_tx_queue
handle-Inv s (woken messages answers) v p = (
  _,
  refl,
  flush_dirty-Inv (process_messages s messages []).0 (process_messages s messages []).1 answers
      (process_messages-Inv s messages [] v p.0) p.1,
)
handle-Inv s (accepted fds) v p = (_, refl, accept_connection-Inv s fds v)
handle-Inv s (hung_up fd) v p = (_, refl, close_connection-Inv s fd v)
handle-Inv s (readable fd events) v p = receive-Inv s fd events v p
handle-Inv s (writable fd events) v p = (_, refl, flush_tx_buffer-Inv s fd events v p)

run-step :
    (s : IpcReactor) (e : Event) (more : List Event) (out rest : Handled)
    → handle s e ≡ some out
    → run out.0 more ≡ some rest
    → run s (e ∷ more) ≡ some (rest.0, out.1 ++ rest.1)
unfolding run
run-step s e more out rest h r = rw (run, h) (rw (run, r) refl)

-- The thread of the control socket survives any events, with no exception, and afterwards every
-- connection has valid rings of 64 KB and no whole frame waits in its receive ring, as long as
-- `recv` and `send` move no more than they were asked to and `recv` ends each call of `receive`.
pub ipc_run-Inv :
    (s : IpcReactor) (events : List Event)
    → Inv s
    → PermitsAll s events
    → (out : Handled) × (run s events ≡ some out) × Inv out.0
unfolding run
ipc_run-Inv s [] v p = ((s, []), refl, v)
ipc_run-Inv s (e ∷ more) v p =
    let (out, h, v') = handle-Inv s e v p.0 in
    let (rest, r, v'') = ipc_run-Inv out.0 more v' (p.1 out h) in
    ((rest.0, out.1 ++ rest.1), run-step s e more out rest h r, v'')
