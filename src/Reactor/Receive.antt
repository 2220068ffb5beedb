-- ===== src/Reactor/Receive.antt =====
-- The receive loops of TcpReactor::receive and IpcReactor::receive on one connection: read what the
-- socket has into the ring, cut the frames out, and stop when the socket has no more.
-- What `recv` answers is a list of events, one for each call.
pub mod Drain
pub mod Outcome
pub mod Laws
use nf_engine.Prelude.{
  ℕ, zero, suc, Bool, true, false, List, [], ◌∷◌, ◌++◌, Option, none, some, length, ◌==◌,
  if◌then◌else◌,
}
use nf_engine.Ring.{Ring, write_len, produce, store, read}
use nf_engine.Framing.{FramingResult, ok, need_more_data, invalid_body_len}

-- One answer of `recv`: bytes, the end of the stream, or an error: EINTR, EAGAIN, or another.
pub data Recv : Type 0 where
  bytes : List ℕ → Recv
  eof intr again fail : Recv

-- Why a connection is closed: each is a `closeConnection(fd); return` of the source.
pub data Reason : Type 0 where
  rx_full bad_frame read_mismatch peer_closed recv_failed : Reason

-- The loop that cuts frames: `idle` when it needs more data. `stuck` means that the fuel ran out.
pub data Drained : Type 0 where
  idle : List (List ℕ) → Ring → Drained
  broken : List (List ℕ) → Reason → Drained
  stuck : Drained

abbrev pub deliver : List ℕ → Drained → Drained
deliver frame (idle frames r) = idle (frame ∷ frames) r
deliver frame (broken frames why) = broken (frame ∷ frames) why
deliver frame stuck = stuck

-- How a call of `receive` ends: it returns with the connection open, or it has closed it.
-- `unanswered`: the list of events is too short.
pub data Ending : Type 0 where
  waiting : Ring → Ending
  closed : Reason → Ending
  unanswered : Ending
  out_of_fuel : Ending

-- The frames handed to the workers, in order, and how the call ends.
abbrev pub Received : Type 0
Received = List (List ℕ) × Ending

abbrev pub after : List (List ℕ) → Received → Received
after frames (more, e) = (frames ++ more, e)

module _ (extract : Ring → FramingResult) where
  unfoldable pub drain : ℕ → Ring → Drained
  drain zero r = stuck
  drain (suc fuel) r = elim (extract r) [
    | need_more_data ↦ idle [] r
    | invalid_body_len ↦ broken [] bad_frame
    | ok frame_len ↦ elim (read r frame_len) [
      | none ↦ stuck
      | some (payload, r') ↦ elim (length payload == frame_len) [
        | true ↦ deliver payload (drain fuel r')
        | false ↦ broken [] read_mismatch
      ]
    ]
  ]

  -- A frame takes a byte at least, so that the bytes held bound the rounds.
  abbrev pub drain_all : Ring → Drained
  drain_all r = drain (suc r.size) r

  unfoldable pub receive_loop : List Recv → Ring → Received
  receive_loop [] r = if write_len r == 0 then ([], closed rx_full) else ([], unanswered)
  receive_loop (bytes xs ∷ events) r = elim (write_len r == 0) [
    | true ↦ ([], closed rx_full)
    | false ↦ elim (drain_all (produce (store r xs) (length xs))) [
      | idle frames r' ↦ after frames (receive_loop events r')
      | broken frames why ↦ (frames, closed why)
      | stuck ↦ ([], out_of_fuel)
    ]
  ]
  receive_loop (eof ∷ events) r =
      if write_len r == 0 then ([], closed rx_full) else ([], closed peer_closed)
  receive_loop (intr ∷ events) r = elim (write_len r == 0) [
    | true ↦ ([], closed rx_full)
    | false ↦ receive_loop events r
  ]
  receive_loop (again ∷ events) r =
      if write_len r == 0 then ([], closed rx_full) else ([], waiting r)
  receive_loop (fail ∷ events) r =
      if write_len r == 0 then ([], closed rx_full) else ([], closed recv_failed)
