-- ===== src/Daemon/Client.antt =====
-- mgmtd/ipc/IpcClient.cpp: a request to the server's control socket, and its reply. What the calls
-- of the kernel answer is an argument.
pub mod Laws
pub mod Sound
use nf_engine.Prelude.{
  ℕ, zero, suc, ◌-◌, ◌%◌, ◌^◌, List, [], ◌∷◌, ◌++◌, Bool, true, false, length, take, drop, ltb, leb,
  if◌then◌else◌,
}
use nf_engine.Bytes.{be16, to_be, be16_at, be}

-- An answer of `::send`, and one of `::read`. A read of no bytes is the end of the stream.
pub data WriteAnswer : Type 0 where
  accepted : ℕ → WriteAnswer
  interrupted failed : WriteAnswer

pub data ReadAnswer : Type 0 where
  arrived : List ℕ → ReadAnswer
  interrupted failed : ReadAnswer

-- How a loop over such answers ends. `unanswered` is a list that ends too early.
pub data Progress : Type 0 where
  complete broken unanswered : Progress

-- `writeAll`: the bytes sent, and the answers that are left.
unfoldable pub write_all : List WriteAnswer → List ℕ → Progress × (List ℕ × List WriteAnswer)
write_all answers [] = (complete, ([], answers))
write_all [] (x ∷ xs) = (unanswered, ([], []))
write_all (WriteAnswer.accepted n ∷ more) (x ∷ xs) =
    let (p, (out, left)) = write_all more (drop n (x ∷ xs)) in (p, (take n (x ∷ xs) ++ out, left))
write_all (WriteAnswer.interrupted ∷ more) (x ∷ xs) = write_all more (x ∷ xs)
write_all (WriteAnswer.failed ∷ more) (x ∷ xs) = (broken, ([], more))

-- `readExact`: the bytes read, and the answers that are left.
unfoldable pub read_exact : List ReadAnswer → ℕ → Progress × (List ℕ × List ReadAnswer)
read_exact answers zero = (complete, ([], answers))
read_exact [] (suc k) = (unanswered, ([], []))
read_exact (ReadAnswer.arrived [] ∷ more) (suc k) = (broken, ([], more))
read_exact (ReadAnswer.arrived (b ∷ chunk) ∷ more) (suc k) =
    let (p, (bytes, left)) = read_exact more (k - length chunk) in (p, ((b ∷ chunk) ++ bytes, left))
read_exact (ReadAnswer.interrupted ∷ more) (suc k) = read_exact more (suc k)
read_exact (ReadAnswer.failed ∷ more) (suc k) = (broken, ([], more))

-- The `runtime_error`s of `send`.
pub data Failure : Type 0 where
  payload_too_large socket_failed path_too_long connect_failed : Failure
  write_failed read_failed invalid_reply_length : Failure

pub data Outcome : Type 0 where
  reply : List ℕ → Outcome
  threw : Failure → Outcome
  waiting : Outcome

-- A call of `send` as the kernel sees it.
pub record Talk : Type 0 where
  pub outcome : Outcome
  pub sent : List ℕ
  pub received : List ℕ
  pub opened : Bool
  pub closed : Bool

pub record Kernel : Type 0 where
  pub socket_ok : Bool
  pub connect_ok : Bool
  pub writes : List WriteAnswer
  pub reads : List ReadAnswer

-- IpcFraming::MAX_BODY, and `sizeof(addr.sun_path)`
abbrev pub max_body : ℕ
max_body = 65536

abbrev pub path_size : ℕ
path_size = 108

-- The socket is closed, and the call ends.
abbrev pub closing : Outcome → List ℕ → List ℕ → Talk
closing outcome sent received = record {
  outcome = outcome;
  sent = sent;
  received = received;
  opened = true;
  closed = true;
}

-- The call waits in the kernel.
abbrev pub stuck : List ℕ → List ℕ → Talk
stuck sent received = record {
  outcome = waiting;
  sent = sent;
  received = received;
  opened = true;
  closed = false;
}

-- The part of `send` that reads the body of a reply behind its header.
unfoldable pub receive_body : List ℕ → List ℕ → ℕ → List ReadAnswer → Talk
unfolding read_exact
receive_body sent head rlen reads =
    if ltb max_body rlen
    then closing (threw invalid_reply_length) sent head
    else let (p, (body, left)) = read_exact reads rlen in
      elim p [
        | complete ↦ closing (reply body) sent (head ++ body)
        | broken ↦ closing (threw read_failed) sent (head ++ body)
        | unanswered ↦ stuck sent (head ++ body)
      ]

-- The part that reads the header of a reply.
unfoldable pub receive_reply : List ℕ → List ReadAnswer → Talk
unfolding read_exact receive_body be16_at be
receive_reply sent reads =
    let (p, (head, left)) = read_exact reads 2 in
    elim p [
      | complete ↦ receive_body sent head (be16_at head 0) left
      | broken ↦ closing (threw read_failed) sent head
      | unanswered ↦ stuck sent head
    ]

-- The part that sends the body; `writeAll` of no bytes makes no call.
unfoldable pub send_body : List ℕ → List ℕ → List WriteAnswer → List ReadAnswer → Talk
unfolding write_all receive_reply
send_body head payload writes reads =
    let (p, (out, left)) = write_all writes payload in
    elim p [
      | complete ↦ receive_reply (head ++ out) reads
      | broken ↦ closing (threw write_failed) (head ++ out) []
      | unanswered ↦ stuck (head ++ out) []
    ]

-- The part that sends the length. The cast to `uint16_t` keeps 16 bits.
unfoldable pub send_frame : Kernel → List ℕ → Talk
unfolding write_all send_body to_be
send_frame k payload =
    let (p, (out, left)) = write_all k.writes (be16 (length payload % 2 ^ 16)) in
    elim p [
      | complete ↦ send_body out payload left k.reads
      | broken ↦ closing (threw write_failed) out []
      | unanswered ↦ stuck out []
    ]

unfoldable pub send : List ℕ → Kernel → List ℕ → Talk
unfolding send_frame
send path k payload =
    if ltb max_body (length payload)
    then record {
      outcome = threw payload_too_large;
      sent = [];
      received = [];
      opened = false;
      closed = false;
    }
    else if k.socket_ok
    then (if leb path_size (length path)
        then closing (threw path_too_long) [] []
        else if k.connect_ok
        then send_frame k payload
        else closing (threw connect_failed) [] [])
    else record {
      outcome = threw socket_failed;
      sent = [];
      received = [];
      opened = false;
      closed = false;
    }
