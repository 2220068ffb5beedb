-- ===== src/Simulator.antt =====
-- serverd/simulator/Client.cpp: the test client, its requests and what it reads from the answers. The
-- sockets (TlsClient, TcpClient, UdpClient), the clock and what the buffer holds before a call
-- are arguments.
pub mod Laws
use nf_engine.Prelude.{
  ℕ, ◌+◌, ◌-◌, ◌/◌, ◌%◌, ◌^◌, List, [], ◌∷◌, ◌++◌, Bool, length, drop, ltb, if◌then◌else◌,
}
use nf_engine.Bytes.{to_be, be64, be32, be64_at}
use nf_engine.Prelude.Texts.{codes}

pub record Client : Type 0 where
  pub session_id : ℕ
  pub ping_seq : ℕ
  pub last_ping : ℕ

-- A length in two bytes, as `pkt[off++] = len >> 8` and `len & 0xFF` write it.
abbrev pub two_bytes : ℕ → List ℕ
two_bytes len = len / 256 % 256 ∷ len % 256 ∷ []

-- `buildLoginReq`, for the id and the password `test`.
unfoldable pub build_login_req : List ℕ
unfolding to_be
build_login_req =
    let id = codes "test" in
    let pw = codes "test" in
    let body_len = (2 + length id + (2 + length pw)) % 2 ^ 16 in
    0x01
    ∷ 0x10
    ∷ (two_bytes body_len
        ++ (be64 0 ++ (be32 0 ++ (two_bytes (length id) ++ (id ++ (two_bytes (length pw) ++ pw))))))

-- `buildLobbyEntryReq`
unfoldable pub build_lobby_entry_req : Client → List ℕ
unfolding to_be
build_lobby_entry_req c = 0x01 ∷ 0x20 ∷ 0x00 ∷ 0x00 ∷ (be64 c.session_id ++ be32 0)

-- `buildPingReq`, at a reading of the clock in nanoseconds.
unfoldable pub build_ping_req : Client → ℕ → Client × List ℕ
unfolding to_be
build_ping_req c ts =
    let nonce = (c.ping_seq + 1) % 2 ^ 64 in
    (
      record c { ping_seq = nonce },
      0x01 ∷ 0x90 ∷ (two_bytes 16 ++ (be64 c.session_id ++ (be32 0 ++ (be64 nonce ++ be64 ts)))),
    )

-- An answer of `recv`: bytes, none yet (zero), or less than zero.
pub data RecvAnswer : Type 0 where
  got : List ℕ → RecvAnswer
  nothing failed : RecvAnswer

-- The loop that waits for an answer. `unanswered` is a list that ends too early.
pub data Waited : Type 0 where
  received : List ℕ → Waited
  gave_up unanswered : Waited

unfoldable pub wait_recv : List RecvAnswer → Waited
wait_recv [] = unanswered
wait_recv (got [] ∷ more) = wait_recv more
wait_recv (got (b ∷ bytes) ∷ more) = received (b ∷ bytes)
wait_recv (nothing ∷ more) = wait_recv more
wait_recv (failed ∷ more) = gave_up

-- A buffer after a read into its front.
abbrev pub buffer : List ℕ → List ℕ → List ℕ
buffer old bytes = bytes ++ drop (length bytes) old

-- `loginPhase`, with whether the request went out; it reads the session id wherever bytes came.
unfoldable pub login_phase : Client → Bool → List RecvAnswer → List ℕ → Client
unfolding wait_recv
login_phase c sent answers old =
    if sent
    then elim (wait_recv answers) [
      | received bytes ↦ record c { session_id = be64_at (buffer old bytes) 4 }
      | gave_up ↦ c
      | unanswered ↦ c
    ]
    else c

-- What `pingPhase` logs of an answer: the number, and the two times in nanoseconds.
pub data PingLog : Type 0 where
  early send_failed too_short clock_skew : PingLog
  measured : (nonce rtt server_rtt : ℕ) → PingLog

-- The part of `pingPhase` that reads the answer. The bodies are `uint64_t`s.
unfoldable pub read_ping : List ℕ → ℕ → PingLog
read_ping bytes now =
    if ltb (length bytes) 40
    then too_short
    else let nonce = be64_at bytes 16 in
      let client_ts = be64_at bytes 24 in
      let server_ts = be64_at bytes 32 in
      if ltb now client_ts
      then clock_skew
      else measured nonce (now - client_ts) ((server_ts + 2 ^ 64 - client_ts) % 2 ^ 64)

-- `pingPhase`, five seconds apart: at the times (in nanoseconds) when it starts, sends and reads.
unfoldable pub ping_phase : Client → (start sent_at read_at : ℕ) → Bool → List ℕ → Client × PingLog
unfolding build_ping_req read_ping
ping_phase c start sent_at read_at sent bytes =
    if ltb (start - c.last_ping) 5000000000
    then (c, early)
    else let c' = (build_ping_req (record c { last_ping = start }) sent_at).0 in
      (c', if sent then read_ping bytes read_at else send_failed)
