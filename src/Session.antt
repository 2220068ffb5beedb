-- ===== src/Session.antt =====
-- serverd/session: Session.h, and SessionManager.cpp, whose two tables every session operation reads
-- and writes under one lock, so that an operation is one step. The dump to the log is left out.
pub mod Laws
pub mod Tables
pub mod Linked
pub mod Run
use nf_engine.Prelude.{
  ℕ, ◌%◌, ◌^◌, List, [], ◌∷◌, map, Bool, true, false, Option, none, some, ◌==◌, ◌||◌, if◌then◌else◌,
  length,
}
use nf_engine.Prelude.Assoc.{lookup, has, emplace, assign, erase}
use nf_engine.Packet.{
  Protocol, tcp, tls, udp, unknown, ConnInfo, Addr, no_fd, login_success_res, login_fail_res,
  lobby_entry_res, ping_res,
}
use nf_engine.Codec.Parser.{ParsedPacket, set_session_id}

pub data SessionState : Type 0 where
  pre_auth auth in_world closed unknown_state : SessionState

pub record Session : Type 0 where
  pub session_id : ℕ
  pub state : SessionState
  pub tls_fd : ℕ
  pub tcp_fd : ℕ
  pub udp_fd : ℕ
  pub conn_info : ConnInfo

-- A `ConnInfo{}` is zero, and the first protocol is TCP.
abbrev pub no_conn_info : ConnInfo
no_conn_info = record {
  protocol = tcp;
  src = record { ip = 0; port = 0 };
  dst = record { ip = 0; port = 0 };
}

unfoldable pub session : ℕ → Session
session sid = record {
  session_id = sid;
  state = unknown_state;
  tls_fd = no_fd;
  tcp_fd = no_fd;
  udp_fd = no_fd;
  conn_info = no_conn_info;
}

-- `Session::bind`
unfoldable pub bind : Session → ParsedPacket → Session
bind s parsed = elim parsed.conn_info.protocol [
  | tcp ↦ record s { conn_info = parsed.conn_info; tcp_fd = parsed.fd }
  | tls ↦ record s { conn_info = parsed.conn_info; tls_fd = parsed.fd }
  | udp ↦ record s { conn_info = parsed.conn_info; udp_fd = parsed.fd }
  | unknown ↦ record s { conn_info = parsed.conn_info }
]

pub record SessionManager : Type 0 where
  pub tls_fd_to_session_id : List (ℕ × ℕ)
  pub sessions : List (ℕ × Session)

unfoldable pub check_and_bind : SessionManager → ParsedPacket → Bool × SessionManager
unfolding lookup assign
check_and_bind m parsed =
    if parsed.session_id == 0 then (false, m) else elim (lookup parsed.session_id m.sessions) [
      | none ↦ (false, m)
      | some s ↦ (true, record m { sessions = assign parsed.session_id (bind s parsed) m.sessions })
    ]

-- `generateSecureSessionId`: the first number that is not zero among those that RAND_bytes gives. Where
-- they run out, RAND_bytes has failed, and the program aborts.
unfoldable pub generate_secure_session_id : List ℕ → Option ℕ
generate_secure_session_id [] = none
generate_secure_session_id (sid ∷ more) =
    let later = generate_secure_session_id more in
    if sid % 2 ^ 64 == 0 then later else some (sid % 2 ^ 64)

-- `create`, with the numbers that RAND_bytes will give; `none` is an abort. The packet is passed
-- by reference, and gets the new session's id.
unfoldable pub create :
    SessionManager → ParsedPacket → List ℕ → Option (Bool × (SessionManager × ParsedPacket))
unfolding lookup emplace bind session set_session_id generate_secure_session_id
create m parsed random =
    if has parsed.fd m.tls_fd_to_session_id
    then some (false, (m, parsed))
    else elim (generate_secure_session_id random) [
      | none ↦ none
      | some sid ↦ some (
        true,
        (
          record {
            sessions =
                emplace sid (record (bind (session sid) parsed) { state = pre_auth }) m.sessions;
            tls_fd_to_session_id = emplace parsed.fd sid m.tls_fd_to_session_id;
          },
          set_session_id parsed sid,
        ),
      )
    ]

unfoldable pub erase_session : SessionManager → ℕ → SessionManager
unfolding lookup erase
erase_session m sid = elim (lookup sid m.sessions) [
  | none ↦ m
  | some s ↦ record {
    tls_fd_to_session_id = erase s.tls_fd m.tls_fd_to_session_id;
    sessions = erase sid m.sessions;
  }
]

pub record SessionTxSnapshot : Type 0 where
  pub protocol : Protocol
  pub tls_fd : ℕ
  pub tcp_fd : ℕ
  pub udp_fd : ℕ
  pub conn_info : ConnInfo

-- The protocol that an answer goes by.
unfoldable pub tx_protocol : ℕ → Protocol
tx_protocol opcode =
    if (opcode == login_success_res) || (opcode == login_fail_res)
    then tls
    else if opcode == lobby_entry_res
    then tcp
    else if opcode == ping_res
    then udp
    else unknown

unfoldable pub get_tx_snapshot : SessionManager → ℕ → ℕ → Option SessionTxSnapshot
unfolding lookup tx_protocol
get_tx_snapshot m sid opcode = elim (lookup sid m.sessions) [
  | none ↦ none
  | some s ↦ elim (tx_protocol opcode) [
    | unknown ↦ none
    | proto ↦ some (record {
      protocol = proto;
      tls_fd = s.tls_fd;
      tcp_fd = s.tcp_fd;
      udp_fd = s.udp_fd;
      conn_info = s.conn_info;
    })
  ]
]

unfoldable pub set_state : SessionManager → ℕ → SessionState → SessionManager
unfolding lookup assign
set_state m sid state = elim (lookup sid m.sessions) [
  | none ↦ m
  | some s ↦ record m { sessions = assign sid (record s { state = state }) m.sessions }
]

unfoldable pub total_count : SessionManager → ℕ
total_count m = length m.sessions

-- A line of `snapshot`; the state's name stands for its text.
pub record SessionInfo : Type 0 where
  pub session_id : ℕ
  pub state : SessionState
  pub tls_fd : ℕ
  pub tcp_fd : ℕ
  pub udp_fd : ℕ

unfoldable pub snapshot : SessionManager → List SessionInfo
snapshot m =
    map
      (λ entry. record {
        session_id = entry.0;
        state = entry.1.state;
        tls_fd = entry.1.tls_fd;
        tcp_fd = entry.1.tcp_fd;
        udp_fd = entry.1.udp_fd;
      })
      m.sessions
