-- ===== src/Router/Tx.antt =====
-- serverd/egress/TxRouter.cpp, with serverd/packet/PacketBuilder.cpp.
pub mod Laws
use nf_engine.Prelude.{ℕ, List, Option, none, some, ◌==◌, if◌then◌else◌}
use nf_engine.Packet.{
  Protocol, tcp, tls, udp, unknown, Packet, packet, login_success_res, login_fail_res,
  lobby_entry_res,
}
use nf_engine.Session.{
  SessionManager, SessionTxSnapshot, auth, in_world, get_tx_snapshot, set_state, erase_session,
}

-- `PacketBuilder::build`: the answer goes back the way the request came. The addresses go to network
-- order here and back to host order in the packet's constructor.
unfoldable pub build : List ℕ → SessionTxSnapshot → Option Packet
unfolding packet
build payload snap = elim snap.protocol [
  | tcp ↦ some (packet snap.tcp_fd tcp payload snap.conn_info.dst snap.conn_info.src)
  | tls ↦ some (packet snap.tls_fd tls payload snap.conn_info.dst snap.conn_info.src)
  | udp ↦ some (packet snap.udp_fd udp payload snap.conn_info.dst snap.conn_info.src)
  | unknown ↦ none
]

-- The change of the session that an answer brings.
unfoldable pub settle : SessionManager → ℕ → ℕ → SessionManager
unfolding set_state erase_session
settle m sid opcode =
    if opcode == login_success_res
    then set_state m sid auth
    else if opcode == login_fail_res
    then erase_session m sid
    else if opcode == lobby_entry_res
    then set_state m sid in_world
    else m

-- `handlePacket`: the sessions after it, and the packet that it hands to the server of the packet's
-- protocol. The three servers are there.
unfoldable pub handle_packet : SessionManager → ℕ → ℕ → List ℕ → SessionManager × Option Packet
unfolding get_tx_snapshot settle build
handle_packet m sid opcode payload = elim (get_tx_snapshot m sid opcode) [
  | none ↦ (m, none)
  | some snap ↦ (settle m sid opcode, build payload snap)
]
