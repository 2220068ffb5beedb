-- ===== src/Router/Tx/Laws.antt =====
-- Where an answer goes, and what it does to its session.
use nf_engine.Prelude.{ℕ, ◌≡◌, List, none, some, arith}
use nf_engine.Prelude.Assoc.{lookup}
use nf_engine.Packet.{
  Protocol, tcp, tls, udp, Packet, packet, login_success_res, login_fail_res, lobby_entry_res,
  ping_res,
}
use nf_engine.Session.{
  Session, SessionManager, auth, in_world, get_tx_snapshot, set_state, erase_session, tx_protocol,
}
use nf_engine.Router.Tx.{build, settle, handle_packet}

-- The answer on its way back: from the address that was asked to the one that asked.
abbrev pub reply : Session → ℕ → Protocol → List ℕ → Packet
reply s fd proto payload = packet fd proto payload s.conn_info.dst s.conn_info.src

module _ (m : SessionManager) (sid : ℕ) (s : Session) (payload : List ℕ)
    (found : lookup sid m.sessions ≡ some s) where
  -- Each kind of answer to a session goes by its protocol to the session's descriptor of that
  -- protocol, with source and destination swapped, and settles the session.
  pub handle_packet_lem :
      (handle_packet m sid login_success_res payload
        ≡ (set_state m sid auth, some (reply s s.tls_fd tls payload)))
      × ((handle_packet m sid login_fail_res payload
            ≡ (erase_session m sid, some (reply s s.tls_fd tls payload)))
          × ((handle_packet m sid lobby_entry_res payload
                ≡ (set_state m sid in_world, some (reply s s.tcp_fd tcp payload)))
              × (handle_packet m sid ping_res payload ≡ (m, some (reply s s.udp_fd udp payload)))))
  unfolding handle_packet get_tx_snapshot tx_protocol settle build packet
  handle_packet_lem = (ground arith, (ground arith, (ground arith, ground arith)))

-- An answer to a session that is gone is dropped.
pub handle_packet-absent :
    (m : SessionManager) (sid opcode : ℕ) (payload : List ℕ)
    → lookup sid m.sessions ≡ none
    → handle_packet m sid opcode payload ≡ (m, none)
unfolding handle_packet get_tx_snapshot
handle_packet-absent m sid opcode payload absent = ground arith
