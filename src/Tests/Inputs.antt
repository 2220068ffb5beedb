-- ===== src/Tests/Inputs.antt =====
-- Inputs that the tests share.
use nf_engine.Prelude.{ℕ, List, [], ◌∷◌}
use nf_engine.Packet.{Packet, ConnInfo, tcp, tls}

abbrev pub by_tls : ConnInfo
by_tls = record {
  protocol = tls;
  src = record { ip = 5; port = 6 };
  dst = record { ip = 0; port = 9000 };
}

abbrev pub by_tcp : ConnInfo
by_tcp = record by_tls { protocol = tcp }

abbrev pub a_packet : Packet
a_packet = record { fd = 4; conn_info = by_tls; payload = []; tx_offset = 0 }

-- An id of two bytes, and a password of one.
abbrev pub name : List ℕ
name = 97 ∷ 98 ∷ []

abbrev pub secret : List ℕ
secret = 120 ∷ []
