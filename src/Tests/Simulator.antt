-- ===== src/Tests/Simulator.antt =====
-- The test client at a concrete login and ping.
use nf_engine.Prelude.{ℕ, ◌+◌, ◌-◌, ◌%◌, ◌^◌, ◌≡◌, List, [], true, none, replicate, arith}
use nf_engine.Packet.{login_success_res, login_fail_res, ping_res}
use nf_engine.Codec.Parser.{set_session_id}
use nf_engine.Codec.Requests.{login, lobby_entry, ping}
use nf_engine.Codec.Responses.{serialize_login, serialize_ping}
use nf_engine.Execution.{admits}
use nf_engine.Simulator.{
  Client, build_login_req, build_lobby_entry_req, build_ping_req, measured, read_ping,
}
use nf_engine.Simulator.Laws.{Raises, test, same_packet, logged_in, client_session}
use nf_engine.Tests.Inputs.{a_packet}

abbrev a_client : Client
a_client = record { session_id = 0; ping_seq = 4; last_ping = 0 }

abbrev old_buffer : List ℕ
old_buffer = replicate 64 0

client_session_example :
    let c' = logged_in a_client 2 old_buffer [] (serialize_login login_success_res 77) in
    let nonce = (a_client.ping_seq + 1) % 2 ^ 64 in
    Raises a_packet build_login_req (λ p. set_session_id p 77) (login 77 test test)
    × ((admits none test test ≡ true)
        × ((c'.session_id ≡ 77)
            × (((logged_in a_client 2 old_buffer [] (serialize_login login_fail_res 77)).session_id
                  ≡ 0)
                × (Raises a_packet (build_lobby_entry_req c') same_packet (lobby_entry 77)
                    × (Raises a_packet (build_ping_req c' 100).1 same_packet (ping 77 nonce 100)
                        × (read_ping (serialize_ping ping_res 77 nonce 100 130) 150
                            ≡ measured nonce (150 - 100) ((130 + 2 ^ 64 - 100) % 2 ^ 64)))))))
client_session_example =
    client_session a_client 2 old_buffer [] a_packet 77 100 130 150 (omega arith) (omega arith)
      (omega arith) (omega arith)
