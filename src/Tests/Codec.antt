-- ===== src/Tests/Codec.antt =====
-- Parsers, builders and control messages at concrete inputs.
use nf_engine.Prelude.{
  ℕ, ◌+◌, ◌*◌, ◌≤◌, ◌≡◌, refl, List, [], ◌∷◌, ◌++◌, some, arith, length, take, drop,
}
use nf_engine.Packet.{
  login_req, ping_req, lobby_entry_res, login_success_res, login_fail_res, ping_res,
}
use nf_engine.Bytes.{be16, be64, be16_at, be}
use nf_engine.Codec.ParserLaws.{built}
use nf_engine.Codec.Requests.{login, lobby_entry, ping, login_fields}
use nf_engine.Codec.Requests
use nf_engine.Codec.RequestLaws.{login_body, requests_create, login_fields-bounds}
use nf_engine.Codec.Responses.{entries, serialize_login, serialize_lobby, serialize_ping}
use nf_engine.Codec.ResponseLaws.{IsMessage, responses_parse}
use nf_engine.Execution.{init_markets}
use nf_engine.Tests.Inputs.{a_packet, name, secret}

abbrev login_bytes : List ℕ
login_bytes = 0 ∷ 2 ∷ 97 ∷ 98 ∷ 0 ∷ 1 ∷ 120 ∷ 55 ∷ []

fields_read : login_fields login_bytes 7 ≡ some (name, secret)
unfolding login_fields be16_at be
fields_read = refl

login_fields-bounds_example :
    (4 + (length name + length secret) ≤ 7)
    × ((length name ≡ be16_at login_bytes 0)
        × ((length secret ≡ be16_at login_bytes (2 + length name))
            × ((name ≡ take (length name) (drop 2 login_bytes))
                × (secret ≡ take (length secret) (drop (4 + length name) login_bytes)))))
login_fields-bounds_example =
    login_fields-bounds login_bytes name secret 7 (omega arith) fields_read

requests_create_example :
    (Requests.create (built a_packet login_req 7 (login_body name secret))
      ≡ some (login 7 name secret))
    × (Requests.create (built a_packet ping_req 7 (be64 1000 ++ be64 2000))
        ≡ some (ping 7 1000 2000))
requests_create_example =
    requests_create a_packet 7 name secret 1000 2000 (omega arith) (omega arith) (omega arith)
      (omega arith)

responses_parse_example :
    IsMessage a_packet login_success_res 7 (1 ∷ []) (serialize_login login_success_res 7)
    × IsMessage a_packet login_fail_res 0 (0 ∷ []) (serialize_login login_fail_res 7)
    × IsMessage a_packet lobby_entry_res 7
        (be16 (length init_markets) ++ entries init_markets)
        (serialize_lobby lobby_entry_res 7 init_markets)
    × (length (entries init_markets) ≡ 17 * length init_markets)
    × IsMessage a_packet ping_res 7 (be64 1 ++ (be64 2 ++ be64 3)) (serialize_ping ping_res 7 1 2 3)
responses_parse_example = responses_parse a_packet 7 init_markets 1 2 3 (omega arith) (omega arith)
