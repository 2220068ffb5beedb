-- ===== src/Codec/Requests.antt =====
-- The request parsers: serverd/execution/login/LoginParser.cpp, lobby/LobbyParser.cpp and
-- ping/PingParser.cpp, and serverd/ingress/EventFactory.cpp, which selects one by the opcode.
-- `nullptr` is `none`. A `std::string_view` is its bytes.
use nf_engine.Prelude.{
  ℕ, ◌+◌, List, Option, none, some, ◌||◌, not, length, take, drop, ltb, ◌==◌, if◌then◌else◌,
}
use nf_engine.Packet.{login_req, lobby_entry_req, ping_req}
use nf_engine.Bytes.{be16_at, be64_at}
use nf_engine.Codec.Parser.{ParsedPacket, header_size}

-- The events of serverd/execution that a packet can raise.
pub data Event : Type 0 where
  login : (session_id : ℕ) (id pw : List ℕ) → Event
  lobby_entry : (session_id : ℕ) → Event
  ping : (session_id nonce client_ts : ℕ) → Event

-- The part of `parseLoginReq` that reads `len` bytes of the body.
unfoldable pub login_fields : List ℕ → ℕ → Option (List ℕ × List ℕ)
login_fields buf len =
    if ltb len 2
    then none
    else let id_len = be16_at buf 0 in
      if ltb len (2 + id_len)
      then none
      else if ltb len (2 + id_len + 2)
      then none
      else let pw_len = be16_at buf (2 + id_len) in
        if ltb len (2 + id_len + 2 + pw_len)
        then none
        else some (take id_len (drop 2 buf), take pw_len (drop (2 + id_len + 2) buf))

unfoldable pub parse_login_req : ParsedPacket → Option Event
unfolding login_fields
parse_login_req p =
    if ltb (length p.payload) header_size || ltb (length p.payload) (header_size + p.body_len)
    then none
    else elim (login_fields (drop header_size p.payload) p.body_len) [
      | none ↦ none
      | some (id, pw) ↦ some (login p.session_id id pw)
    ]

unfoldable pub parse_lobby_entry_req : ParsedPacket → Option Event
parse_lobby_entry_req p =
    if not (p.body_len == 0)
    then none
    else if ltb (length p.payload) header_size
    then none
    else some (lobby_entry p.session_id)

unfoldable pub parse_ping_req : ParsedPacket → Option Event
parse_ping_req p =
    if ltb (length p.payload) header_size || ltb (length p.payload) (header_size + p.body_len)
    then none
    else if not (p.body_len == 16)
    then none
    else let buf = drop header_size p.payload in
      some (ping p.session_id (be64_at buf 0) (be64_at buf 8))

-- `EventFactory::create`; each `deserialize` tests the opcode again, and finds it as it is.
unfoldable pub create : ParsedPacket → Option Event
create p =
    if p.opcode == login_req
    then parse_login_req p
    else if p.opcode == lobby_entry_req
    then parse_lobby_entry_req p
    else if p.opcode == ping_req
    then parse_ping_req p
    else none
