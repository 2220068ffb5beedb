-- ===== src/Codec/Responses.antt =====
-- The response builders: serverd/execution/login/LoginBuilder.cpp, lobby/LobbyBuilder.cpp and
-- ping/PingBuilder.cpp. A builder fills a vector from front to back; the model joins the parts.
use nf_engine.Prelude.{
  ℕ, ◌+◌, ◌*◌, ◌-◌, ◌%◌, ◌^◌, List, [], ◌∷◌, ◌++◌, length, take, replicate, ◌==◌, if◌then◌else◌,
}
use nf_engine.Bytes.{be16, be32, be64}
use nf_engine.Packet.{login_success_res, login_fail_res, lobby_entry_res, ping_res}

abbrev pub version : ℕ
version = 0x01

-- The common header, with the flags zero.
abbrev pub header : ℕ → ℕ → ℕ → List ℕ
header opcode body_len session_id =
    version ∷ (opcode % 256) ∷ (be16 body_len ++ (be64 session_id ++ be32 0))

-- A response to a failed login carries no session id.
unfoldable pub build_login_res_success : ℕ → ℕ → List ℕ
build_login_res_success opcode session_id = header opcode 1 session_id ++ (0x01 ∷ [])

unfoldable pub build_login_res_fail : ℕ → ℕ → List ℕ
build_login_res_fail opcode session_id = header opcode 1 0 ++ (0x00 ∷ [])

-- `LoginBuilder::serialize`
unfoldable pub serialize_login : ℕ → ℕ → List ℕ
serialize_login opcode session_id =
    if opcode == login_success_res
    then build_login_res_success opcode session_id
    else if opcode == login_fail_res
    then build_login_res_fail opcode session_id
    else []

-- MarketMeta; the alias is a C string without its NUL.
pub record Market : Type 0 where
  pub id : ℕ
  pub alias : List ℕ

abbrev pub alias_size : ℕ
alias_size = 16

-- `strncpy(aliasBuf, alias, ALIAS_SIZE - 1)` into a zeroed buffer of ALIAS_SIZE bytes.
unfoldable pub pad_alias : List ℕ → List ℕ
pad_alias alias =
    let kept = take (alias_size - 1) alias in kept ++ replicate (alias_size - length kept) 0

unfoldable pub entries : List Market → List ℕ
unfolding pad_alias
entries [] = []
entries (m ∷ more) = m.id % 256 ∷ (pad_alias m.alias ++ entries more)

-- `buildLobbyRes`. The vector has room for `count` entries, where `count` is the number of markets
-- as a `uint16_t`: with 65536 markets or more the loop would write past its end, and is not modelled.
unfoldable pub build_lobby_res : ℕ → ℕ → List Market → List ℕ
unfolding entries
build_lobby_res opcode session_id markets =
    let count = length markets % 2 ^ 16 in
    let body_len = 2 + count * 17 in
    header opcode body_len session_id ++ (be16 count ++ entries markets)

unfoldable pub serialize_lobby : ℕ → ℕ → List Market → List ℕ
serialize_lobby opcode session_id markets =
    if opcode == lobby_entry_res then build_lobby_res opcode session_id markets else []

-- `server_ts` is the clock's reading.
unfoldable pub build_ping_res : ℕ → ℕ → ℕ → ℕ → ℕ → List ℕ
build_ping_res opcode session_id nonce client_ts server_ts =
    header opcode 24 session_id ++ (be64 nonce ++ (be64 client_ts ++ be64 server_ts))

unfoldable pub serialize_ping : ℕ → ℕ → ℕ → ℕ → ℕ → List ℕ
serialize_ping opcode session_id nonce client_ts server_ts =
    if opcode == ping_res then build_ping_res opcode session_id nonce client_ts server_ts else []
