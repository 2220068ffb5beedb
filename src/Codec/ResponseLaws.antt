-- ===== src/Codec/ResponseLaws.antt =====
-- About LoginBuilder, LobbyBuilder and PingBuilder, with the framing and the parser of a client.
use nf_engine.Prelude.{
  ℕ, ◌+◌, ◌*◌, ◌-◌, ◌%◌, ◌^◌, ◌≤◌, ◌<◌, ◌≡◌, List, [], ◌∷◌, ◌++◌, some, arith, length, take,
  replicate, length-append, length-take, length-replicate,
}
use nf_engine.Packet.{Packet, login_success_res, login_fail_res, lobby_entry_res, ping_res}
use nf_engine.Bytes.{be16, be64, to_be}
use nf_engine.Bytes.Laws.{length-to_be}
use nf_engine.Framing.Spec.{Deframed}
use nf_engine.Framing.Stream.{Deframed-whole}
use nf_engine.Framing.Laws.{packet_format}
use nf_engine.Codec.Parser.{ParsedPacket, body, parse}
use mathlib.Core.Path.{subst}
use nf_engine.Codec.ParserLaws.{with_payload, built, parse-header, length-header, header-len}
use nf_engine.Codec.Responses.{
  header, Market, pad_alias, entries, serialize_login, serialize_lobby, serialize_ping,
  build_login_res_success, build_login_res_fail, build_lobby_res, build_ping_res,
}

-- The bytes are exactly one frame of the stream, and their parse gives this opcode, session and body.
abbrev pub IsMessage : Packet → ℕ → ℕ → List ℕ → List ℕ → Type 0
IsMessage pkt opcode session_id bytes message =
    Deframed packet_format message (message ∷ []) []
    × ((p : ParsedPacket) × ((parse (some (with_payload pkt message)) ≡ some p)
          × ((p.opcode ≡ opcode) × ((p.session_id ≡ session_id) × (body p ≡ bytes)))))

header-IsMessage :
    (pkt : Packet) (op sid : ℕ) (bytes : List ℕ)
    → op < 256
    → sid < 2 ^ 64
    → length bytes < 2 ^ 16
    → IsMessage pkt op sid bytes (header op (length bytes) sid ++ bytes)
header-IsMessage pkt op sid bytes ho hs h = (
  Deframed-whole packet_format _ (omega (arith, length-header op (length bytes) sid bytes)) (
      omega
        (arith, length-header op (length bytes) sid bytes, header-len op (length bytes) sid bytes)),
  (
    built pkt op sid bytes,
    (
      (parse-header pkt op sid bytes h).0,
      (omega arith, (omega arith, (parse-header pkt op sid bytes h).1)),
    ),
  ),
)

length-pad_alias : (alias : List ℕ) → length (pad_alias alias) ≡ 16
unfolding pad_alias
length-pad_alias alias = omega (
  arith,
  length-take 15 alias,
  length-replicate {A = ℕ} (16 - length (take 15 alias)) 0,
  length-append (take 15 alias) (replicate {A = ℕ} (16 - length (take 15 alias)) 0),
)

length-entries : (ms : List Market) → length (entries ms) ≡ 17 * length ms
unfolding entries
length-entries [] = omega arith
length-entries (m ∷ ms) = omega (
  arith,
  length-append (pad_alias m.alias) (entries ms),
  length-pad_alias m.alias,
  length-entries ms,
)

-- A response to a login is a message that carries the session and the byte one on success, and
-- no session and the byte zero on failure.
pub serialize_login_lem :
    (pkt : Packet) (sid : ℕ)
    → sid < 2 ^ 64
    → IsMessage pkt login_success_res sid (1 ∷ []) (serialize_login login_success_res sid)
      × IsMessage pkt login_fail_res 0 (0 ∷ []) (serialize_login login_fail_res sid)
unfolding serialize_login build_login_res_success build_login_res_fail
serialize_login_lem pkt sid h = (
  header-IsMessage pkt login_success_res sid (1 ∷ []) (omega arith) h (omega arith),
  header-IsMessage pkt login_fail_res 0 (0 ∷ []) (omega arith) (omega arith) (omega arith),
)

-- With at most 3854 markets, the response to a lobby entry is one message whose body is their
-- number and an entry of 17 bytes for each.
pub serialize_lobby_lem :
    (pkt : Packet) (sid : ℕ) (markets : List Market)
    → sid < 2 ^ 64
    → length markets ≤ 3854
    → IsMessage pkt lobby_entry_res sid
        (be16 (length markets) ++ entries markets)
        (serialize_lobby lobby_entry_res sid markets)
      × (length (entries markets) ≡ 17 * length markets)
unfolding serialize_lobby build_lobby_res
serialize_lobby_lem pkt sid markets h few = (message, length-entries markets)
  where
    size : length (be16 (length markets) ++ entries markets) ≡ 2 + length markets * 17
    size = omega (
      arith,
      length-append (be16 (length markets)) (entries markets),
      length-to_be 2 (length markets),
      length-entries markets,
    )

    announced : IsMessage pkt lobby_entry_res sid (be16 (length markets) ++ entries markets) (
        header lobby_entry_res (2 + length markets * 17) sid
        ++ (be16 (length markets) ++ entries markets))
    announced =
        subst
          (λ n.
            IsMessage pkt lobby_entry_res sid (be16 (length markets) ++ entries markets)
              (header lobby_entry_res n sid ++ (be16 (length markets) ++ entries markets)))
          size (header-IsMessage pkt lobby_entry_res sid _ (omega arith) h (omega (arith, size)))

    message :
        IsMessage pkt lobby_entry_res sid
          (be16 (length markets) ++ entries markets)
          (serialize_lobby lobby_entry_res sid markets)
    message =
        subst
          (λ n.
            IsMessage pkt lobby_entry_res sid (be16 (length markets) ++ entries markets)
              (header lobby_entry_res (2 + n * 17) sid ++ (be16 n ++ entries markets)))
          (let d : length markets ≡ length markets % 2 ^ 16 = omega arith in d) announced

-- The response to a ping is one message with the nonce, the client's time and the server's.
pub serialize_ping_lem :
    (pkt : Packet) (sid nonce client_ts server_ts : ℕ)
    → sid < 2 ^ 64
    → IsMessage pkt ping_res sid
        (be64 nonce ++ (be64 client_ts ++ be64 server_ts))
        (serialize_ping ping_res sid nonce client_ts server_ts)
unfolding serialize_ping build_ping_res to_be
serialize_ping_lem pkt sid nonce client_ts server_ts h =
    header-IsMessage pkt ping_res sid (be64 nonce ++ (be64 client_ts ++ be64 server_ts))
      (omega arith) h (omega arith)

-- Each response is one frame of the stream and parses to what was put in: both answers to a login
-- to their opcode, the session or none, and the result; that to a lobby entry, with at most 3854
-- markets, to their number and an entry of 17 bytes for each; that to a ping to the nonce and both
-- times.
pub responses_parse :
    (pkt : Packet) (sid : ℕ) (markets : List Market) (nonce client_ts server_ts : ℕ)
    → sid < 2 ^ 64
    → length markets ≤ 3854
    → IsMessage pkt login_success_res sid (1 ∷ []) (serialize_login login_success_res sid)
      × IsMessage pkt login_fail_res 0 (0 ∷ []) (serialize_login login_fail_res sid)
      × IsMessage pkt lobby_entry_res sid
          (be16 (length markets) ++ entries markets)
          (serialize_lobby lobby_entry_res sid markets)
      × (length (entries markets) ≡ 17 * length markets)
      × IsMessage pkt ping_res sid
          (be64 nonce ++ (be64 client_ts ++ be64 server_ts))
          (serialize_ping ping_res sid nonce client_ts server_ts)
responses_parse pkt sid markets nonce client_ts server_ts h few = (
  (serialize_login_lem pkt sid h).0,
  (serialize_login_lem pkt sid h).1,
  (serialize_lobby_lem pkt sid markets h few).0,
  (serialize_lobby_lem pkt sid markets h few).1,
  serialize_ping_lem pkt sid nonce client_ts server_ts h,
)
