-- ===== src/Codec/Parser.antt =====
-- serverd/packet/PacketParser.cpp, with ParsedPacket.h and ParsedPacket.cpp.
use nf_engine.Prelude.{ℕ, ◌+◌, List, Option, none, some, length, take, drop, ltb, if◌then◌else◌}
use nf_engine.Packet.{ConnInfo, Packet}
use nf_engine.Bytes.{byte_at, be16_at, be32_at, be64_at}

pub record ParsedPacket : Type 0 where
  pub fd : ℕ
  pub conn_info : ConnInfo
  pub version : ℕ
  pub opcode : ℕ
  pub flags : ℕ
  pub session_id : ℕ
  pub payload : List ℕ
  pub body_offset : ℕ
  pub body_len : ℕ

abbrev pub header_size : ℕ
header_size = 16

-- The body: `bodySize()` bytes from `bodyData()` on.
abbrev pub body : ParsedPacket → List ℕ
body p = take p.body_len (drop p.body_offset p.payload)

unfoldable pub set_session_id : ParsedPacket → ℕ → ParsedPacket
set_session_id p sid = record p { session_id = sid }

-- `parse`; a null packet is `none`.
unfoldable pub parse : Option Packet → Option ParsedPacket
parse none = none
parse (some pkt) =
    if ltb (length pkt.payload) header_size
    then none
    else let body_len = be16_at pkt.payload 2 in
      if ltb (length pkt.payload) (header_size + body_len)
      then none
      else some (record {
        fd = pkt.fd;
        conn_info = pkt.conn_info;
        version = byte_at pkt.payload 0;
        opcode = byte_at pkt.payload 1;
        flags = be32_at pkt.payload 12;
        session_id = be64_at pkt.payload 4;
        payload = pkt.payload;
        body_offset = header_size;
        body_len = body_len;
      })
