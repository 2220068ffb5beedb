-- ===== src/Codec/ParserLaws.antt =====
-- About PacketParser: messages as the builders make them, and frames as the framing cuts them.
use nf_engine.Prelude.{
  ℕ, ◌+◌, ◌%◌, ◌^◌, ◌≤◌, ◌<◌, ◌≡◌, refl, ap, ◌∙◌, List, ◌++◌, some, arith, length, take, drop,
  length-append, length-take, take-append-drop, drop-append, length-drop, take-all,
}
use nf_engine.Packet.{Packet}
use nf_engine.Bytes.{byte_at, be, to_be, be16_at, be32_at, be64_at}
use nf_engine.Codec.Parser.{ParsedPacket, header_size, body, parse}
use nf_engine.Codec.Responses.{header, version}
use nf_engine.Framing.Spec.{IsComplete, frame_len}
use nf_engine.Framing.Laws.{packet_format, take-be16}

-- The packet with these bytes.
abbrev pub with_payload : Packet → List ℕ → Packet
with_payload pkt bytes = record pkt { payload = bytes }

pub length-header :
    (op len sid : ℕ) (xs : List ℕ) → length (header op len sid ++ xs) ≡ 16 + length xs
unfolding to_be
length-header op len sid xs = omega arith

pub header-len : (op len sid : ℕ) (xs : List ℕ) → be16_at (header op len sid ++ xs) 2 ≡ len % 2 ^ 16
unfolding be16_at be to_be
header-len op len sid xs = omega arith

header-sid : (op len sid : ℕ) (xs : List ℕ) → be64_at (header op len sid ++ xs) 4 ≡ sid % 2 ^ 64
unfolding be64_at be to_be
header-sid op len sid xs = omega arith

header-flags : (op len sid : ℕ) (xs : List ℕ) → be32_at (header op len sid ++ xs) 12 ≡ 0
unfolding be32_at be to_be
header-flags op len sid xs = omega arith

header-opcode : (op len sid : ℕ) (xs : List ℕ) → byte_at (header op len sid ++ xs) 1 ≡ op % 256
unfolding byte_at
header-opcode op len sid xs = omega arith

header-version : (op len sid : ℕ) (xs : List ℕ) → byte_at (header op len sid ++ xs) 0 ≡ version
unfolding byte_at
header-version op len sid xs = refl

-- What the parser makes of a packet that is long enough.
abbrev pub parsed : Packet → ParsedPacket
parsed pkt = record {
  fd = pkt.fd;
  conn_info = pkt.conn_info;
  version = byte_at pkt.payload 0;
  opcode = byte_at pkt.payload 1;
  flags = be32_at pkt.payload 12;
  session_id = be64_at pkt.payload 4;
  payload = pkt.payload;
  body_offset = header_size;
  body_len = be16_at pkt.payload 2;
}

pub parse-long :
    (pkt : Packet)
    → header_size + be16_at pkt.payload 2 ≤ length pkt.payload
    → parse (some pkt) ≡ some (parsed pkt)
unfolding parse
parse-long pkt h = ground arith

-- A frame that the framing cut off the stream parses, and its payload is the header of sixteen
-- bytes and the body.
pub parse-frame :
    (pkt : Packet) (xs : List ℕ)
    → IsComplete packet_format xs
    → pkt.payload ≡ take (frame_len packet_format xs) xs
    → (p : ParsedPacket) × ((parse (some pkt) ≡ some p)
        × ((take header_size pkt.payload ++ body p ≡ pkt.payload)
            × (length (body p) ≡ be16_at xs 2)))
parse-frame pkt xs (long, whole) e =
    (parsed pkt, (parse-long pkt (omega (arith, size, len)), (split, cut)))
  where
    size : length pkt.payload ≡ header_size + be16_at xs 2
    size = rw e (omega (arith, length-take (frame_len packet_format xs) xs))

    len : be16_at pkt.payload 2 ≡ be16_at xs 2
    len = rw e (take-be16 xs 2 (frame_len packet_format xs) (omega arith) (omega arith))

    cut : length (take (be16_at pkt.payload 2) (drop header_size pkt.payload)) ≡ be16_at xs 2
    cut = omega (
      arith,
      len,
      size,
      length-take (be16_at pkt.payload 2) (drop header_size pkt.payload),
      length-drop header_size pkt.payload,
    )

    split :
        take header_size pkt.payload ++ take (be16_at pkt.payload 2) (drop header_size pkt.payload)
        ≡ pkt.payload
    split =
        ap (◌++◌ (take header_size pkt.payload)) (
          take-all (be16_at pkt.payload 2) (drop header_size pkt.payload)
            (omega (arith, len, size, length-drop header_size pkt.payload)))
        ∙ take-append-drop header_size pkt.payload

-- The parsed packet of a header with these contents and these bytes behind it.
abbrev pub built : Packet → ℕ → ℕ → List ℕ → ParsedPacket
built pkt op sid bytes = record {
  fd = pkt.fd;
  conn_info = pkt.conn_info;
  version = version;
  opcode = op % 256;
  flags = 0;
  session_id = sid % 2 ^ 64;
  payload = header op (length bytes) sid ++ bytes;
  body_offset = header_size;
  body_len = length bytes;
}

-- A message that a builder made, a header with the length of its body of less than 64 K and the
-- body, parses: the opcode, the session id and the body are those that were put in.
pub parse-header :
    (pkt : Packet) (op sid : ℕ) (bytes : List ℕ)
    → length bytes < 2 ^ 16
    → (parse (some (with_payload pkt (header op (length bytes) sid ++ bytes)))
        ≡ some (built pkt op sid bytes))
      × (body (built pkt op sid bytes) ≡ bytes)
parse-header pkt op sid bytes h = (
  parse-long (with_payload pkt (header op (length bytes) sid ++ bytes)) (omega (arith, len, size))
      ∙ ap some same,
  cut,
)
  where
    size : length (header op (length bytes) sid ++ bytes) ≡ 16 + length bytes
    size = length-header op (length bytes) sid bytes

    len : be16_at (header op (length bytes) sid ++ bytes) 2 ≡ length bytes
    len = omega (arith, header-len op (length bytes) sid bytes)

    cut : take (length bytes) (drop header_size (header op (length bytes) sid ++ bytes)) ≡ bytes
    cut =
        ap (take (length bytes)) (
          drop-append (header op (length bytes) sid) bytes 16
            (omega (arith, size, length-append (header op (length bytes) sid) bytes)))
        ∙ take-all (length bytes) bytes (omega arith)

    same :
        parsed (with_payload pkt (header op (length bytes) sid ++ bytes)) ≡ built pkt op sid bytes
    same = rw (
      len,
      header-sid op (length bytes) sid bytes,
      header-flags op (length bytes) sid bytes,
      header-opcode op (length bytes) sid bytes,
      header-version op (length bytes) sid bytes,
    )
