-- ===== src/Framing/Tcp.antt =====
-- serverd/protocol/tcp/TcpFraming.cpp.
use nf_engine.Prelude.{◌+◌, ltb, if◌then◌else◌}
use nf_engine.Ring.{Ring, readable, peek}
use nf_engine.Bytes.{be16_at}
use nf_engine.Framing.{
  FramingResult, ok, need_more_data, invalid_body_len, packet_header_size, max_body_len,
}

unfoldable pub try_extract_frame : Ring → FramingResult
unfolding readable
try_extract_frame rx =
    if ltb (readable rx) packet_header_size
    then need_more_data
    else let body_len = be16_at (peek rx packet_header_size) 2 in
      let frame_len = packet_header_size + body_len in
      if ltb max_body_len body_len
      then invalid_body_len
      else if ltb (readable rx) frame_len
      then need_more_data
      else ok frame_len
