-- ===== src/Framing/Ipc.antt =====
-- serverd/ipc/IpcFraming.cpp. `(hdr[0] << 8) | hdr[1]` is a sum: the halves share no bit.
use nf_engine.Prelude.{◌+◌, ◌*◌, ltb, if◌then◌else◌}
use nf_engine.Ring.{Ring, readable, peek}
use nf_engine.Bytes.{byte_at}
use nf_engine.Framing.{
  FramingResult, ok, need_more_data, invalid_body_len, ipc_header_size, max_body_len,
}

unfoldable pub try_extract_frame : Ring → FramingResult
unfolding readable
try_extract_frame rx =
    if ltb (readable rx) ipc_header_size
    then need_more_data
    else let hdr = peek rx ipc_header_size in
      let body_len = byte_at hdr 0 * 256 + byte_at hdr 1 in
      let frame_len = body_len + ipc_header_size in
      if ltb max_body_len body_len
      then invalid_body_len
      else if ltb (readable rx) frame_len
      then need_more_data
      else ok frame_len
