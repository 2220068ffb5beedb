-- ===== src/Framing/Mgmt.antt =====
-- mgmtd/ipc/IpcFraming.cpp and IpcFraming.h.
use nf_engine.Prelude.{ℕ, ◌+◌, Option, none, some, ltb, if◌then◌else◌}
use nf_engine.Ring.{Ring, readable, peek}
use nf_engine.Bytes.{be16_at}
use nf_engine.Framing.{
  FramingResult, ok, need_more_data, invalid_body_len, ipc_header_size, max_body_len,
}

unfoldable pub peek_body_len : Ring → Option ℕ
unfolding readable
peek_body_len rx =
    if ltb (readable rx) ipc_header_size then none else some (be16_at (peek rx ipc_header_size) 0)

unfoldable pub try_extract_frame : Ring → FramingResult
unfolding peek_body_len readable
try_extract_frame rx = elim (peek_body_len rx) [
  | none ↦ need_more_data
  | some body_len ↦
      if ltb max_body_len body_len
      then invalid_body_len
      else if ltb (readable rx) (ipc_header_size + body_len)
      then need_more_data
      else ok (ipc_header_size + body_len)
]
