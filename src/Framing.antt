-- ===== src/Framing.antt =====
-- Cutting a byte stream into frames: serverd/protocol/tcp/TcpFraming.cpp,
-- serverd/protocol/tls/TlsFraming.cpp, serverd/ipc/IpcFraming.cpp and mgmtd/ipc/IpcFraming.cpp.
-- Each `tryExtractFrame` looks at the header by `peek` and consumes nothing; the frame's length,
-- the `outFrameLen` of the source, is the argument of `ok`.
pub mod Tcp
pub mod Tls
pub mod Ipc
pub mod Mgmt
pub mod Spec
pub mod Laws
pub mod Stream
use nf_engine.Prelude.{ℕ, ◌*◌}

pub data FramingResult : Type 0 where
  ok : ℕ → FramingResult
  need_more_data : FramingResult
  invalid_body_len : FramingResult

-- `sizeof(CommonPacketHeader)`, packed; `bodyLen` stands at offset 2 of it.
abbrev pub packet_header_size : ℕ
packet_header_size = 16

abbrev pub ipc_header_size : ℕ
ipc_header_size = 2

-- TCP_MAX_BODY_LEN, TLS_MAX_BODY_LEN, IPC_MAX_BODY_LEN: 64 * 1024.
abbrev pub max_body_len : ℕ
max_body_len = 64 * 1024
