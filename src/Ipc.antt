-- ===== src/Ipc.antt =====
-- serverd/ipc/IpcMessage.cpp: the messages of the control socket.
pub mod Laws
use nf_engine.Prelude.{
  ℕ, ◌+◌, ◌*◌, ◌-◌, ◌/◌, ◌%◌, ◌^◌, List, [], Bool, false, ◌∷◌, ◌++◌, Option, none, some, length,
  take, drop, ltb, ◌==◌, if◌then◌else◌,
}
use nf_engine.Bytes.{byte_at}
use nf_engine.Framing.{ipc_header_size}

pub record IpcMessage : Type 0 where
  pub fd : ℕ
  pub payload : List ℕ

-- `bodyLen`. The two bytes of `(p[0] << 8) | p[1]` share no bit.
unfoldable pub body_len : List ℕ → ℕ
unfolding byte_at
body_len payload =
    if ltb (length payload) ipc_header_size then 0 else byte_at payload 0 * 256 + byte_at payload 1

-- `validate`; false is its `runtime_error`.
unfoldable pub validate : List ℕ → Bool
unfolding body_len
validate payload =
    if ltb (length payload) ipc_header_size
    then false
    else length payload == body_len payload + ipc_header_size

-- The constructor; `none` is the exception that `validate` throws.
unfoldable pub message : ℕ → List ℕ → Option IpcMessage
unfolding validate
message fd frame = if validate frame then some (record { fd = fd; payload = frame }) else none

unfoldable pub body : IpcMessage → List ℕ
body m = if ltb ipc_header_size (length m.payload) then drop ipc_header_size m.payload else []

unfoldable pub build_frame : List ℕ → List ℕ
build_frame text =
    let kept = if ltb 0xFFFF (length text) then take 0xFFFF text else text in
    let len = length kept % 2 ^ 16 in len / 256 % 256 ∷ len % 256 ∷ kept
