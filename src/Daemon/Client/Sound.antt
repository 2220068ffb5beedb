-- ===== src/Daemon/Client/Sound.antt =====
-- What holds of IpcClient::send whatever the kernel answers.
use nf_engine.Prelude.{ℕ, ◌%◌, ◌^◌, ◌≡◌, ◌⊎◌, ◌∙◌, List, [], ◌++◌, append-nil, length}
use nf_engine.Bytes.{be16}
use nf_engine.Daemon.Client.{reply, waiting, Talk}

-- What a call owes to the frame: a socket that was opened is closed when the call ends, no byte
-- is sent that is not the next one of the frame, and a reply comes after the whole frame only.
pub record Sound (frame : List ℕ) (t : Talk) : Type 0 where
  pub released : (t.outcome ≡ waiting) ⊎ (t.closed ≡ t.opened)
  pub in_order : (rest : List ℕ) × (t.sent ++ rest ≡ frame)
  pub replied :
      (text : List ℕ)
      → t.outcome ≡ reply text
      → (t.sent ≡ frame) × ((head : List ℕ) × (t.received ≡ head ++ text))

abbrev whole : (frame sent : List ℕ) → sent ≡ frame → (rest : List ℕ) × (sent ++ rest ≡ frame)
whole frame sent e = ([], append-nil sent ∙ e)

-- The frame of a payload: its length in 16 bits, and its bytes.
abbrev pub frame_of : List ℕ → List ℕ
frame_of payload = be16 (length payload % 2 ^ 16) ++ payload
