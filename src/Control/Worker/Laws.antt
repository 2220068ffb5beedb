-- ===== src/Control/Worker/Laws.antt =====
-- About IpcWorker.cpp: every message of the control socket gets its answer.
use nf_engine.Prelude.{◌≡◌, refl, List, [], ◌∷◌, some, take}
use nf_engine.Framing.Spec.{Deframed}
use nf_engine.Framing.Laws.{ipc_format}
use nf_engine.Ipc.{IpcMessage, message, body, build_frame}
use nf_engine.Ipc.Laws.{build_frame_roundtrip, message-payload}
use nf_engine.Control.Json.{JsonLibrary}
use nf_engine.Control.Commands.{Core, handle}
use nf_engine.Control.Worker.{drain_rx_queue}

module _ (lib : JsonLibrary) where
  -- A reply goes to the descriptor of its message, is one frame of the stream with nothing behind,
  -- and its body is the handler's answer to the message's body, cut to 65535 bytes.
  pub record Answers (core : Core lib) (msg r : IpcMessage) : Type 0 where
    pub to_sender : r.fd ≡ msg.fd
    pub framed : Deframed ipc_format r.payload (r.payload ∷ []) []
    pub answered : body r ≡ take 0xFFFF (handle lib core (body msg))
    pub built : r.payload ≡ build_frame (handle lib core (body msg))

  -- A reply for each message, in their order.
  abbrev pub AllAnswered : List (Core lib × IpcMessage) → List IpcMessage → Type 0
  AllAnswered [] [] = Unit {0}
  AllAnswered [] (r ∷ rs) = ⊥
  AllAnswered (m ∷ ms) [] = ⊥
  AllAnswered ((core, msg) ∷ ms) (r ∷ rs) = Answers core msg r × AllAnswered ms rs

  reply_lem :
      (core : Core lib) (msg : IpcMessage)
      → (r : IpcMessage) × ((message msg.fd (build_frame (handle lib core (body msg))) ≡ some r)
          × Answers core msg r)
  reply_lem core msg =
      let text = handle lib core (body msg) in
      let (framed, (r, (made, cut))) = build_frame_roundtrip msg.fd text in
      let (fd, payload) = message-payload msg.fd (build_frame text) made in
      (
        r,
        (
          made,
          record { to_sender = fd; framed = rw payload framed; answered = cut; built = payload },
        ),
      )

  -- The worker answers every message, whatever it says and whatever the server is like at its turn,
  -- and no exception ends its thread.
  pub drain_rx_queue_lem :
      (msgs : List (Core lib × IpcMessage))
      → (rs : List IpcMessage) × ((drain_rx_queue lib msgs ≡ some rs) × AllAnswered msgs rs)
  unfolding drain_rx_queue
  drain_rx_queue_lem [] = ([], (refl, tt))
  drain_rx_queue_lem ((core, msg) ∷ more) =
      let (r, (made, answers)) = reply_lem core msg in
      let (rs, (drained, all)) = drain_rx_queue_lem more in
      (r ∷ rs, (rw (drain_rx_queue, made, drained) refl, (answers, all)))
