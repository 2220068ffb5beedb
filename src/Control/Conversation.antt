-- ===== src/Control/Conversation.antt =====
-- mgmtd and serverd together: a command of the management daemon, over the control socket, through
-- a worker of the server, and back.
use nf_engine.Prelude.{
  ℕ, ◌%◌, ◌^◌, ◌<◌, ◌≡◌, refl, sym, ap, ◌∙◌, List, [], ◌∷◌, ◌++◌, some, arith, length, take,
  length-take, take-all,
}
use nf_engine.Prelude.Texts.{Text, codes}
use nf_engine.Bytes.{be16}
use nf_engine.Ipc.{IpcMessage, message, body, build_frame}
use nf_engine.Ipc.Laws.{build_frame_roundtrip, build_frame-be16, message-payload}
use nf_engine.Daemon.Client.{Kernel, Talk, closing, reply, send}
use nf_engine.Daemon.Client.Laws.{Served, send-served}
use nf_engine.Daemon.Stats.{Stat, route, command, fetch, fetch-command}
use nf_engine.Control.Json.{JsonLibrary}
use nf_engine.Control.Commands.{Core, handle, answer}
use nf_engine.Control.Worker.{drain_rx_queue}
use nf_engine.Control.Worker.Laws.{Answers, AllAnswered, drain_rx_queue_lem}

-- A short text is a frame as it is.
short-frame :
    (text : Text) → length text < 2 ^ 16 → be16 (length text % 2 ^ 16) ++ text ≡ build_frame text
short-frame text short =
    ap (λ kept. be16 (length kept % 2 ^ 16) ++ kept) (sym (take-all 0xFFFF text (omega arith)))
    ∙ sym (build_frame-be16 text)

command-length : (stat : Stat) → length (command stat) < 100
command-length Stat.session = omega arith
command-length Stat.engine = omega arith
command-length Stat.shard = omega arith
command-length Stat.market = omega arith

module _ (lib : JsonLibrary) (core : Core lib) where
  handle-answer :
      (stat : Stat) (j : lib.Json)
      → lib.parse (command stat) ≡ some j
      → lib.text_value j (codes "cmd") (codes "") ≡ some (route stat)
      → handle lib core (command stat) ≡ answer lib core (route stat)
  unfolding handle
  handle-answer stat j parsed named = rw (handle, parsed, named) refl

  single :
      (msg : IpcMessage) (rs : List IpcMessage)
      → AllAnswered lib ((core, msg) ∷ []) rs
      → (r : IpcMessage) × ((rs ≡ r ∷ []) × Answers lib core msg r)
  single msg [] none_left = absurd none_left
  single msg (r ∷ []) (answers, all) = (r, (refl, answers))
  single msg (r ∷ r' ∷ rs) (answers, more) = absurd more

  -- The part of the worker: a message that holds the command is answered with the command's answer.
  worker_part :
      (stat : Stat) (fd : ℕ) (j : lib.Json)
      → lib.parse (command stat) ≡ some j
      → lib.text_value j (codes "cmd") (codes "") ≡ some (route stat)
      → (msg : IpcMessage) × ((message fd (build_frame (command stat)) ≡ some msg)
          × ((r : IpcMessage) × ((drain_rx_queue lib ((core, msg) ∷ []) ≡ some (r ∷ []))
                × ((r.fd ≡ fd) × (r.payload ≡ build_frame (answer lib core (route stat)))))))
  worker_part stat fd j parsed named =
      let (framed, (msg, (made, text))) = build_frame_roundtrip fd (command stat) in
      let (rs, (drained, all)) = drain_rx_queue_lem lib ((core, msg) ∷ []) in
      let (r, (one, answers)) = single msg rs all in
      let whole : body msg ≡ command stat =
        text ∙ take-all 0xFFFF (command stat) (omega (arith, command-length stat)) in
      (
        msg,
        (
          made,
          (
            r,
            (
              drained ∙ ap some one,
              (
                answers.to_sender ∙ (message-payload fd (build_frame (command stat)) made).0,
                answers.built
                    ∙ ap (λ b. build_frame (handle lib core b)) whole
                    ∙ ap build_frame (handle-answer stat j parsed named),
              ),
            ),
          ),
        ),
      )

  -- A command of the management daemon: what the client sends is one message of the control socket,
  -- the worker answers it to the same descriptor, the bytes that the client reads are that reply, and
  -- the daemon gets the command's answer, cut to 65535 bytes, if the kernel carries the bytes, in any
  -- pieces, and the JSON library reads the command that the daemon wrote.
  pub fetch_conversation :
      (own : Text → Talk) (stat : Stat) (fd : ℕ) (path : Text) (k : Kernel) {j : lib.Json}
      → lib.parse (command stat) ≡ some j
      → lib.text_value j (codes "cmd") (codes "") ≡ some (route stat)
      → Served path k (command stat) (take 0xFFFF (answer lib core (route stat)))
      → let t = fetch (send path k) own stat in
        (msg : IpcMessage) × ((message fd t.sent ≡ some msg)
          × ((r : IpcMessage) × ((drain_rx_queue lib ((core, msg) ∷ []) ≡ some (r ∷ []))
                × ((r.fd ≡ fd)
                    × ((t.received ≡ r.payload)
                        × (t.outcome ≡ reply (take 0xFFFF (answer lib core (route stat)))))))))
  fetch_conversation own stat fd path k {j} parsed named served =
      let (msg, (made, (r, (drained, (to_sender, bytes))))) = worker_part stat fd j parsed named in
      (
        msg,
        (
          ap (message fd) (
                ap (λ t. t.sent) talk
                ∙ short-frame (command stat) (omega (arith, command-length stat)))
              ∙ made,
          (
            r,
            (
              drained,
              (
                to_sender,
                (
                  ap (λ t. t.received) talk ∙ head ∙ sym (build_frame-be16 text) ∙ sym bytes,
                  ap (λ t. t.outcome) talk,
                ),
              ),
            ),
          ),
        ),
      )
    where
      text : Text
      text = answer lib core (route stat)

      kept : Text
      kept = take 0xFFFF text

      talk :
          fetch (send path k) own stat
          ≡ closing
              (reply kept)
              (be16 (length (command stat) % 2 ^ 16) ++ command stat)
              (be16 (length kept) ++ kept)
      talk = fetch-command (send path k) own stat ∙ send-served served

      head : be16 (length kept) ++ kept ≡ be16 (length kept % 2 ^ 16) ++ kept
      head = ap (λ n. be16 n ++ kept) (omega (arith, length-take 0xFFFF text))
