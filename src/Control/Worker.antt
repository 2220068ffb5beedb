-- ===== src/Control/Worker.antt =====
-- serverd/ipc/IpcWorker.cpp: the messages of the control socket, answered one after the other.
pub mod Laws
use nf_engine.Prelude.{List, [], ◌∷◌, Option, none, some}
use nf_engine.Ipc.{IpcMessage, message, body, build_frame}
use nf_engine.Control.Json.{JsonLibrary}
use nf_engine.Control.Commands.{Core, handle}

-- `drainRxQueue`, of the messages in the queue, each with the server as it is at its turn: the replies
-- that go to the reactor. `none` is the exception of the message's constructor.
unfoldable pub drain_rx_queue :
    (lib : JsonLibrary) → List (Core lib × IpcMessage) → Option (List IpcMessage)
unfolding message body build_frame handle
drain_rx_queue lib [] = some []
drain_rx_queue lib ((core, msg) ∷ more) =
    let rest = drain_rx_queue lib more in
    elim (message msg.fd (build_frame (handle lib core (body msg)))) [
      | none ↦ none
      | some reply ↦ elim rest [ none ↦ none | some replies ↦ some (reply ∷ replies) ]
    ]
