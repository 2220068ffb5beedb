-- ===== src/Tests/Commands.antt =====
-- The commands of the control socket and the markets at concrete inputs, with a JSON library whose
-- values are texts.
use nf_engine.Prelude.{
  ℕ, ◌-◌, ◌≡◌, ◌⊎◌, refl, List, [], ◌∷◌, true, none, some, arith, length, take, drop,
}
use nf_engine.Prelude.Texts.{Text, codes}
use nf_engine.Bytes.{to_be}
use nf_engine.Ipc.{IpcMessage, message}
use nf_engine.Daemon.Client.{WriteAnswer, ReadAnswer, reply, Kernel, Talk, closing, send}
use nf_engine.Daemon.Client.Laws.{Accepts, Brings, Served}
use nf_engine.Daemon.Stats.{Stat, route, command, fetch}
use nf_engine.Session.Run.{no_sessions}
use nf_engine.Control.Json.{JsonLibrary}
use nf_engine.Control.Market.{MarketItem, load_snapshot}
use nf_engine.Control.Market.Laws.{read_all, Loaded, load_snapshot_lem}
use nf_engine.Control.Market
use nf_engine.Control.Commands.{Core, answer}
use nf_engine.Control.Worker.{drain_rx_queue}
use nf_engine.Control.Worker.Laws.{AllAnswered, drain_rx_queue_lem}
use nf_engine.Control.Conversation.{fetch_conversation}

-- An entry is its item's number in bytes; a command stands between nine bytes and two.
abbrev library : JsonLibrary
library = record {
  Json = Text;
  Real = ℕ;
  parse = λ text. some text;
  is_object = λ j. true;
  elements = λ j key. some ((1 ∷ []) ∷ (2 ∷ []) ∷ (1 ∷ []) ∷ []);
  text_value = λ j key default. some (take (length j - 10) (drop 8 j));
  num_value = λ j key default. elim j [ [] ↦ some default | n ∷ more ↦ some n ];
  number = λ n. n ∷ [];
  signed = λ n. n ∷ [];
  real = λ n. n ∷ [];
  boolean = λ b. 1 ∷ [];
  string = λ text. text;
  array = λ js. 91 ∷ 93 ∷ [];
  object = λ fields. 123 ∷ 125 ∷ [];
  dump = λ j. some j;
}

abbrev core : Core library
core = record {
  engine = record {
    uptime_seconds = 1;
    rss_mb = 2;
    data_mb = 3;
    virtual_mb = 4;
    heap_mb = 5;
    cpu_percent = 6;
  };
  session_manager = no_sessions;
  shards = [];
}

abbrev a_message : IpcMessage
a_message = record { fd = 8; payload = 0 ∷ 1 ∷ 65 ∷ [] }

abbrev messages : List (Core library × IpcMessage)
messages = (core, a_message) ∷ (core, a_message) ∷ []

drain_rx_queue_lem_example :
    (rs : List IpcMessage) × ((drain_rx_queue library messages ≡ some rs)
      × AllAnswered library messages rs)
drain_rx_queue_lem_example = drain_rx_queue_lem library messages

abbrev file : Text
file = 4 ∷ []

load_snapshot_lem_example :
    ((read_all library ((1 ∷ []) ∷ (2 ∷ []) ∷ (1 ∷ []) ∷ []) ≡ none)
      × (load_snapshot library 3 (some file) ≡ none))
    ⊎ ((is : List MarketItem) × ((read_all library ((1 ∷ []) ∷ (2 ∷ []) ∷ (1 ∷ []) ∷ []) ≡ some is)
          × ((m : Market.MarketContext) × ((load_snapshot library 3 (some file) ≡ some m)
                × Loaded library 3 file is 4 m))))
load_snapshot_lem_example =
    load_snapshot_lem library 3 file (4 ∷ []) 4 4 ((1 ∷ []) ∷ (2 ∷ []) ∷ (1 ∷ []) ∷ []) refl refl
      refl refl

-- The command goes out in three pieces, and the answer comes in two.
abbrev kernel : Kernel
kernel = record {
  socket_ok = true;
  connect_ok = true;
  writes =
      WriteAnswer.accepted 2
      ∷ WriteAnswer.interrupted
      ∷ WriteAnswer.accepted 1
      ∷ WriteAnswer.accepted 22
      ∷ [];
  reads = ReadAnswer.arrived (0 ∷ 2 ∷ []) ∷ ReadAnswer.arrived (123 ∷ 125 ∷ []) ∷ [];
}

abbrev own : Text → Talk
own text = closing (reply text) [] []

abbrev path : Text
path = codes "/run/nf"

Served-command :
    Served path kernel
      (command Stat.session)
      (take 0xFFFF (answer library core (route Stat.session)))
unfolding answer to_be
Served-command = record {
  writes = WriteAnswer.interrupted ∷ WriteAnswer.accepted 1 ∷ WriteAnswer.accepted 22 ∷ [];
  reads = ReadAnswer.arrived (123 ∷ 125 ∷ []) ∷ [];
  writes' = [];
  reads' = [];
  payload_fits = omega arith;
  answer_fits = omega arith;
  opens = refl;
  path_fits = omega arith;
  connects = refl;
  takes_head = Accepts.piece 0 (23 ∷ []) Accepts.done;
  takes_body =
      Accepts.again
        (Accepts.piece 123 [] (Accepts.piece b'"' (drop 2 (command Stat.session)) Accepts.done));
  brings_head = Brings.piece 0 (2 ∷ []) Brings.done;
  brings_body = Brings.piece 123 (125 ∷ []) Brings.done;
}

fetch_conversation_example :
    let t = fetch (send path kernel) own Stat.session in
    (msg : IpcMessage) × ((message 8 t.sent ≡ some msg)
      × ((r : IpcMessage) × ((drain_rx_queue library ((core, msg) ∷ []) ≡ some (r ∷ []))
            × ((r.fd ≡ 8)
                × ((t.received ≡ r.payload)
                    × (t.outcome
                        ≡ reply (take 0xFFFF (answer library core (route Stat.session)))))))))
fetch_conversation_example =
    fetch_conversation library core own Stat.session 8 path kernel refl refl Served-command
