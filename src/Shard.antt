-- ===== src/Shard.antt =====
-- serverd/shard: ShardManager.cpp and ShardWorker.cpp. The event queue has a lock, and the actions are
-- queued and taken by the shard's own thread, so that an enqueue is one step. The ticks of the market
-- and the waiting are left out.
pub mod Laws
use nf_engine.Prelude.{
  ℕ, List, [], ◌∷◌, ◌++◌, Option, none, some, length, get_elem?, set, leb, if◌then◌else◌,
}
use nf_engine.Packet.{Packet}
use nf_engine.Codec.Requests.{Event}
use nf_engine.Session.{SessionManager}
use nf_engine.Execution.{
  Accounts, Action, action_session_id, action_opcode, handle_event, payload_of,
}
use nf_engine.Router.Tx.{handle_packet}

pub record ShardWorker : Type 0 where
  pub event_queue : List Event
  pub action_queue : List Action

unfoldable pub enqueue_event : ShardWorker → Event → ShardWorker
enqueue_event w e = record w { event_queue = w.event_queue ++ (e ∷ []) }

unfoldable pub enqueue_action : ShardWorker → Action → ShardWorker
enqueue_action w a = record w { action_queue = w.action_queue ++ (a ∷ []) }

-- `dispatch`; an index out of range drops the event.
unfoldable pub dispatch : List ShardWorker → ℕ → Option Event → List ShardWorker
unfolding enqueue_event
dispatch workers i none = workers
dispatch workers i (some e) =
    if leb (length workers) i
    then workers
    else elim (get_elem? workers i) [ none ↦ workers | some w ↦ set workers i (enqueue_event w e) ]

-- `commit`
unfoldable pub commit : List ShardWorker → ℕ → Option Action → List ShardWorker
unfolding enqueue_action
commit workers i none = workers
commit workers i (some a) =
    if leb (length workers) i
    then workers
    else elim (get_elem? workers i) [ none ↦ workers | some w ↦ set workers i (enqueue_action w a) ]

-- `handleAction` of the actions in the queue, in order: the payload goes to the router.
unfoldable pub drain_actions : SessionManager → ℕ → List Action → SessionManager × List Packet
unfolding payload_of handle_packet
drain_actions m now [] = (m, [])
drain_actions m now (a ∷ more) =
    let (n, sent) = handle_packet m (action_session_id a) (action_opcode a) (payload_of now a) in
    let (k, later) = drain_actions n now more in
    (k, elim sent [ none ↦ later | some pkt ↦ pkt ∷ later ])

-- The events' side of a turn of `processPacket`: the event at the front of the queue, if any, is
-- taken and commits its action to the same shard.
unfoldable pub take_event : Option Accounts → ShardWorker → ShardWorker
unfolding handle_event enqueue_action
take_event db w = elim w.event_queue [
  | [] ↦ w
  | e ∷ more ↦ elim (handle_event db e) [
    | none ↦ record w { event_queue = more }
    | some a ↦ enqueue_action (record w { event_queue = more }) a
  ]
]

-- A turn of `processPacket`: an event, and then all the actions.
unfoldable pub turn :
    Option Accounts
    → ℕ
    → SessionManager
    → ShardWorker
    → ShardWorker × (SessionManager × List Packet)
unfolding take_event drain_actions
turn db now m w =
    let v = take_event db w in (record v { action_queue = [] }, drain_actions m now v.action_queue)
