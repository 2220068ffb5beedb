-- ===== src/Server.antt =====
-- The threads between the network and the shards: serverd/protocol/tcp/TcpWorker.cpp (TlsWorker and
-- UdpWorker are the same text under other names) and the turns of serverd/shard/ShardWorker.cpp, in
-- any order. A packet on its way through RxRouter is one step, and so is a turn of a shard.
pub mod Sharded
pub mod Wakeup
use nf_engine.Prelude.{
  ℕ, List, [], ◌∷◌, ◌++◌, Bool, true, false, Option, none, some, get_elem?, set, if◌then◌else◌,
}
use nf_engine.Packet.{Packet}
use nf_engine.Session.{SessionManager}
use nf_engine.Execution.{Accounts}
use nf_engine.Shard.{ShardWorker, turn}
use nf_engine.Router.Rx.{handle_packet}

pub record Server : Type 0 where
  pub manager : SessionManager
  pub shards : List ShardWorker

-- The loop that empties a worker's queue, each packet with the numbers that RAND_bytes will give;
-- `none` is an abort.
unfoldable pub process_packets : Server → List (Packet × List ℕ) → Option Server
unfolding handle_packet
process_packets s [] = some s
process_packets s ((pkt, random) ∷ more) = elim (handle_packet s.manager s.shards pkt random) [
  | none ↦ none
  | some (m, shards) ↦ process_packets (record { manager = m; shards = shards }) more
]

-- A turn of shard `i`, and what it sends.
unfoldable pub shard_turn : Option Accounts → ℕ → ℕ → Server → Server × List Packet
unfolding turn
shard_turn db now i s = elim (get_elem? s.shards i) [
  | none ↦ (s, [])
  | some w ↦
      let (w', (m, sent)) = turn db now s.manager w in
      (record { manager = m; shards = set s.shards i w' }, sent)
]

-- What some thread does: a worker empties its queue, or a shard takes a turn at some time.
pub data Act : Type 0 where
  packets : List (Packet × List ℕ) → Act
  shard : ℕ → ℕ → Act

unfoldable pub act : Option Accounts → Server → Act → Option (Server × List Packet)
unfolding process_packets shard_turn
act db s (packets ps) = elim (process_packets s ps) [ none ↦ none | some s' ↦ some (s', []) ]
act db s (shard i now) = some (shard_turn db now i s)

unfoldable pub run : Option Accounts → Server → List Act → Option (Server × List Packet)
unfolding act
run db s [] = some (s, [])
run db s (a ∷ more) = elim (act db s a) [
  | none ↦ none
  | some (s', sent) ↦ elim (run db s' more) [
    | none ↦ none
    | some (s'', later) ↦ some (s'', sent ++ later)
  ]
]
