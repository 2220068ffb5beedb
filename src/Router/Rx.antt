-- ===== src/Router/Rx.antt =====
-- serverd/ingress/RxRouter.cpp: a packet from the network becomes an event of a shard.
pub mod Laws
use nf_engine.Prelude.{
  ℕ, ◌/◌, ◌%◌, ◌^◌, List, length, Bool, true, false, ◌&&◌, Option, none, some, ◌==◌, if◌then◌else◌,
}
use nf_engine.Packet.{Packet, login_req}
use nf_engine.Codec.Parser.{ParsedPacket, parse}
use nf_engine.Codec.Requests
use nf_engine.Session.{SessionManager, create, check_and_bind}
use nf_engine.Shard.{ShardWorker, dispatch}

-- `selectShard`, of a number of workers that is not zero.
unfoldable pub select_shard : ℕ → ℕ → ℕ
select_shard workers sid = sid / 2 ^ 32 % workers

-- The session that the packet belongs to: a login without one makes it, any other packet is bound
-- to its own. `none` is an abort; the Boolean says whether the packet goes on.
unfoldable pub admit :
    SessionManager → ParsedPacket → List ℕ → Option (Bool × (SessionManager × ParsedPacket))
unfolding create check_and_bind
admit m parsed random =
    if (parsed.opcode == login_req) && (parsed.session_id == 0)
    then create m parsed random
    else let (found, n) = check_and_bind m parsed in some (found, (n, parsed))

-- The rest of `handlePacket`.
unfoldable pub route : List ShardWorker → ParsedPacket → List ShardWorker
unfolding select_shard dispatch
route workers parsed =
    if parsed.session_id == 0
    then workers
    else dispatch workers (select_shard (length workers) parsed.session_id) (Requests.create parsed)

-- `handlePacket`, with the numbers that RAND_bytes will give; `none` is an abort.
unfoldable pub handle_packet :
    SessionManager → List ShardWorker → Packet → List ℕ → Option (SessionManager × List ShardWorker)
unfolding parse admit route
handle_packet m workers pkt random = elim (parse (some pkt)) [
  | none ↦ some (m, workers)
  | some parsed ↦ elim (admit m parsed random) [
    | none ↦ none
    | some (false, (n, p)) ↦ some (n, workers)
    | some (true, (n, p)) ↦ some (n, route workers p)
  ]
]
