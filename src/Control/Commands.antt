-- ===== src/Control/Commands.antt =====
-- serverd/core/CoreControl.cpp, what a command collects, and serverd/ipc/IpcCommandHandler.cpp, the
-- choice of a command and its answer. What /proc says of the process is an argument, and so is how
-- the wait for each shard's answer ends.
use nf_engine.Prelude.{ℕ, List, [], ◌∷◌, map, true, Option, none, some, length, if◌then◌else◌}
use nf_engine.Prelude.Texts.{Text, codes, same_bytes}
use nf_engine.Session.{
  SessionState, pre_auth, auth, in_world, closed, unknown_state, SessionManager, SessionInfo,
  total_count, snapshot,
}
use nf_engine.Control.Json.{JsonLibrary}
use nf_engine.Control.Market.{MarketItem, MarketInfo, MarketContext, market_snapshot, ◌>>=◌}

-- How the wait for the future of a MarketDumpReqEvent ends.
pub data Waited : Type 0 where
  ready timed_out threw : Waited

-- `marketSnapshot`: the answers of the shards, in their order, that come in time.
unfoldable pub market_infos : List (MarketContext × Waited) → List MarketInfo
unfolding market_snapshot
market_infos [] = []
market_infos ((m, ready) ∷ more) = market_snapshot m ∷ market_infos more
market_infos ((m, timed_out) ∷ more) = market_infos more
market_infos ((m, threw) ∷ more) = market_infos more

-- `stateToStr`
unfoldable pub state_to_str : SessionState → Text
state_to_str pre_auth = codes "PRE_AUTH"
state_to_str auth = codes "AUTH"
state_to_str in_world = codes "WORLD"
state_to_str closed = codes "CLOSE"
state_to_str unknown_state = codes "UNKNOWN"

module _ (lib : JsonLibrary) where
  open lib use {
    Json, Real, parse, text_value, number, signed, real, boolean, string, array, object, dump,
  }

  pub record EngineSnapshot : Type 0 where
    pub uptime_seconds : ℕ
    pub rss_mb : ℕ
    pub data_mb : ℕ
    pub virtual_mb : ℕ
    pub heap_mb : ℕ
    pub cpu_percent : Real

  -- What the server is when a command comes: its managers, and its shards with their answers.
  pub record Core : Type 0 where
    pub engine : EngineSnapshot
    pub session_manager : SessionManager
    pub shards : List (MarketContext × Waited)

  unfoldable pub engine_stats : Core → Json
  engine_stats core = object (
      (codes "ok", boolean true)
      ∷ (codes "uptime", number core.engine.uptime_seconds)
      ∷ (codes "rssMB", number core.engine.rss_mb)
      ∷ (codes "heapMB", number core.engine.heap_mb)
      ∷ (codes "dataMB", number core.engine.data_mb)
      ∷ (codes "virtualMB", number core.engine.virtual_mb)
      ∷ (codes "cpuPercent", real core.engine.cpu_percent)
      ∷ [])

  -- A line of the sessions.
  unfoldable pub session_json : SessionInfo → Json
  unfolding state_to_str
  session_json s = object (
      (codes "sid", number s.session_id)
      ∷ (codes "state", string (state_to_str s.state))
      ∷ (codes "tls_fd", signed s.tls_fd)
      ∷ (codes "tcp_fd", signed s.tcp_fd)
      ∷ (codes "udp_fd", signed s.udp_fd)
      ∷ [])

  unfoldable pub session_stats : Core → Json
  unfolding session_json total_count snapshot
  session_stats core = object (
      (codes "totalSessions", number (total_count core.session_manager))
      ∷ (codes "sessions", array (map session_json (snapshot core.session_manager)))
      ∷ [])

  unfoldable pub shard_stats : Core → Json
  shard_stats core = object ((codes "shardCount", number (length core.shards)) ∷ [])

  unfoldable pub item_json : MarketItem → Json
  item_json item = object (
      (codes "item_id", number item.item_id)
      ∷ (codes "seller_session_id", number item.seller_session_id)
      ∷ (codes "name", string item.name)
      ∷ (codes "price", number item.price)
      ∷ (codes "quantity", number item.quantity)
      ∷ (codes "created_at_sec", number item.created_at)
      ∷ [])

  unfoldable pub market_json : MarketInfo → Json
  unfolding item_json
  market_json market = object (
      (codes "marketId", number market.market_id)
      ∷ (codes "itemCount", number (length market.items))
      ∷ (codes "items", array (map item_json market.items))
      ∷ [])

  unfoldable pub market_stats : Core → Json
  unfolding market_infos market_json
  market_stats core =
      object ((codes "markets", array (map market_json (market_infos core.shards))) ∷ [])

  -- The answer that stands for any exception.
  abbrev pub invalid_json : Text
  invalid_json = codes "{\"error\":\"invalid json\"}"

  abbrev pub unknown_command : Text
  unknown_command = codes "{\"error\":\"unknown command\"}"

  abbrev pub caught : Option Text → Text
  caught none = invalid_json
  caught (some text) = text

  -- The choice of the answer by the command.
  unfoldable pub answer : Core → Text → Text
  unfolding session_stats engine_stats shard_stats market_stats same_bytes
  answer core cmd =
      if same_bytes cmd (codes "stats/session")
      then caught (dump (session_stats core))
      else if same_bytes cmd (codes "stats/engine")
      then caught (dump (engine_stats core))
      else if same_bytes cmd (codes "stats/shard")
      then caught (dump (shard_stats core))
      else if same_bytes cmd (codes "stats/market")
      then caught (dump (market_stats core))
      else unknown_command

  -- `IpcCommandHandler::handle`
  unfoldable pub handle : Core → Text → Text
  unfolding answer
  handle core request = elim (parse request >>= λ j. text_value j (codes "cmd") (codes "")) [
    | none ↦ invalid_json
    | some cmd ↦ answer core cmd
  ]
