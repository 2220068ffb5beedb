-- ===== src/Daemon/Stats.antt =====
-- mgmtd/service/StatsService.cpp and mgmtd/ipc/IpcCommandHandler.cpp: the commands that the management
-- daemon asks of the server. The client's call is an argument.
use nf_engine.Prelude.{◌≡◌, refl, if◌then◌else◌}
use nf_engine.Prelude.Texts.{Text, codes, same_bytes}

-- fetchSession, fetchEngine, fetchShard and fetchMarket
pub data Stat : Type 0 where
  session engine shard market : Stat

-- The route that `fetch…` names, and the command that `handleStats…` sends.
abbrev pub route : Stat → Text
route session = codes "stats/session"
route engine = codes "stats/engine"
route shard = codes "stats/shard"
route market = codes "stats/market"

abbrev pub command : Stat → Text
command session = codes "{\"cmd\":\"stats/session\"}"
command engine = codes "{\"cmd\":\"stats/engine\"}"
command shard = codes "{\"cmd\":\"stats/shard\"}"
command market = codes "{\"cmd\":\"stats/market\"}"

-- `handle`, with what to do with a command, and with an answer of its own.
unfoldable pub handle {ℓ} : {R : Type ℓ} → (Text → R) → (Text → R) → Text → R
unfolding same_bytes
handle send return text =
    if same_bytes text (route session)
    then send (command session)
    else if same_bytes text (route engine)
    then send (command engine)
    else if same_bytes text (route shard)
    then send (command shard)
    else if same_bytes text (route market)
    then send (command market)
    else return (codes "{\"error\":\"unknown route\"}")

unfoldable pub fetch {ℓ} : {R : Type ℓ} → (Text → R) → (Text → R) → Stat → R
unfolding handle
fetch send return stat = handle send return (route stat)

pub fetch-command {ℓ} :
    {R : Type ℓ} (send return : Text → R) (stat : Stat)
    → fetch send return stat ≡ send (command stat)
unfolding fetch
fetch-command send return session = refl
fetch-command send return engine = refl
fetch-command send return shard = refl
fetch-command send return market = refl
