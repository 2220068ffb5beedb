-- ===== src/Execution.antt =====
-- serverd/execution: what a request does (LoginContext, LobbyContext, PingContext, with their events),
-- the answers that it queues (Action.h, LoginAction, LobbyAction, PingAction), and the factory of
-- serverd/egress/ActionFactory.cpp that makes them.
-- The accounts in the database are a function from an id to its password.
pub mod Laws
use nf_engine.Prelude.{ℕ, List, [], ◌∷◌, Bool, false, ◌&&◌, Option, none, some, ◌==◌, if◌then◌else◌}
use nf_engine.Prelude.Texts.{same_bytes}
use nf_engine.Packet.{login_success_res, login_fail_res, lobby_entry_res, ping_res}
use nf_engine.Codec.Requests.{Event, login, lobby_entry, ping}
use nf_engine.Codec.Responses.{Market, serialize_login, serialize_lobby, serialize_ping}

-- LoginSuccessResAction, LoginFailResAction, LobbyEntryResAction and PingResAction.
pub data Action : Type 0 where
  login_success_action : (session_id opcode : ℕ) → Action
  login_fail_action : (session_id opcode : ℕ) → Action
  lobby_entry_action : (session_id opcode : ℕ) → Action
  ping_action : (session_id opcode nonce client_ts : ℕ) → Action

abbrev pub action_session_id : Action → ℕ
action_session_id (login_success_action sid opcode) = sid
action_session_id (login_fail_action sid opcode) = sid
action_session_id (lobby_entry_action sid opcode) = sid
action_session_id (ping_action sid opcode nonce client_ts) = sid

abbrev pub action_opcode : Action → ℕ
action_opcode (login_success_action sid opcode) = opcode
action_opcode (login_fail_action sid opcode) = opcode
action_opcode (lobby_entry_action sid opcode) = opcode
action_opcode (ping_action sid opcode nonce client_ts) = opcode

-- `ActionFactory::create`
unfoldable pub create_action : ℕ → ℕ → Option Action
create_action opcode sid =
    if opcode == login_success_res
    then some (login_success_action sid opcode)
    else if opcode == login_fail_res
    then some (login_fail_action sid opcode)
    else if opcode == lobby_entry_res
    then some (lobby_entry_action sid opcode)
    else none

-- `getAccountPassword` of DbManager, by an account's id.
abbrev pub Accounts : Type 0
Accounts = List ℕ → Option (List ℕ)

-- `LoginContext::verify`
unfoldable pub verify : Accounts → List ℕ → List ℕ → Bool
unfolding same_bytes
verify db id pw = elim (db id) [ none ↦ false | some db_pw ↦ same_bytes db_pw pw ]

-- The word `test`.
abbrev pub test_word : List ℕ
test_word = 116 ∷ 101 ∷ 115 ∷ 116 ∷ []

-- Whether a login is let in: by the database, or without one by the name and password `test`.
unfoldable pub admits : Option Accounts → List ℕ → List ℕ → Bool
unfolding verify same_bytes
admits (some db) id pw = verify db id pw
admits none id pw = same_bytes id test_word && same_bytes pw test_word

-- `loginReqEvent`: the action that it commits.
unfoldable pub login_req_event : Option Accounts → ℕ → List ℕ → List ℕ → Option Action
unfolding admits create_action
login_req_event db sid id pw =
    if admits db id pw
    then create_action login_success_res sid
    else create_action login_fail_res sid

-- `lobbyEntryReqEvent`
unfoldable pub lobby_entry_req_event : ℕ → Option Action
unfolding create_action
lobby_entry_req_event sid = create_action lobby_entry_res sid

-- `pingReqEvent`
unfoldable pub ping_req_event : ℕ → ℕ → ℕ → Option Action
ping_req_event sid nonce client_ts = some (ping_action sid ping_res nonce client_ts)

-- `handleEvent`: the action that the event commits to its own shard.
unfoldable pub handle_event : Option Accounts → Event → Option Action
unfolding login_req_event lobby_entry_req_event ping_req_event
handle_event db (login sid id pw) = login_req_event db sid id pw
handle_event db (lobby_entry sid) = lobby_entry_req_event sid
handle_event db (ping sid nonce client_ts) = ping_req_event sid nonce client_ts

-- `ShardManager::initMarkets`: M1 to M4.
abbrev pub init_markets : List Market
init_markets =
    record { id = 1; alias = 77 ∷ 49 ∷ [] }
    ∷ record { id = 2; alias = 77 ∷ 50 ∷ [] }
    ∷ record { id = 3; alias = 77 ∷ 51 ∷ [] }
    ∷ record { id = 4; alias = 77 ∷ 52 ∷ [] }
    ∷ []

-- The payload that `handleAction` serializes, at a reading of the clock.
unfoldable pub payload_of : ℕ → Action → List ℕ
unfolding serialize_login serialize_lobby serialize_ping
payload_of now (login_success_action sid opcode) = serialize_login opcode sid
payload_of now (login_fail_action sid opcode) = serialize_login opcode sid
payload_of now (lobby_entry_action sid opcode) = serialize_lobby opcode sid init_markets
payload_of now (ping_action sid opcode nonce client_ts) =
    serialize_ping opcode sid nonce client_ts now
