-- ===== src/Tests/Server.antt =====
-- The sessions, the routers and the shards at concrete inputs.
use nf_engine.Prelude.{
  zero, suc, some_inj, length, ℕ, ◌^◌, ◌≡◌, ◌≢◌, ◌⊎◌, refl, List, [], ◌∷◌, ◌++◌, true, false, none,
  some, arith,
}
use nf_engine.Prelude.Assoc.{lookup}
use nf_engine.Packet.{
  Packet, tcp, tls, udp, login_req, ping_req, lobby_entry_res, login_success_res, login_fail_res,
  ping_res,
}
use nf_engine.Bytes.{be64, be16_at, be, to_be, byte_at, be64_at}
use nf_engine.Codec.Parser.{ParsedPacket, set_session_id}
use nf_engine.Codec.ParserLaws.{built, with_payload}
use nf_engine.Codec.Requests.{login, lobby_entry, ping, login_fields}
use nf_engine.Codec.Requests
use nf_engine.Codec.RequestLaws.{login_body}
use nf_engine.Codec.Responses.{header, serialize_login, serialize_lobby, serialize_ping}
use nf_engine.Session.{
  Session, SessionManager, pre_auth, auth, in_world, session, bind, create, erase_session,
  set_state, generate_secure_session_id,
}
use nf_engine.Session.Linked.{Linked}
use nf_engine.Session.Run.{started, logged_in, state_set, no_sessions, Reached-Linked}
use nf_engine.Session.Laws.{create-non_tls}
use nf_engine.Execution.{Accounts, init_markets}
use nf_engine.Shard.{ShardWorker, turn}
use nf_engine.Shard.Laws.{about_to, done_with, turn-login, turn-served}
use nf_engine.Router.Tx.Laws.{reply}
use nf_engine.Router.Rx
use nf_engine.Router.Rx.Laws.{event_session_id, Appended, handle_packet-routes}
use mathlib.Core.Path.{subst}
use nf_engine.Server.{Server, run, packets}
use nf_engine.Server.Sharded.{Sharded, AllFor, run-Sharded}
use nf_engine.Tests.Inputs.{by_tls, by_tcp, a_packet, name, secret}

-- A session on descriptor 4, which the manager knows by the number 7.
abbrev a_session : Session
a_session = record {
  session_id = 7;
  state = pre_auth;
  tls_fd = 4;
  tcp_fd = 9;
  udp_fd = 3;
  conn_info = by_tls;
}

abbrev a_manager : SessionManager
a_manager = record { tls_fd_to_session_id = (4, 7) ∷ []; sessions = (7, a_session) ∷ [] }

known : lookup 7 a_manager.sessions ≡ some a_session
unfolding lookup
known = refl

abbrev ping_packet : ParsedPacket
ping_packet = record (built a_packet ping_req 7 (be64 1 ++ be64 2)) { fd = 3 }

-- A ping of the session on the UDP socket, and the next login on its TLS descriptor.
abbrev next_login : ParsedPacket
next_login = record (built a_packet login_req 0 (login_body name secret)) { fd = 4 }

-- A login that came by TCP.
abbrev tcp_login : ParsedPacket
tcp_login = record (built a_packet login_req 0 (login_body name secret)) {
  conn_info = by_tcp;
  fd = 9;
}

abbrev tcp_manager : SessionManager
tcp_manager = record {
  tls_fd_to_session_id = (9, 5) ∷ [];
  sessions = (5, record (bind (session 5) tcp_login) { state = pre_auth }) ∷ [];
}

tcp_created :
    create no_sessions tcp_login (5 ∷ []) ≡ some (true, (tcp_manager, set_session_id tcp_login 5))
unfolding create
tcp_created = refl

drawn_alone : generate_secure_session_id (5 ∷ []) ≡ some 5
unfolding generate_secure_session_id
drawn_alone = refl

nobody : lookup 5 no_sessions.sessions ≡ none
unfolding lookup
nobody = refl

create-non_tls_example :
    create (erase_session tcp_manager 5) tcp_login (6 ∷ [])
    ≡ some (false, (erase_session tcp_manager 5, tcp_login))
create-non_tls_example =
    create-non_tls no_sessions tcp_manager tcp_login tcp_login (set_session_id tcp_login 5) (5 ∷ [])
      (6 ∷ []) 5 (λ e. ground arith) (omega arith) refl drawn_alone nobody tcp_created

-- A login that came by TLS, and the manager after it.
abbrev tls_login : ParsedPacket
tls_login = built a_packet login_req 0 (login_body name secret)

abbrev tls_manager : SessionManager
tls_manager = record {
  tls_fd_to_session_id = (4, 5) ∷ [];
  sessions = (5, record (bind (session 5) tls_login) { state = pre_auth }) ∷ [];
}

tls_created :
    create no_sessions tls_login (5 ∷ []) ≡ some (true, (tls_manager, set_session_id tls_login 5))
unfolding create
tls_created = refl

Reached-Linked_example : Linked (set_state tls_manager 5 auth)
Reached-Linked_example = Reached-Linked (
    state_set tls_manager 5 auth (
      logged_in no_sessions tls_manager tls_login (set_session_id tls_login 5) (5 ∷ []) 5 true
        started refl drawn_alone nobody tls_created))

abbrev accounts : Accounts
accounts id = some secret

turn-login_example :
    let turned = turn (some accounts) 99 a_manager (about_to (login 7 name secret) []) in
    ((accounts name ≡ some secret)
      × ((turned ≡ (
        done_with [],
        (
          set_state a_manager 7 auth,
          reply a_session 4 tls (serialize_login login_success_res 7) ∷ [],
        ),
      ))
          × (lookup 7 (set_state a_manager 7 auth).sessions
              ≡ some (record a_session { state = auth }))))
    ⊎ ((accounts name ≢ some secret)
        × ((turned ≡ (
          done_with [],
          (
            erase_session a_manager 7,
            reply a_session 4 tls (serialize_login login_fail_res 7) ∷ [],
          ),
        ))
            × (lookup 7 (erase_session a_manager 7).sessions ≡ none)))
turn-login_example = turn-login 99 a_manager 7 a_session [] known accounts name secret

turn-served_example :
    (turn none 99 a_manager (about_to (lobby_entry 7) []) ≡ (
      done_with [],
      (
        set_state a_manager 7 in_world,
        reply a_session 9 tcp (serialize_lobby lobby_entry_res 7 init_markets) ∷ [],
      ),
    ))
    × (lookup 7 (set_state a_manager 7 in_world).sessions
        ≡ some (record a_session { state = in_world }))
    × (turn none 99 a_manager (about_to (ping 7 1 2) []) ≡ (
      done_with [],
      (a_manager, reply a_session 3 udp (serialize_ping ping_res 7 1 2 99) ∷ []),
    ))
turn-served_example = turn-served 99 a_manager 7 a_session [] known none 1 2

-- Two workers without events, and a ping of session 2 ^ 32.
abbrev workers : List ShardWorker
workers = done_with [] ∷ done_with [] ∷ []

abbrev far_session : ℕ
far_session = 2 ^ 32

abbrev far_manager : SessionManager
far_manager = record { tls_fd_to_session_id = []; sessions = (far_session, a_session) ∷ [] }

abbrev far_ping : Packet
far_ping = with_payload a_packet (header ping_req 16 far_session ++ (be64 1 ++ be64 2))

abbrev workers_after : List ShardWorker
workers_after = done_with [] ∷ about_to (ping far_session 1 2) [] ∷ []

far_routed : Rx.handle_packet far_manager workers far_ping [] ≡ some (far_manager, workers_after)
unfolding Rx.handle_packet to_be be16_at be byte_at be64_at Requests.create Requests.parse_ping_req
far_routed = refl

handle_packet-routes_example :
    (workers_after ≡ workers)
    ⊎ ((e : Requests.Event) × ((s : Session) × ((event_session_id e ≢ 0)
            × ((lookup (event_session_id e) far_manager.sessions ≡ some s)
                × Appended workers workers_after (Rx.select_shard 2 (event_session_id e)) e))))
handle_packet-routes_example =
    handle_packet-routes far_manager far_manager workers workers_after far_ping [] (omega arith)
      far_routed

abbrev far_server : Server
far_server = record { manager = far_manager; shards = workers }

abbrev far_server_after : Server × List Packet
far_server_after = (record { manager = far_manager; shards = workers_after }, [])

far_run : run none far_server (packets ((far_ping, []) ∷ []) ∷ []) ≡ some far_server_after
unfolding run Rx.handle_packet to_be be16_at be byte_at be64_at Requests.create
    Requests.parse_ping_req
far_run = refl

idle_shards : Sharded 2 workers
idle_shards zero w e = subst (λ (v : ShardWorker). AllFor 2 0 v.event_queue) (some_inj e) tt
idle_shards (suc zero) w e = subst (λ (v : ShardWorker). AllFor 2 1 v.event_queue) (some_inj e) tt
idle_shards (suc (suc i)) w e = absurd (let d : ⊥ = ground arith in d)

run-Sharded_example : (length far_server_after.0.shards ≡ 2) × Sharded 2 far_server_after.0.shards
run-Sharded_example =
    run-Sharded none 2 far_server (packets ((far_ping, []) ∷ []) ∷ []) far_server_after
      (omega arith) refl idle_shards far_run
