-- ===== src/Shard/Laws.antt =====
-- A turn of a shard's worker, from the event at the front of its queue to the answer and the session.
use nf_engine.Prelude.{
  ℕ, ◌≡◌, ◌≢◌, ◌⊎◌, inl, inr, Bool-cases, refl, sym, ap, ◌∙◌, List, [], ◌∷◌, true, false, Option,
  none, some, arith, if◌then◌else◌,
}
use nf_engine.Prelude.Assoc.{lookup, lookup-assign_self, lookup-erase_self}
use nf_engine.Packet.{
  tcp, tls, udp, Packet, login_success_res, login_fail_res, lobby_entry_res, ping_res,
}
use nf_engine.Codec.Requests.{Event, login, lobby_entry, ping}
use nf_engine.Codec.Responses.{serialize_login, serialize_lobby, serialize_ping}
use nf_engine.Session.{Session, SessionManager, auth, in_world, set_state, erase_session}
use nf_engine.Session.Tables.{set_state-found, erase_session-found}
use nf_engine.Execution.{
  Accounts, Action, action_session_id, action_opcode, admits, init_markets, handle_event,
  payload_of, login_req_event, create_action, lobby_entry_req_event, ping_req_event,
  login_success_action, login_fail_action, lobby_entry_action, ping_action,
}
use nf_engine.Execution.Laws.{admits_iff}
use nf_engine.Router.Tx.{handle_packet}
use nf_engine.Router.Tx.Laws.{reply, handle_packet_lem}
use nf_engine.Shard.{ShardWorker, take_event, enqueue_action, drain_actions, turn}

-- A worker with this event next and no actions.
abbrev pub about_to : Event → List Event → ShardWorker
about_to e more = record { event_queue = e ∷ more; action_queue = [] }

abbrev pub done_with : List Event → ShardWorker
done_with more = record { event_queue = more; action_queue = [] }

drain-one :
    (now : ℕ) (m n : SessionManager) (a : Action) (pkt : Packet)
    → handle_packet m (action_session_id a) (action_opcode a) (payload_of now a) ≡ (n, some pkt)
    → drain_actions m now (a ∷ []) ≡ (n, pkt ∷ [])
unfolding drain_actions
drain-one now m n a pkt e = ground arith

raised-login :
    (db : Option Accounts) (sid : ℕ) (id pw : List ℕ)
    → handle_event db (login sid id pw) ≡ (
        if admits db id pw
        then some (login_success_action sid login_success_res)
        else some (login_fail_action sid login_fail_res))
unfolding handle_event login_req_event create_action
raised-login db sid id pw = refl

raised-lobby :
    (db : Option Accounts) (sid : ℕ)
    → handle_event db (lobby_entry sid) ≡ some (lobby_entry_action sid lobby_entry_res)
unfolding handle_event lobby_entry_req_event create_action
raised-lobby db sid = refl

raised-ping :
    (db : Option Accounts) (sid nonce client_ts : ℕ)
    → handle_event db (ping sid nonce client_ts) ≡ some (ping_action sid ping_res nonce client_ts)
unfolding handle_event ping_req_event
raised-ping db sid nonce client_ts = refl

-- An action, committed by the event, is sent in the same turn.
turn-sends :
    (db : Option Accounts) (now : ℕ) (m n : SessionManager) (e : Event) (more : List Event)
    (a : Action) (pkt : Packet)
    → handle_event db e ≡ some a
    → drain_actions m now (a ∷ []) ≡ (n, pkt ∷ [])
    → turn db now m (about_to e more) ≡ (done_with more, (n, pkt ∷ []))
unfolding turn take_event enqueue_action
turn-sends db now m n e more a pkt raised sent = ground arith

module _ (now : ℕ) (m : SessionManager) (sid : ℕ) (s : Session) (more : List Event)
    (found : lookup sid m.sessions ≡ some s) where
  -- A login that is let in authenticates its session, and the answer of success, and nothing else, goes to
  -- the session's TLS descriptor.
  turn-login_admitted :
      (db : Option Accounts) (id pw : List ℕ)
      → admits db id pw ≡ true
      → (turn db now m (about_to (login sid id pw) more) ≡ (
        done_with more,
        (set_state m sid auth, reply s s.tls_fd tls (serialize_login login_success_res sid) ∷ []),
      ))
        × (lookup sid (set_state m sid auth).sessions ≡ some (record s { state = auth }))
  unfolding payload_of
  turn-login_admitted db id pw ok = (
    turn-sends db now m _ (login sid id pw) more (login_success_action sid login_success_res) _
        (ground (arith, raised-login db sid id pw))
        (drain-one now m _ _ _
          (handle_packet_lem m sid s (serialize_login login_success_res sid) found).0),
    ap (λ n. lookup sid n.sessions) (set_state-found m sid auth s found)
        ∙ lookup-assign_self sid _ m.sessions,
  )

  -- A login that is refused ends its session, and the answer of failure goes to the TLS descriptor
  -- that the session had.
  turn-login_refused :
      (db : Option Accounts) (id pw : List ℕ)
      → admits db id pw ≡ false
      → (turn db now m (about_to (login sid id pw) more) ≡ (
        done_with more,
        (erase_session m sid, reply s s.tls_fd tls (serialize_login login_fail_res sid) ∷ []),
      ))
        × (lookup sid (erase_session m sid).sessions ≡ none)
  unfolding payload_of
  turn-login_refused db id pw bad = (
    turn-sends db now m _ (login sid id pw) more (login_fail_action sid login_fail_res) _
        (ground (arith, raised-login db sid id pw))
        (drain-one now m _ _ _
          (handle_packet_lem m sid s (serialize_login login_fail_res sid) found).1.0),
    ap (λ n. lookup sid n.sessions) (erase_session-found m sid s found)
        ∙ lookup-erase_self sid m.sessions,
  )

  -- With a database a login whose id has this password authenticates its session in one turn of
  -- the worker, and exactly the answer of success goes to the session's TLS descriptor; any other
  -- ends its session, and exactly the answer of failure goes to the descriptor that it had.
  pub turn-login :
      (db : Accounts) (id pw : List ℕ)
      → let turned = turn (some db) now m (about_to (login sid id pw) more) in
        ((db id ≡ some pw)
          × ((turned ≡ (
            done_with more,
            (
              set_state m sid auth,
              reply s s.tls_fd tls (serialize_login login_success_res sid) ∷ [],
            ),
          ))
              × (lookup sid (set_state m sid auth).sessions ≡ some (record s { state = auth }))))
        ⊎ ((db id ≢ some pw)
            × ((turned ≡ (
              done_with more,
              (erase_session m sid, reply s s.tls_fd tls (serialize_login login_fail_res sid) ∷ []),
            ))
                × (lookup sid (erase_session m sid).sessions ≡ none)))
  turn-login db id pw = elim (Bool-cases (admits (some db) id pw)) [
    | inl ok ↦ inl ((admits_iff db id pw).0 ok, turn-login_admitted (some db) id pw ok)
    | inr bad ↦ inr (
      λ e. let d : false ≡ true = sym bad ∙ (admits_iff db id pw).1 e in cc,
      turn-login_refused (some db) id pw bad,
    )
  ]

  -- A lobby request puts its session in the world, whatever its state was, and the markets go to its
  -- TCP descriptor.
  pub turn-lobby_entry :
      (db : Option Accounts)
      → (turn db now m (about_to (lobby_entry sid) more) ≡ (
        done_with more,
        (
          set_state m sid in_world,
          reply s s.tcp_fd tcp (serialize_lobby lobby_entry_res sid init_markets) ∷ [],
        ),
      ))
        × (lookup sid (set_state m sid in_world).sessions ≡ some (record s { state = in_world }))
  unfolding payload_of
  turn-lobby_entry db = (
    turn-sends db now m _ (lobby_entry sid) more (lobby_entry_action sid lobby_entry_res) _
        (raised-lobby db sid)
        (drain-one now m _ _ _
          (handle_packet_lem m sid s (serialize_lobby lobby_entry_res sid init_markets)
            found).1.1.0),
    ap (λ n. lookup sid n.sessions) (set_state-found m sid in_world s found)
        ∙ lookup-assign_self sid _ m.sessions,
  )

  -- A ping changes no session, and its numbers and the time go to the session's UDP descriptor.
  pub turn-ping :
      (db : Option Accounts) (nonce client_ts : ℕ)
      → turn db now m (about_to (ping sid nonce client_ts) more) ≡ (
        done_with more,
        (m, reply s s.udp_fd udp (serialize_ping ping_res sid nonce client_ts now) ∷ []),
      )
  unfolding payload_of
  turn-ping db nonce client_ts =
      turn-sends db now m m (ping sid nonce client_ts) more
        (ping_action sid ping_res nonce client_ts) _ (raised-ping db sid nonce client_ts)
        (drain-one now m _ _ _
          (handle_packet_lem m sid s (serialize_ping ping_res sid nonce client_ts now) found).1.1.1)

  -- In one turn of the worker, a lobby request puts its session in the world, whatever its state
  -- was, and exactly the list of markets goes to its TCP descriptor; a ping changes no session, and
  -- exactly its numbers and the time go to its UDP descriptor.
  pub turn-served :
      (db : Option Accounts) (nonce client_ts : ℕ)
      → (turn db now m (about_to (lobby_entry sid) more) ≡ (
        done_with more,
        (
          set_state m sid in_world,
          reply s s.tcp_fd tcp (serialize_lobby lobby_entry_res sid init_markets) ∷ [],
        ),
      ))
        × (lookup sid (set_state m sid in_world).sessions ≡ some (record s { state = in_world }))
        × (turn db now m (about_to (ping sid nonce client_ts) more) ≡ (
          done_with more,
          (m, reply s s.udp_fd udp (serialize_ping ping_res sid nonce client_ts now) ∷ []),
        ))
  turn-served db nonce client_ts =
      ((turn-lobby_entry db).0, (turn-lobby_entry db).1, turn-ping db nonce client_ts)
