-- ===== src/Router/Rx/Laws.antt =====
-- About RxRouter.cpp: the events that reach the shards.
use nf_engine.Prelude.{
  ℕ, ◌/◌, ◌^◌, ◌<◌, ◌≡◌, ◌≢◌, refl, sym, ap, ap₂, ◌∙◌, ◌⊎◌, inl, inr, List, Bool, true, false, none,
  some, arith, length, get_elem?, set, Option-cases, some_inj,
}
use native.Mathlib.Decide.{ℕ_discrete}
use native.Mathlib.Nat.{mod-lt}
use nf_engine.Prelude.{Bool-cases, ◌&&◌, ◌==◌, get_elem?-lt}
use nf_engine.Session.Tables.{check_and_bind-cases, create-done}
use nf_engine.Prelude.Assoc.{lookup, lookup-assign_self, lookup-emplace_self}
use nf_engine.Packet.{Packet, login_req}
use nf_engine.Codec.Parser.{ParsedPacket, parse, set_session_id}
use nf_engine.Codec.Requests.{Event, login, lobby_entry, ping}
use nf_engine.Codec.Requests
use nf_engine.Session.{Session, SessionManager, create, check_and_bind, bind, session, pre_auth}
use nf_engine.Shard.{ShardWorker, dispatch, enqueue_event}
use nf_engine.Router.Rx.{select_shard, admit, route, handle_packet}

abbrev pub event_session_id : Event → ℕ
event_session_id (login sid id pw) = sid
event_session_id (lobby_entry sid) = sid
event_session_id (ping sid nonce client_ts) = sid

-- The shard of a session is one of the workers.
pub select_shard-lt : (workers sid : ℕ) → 0 < workers → select_shard workers sid < workers
unfolding select_shard
select_shard-lt workers sid h = mod-lt (sid / 2 ^ 32) h

-- The event that a packet raises has the packet's session.
pub create-session :
    (p : ParsedPacket) (e : Event) → Requests.create p ≡ some e → event_session_id e ≡ p.session_id
unfolding Requests.create Requests.parse_login_req Requests.parse_lobby_entry_req
    Requests.parse_ping_req
create-session p e h = ground arith

check-live :
    (m n : SessionManager) (p : ParsedPacket)
    → check_and_bind m p ≡ (true, n)
    → (s : Session) × (lookup p.session_id n.sessions ≡ some s)
check-live m n p e = elim (check_and_bind-cases m p) [
  | inl refused ↦ absurd (let d : ⊥ = ground arith in d)
  | inr (s, (_, (_, bound))) ↦ (
    bind s p,
    ap (λ (x : Bool × SessionManager). lookup p.session_id x.1.sessions) (sym e ∙ bound)
        ∙ lookup-assign_self p.session_id (bind s p) m.sessions,
  )
]

create-live :
    (m n : SessionManager) (p q : ParsedPacket) (random : List ℕ)
    → create m p random ≡ some (true, (n, q))
    → (s : Session) × (lookup q.session_id n.sessions ≡ some s)
unfolding set_session_id
create-live m n p q random e =
    let (sid, (_, (_, (en, eq)))) = create-done m n p q random e in
    let (s, found) =
      lookup-emplace_self sid (record (bind (session sid) p) { state = pre_auth }) m.sessions in
    (s, ap₂ (λ x k. lookup x k.sessions) (ap id_of eq) en ∙ found)
  where
    id_of : ParsedPacket → ℕ
    id_of x = x.session_id

admit-old :
    (m : SessionManager) (p : ParsedPacket) (random : List ℕ)
    → ((p.opcode == login_req) && (p.session_id == 0)) ≡ false
    → admit m p random ≡ some ((check_and_bind m p).0, ((check_and_bind m p).1, p))
unfolding admit
admit-old m p random old = ground arith

-- A packet that is admitted belongs to a session that is there.
admit-live :
    (m n : SessionManager) (p q : ParsedPacket) (random : List ℕ)
    → admit m p random ≡ some (true, (n, q))
    → (s : Session) × (lookup q.session_id n.sessions ≡ some s)
unfolding admit
admit-live m n p q random e = elim (Bool-cases ((p.opcode == login_req) && (p.session_id == 0))) [
  | inl new ↦ create-live m n p q random (ground arith)
  | inr old ↦
      let same = some_inj (sym (admit-old m p random old) ∙ e) in
      let (s, found) =
        check-live m n p (ap (λ (x : Bool × (SessionManager × ParsedPacket)). (x.0, x.1.0)) same) in
      (
        s,
        ap (λ (x : Bool × (SessionManager × ParsedPacket)). lookup x.1.1.session_id n.sessions)
              (sym same)
            ∙ found,
      )
]

dispatch-none : (workers : List ShardWorker) (i : ℕ) → dispatch workers i none ≡ workers
unfolding dispatch
dispatch-none workers i = refl

-- One event more at the end of the queue of worker `i`, and the other workers as they were.
abbrev pub Appended : List ShardWorker → List ShardWorker → ℕ → Event → Type 0
Appended workers workers' i e =
    (w : ShardWorker) × ((get_elem? workers i ≡ some w)
      × (workers' ≡ set workers i (enqueue_event w e)))

dispatch_lem :
    (workers : List ShardWorker) (i : ℕ) (e : Event)
    → i < length workers
    → Appended workers (dispatch workers i (some e)) i e
unfolding dispatch
dispatch_lem workers i e h = let (w, there) = get_elem?-lt workers i h in (w, (there, ground arith))

route-cases :
    (workers : List ShardWorker) (p : ParsedPacket)
    → 0 < length workers
    → (route workers p ≡ workers)
      ⊎ ((e : Event) × ((p.session_id ≢ 0)
            × ((event_session_id e ≡ p.session_id)
                × Appended workers
                    (route workers p)
                    (select_shard (length workers) p.session_id)
                    e)))
unfolding route
route-cases workers p h = elim (ℕ_discrete p.session_id 0) [
  | yes none_yet ↦ inl (ground arith)
  | no ne ↦ elim (Option-cases (Requests.create p)) [
    | inl nothing ↦
        inl (ground (arith, dispatch-none workers (select_shard (length workers) p.session_id)))
    | inr (e, raised) ↦
        let (w, (there, placed)) =
          dispatch_lem workers (select_shard (length workers) p.session_id) e
            (select_shard-lt (length workers) p.session_id h) in
        inr (e, (ne, (create-session p e raised, (w, (there, ground arith)))))
  ]
]

-- What the router does with a packet, where there is a worker: it leaves the workers as they are,
-- or it appends one event to the queue of the worker that its session selects, and the session of
-- the event, which is not zero, is one of the manager's.
pub handle_packet-routes :
    (m n : SessionManager) (workers workers' : List ShardWorker) (pkt : Packet) (random : List ℕ)
    → 0 < length workers
    → handle_packet m workers pkt random ≡ some (n, workers')
    → (workers' ≡ workers)
      ⊎ ((e : Event) × ((s : Session) × ((event_session_id e ≢ 0)
              × ((lookup (event_session_id e) n.sessions ≡ some s)
                  × Appended workers workers'
                      (select_shard (length workers) (event_session_id e))
                      e))))
unfolding handle_packet
handle_packet-routes m n workers workers' pkt random some_worker e =
    elim (Option-cases (parse (some pkt))) [
      | inl bad ↦ inl (ground arith)
      | inr (p, good) ↦ elim (Option-cases (admit m p random)) [
        | inl aborted ↦ absurd (let d : ⊥ = ground arith in d)
        | inr ((false, (k, q)), refused) ↦ inl (ground arith)
        | inr ((true, (k, q)), admitted) ↦
            let kept : k ≡ n = ground arith in
            let routed : route workers q ≡ workers' = ground arith in
            elim (route-cases workers q some_worker) [
              | inl same ↦ inl (sym routed ∙ same)
              | inr (ev, (ne, (its, (w, (there, placed))))) ↦
                  let (s, found) = admit-live m k p q random admitted in
                  inr (
                    ev,
                    (
                      s,
                      (
                        λ z. ne (sym its ∙ z),
                        (
                          ap₂ (λ x j. lookup x j.sessions) its (sym kept) ∙ found,
                          (
                            w,
                            (
                              ap (λ x. get_elem? workers (select_shard (length workers) x)) its
                                  ∙ there,
                              sym routed
                                  ∙ placed
                                  ∙ ap
                                      (λ x.
                                        set workers (select_shard (length workers) x)
                                          (enqueue_event w ev))
                                      (sym its),
                            ),
                          ),
                        ),
                      ),
                    ),
                  )
            ]
      ]
    ]
