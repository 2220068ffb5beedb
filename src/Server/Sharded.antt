-- ===== src/Server/Sharded.antt =====
-- Which shard handles the events of a session.
use nf_engine.Prelude.{
  ℕ, zero, suc, ◌<◌, ◌≡◌, ◌≢◌, refl, sym, ap, ◌∙◌, inl, inr, List, [], ◌∷◌, ◌++◌, Option, some,
  arith, length, get_elem?, set, length-set, Option-cases, some_inj,
}
use mathlib.Core.Path.{subst}
use native.Mathlib.Decide.{ℕ_discrete}
use nf_engine.Packet.{Packet}
use nf_engine.Codec.Requests.{Event}
use nf_engine.Session.{SessionManager}
use nf_engine.Execution.{Accounts}
use nf_engine.Shard.{ShardWorker, turn, take_event, enqueue_event, enqueue_action}
use nf_engine.Router.Rx.{handle_packet, select_shard}
use nf_engine.Router.Rx.Laws.{event_session_id, handle_packet-routes}
use nf_engine.Server.{Server, process_packets, shard_turn, Act, packets, shard, act, run}

get_elem?-set_ne {ℓ} :
    {A : Type ℓ} (xs : List A) (i j : ℕ) (x : A) → i ≢ j → get_elem? (set xs i x) j ≡ get_elem? xs j
get_elem?-set_ne [] i j x ne = refl
get_elem?-set_ne (y ∷ xs) zero zero x ne = absurd (ne refl)
get_elem?-set_ne (y ∷ xs) zero (suc j) x ne = refl
get_elem?-set_ne (y ∷ xs) (suc i) zero x ne = refl
get_elem?-set_ne (y ∷ xs) (suc i) (suc j) x ne = get_elem?-set_ne xs i j x (λ e. ne (ap suc e))

get_elem?-set_self {ℓ} :
    {A : Type ℓ} (xs : List A) (i : ℕ) {x y : A}
    → get_elem? xs i ≡ some y
    → get_elem? (set xs i x) i ≡ some x
get_elem?-set_self [] i e = absurd (let d : ⊥ = ground arith in d)
get_elem?-set_self (z ∷ xs) zero e = refl
get_elem?-set_self (z ∷ xs) (suc i) e = get_elem?-set_self xs i e

-- All events are of sessions that select the shard.
abbrev pub AllFor : ℕ → ℕ → List Event → Type 0
AllFor n i [] = Unit {0}
AllFor n i (e ∷ more) = (select_shard n (event_session_id e) ≡ i) × AllFor n i more

AllFor-append :
    (n i : ℕ) (es : List Event) (e : Event)
    → AllFor n i es
    → select_shard n (event_session_id e) ≡ i
    → AllFor n i (es ++ e ∷ [])
AllFor-append n i [] e h p = (p, tt)
AllFor-append n i (f ∷ es) e h p = (h.0, AllFor-append n i es e h.1 p)

-- Each of `n` shards has only events of the sessions that select it.
abbrev pub Sharded : ℕ → List ShardWorker → Type 0
Sharded n shards =
    (i : ℕ) (w : ShardWorker) → get_elem? shards i ≡ some w → AllFor n i w.event_queue

Sharded-set :
    (n i : ℕ) (shards : List ShardWorker) (w w' : ShardWorker)
    → Sharded n shards
    → get_elem? shards i ≡ some w
    → AllFor n i w'.event_queue
    → Sharded n (set shards i w')
Sharded-set n i shards w w' all there new j v e = elim (ℕ_discrete i j) [
  | yes same ↦
      subst (λ k. AllFor n k v.event_queue) same
        (subst (λ (u : ShardWorker). AllFor n i u.event_queue)
          (some_inj
            (sym (get_elem?-set_self shards i there) ∙ ap (get_elem? (set shards i w')) same ∙ e))
          new)
  | no ne ↦ all j v (sym (get_elem?-set_ne shards i j w' ne) ∙ e)
]

taken :
    (db : Option Accounts) (n i : ℕ) (w : ShardWorker) (es : List Event)
    → w.event_queue ≡ es
    → AllFor n i es
    → AllFor n i (take_event db w).event_queue
unfolding take_event enqueue_action
taken db n i w [] e h =
    subst (AllFor n i) (let d : [] ≡ (take_event db w).event_queue = ground arith in d) tt
taken db n i w (ev ∷ more) e h =
    subst (AllFor n i) (let d : more ≡ (take_event db w).event_queue = ground arith in d) h.1

-- The number of shards, and that they are sharded.
abbrev pub Inv : ℕ → Server → Type 0
Inv n s = (length s.shards ≡ n) × Sharded n s.shards

handle_packet-Inv :
    (n : ℕ) (s : Server) (m : SessionManager) (shards : List ShardWorker) (pkt : Packet)
    (random : List ℕ)
    → 0 < n
    → Inv n s
    → handle_packet s.manager s.shards pkt random ≡ some (m, shards)
    → (length shards ≡ n) × Sharded n shards
unfolding enqueue_event
handle_packet-Inv n s m shards pkt random pos (len, all) e =
    elim (handle_packet-routes s.manager m s.shards shards pkt random (omega arith) e) [
      | inl same ↦ subst (λ ws. (length ws ≡ n) × Sharded n ws) (sym same) (len, all)
      | inr (ev, (_, (_, (_, (w, (there, placed)))))) ↦
          let i : ℕ = select_shard (length s.shards) (event_session_id ev) in
          subst (λ ws. (length ws ≡ n) × Sharded n ws) (sym placed)
            (
              length-set s.shards i (enqueue_event w ev) ∙ len,
              Sharded-set n i s.shards w (enqueue_event w ev) all there (
                  AllFor-append n i w.event_queue ev (all i w there)
                    (ap (λ k. select_shard k (event_session_id ev)) (sym len))),
            )
    ]

process_packets-Inv :
    (n : ℕ) (s t : Server) (ps : List (Packet × List ℕ))
    → 0 < n
    → Inv n s
    → process_packets s ps ≡ some t
    → Inv n t
unfolding process_packets
process_packets-Inv n s t [] pos inv e = subst (Inv n) (some_inj e) inv
process_packets-Inv n s t ((pkt, random) ∷ more) pos inv e =
    elim (Option-cases (handle_packet s.manager s.shards pkt random)) [
      | inl aborted ↦ absurd (let d : ⊥ = ground arith in d)
      | inr ((m, shards), done) ↦
          process_packets-Inv n (record { manager = m; shards = shards }) t more pos
            (handle_packet-Inv n s m shards pkt random pos inv done) (ground arith)
    ]

shard_turn-Inv :
    (db : Option Accounts) (now n i : ℕ) (s : Server) → Inv n s → Inv n (shard_turn db now i s).0
unfolding shard_turn turn
shard_turn-Inv db now n i s (len, all) = elim (Option-cases (get_elem? s.shards i)) [
  | inl absent ↦ rw (absent, shard_turn) (len, all)
  | inr (w, there) ↦
      rw (there, shard_turn)
        (
          length-set s.shards i (turn db now s.manager w).0 ∙ len,
          Sharded-set n i s.shards w (turn db now s.manager w).0 all there
              (taken db n i w w.event_queue refl (all i w there)),
        )
]

act-Inv :
    (db : Option Accounts) (n : ℕ) (s : Server) (a : Act) {out : Server × List Packet}
    → 0 < n
    → Inv n s
    → act db s a ≡ some out
    → Inv n out.0
unfolding act
act-Inv db n s (packets ps) {out} pos inv e = elim (Option-cases (process_packets s ps)) [
  | inl aborted ↦ absurd (let d : ⊥ = ground arith in d)
  | inr (t, done) ↦
      subst (Inv n) (let d : t ≡ out.0 = ground arith in d)
        (process_packets-Inv n s t ps pos inv done)
]
act-Inv db n s (shard i now) {out} pos inv e =
    subst (Inv n) (ap (λ (o : Server × List Packet). o.0) (some_inj e))
      (shard_turn-Inv db now n i s inv)

-- Whatever the workers and the shards do, in any order, the number of shards stays, and the queue of
-- each shard holds only events of the sessions that select it: no session has events on two shards.
pub run-Sharded :
    (db : Option Accounts) (n : ℕ) (s : Server) (acts : List Act) (out : Server × List Packet)
    → 0 < n
    → length s.shards ≡ n
    → Sharded n s.shards
    → run db s acts ≡ some out
    → (length out.0.shards ≡ n) × Sharded n out.0.shards
unfolding run
run-Sharded db n s [] out pos len all e =
    subst (λ (o : Server × List Packet). Inv n o.0) (some_inj e) (len, all)
run-Sharded db n s (a ∷ more) out pos len all e = elim (Option-cases (act db s a)) [
  | inl aborted ↦ absurd (let d : ⊥ = ground arith in d)
  | inr ((t, sent), done) ↦ elim (Option-cases (run db t more)) [
    | inl aborted ↦ absurd (let d : ⊥ = ground arith in d)
    | inr ((u, later), rest) ↦
        let inv : Inv n t = act-Inv db n s a pos (len, all) done in
        let after : Inv n u = run-Sharded db n t more (u, later) pos inv.0 inv.1 rest in
        subst (Inv n) (let d : u ≡ out.0 = ground arith in d) after
  ]
]
