-- ===== src/Session/Run.antt =====
-- The session manager over any sequence of its operations.
use nf_engine.Prelude.{ℕ, ◌≡◌, ◌≢◌, sym, ap, ◌∙◌, [], List, Bool, none, some, arith}
use nf_engine.Prelude.Assoc.{lookup}
use nf_engine.Packet.{tls}
use nf_engine.Codec.Parser.{ParsedPacket}
use nf_engine.Session.{
  SessionManager, SessionState, check_and_bind, create, erase_session, set_state,
  generate_secure_session_id,
}
use nf_engine.Session.Linked.{
  Linked, set_state-Linked, check_and_bind-Linked, erase_session-Linked, create-Linked,
}
use mathlib.Core.Path.{subst}
use nf_engine.Prelude.{some_inj}

abbrev pub no_sessions : SessionManager
no_sessions = record { tls_fd_to_session_id = []; sessions = [] }

-- The managers that the router and the shards can bring about: logins come by TLS and draw a number
-- that no session has, other packets come by TCP or UDP.
pub data Reached : SessionManager → Type 0 where
  started : Reached no_sessions
  logged_in :
      (m n : SessionManager) (p q : ParsedPacket) (random : List ℕ) (sid : ℕ) (done : Bool)
      → Reached m
      → p.conn_info.protocol ≡ tls
      → generate_secure_session_id random ≡ some sid
      → lookup sid m.sessions ≡ none
      → create m p random ≡ some (done, (n, q))
      → Reached n
  bound :
      (m : SessionManager) (p : ParsedPacket)
      → Reached m
      → p.conn_info.protocol ≢ tls
      → Reached (check_and_bind m p).1
  state_set :
      (m : SessionManager) (sid : ℕ) (state : SessionState)
      → Reached m
      → Reached (set_state m sid state)
  erased : (m : SessionManager) (sid : ℕ) → Reached m → Reached (erase_session m sid)

-- In every manager that is reached, each descriptor of the one table leads to a session whose TLS
-- descriptor it is, and each session's TLS descriptor leads to it.
pub Reached-Linked : {m : SessionManager} → Reached m → Linked m
unfolding lookup
Reached-Linked started = (
  λ fd sid e. absurd (let d : ⊥ = ground arith in d),
  λ sid s e. absurd (let d : ⊥ = ground arith in d),
)
Reached-Linked (logged_in m n p q random sid done r by_tls drawn new e) =
    let (done', (n', (q', (e', v)))) =
      create-Linked m p random sid (Reached-Linked r) by_tls drawn new in
    subst Linked
      (ap (λ (x : Bool × (SessionManager × ParsedPacket)). x.1.0) (some_inj (sym e' ∙ e))) v
Reached-Linked (bound m p r ne) = check_and_bind-Linked m p (Reached-Linked r) ne
Reached-Linked (state_set m sid state r) = set_state-Linked m sid state (Reached-Linked r)
Reached-Linked (erased m sid r) = erase_session-Linked m sid (Reached-Linked r)
