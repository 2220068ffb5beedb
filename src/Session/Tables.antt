-- ===== src/Session/Tables.antt =====
-- About SessionManager.cpp: the equations of its operations, by the entry that they find.
use nf_engine.Prelude.{
  ℕ, ◌≡◌, ◌≢◌, ◌⊎◌, refl, sym, ap, ◌∙◌, List, Bool, true, false, none, some, arith, Option-cases,
  inl, inr, some_inj,
}
use native.Mathlib.Decide.{ℕ_discrete}
use nf_engine.Prelude.Assoc.{lookup, emplace, assign, erase}
use nf_engine.Packet.{tls}
use nf_engine.Codec.Parser.{ParsedPacket, set_session_id}
use nf_engine.Session.{
  Session, SessionManager, SessionState, pre_auth, bind, session, check_and_bind, create,
  erase_session, set_state, generate_secure_session_id,
}

-- A packet that does not come by TLS changes no descriptor of TLS.
pub bind-tls_fd :
    (s : Session) (p : ParsedPacket) → p.conn_info.protocol ≢ tls → (bind s p).tls_fd ≡ s.tls_fd
unfolding bind
bind-tls_fd s p ne = ground arith

pub bind-tls :
    (s : Session) (p : ParsedPacket) → p.conn_info.protocol ≡ tls → (bind s p).tls_fd ≡ p.fd
unfolding bind
bind-tls s p e = rw e refl

pub set_state-found :
    (m : SessionManager) (sid : ℕ) (state : SessionState) (s : Session)
    → lookup sid m.sessions ≡ some s
    → set_state m sid state
      ≡ record m { sessions = assign sid (record s { state = state }) m.sessions }
unfolding set_state
set_state-found m sid state s found = ground arith

pub set_state-absent :
    (m : SessionManager) (sid : ℕ) (state : SessionState)
    → lookup sid m.sessions ≡ none
    → set_state m sid state ≡ m
unfolding set_state
set_state-absent m sid state absent = ground arith

pub erase_session-found :
    (m : SessionManager) (sid : ℕ) (s : Session)
    → lookup sid m.sessions ≡ some s
    → erase_session m sid ≡ record {
      tls_fd_to_session_id = erase s.tls_fd m.tls_fd_to_session_id;
      sessions = erase sid m.sessions;
    }
unfolding erase_session
erase_session-found m sid s found = ground arith

pub erase_session-absent :
    (m : SessionManager) (sid : ℕ) → lookup sid m.sessions ≡ none → erase_session m sid ≡ m
unfolding erase_session
erase_session-absent m sid absent = ground arith

-- A packet is bound to the session that it names, or refused, and nothing changes.
pub check_and_bind-cases :
    (m : SessionManager) (p : ParsedPacket)
    → (check_and_bind m p ≡ (false, m))
      ⊎ ((s : Session) × ((p.session_id ≢ 0)
            × ((lookup p.session_id m.sessions ≡ some s)
                × (check_and_bind m p
                    ≡ (true, record m { sessions = assign p.session_id (bind s p) m.sessions })))))
unfolding check_and_bind
check_and_bind-cases m p = elim (ℕ_discrete p.session_id 0) [
  | yes zero_id ↦ inl (ground arith)
  | no ne ↦ elim (Option-cases (lookup p.session_id m.sessions)) [
    | inl absent ↦ inl (ground arith)
    | inr (s, found) ↦ inr (s, (ne, (found, ground arith)))
  ]
]

-- A login on a new descriptor makes a session with the number drawn.
pub create-new :
    (m : SessionManager) (p : ParsedPacket) (random : List ℕ) (sid : ℕ)
    → lookup p.fd m.tls_fd_to_session_id ≡ none
    → generate_secure_session_id random ≡ some sid
    → create m p random
      ≡ some (
        true,
        (
          record {
            sessions = emplace sid (record (bind (session sid) p) { state = pre_auth }) m.sessions;
            tls_fd_to_session_id = emplace p.fd sid m.tls_fd_to_session_id;
          },
          set_session_id p sid,
        ),
      )
unfolding create
create-new m p random sid absent drawn = ground arith

pub create-duplicate :
    (m : SessionManager) (p : ParsedPacket) (random : List ℕ) (sid : ℕ)
    → lookup p.fd m.tls_fd_to_session_id ≡ some sid
    → create m p random ≡ some (false, (m, p))
unfolding create
create-duplicate m p random sid found = ground arith

-- What a manager looks like after a login that was let in.
abbrev pub after_login : SessionManager → ParsedPacket → ℕ → SessionManager
after_login m p sid = record {
  sessions = emplace sid (record (bind (session sid) p) { state = pre_auth }) m.sessions;
  tls_fd_to_session_id = emplace p.fd sid m.tls_fd_to_session_id;
}

create-undrawn :
    (m : SessionManager) (p : ParsedPacket) (random : List ℕ)
    → lookup p.fd m.tls_fd_to_session_id ≡ none
    → generate_secure_session_id random ≡ none
    → create m p random ≡ none
unfolding create
create-undrawn m p random absent dry = ground arith

pub create-done :
    (m n : SessionManager) (p q : ParsedPacket) (random : List ℕ)
    → create m p random ≡ some (true, (n, q))
    → (sid : ℕ) × ((lookup p.fd m.tls_fd_to_session_id ≡ none)
        × ((generate_secure_session_id random ≡ some sid)
            × ((n ≡ after_login m p sid) × (q ≡ set_session_id p sid))))
create-done m n p q random e = elim (Option-cases (lookup p.fd m.tls_fd_to_session_id)) [
  | inr (old, taken) ↦
      absurd (let d : ⊥ = ground (arith, create-duplicate m p random old taken) in d)
  | inl free ↦ elim (Option-cases (generate_secure_session_id random)) [
    | inl dry ↦ absurd (let d : ⊥ = ground (arith, create-undrawn m p random free dry) in d)
    | inr (sid, drawn) ↦
        let same = some_inj (sym e ∙ create-new m p random sid free drawn) in
        (
          sid,
          (
            free,
            (
              drawn,
              (
                ap (λ (x : Bool × (SessionManager × ParsedPacket)). x.1.0) same,
                ap (λ (x : Bool × (SessionManager × ParsedPacket)). x.1.1) same,
              ),
            ),
          ),
        )
  ]
]
