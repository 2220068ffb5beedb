-- ===== src/Auth.antt =====
-- mgmtd/service/AuthService.cpp: the sessions of the management daemon. The map of sessions is a
-- function; the strings, SHA-256 with a salt, and the text of a session id made from the time are
-- parameters. Each call of the clock is an argument.
pub mod Laws
use nf_engine.Prelude.{ℕ, ◌+◌, Bool, true, false, Option, none, some, ltb, if◌then◌else◌}
use mathlib.Core.Logic.{ite}

-- SESSION_TTL_SEC
abbrev pub session_ttl : ℕ
session_ttl = 1800

module _ (Text : Type 0) (text_eq : Discrete Text) where
  pub record AuthService : Type 0 where
    pub username : Text
    pub password_hash : Text
    pub salt : Text
    pub sessions : Text → Option ℕ

  -- `m_sessions[id] = …` and `m_sessions.erase(id)`
  abbrev pub put : Text → Option ℕ → AuthService → AuthService
  put id entry s = record s { sessions = λ other. ite (text_eq id other) entry (s.sessions other) }

  -- `hash` of a password and a salt, and the session id of a time. The clock is read twice.
  unfoldable pub login :
      (Text → Text → Text)
      → (ℕ → Text)
      → AuthService
      → ℕ
      → ℕ
      → Text
      → Text
      → AuthService × Option Text
  login hash session_id s now now' id password =
      ite (text_eq id s.username)
        (ite (text_eq (hash password s.salt) s.password_hash)
          (put (session_id now) (some (now' + session_ttl)) s, some (session_id now)) (s, none))
        (s, none)

  unfoldable pub validate_session : AuthService → ℕ → Text → AuthService × Bool
  validate_session s now id = elim (s.sessions id) [
    | none ↦ (s, false)
    | some expires_at ↦ if ltb expires_at now then (put id none s, false) else (s, true)
  ]

  unfoldable pub logout : AuthService → Text → AuthService
  logout s id = put id none s
