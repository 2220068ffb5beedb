-- ===== src/Session/Laws.antt =====
-- What the session manager's operations do to a session, and to the others.
use nf_engine.Prelude.{
  ℕ, ◌%◌, ◌^◌, ◌<◌, ◌≡◌, ◌≢◌, refl, sym, ap, ap₂, ◌∙◌, List, [], ◌∷◌, Bool, true, false, none, some,
  arith, Option-cases, inl, inr, some_inj,
}
use native.Mathlib.Decide.{ℕ_discrete}
use nf_engine.Prelude.Assoc.{lookup, emplace, lookup-erase_ne, lookup-emplace_new}
use nf_engine.Packet.{tls, no_fd}
use nf_engine.Codec.Parser.{ParsedPacket}
use nf_engine.Session.{
  Session, SessionManager, pre_auth, bind, session, create, erase_session,
  generate_secure_session_id,
}
use nf_engine.Session.Tables.{erase_session-found, create-new, create-duplicate, bind-tls_fd}

-- The id of a new session is a number of 64 bits and not zero.
pub generate_secure_session_id_lem :
    (random : List ℕ) (sid : ℕ)
    → generate_secure_session_id random ≡ some sid
    → (sid ≢ 0) × (sid < 2 ^ 64)
unfolding generate_secure_session_id
generate_secure_session_id_lem [] sid e = absurd (let d : ⊥ = ground arith in d)
generate_secure_session_id_lem (x ∷ more) sid e = elim (ℕ_discrete (x % 2 ^ 64) 0) [
  | yes again ↦ generate_secure_session_id_lem more sid (ground arith)
  | no ne ↦ let d : x % 2 ^ 64 ≡ sid = ground arith in (omega arith, omega arith)
]

fresh : (sid : ℕ) → (session sid).tls_fd ≡ no_fd
unfolding session
fresh sid = refl

-- But a session made by a login that did not come by TLS keeps its descriptor taken: after the
-- session's end, a login on that descriptor is refused.
pub create-non_tls :
    (m n : SessionManager) (p q r : ParsedPacket) (random again : List ℕ) (sid : ℕ)
    → p.conn_info.protocol ≢ tls
    → p.fd ≢ no_fd
    → q.fd ≡ p.fd
    → generate_secure_session_id random ≡ some sid
    → lookup sid m.sessions ≡ none
    → create m p random ≡ some (true, (n, r))
    → create (erase_session n sid) q again ≡ some (false, (erase_session n sid, q))
create-non_tls m n p q r random again sid not_tls real same drawn new e =
    elim (Option-cases (lookup p.fd m.tls_fd_to_session_id)) [
      | inr (old, taken) ↦
          absurd (let d : ⊥ = ground (arith, create-duplicate m p random old taken) in d)
      | inl free ↦ create-duplicate (erase_session n sid) q again sid (taken free)
    ]
  where
    t : Session
    t = record (bind (session sid) p) { state = pre_auth }

    still :
        lookup p.fd m.tls_fd_to_session_id ≡ none
        → n ≡ record {
          sessions = emplace sid t m.sessions;
          tls_fd_to_session_id = emplace p.fd sid m.tls_fd_to_session_id;
        }
    still free =
        ap (λ (x : Bool × (SessionManager × ParsedPacket)). x.1.0)
          (some_inj (sym e ∙ create-new m p random sid free drawn))

    t-tls_fd : t.tls_fd ≡ no_fd
    t-tls_fd = bind-tls_fd (session sid) p not_tls ∙ fresh sid

    listed : lookup p.fd m.tls_fd_to_session_id ≡ none → lookup sid n.sessions ≡ some t
    listed free =
        ap (λ k. lookup sid k.sessions) (still free) ∙ lookup-emplace_new sid t m.sessions new

    taken :
        lookup p.fd m.tls_fd_to_session_id ≡ none
        → lookup q.fd (erase_session n sid).tls_fd_to_session_id ≡ some sid
    taken free =
        ap₂ (λ fd k. lookup fd k.tls_fd_to_session_id) same
          (erase_session-found n sid t (listed free))
        ∙ lookup-erase_ne t.tls_fd p.fd n.tls_fd_to_session_id (λ d. real (sym d ∙ t-tls_fd))
        ∙ ap (λ k. lookup p.fd k.tls_fd_to_session_id) (still free)
        ∙ lookup-emplace_new p.fd sid m.tls_fd_to_session_id free
