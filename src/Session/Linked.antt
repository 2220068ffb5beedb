-- ===== src/Session/Linked.antt =====
-- About SessionManager.cpp: its two tables, and when each is the inverse of the other.
use nf_engine.Prelude.{
  ℕ, ◌≡◌, ◌≢◌, refl, sym, ap, ◌∙◌, List, Bool, true, false, none, some, arith, Option-cases, inl,
  inr, some_inj,
}
use mathlib.Core.Path.{subst}
use native.Mathlib.Decide.{ℕ_discrete}
use nf_engine.Prelude.Assoc.{
  lookup, emplace, assign, erase, lookup-assign, lookup-emplace_ne, lookup-assign_ne,
  lookup-erase_ne, lookup-assign_self, lookup-erase_self, lookup-emplace_new, found_ne,
}
use nf_engine.Packet.{tls}
use nf_engine.Codec.Parser.{ParsedPacket, set_session_id}
use nf_engine.Session.{
  Session, SessionManager, SessionState, pre_auth, bind, session, check_and_bind, create,
  erase_session, set_state, generate_secure_session_id,
}
use nf_engine.Session.Tables.{
  bind-tls_fd, bind-tls, set_state-found, set_state-absent, erase_session-found,
  erase_session-absent, check_and_bind-cases, create-new, create-duplicate,
}

-- Each descriptor leads to a session that was logged in on it, and each session is led to by its
-- descriptor.
abbrev pub Linked : SessionManager → Type 0
Linked m =
    ((fd sid : ℕ)
      → lookup fd m.tls_fd_to_session_id ≡ some sid
      → (s : Session) × ((lookup sid m.sessions ≡ some s) × (s.tls_fd ≡ fd)))
    × ((sid : ℕ) (s : Session)
        → lookup sid m.sessions ≡ some s
        → lookup s.tls_fd m.tls_fd_to_session_id ≡ some sid)

-- The entry of a key is found under the same key.
at {ℓ} :
    {V : Type ℓ} (m : List (ℕ × V)) {k j : ℕ} {v w : V}
    → k ≡ j
    → lookup k m ≡ some v
    → lookup j m ≡ some w
    → v ≡ w
at m p e f = some_inj (sym e ∙ ap (λ i. lookup i m) p ∙ f)

abbrev tls_fd : Session → ℕ
tls_fd s = s.tls_fd

-- A session's entry replaced by one with the same descriptor keeps the tables linked.
assign-Linked :
    (m : SessionManager) (sid : ℕ) (s t : Session)
    → Linked m
    → lookup sid m.sessions ≡ some s
    → t.tls_fd ≡ s.tls_fd
    → Linked (record m { sessions = assign sid t m.sessions })
assign-Linked m sid s t (there, back) found same = (
  λ fd i e.
      let (x, (e', q)) = there fd i e in
      elim (ℕ_discrete sid i) [
        | yes p ↦ (
          t,
          (
            ground (arith, lookup-assign sid i t m.sessions),
            same ∙ ap tls_fd (at m.sessions p found e') ∙ q,
          ),
        )
        | no ne ↦ (x, (lookup-assign_ne sid i t m.sessions ne ∙ e', q))
      ],
  λ i x e. elim (ℕ_discrete sid i) [
    | yes p ↦
        ap (λ k. lookup k m.tls_fd_to_session_id)
          (ap tls_fd (sym (at (assign sid t m.sessions) p (lookup-assign_self sid t m.sessions) e))
            ∙ same)
        ∙ back sid s found
        ∙ ap some p
    | no ne ↦ back i x (sym (lookup-assign_ne sid i t m.sessions ne) ∙ e)
  ],
)

-- A login.
link-Linked :
    (m : SessionManager) (fd sid : ℕ) (t : Session)
    → Linked m
    → lookup fd m.tls_fd_to_session_id ≡ none
    → lookup sid m.sessions ≡ none
    → t.tls_fd ≡ fd
    → Linked (record {
      tls_fd_to_session_id = emplace fd sid m.tls_fd_to_session_id;
      sessions = emplace sid t m.sessions;
    })
link-Linked m fd sid t (there, back) new_fd new_sid same = (
  λ f i e. elim (ℕ_discrete fd f) [
    | yes p ↦ (
      t,
      (
        ap (λ k. lookup k (emplace sid t m.sessions))
              (sym (
                at (emplace fd sid m.tls_fd_to_session_id) p
                  (lookup-emplace_new fd sid m.tls_fd_to_session_id new_fd) e))
            ∙ lookup-emplace_new sid t m.sessions new_sid,
        same ∙ p,
      ),
    )
    | no ne ↦
        let (x, (e', q)) =
          there f i (sym (lookup-emplace_ne fd f sid m.tls_fd_to_session_id ne) ∙ e) in
        (x, (lookup-emplace_ne sid i t m.sessions (found_ne m.sessions new_sid e') ∙ e', q))
  ],
  λ i x e. elim (ℕ_discrete sid i) [
    | yes p ↦
        ap (λ k. lookup k (emplace fd sid m.tls_fd_to_session_id))
          (ap tls_fd (
              sym (at (emplace sid t m.sessions) p (lookup-emplace_new sid t m.sessions new_sid) e))
            ∙ same)
        ∙ lookup-emplace_new fd sid m.tls_fd_to_session_id new_fd
        ∙ ap some p
    | no ne ↦
        let b = back i x (sym (lookup-emplace_ne sid i t m.sessions ne) ∙ e) in
        lookup-emplace_ne fd x.tls_fd sid m.tls_fd_to_session_id
          (found_ne m.tls_fd_to_session_id new_fd b)
        ∙ b
  ],
)

-- The end of a session.
unlink-Linked :
    (m : SessionManager) (sid : ℕ) (s : Session)
    → Linked m
    → lookup sid m.sessions ≡ some s
    → Linked (record {
      tls_fd_to_session_id = erase s.tls_fd m.tls_fd_to_session_id;
      sessions = erase sid m.sessions;
    })
unlink-Linked m sid s (there, back) found = (
  λ f i e.
      let ne =
        found_ne (erase s.tls_fd m.tls_fd_to_session_id)
          (lookup-erase_self s.tls_fd m.tls_fd_to_session_id) e in
      let (x, (e', q)) =
        there f i (sym (lookup-erase_ne s.tls_fd f m.tls_fd_to_session_id ne) ∙ e) in
      (
        x,
        (
          lookup-erase_ne sid i m.sessions (λ p. ne (ap tls_fd (at m.sessions p found e') ∙ q))
              ∙ e',
          q,
        ),
      ),
  λ i x e.
      let ne = found_ne (erase sid m.sessions) (lookup-erase_self sid m.sessions) e in
      let b = back i x (sym (lookup-erase_ne sid i m.sessions ne) ∙ e) in
      lookup-erase_ne s.tls_fd x.tls_fd m.tls_fd_to_session_id
        (λ p. ne (at m.tls_fd_to_session_id p (back sid s found) b))
      ∙ b,
)

-- A change of state keeps the tables inverse to each other.
pub set_state-Linked :
    (m : SessionManager) (sid : ℕ) (state : SessionState)
    → Linked m
    → Linked (set_state m sid state)
set_state-Linked m sid state v = elim (Option-cases (lookup sid m.sessions)) [
  | inl absent ↦ subst Linked (sym (set_state-absent m sid state absent)) v
  | inr (s, found) ↦
      subst Linked (sym (set_state-found m sid state s found))
        (assign-Linked m sid s (record s { state = state }) v found refl)
]

-- A packet that came by TCP or UDP keeps them so.
pub check_and_bind-Linked :
    (m : SessionManager) (p : ParsedPacket)
    → Linked m
    → p.conn_info.protocol ≢ tls
    → Linked (check_and_bind m p).1
check_and_bind-Linked m p v ne = elim (check_and_bind-cases m p) [
  | inl refused ↦ subst (λ r. Linked r.1) (sym refused) v
  | inr (s, (_, (found, e))) ↦
      subst (λ r. Linked r.1) (sym e)
        (assign-Linked m p.session_id s (bind s p) v found (bind-tls_fd s p ne))
]

pub erase_session-Linked : (m : SessionManager) (sid : ℕ) → Linked m → Linked (erase_session m sid)
erase_session-Linked m sid v = elim (Option-cases (lookup sid m.sessions)) [
  | inl absent ↦ subst Linked (sym (erase_session-absent m sid absent)) v
  | inr (s, found) ↦
      subst Linked (sym (erase_session-found m sid s found)) (unlink-Linked m sid s v found)
]

-- A login by TLS keeps them so, provided that the number drawn is not a session's already.
pub create-Linked :
    (m : SessionManager) (p : ParsedPacket) (random : List ℕ) (sid : ℕ)
    → Linked m
    → p.conn_info.protocol ≡ tls
    → generate_secure_session_id random ≡ some sid
    → lookup sid m.sessions ≡ none
    → (done : Bool) × ((n : SessionManager) × ((q : ParsedPacket) × ((create m p random
              ≡ some (done, (n, q)))
            × Linked n)))
create-Linked m p random sid v by_tls drawn new =
    elim (Option-cases (lookup p.fd m.tls_fd_to_session_id)) [
      | inr (old, found) ↦ (false, (m, (p, (create-duplicate m p random old found, v))))
      | inl absent ↦ (
        true,
        (
          _,
          (
            set_session_id p sid,
            (
              create-new m p random sid absent drawn,
              link-Linked m p.fd sid (record (bind (session sid) p) { state = pre_auth }) v absent
                  new (bind-tls (session sid) p by_tls),
            ),
          ),
        ),
      )
    ]
