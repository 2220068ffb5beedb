-- ===== src/Auth/Laws.antt =====
-- The life of a session of mgmtd/service/AuthService.cpp.
use nf_engine.Prelude.{
  ℕ, ◌+◌, ◌≤◌, ◌≡◌, ◌≢◌, ◌↔◌, ◌⊎◌, ◌∙◌, inl, inr, refl, true, false, Option, none, some, arith,
}
use nf_engine.Auth.{AuthService, session_ttl, put, login, validate_session, logout}

module _ {Text : Type 0} (text_eq : Discrete Text) where
  pub put_self :
      (s : AuthService Text text_eq) (id : Text) (entry : Option ℕ)
      → (put Text text_eq id entry s).sessions id ≡ entry
  put_self s id entry = ground arith

  put_other :
      (s : AuthService Text text_eq) (id other : Text) (entry : Option ℕ)
      → id ≢ other
      → (put Text text_eq id entry s).sessions other ≡ s.sessions other
  put_other s id other entry ne = ground arith

  valid_lem :
      (s : AuthService Text text_eq) (id : Text) (time : ℕ) {end : ℕ}
      → s.sessions id ≡ some end
      → ((validate_session Text text_eq s time id).1 ≡ true) ↔ (time ≤ end)
  unfolding validate_session
  valid_lem s id time there = (λ h. ground arith, λ h. ground arith)

  missing_lem :
      (s : AuthService Text text_eq) (id : Text) (time : ℕ)
      → s.sessions id ≡ none
      → (validate_session Text text_eq s time id).1 ≡ false
  unfolding validate_session
  missing_lem s id time absent = ground arith

module _ {Text : Type 0} (text_eq : Discrete Text) (hash : Text → Text → Text)
    (session_id : ℕ → Text) (s : AuthService Text text_eq) (now now' : ℕ) (id password : Text) where
  -- A login either is refused, where the name or the hash of the password is wrong, and changes
  -- nothing; or both are right, and it hands out a session that is valid up to its end and not after
  -- it, that no time makes valid after its logout, and that has changed no session of another id.
  auth_session :
      (time : ℕ) (other : Text)
      → session_id now ≢ other
      → let (s', handed) = login Text text_eq hash session_id s now now' id password in
        let sid = session_id now in
        ((handed ≡ none)
          × (s' ≡ s)
          × ((id ≢ s.username) ⊎ (hash password s.salt ≢ s.password_hash)))
        ⊎ ((id ≡ s.username)
            × (hash password s.salt ≡ s.password_hash)
            × (handed ≡ some sid)
            × (((validate_session Text text_eq s' time sid).1 ≡ true) ↔ (time ≤ now' + session_ttl))
            × ((validate_session Text text_eq (logout Text text_eq s' sid) time sid).1 ≡ false)
            × ((logout Text text_eq s' sid).sessions other ≡ s.sessions other))
  unfolding login logout
  auth_session time other ne = elim (text_eq id s.username) [
    | no wrong ↦ inl (ground arith, ground arith, inl wrong)
    | yes name ↦ elim (text_eq (hash password s.salt) s.password_hash) [
      | no wrong ↦ inl (ground arith, ground arith, inr wrong)
      | yes same ↦ rw (done name same) (
          inr (
            name,
            same,
            refl,
            valid_lem text_eq entered (session_id now) time (put_self text_eq s (session_id now) _),
            missing_lem text_eq (logout Text text_eq entered (session_id now)) (session_id now) time
                (put_self text_eq entered (session_id now) none),
            put_other text_eq entered (session_id now) other none ne
                ∙ put_other text_eq s (session_id now) other _ ne,
          ))
    ]
  ]
    where
      entered : AuthService Text text_eq
      entered = put Text text_eq (session_id now) (some (now' + session_ttl)) s

      done :
          id ≡ s.username
          → hash password s.salt ≡ s.password_hash
          → login Text text_eq hash session_id s now now' id password
            ≡ (entered, some (session_id now))
      done name same = ground arith
