-- ===== src/Daemon/Http/Flow.antt =====
-- About HttpRouter.cpp: a log-in, requests with the cookie that it gives, and a log-out.
use nf_engine.Prelude.{
  ℕ, ◌+◌, ◌≤◌, ◌≡◌, refl, sym, ap, ◌∙◌, [], ◌∷◌, ◌++◌, true, false, none, some, arith, length, ltb,
}
use nf_engine.Prelude.Texts.{Text, codes, find}
use nf_engine.Auth.{session_ttl, login, validate_session, logout, put}
use nf_engine.Auth.Laws.{put_self}
use nf_engine.Daemon.Stats.{Stat, command, fetch-command}
use nf_engine.Daemon.Http.{
  post, Request, Response, Service, text_eq, session_key, extract_session, Outside, json_response,
  asking, returning, login_response, handle_login, handle_logout, stats_response,
  dispatch_protected, handle_protected, handle,
}
use nf_engine.Daemon.Http.Laws.{Plain, Behind, extract_session-cookie}
use nf_engine.Daemon.Http.Guard.{api}

validate_session-live :
    (s : Service) (now : ℕ) (id : Text) {end : ℕ}
    → s.sessions id ≡ some end
    → now ≤ end
    → validate_session Text text_eq s now id ≡ (s, true)
unfolding validate_session
validate_session-live s now id {end} there live =
    let d : ltb end now ≡ false = ground arith in rw (validate_session, there, d) refl

validate_session-missing :
    (s : Service) (now : ℕ) (id : Text)
    → s.sessions id ≡ none
    → validate_session Text text_eq s now id ≡ (s, false)
unfolding validate_session
validate_session-missing s now id absent = rw (validate_session, absent) refl

module _ (o : Outside) where
  open o use {hash, session_id, credentials, ask}

  stats_response-served :
      (req : Request) (stat : Stat) {text : Text}
      → ask (command stat) ≡ some text
      → stats_response o req stat ≡ (command stat ∷ [], some (json_response req 200 text))
  unfolding stats_response
  stats_response-served req stat served =
      rw (stats_response, fetch-command (asking o) (returning o) stat, served) refl

  dispatch_protected-stat :
      (req : Request) (stat : Stat)
      → req.target ≡ api stat
      → dispatch_protected o req ≡ stats_response o req stat
  unfolding dispatch_protected
  dispatch_protected-stat req Stat.session e = rw (dispatch_protected, e) refl
  dispatch_protected-stat req Stat.engine e = rw (dispatch_protected, e) refl
  dispatch_protected-stat req Stat.shard e = rw (dispatch_protected, e) refl
  dispatch_protected-stat req Stat.market e = rw (dispatch_protected, e) refl

  handle-protected :
      (s : Service) (now now' : ℕ) (req : Request) (stat : Stat)
      → req.target ≡ api stat
      → handle o s now now' req ≡ handle_protected o s now req
  unfolding handle
  handle-protected s now now' req Stat.session e = rw (handle, e) refl
  handle-protected s now now' req Stat.engine e = rw (handle, e) refl
  handle-protected s now now' req Stat.shard e = rw (handle, e) refl
  handle-protected s now now' req Stat.market e = rw (handle, e) refl

  -- A statistic with a live session, and one with a session that is not there.
  handle-served :
      (s : Service) (now now' : ℕ) (req : Request) (stat : Stat) {end : ℕ} {text : Text}
      → req.target ≡ api stat
      → s.sessions (extract_session req.cookie) ≡ some end
      → now ≤ end
      → ask (command stat) ≡ some text
      → handle o s now now' req ≡ (s, (command stat ∷ [], some (json_response req 200 text)))
  unfolding handle_protected
  handle-served s now now' req stat e there live served =
      handle-protected s now now' req stat e
      ∙ rw (handle_protected, validate_session-live s now (extract_session req.cookie) there live)
          (ap (λ a. (s, a))
            (dispatch_protected-stat req stat e ∙ stats_response-served req stat served))

  handle-refused :
      (s : Service) (now now' : ℕ) (req : Request) (stat : Stat)
      → req.target ≡ api stat
      → s.sessions (extract_session req.cookie) ≡ none
      → handle o s now now' req
        ≡ (s, ([], some (json_response req 401 (codes "{\"error\":\"unauthorized\"}"))))
  unfolding handle_protected
  handle-refused s now now' req stat e absent =
      handle-protected s now now' req stat e
      ∙ rw (handle_protected, validate_session-missing s now (extract_session req.cookie) absent)
          refl

  login-entered :
      (s : Service) (now now' : ℕ) (name password : Text)
      → name ≡ s.username
      → hash password s.salt ≡ s.password_hash
      → login Text text_eq hash session_id s now now' name password
        ≡ (put Text text_eq (session_id now) (some (now' + session_ttl)) s, some (session_id now))
  unfolding login
  login-entered s now now' name password e h = ground arith

  handle-login :
      (s : Service) (now now' : ℕ) (req : Request) {name password : Text}
      → req.target ≡ codes "/api/login"
      → req.method ≡ post
      → credentials req.body ≡ some (name, password)
      → name ≡ s.username
      → hash password s.salt ≡ s.password_hash
      → handle o s now now' req ≡ (
        put Text text_eq (session_id now) (some (now' + session_ttl)) s,
        ([], some (login_response o req (some (session_id now)))),
      )
  unfolding handle handle_login
  handle-login s now now' req {name} {password} e p body n h =
      rw (handle, e, p, handle_login, body, login-entered s now now' name password n h) refl

  handle-logout :
      (s : Service) (now now' : ℕ) (req : Request)
      → req.target ≡ codes "/api/logout"
      → req.method ≡ post
      → (handle o s now now' req).0 ≡ logout Text text_eq s (extract_session req.cookie)
  unfolding handle handle_logout
  handle-logout s now now' req e p = rw (handle, e, p, handle_logout) refl

  module _ (s : Service) (now now' : ℕ) (name password front rest : Text) (stat : Stat)
      (login_req stat_req logout_req : Request) where
    sid : Text
    sid = session_id now

    -- A browser logs in with the right name and password, and gets a cookie with the session's id.
    -- It sends the cookie with its requests, where no `session=` stands before it. Until the session
    -- ends, half an hour later, each request for a statistic is answered with what the server says to
    -- the statistic's command, and nothing else is asked; after a log-out it is refused, and
    -- nothing is asked.
    pub session_flow :
        {text : Text}
        → login_req.target ≡ codes "/api/login"
        → login_req.method ≡ post
        → credentials login_req.body ≡ some (name, password)
        → name ≡ s.username
        → hash password s.salt ≡ s.password_hash
        → Plain (session_id now)
        → Behind rest
        → find session_key (front ++ (session_key ++ (session_id now ++ rest)))
          ≡ some (length front)
        → stat_req.target ≡ api stat
        → stat_req.cookie ≡ some (front ++ (session_key ++ (session_id now ++ rest)))
        → ask (command stat) ≡ some text
        → logout_req.target ≡ codes "/api/logout"
        → logout_req.method ≡ post
        → logout_req.cookie ≡ stat_req.cookie
        → (later later' : ℕ) → later ≤ now' + session_ttl
        → let (s1, (asked, res)) = handle o s now now' login_req in
          let s2 = (handle o s1 later later' logout_req).0 in
          ((r : Response) × ((asked ≡ [])
              × ((res ≡ some r)
                  × ((r.status ≡ 200)
                      × (r.set_cookie
                          ≡ some (
                              session_key
                              ++ (session_id now
                                  ++ codes "; HttpOnly; Path=/; SameSite=Strict")))))))
          × ((handle o s1 later later' stat_req
                ≡ (s1, (command stat ∷ [], some (json_response stat_req 200 text))))
              × (handle o s2 later later' stat_req ≡ (
                s2,
                ([], some (json_response stat_req 401 (codes "{\"error\":\"unauthorized\"}"))),
              )))
    unfolding login_response sid logout
    session_flow {text} le lm body n h plain behind found se sc served oe om oc later later' live =
        rw (handle-login s now now' login_req le lm body n h) (
          (login_response o login_req (some sid), (refl, (refl, (refl, refl)))),
          (
            handle-served entered later later' stat_req stat se (at_sid entered ∙ there) live
                served,
            handle-refused _ later later' stat_req stat se gone,
          ),
        )
      where
        entered : Service
        entered = put Text text_eq sid (some (now' + session_ttl)) s

        from_cookie : extract_session stat_req.cookie ≡ sid
        from_cookie = ap extract_session sc ∙ extract_session-cookie front sid plain behind found

        at_sid : (t : Service) → t.sessions (extract_session stat_req.cookie) ≡ t.sessions sid
        at_sid t = ap t.sessions from_cookie

        there : entered.sessions sid ≡ some (now' + session_ttl)
        there = put_self text_eq s sid (some (now' + session_ttl))

        gone :
            (handle o entered later later' logout_req).0.sessions (extract_session stat_req.cookie)
            ≡ none
        gone =
            ap (λ t. t.sessions (extract_session stat_req.cookie))
              (handle-logout entered later later' logout_req oe om)
            ∙ ap
                (λ c.
                  (logout Text text_eq entered (extract_session logout_req.cookie)).sessions
                    (extract_session c))
                (sym oc)
            ∙ put_self text_eq entered (extract_session logout_req.cookie) none
