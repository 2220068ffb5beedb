-- ===== src/Daemon/Http/Guard.antt =====
-- About HttpRouter.cpp: what a request can bring about without a session or a password.
use nf_engine.Prelude.{
  ℕ, ◌≤◌, ◌≡◌, ◌⊎◌, inl, inr, refl, ap, List, [], ◌∷◌, true, ◌&&◌, Option, none, some, arith,
  Bool-cases, Option-cases, ltb,
}
use nf_engine.Prelude.Texts.{Text, codes, same_bytes, same_bytes→≡, starts_with}
use nf_engine.Auth.{login, validate_session, logout, put}
use nf_engine.Daemon.Stats.{Stat, command, fetch-command}
use nf_engine.Daemon.Http.{
  Verb, post, is_post, Request, Service, text_eq, extract_session, is_static, Outside, asking,
  returning, handle_login, handle_logout, stats_response, dispatch_protected, handle_protected,
  handle,
}

-- The target of a statistic.
abbrev pub api : Stat → Text
api Stat.session = codes "/api/v1/stats/session"
api Stat.engine = codes "/api/v1/stats/engine"
api Stat.shard = codes "/api/v1/stats/shard"
api Stat.market = codes "/api/v1/stats/market"

-- Every session of the one service is one of the other.
abbrev pub Within : Service → Service → Type 0
Within s' s = (id : Text) (end : ℕ) → s'.sessions id ≡ some end → s.sessions id ≡ some end

put-Within : (s : Service) (id : Text) → Within (put Text text_eq id none s) s
put-Within s id other end e = elim (text_eq id other) [
  | yes same ↦ absurd (let d : ⊥ = ground arith in d)
  | no ne ↦ ground arith
]

logout-Within : (s : Service) (id : Text) → Within (logout Text text_eq s id) s
unfolding logout
logout-Within s id = put-Within s id

-- A session that is valid has an end that has not passed, and validation enters none.
validate_session-Live :
    (s : Service) (now : ℕ) (id : Text)
    → (validate_session Text text_eq s now id).1 ≡ true
    → (end : ℕ) × ((s.sessions id ≡ some end) × (now ≤ end))
unfolding validate_session
validate_session-Live s now id valid = elim (Option-cases (s.sessions id)) [
  | inl absent ↦ absurd (let d : ⊥ = ground arith in d)
  | inr (end, there) ↦ (end, (there, ground arith))
]

validate_session-Within :
    (s : Service) (now : ℕ) (id : Text) → Within (validate_session Text text_eq s now id).0 s
unfolding validate_session
validate_session-Within s now id = elim (Option-cases (s.sessions id)) [
  | inl absent ↦ rw (validate_session, absent) (λ other end e. e)
  | inr (end, there) ↦ elim (Bool-cases (ltb end now)) [
    | inl over ↦ rw (validate_session, there, over) (put-Within s id)
    | inr live ↦ rw (validate_session, there, live) (λ other end' e. e)
  ]
]

-- A login enters a session only where the name and the hash of the password are right.
login-enters :
    (hash : Text → Text → Text) (session_id : ℕ → Text) (s : Service) (now now' : ℕ)
    (id password : Text)
    → ((login Text text_eq hash session_id s now now' id password).0 ≡ s)
      ⊎ ((id ≡ s.username) × (hash password s.salt ≡ s.password_hash))
unfolding login
login-enters hash session_id s now now' id password = elim (text_eq id s.username) [
  | no wrong ↦ inl (ground arith)
  | yes name ↦ elim (text_eq (hash password s.salt) s.password_hash) [
    | no wrong ↦ inl (ground arith)
    | yes same ↦ inr (name, same)
  ]
]

module _ (o : Outside) where
  open o use {hash, credentials}

  -- The commands asked for a target: none, or that of its statistic.
  abbrev pub AsksFor : Text → List Text → Type 0
  AsksFor target asked =
      (asked ≡ []) ⊎ ((stat : Stat) × ((asked ≡ command stat ∷ []) × (target ≡ api stat)))

  stats_response-asks :
      (req : Request) (stat : Stat) → (stats_response o req stat).0 ≡ command stat ∷ []
  unfolding stats_response
  stats_response-asks req stat =
      ap {A = List Text × Option Text} (λ r. r.0) (fetch-command (asking o) (returning o) stat)

  asks_stat :
      (req : Request) (stat : Stat)
      → same_bytes req.target (api stat) ≡ true
      → AsksFor req.target (stats_response o req stat).0
  asks_stat req stat same =
      inr (stat, (stats_response-asks req stat, same_bytes→≡ req.target (api stat) same))

  dispatch_protected-asks : (req : Request) → AsksFor req.target (dispatch_protected o req).0
  unfolding dispatch_protected
  dispatch_protected-asks req = elim (Bool-cases (same_bytes req.target (api Stat.session))) [
    | inl e ↦ rw e (asks_stat req Stat.session e)
    | inr n ↦ rw n (elim (Bool-cases (same_bytes req.target (api Stat.engine))) [
      | inl e ↦ rw e (asks_stat req Stat.engine e)
      | inr n' ↦ rw n' (elim (Bool-cases (same_bytes req.target (api Stat.shard))) [
        | inl e ↦ rw e (asks_stat req Stat.shard e)
        | inr n'' ↦ rw n'' (elim (Bool-cases (same_bytes req.target (api Stat.market))) [
          | inl e ↦ rw e (asks_stat req Stat.market e)
          | inr n''' ↦ rw n''' (inl refl)
        ])
      ])
    ])
  ]

  -- What a request may bring about in the sessions and ask of the server.
  pub record Guarded (s : Service) (now : ℕ) (req : Request) (s' : Service) (asked : List Text)
      : Type 0 where
    pub asks :
        (asked ≡ [])
        ⊎ ((stat : Stat) × ((asked ≡ command stat ∷ [])
              × ((req.target ≡ api stat)
                  × ((end : ℕ) × ((s.sessions (extract_session req.cookie) ≡ some end)
                        × (now ≤ end))))))
    pub enters :
        Within s' s
        ⊎ ((req.target ≡ codes "/api/login")
            × ((req.method ≡ post)
                × ((name : Text) × ((password : Text) × ((credentials req.body
                          ≡ some (name, password))
                        × ((name ≡ s.username) × (hash password s.salt ≡ s.password_hash)))))))

  -- A request that asks nothing and enters no session.
  quiet :
      (s : Service) (now : ℕ) (req : Request) (s' : Service) → Within s' s → Guarded s now req s' []
  quiet s now req s' within = record { asks = inl refl; enters = inl within }

  is_post→≡ : (v : Verb) → is_post v ≡ true → v ≡ post
  is_post→≡ post e = refl
  is_post→≡ Verb.get_verb e = absurd (let d : ⊥ = ground arith in d)
  is_post→≡ Verb.other_verb e = absurd (let d : ⊥ = ground arith in d)

  handle_login-Guarded :
      (s : Service) (now now' : ℕ) (req : Request)
      → (same_bytes req.target (codes "/api/login") && is_post req.method) ≡ true
      → Guarded s now req (handle_login o s now now' req).0 []
  unfolding handle_login
  handle_login-Guarded s now now' req here = elim (Option-cases (credentials req.body)) [
    | inl bad ↦ rw (handle_login, bad) (quiet s now req s (λ id end e. e))
    | inr ((name, password), found) ↦
        rw (handle_login, found)
          (elim (login-enters hash o.session_id s now now' name password) [
            | inl same ↦ rw same (quiet s now req s (λ id end e. e))
            | inr (right_name, right_hash) ↦ record {
              asks = inl refl;
              enters = inr (
                same_bytes→≡ req.target (codes "/api/login") (ground arith),
                (
                  is_post→≡ req.method (ground arith),
                  (name, (password, (found, (right_name, right_hash)))),
                ),
              );
            }
          ])
  ]

  handle_protected-Guarded :
      (s : Service) (now : ℕ) (req : Request)
      → Guarded s now req (handle_protected o s now req).0 (handle_protected o s now req).1.0
  unfolding handle_protected
  handle_protected-Guarded s now req =
      elim (Bool-cases (validate_session Text text_eq s now id).1) [
        | inr invalid ↦ rw (handle_protected, invalid) (quiet s now req _ within)
        | inl valid ↦
            rw (handle_protected, valid)
              (record { asks = asks_live (dispatch_protected-asks req) valid; enters = inl within })
      ]
    where
      id : Text
      id = extract_session req.cookie

      within : Within (validate_session Text text_eq s now id).0 s
      within = validate_session-Within s now id

      asks_live :
          {asked : List Text}
          → AsksFor req.target asked
          → (validate_session Text text_eq s now id).1 ≡ true
          → (asked ≡ [])
            ⊎ ((stat : Stat) × ((asked ≡ command stat ∷ [])
                  × ((req.target ≡ api stat)
                      × ((end : ℕ) × ((s.sessions id ≡ some end) × (now ≤ end))))))
      asks_live (inl none_asked) valid = inl none_asked
      asks_live (inr (stat, (asked, target))) valid =
          inr (stat, (asked, (target, validate_session-Live s now id valid)))

  -- Whatever the request, the sessions and the time, the server is asked at most the command of the
  -- target, and only with the cookie of a session whose end has not passed; and a session is entered
  -- only by a POST to `/api/login` with the name and a password of the right hash.
  pub handle-Guarded :
      (s : Service) (now now' : ℕ) (req : Request)
      → let (s', (asked, res)) = handle o s now now' req in Guarded s now req s' asked
  unfolding handle handle_logout
  handle-Guarded s now now' req = elim (Bool-cases (is_static req.target)) [
    | inl static ↦ rw static (quiet s now req s (λ id end e. e))
    | inr more ↦
        rw more
          (elim (Bool-cases (same_bytes req.target (codes "/api/login") && is_post req.method)) [
            | inl here ↦ rw here (handle_login-Guarded s now now' req here)
            | inr more' ↦
                rw more'
                  (elim (Bool-cases
                    (same_bytes req.target (codes "/api/logout") && is_post req.method)) [
                      | inl here ↦
                          rw here (quiet s now req _ (logout-Within s (extract_session req.cookie)))
                      | inr more'' ↦
                          rw more'' (elim (Bool-cases (starts_with (codes "/api/v1/") req.target)) [
                            | inl here ↦ rw here (handle_protected-Guarded s now req)
                            | inr other ↦ rw other (quiet s now req s (λ id end e. e))
                          ])
                    ])
          ])
  ]
