-- ===== src/Daemon/Http.antt =====
-- mgmtd/http/HttpRouter.cpp, and the answer that HttpSession.cpp makes of it. Boost.Beast is left out: a
-- request is what the router reads of it, and a response what it puts in. The clock, the hash,
-- the text of a session id, JSON, the files and the control socket are arguments.
pub mod Laws
pub mod Guard
pub mod Flow
use nf_engine.Prelude.{
  ℕ, ◌+◌, ◌-◌, List, [], ◌∷◌, ◌++◌, Bool, true, false, ◌&&◌, ◌||◌, Option, none, some, length, drop,
  if◌then◌else◌,
}
use nf_engine.Prelude.Slices.{slice}
use nf_engine.Prelude.Texts.{Text, codes, same_bytes, starts_with, find}
use mathlib.Core.List.{List-discrete}
use native.Mathlib.Decide.{ℕ_discrete}
use nf_engine.Auth.{AuthService, login, validate_session, logout}
use nf_engine.Daemon.Cache.{Entry, get}
use nf_engine.Daemon.Stats.{Stat, fetch}

pub data Verb : Type 0 where
  get_verb post other_verb : Verb

pub record Request : Type 0 where
  pub target : Text
  pub method : Verb
  pub cookie : Option Text
  pub body : Text
  pub version : ℕ
  pub keep_alive : Bool

pub record Response : Type 0 where
  pub status : ℕ
  pub body : Text
  pub content_type : Text
  pub version : ℕ
  pub keep_alive : Bool
  pub set_cookie : Option Text

abbrev pub text_eq : Discrete Text
text_eq = List-discrete ℕ_discrete

abbrev pub Service : Type 0
Service = AuthService Text text_eq

abbrev pub is_post : Verb → Bool
is_post post = true
is_post get_verb = false
is_post other_verb = false

-- `makeResponse`
unfoldable pub make_response : ℕ → Text → Text → ℕ → Bool → Response
make_response status body content_type version keep_alive = record {
  status = status;
  body = body;
  content_type = content_type;
  version = version;
  keep_alive = keep_alive;
  set_cookie = none;
}

-- A response in JSON to a request.
abbrev pub json_response : Request → ℕ → Text → Response
json_response req status body =
    make_response status body (codes "application/json") req.version req.keep_alive

abbrev pub session_key : Text
session_key = codes "session="

-- The part of `extractSession` behind the key, which was found at `pos`: the end of the value, and
-- the value. The key has no semicolon, so that the end is not before the value.
unfoldable pub value_end : Text → ℕ → ℕ
unfolding find starts_with
value_end cookies pos = elim (find (codes ";") (drop pos cookies)) [
  | none ↦ length cookies
  | some k ↦ pos + k
]

unfoldable pub cookie_value : Text → ℕ → Text
unfolding value_end
cookie_value cookies pos =
    slice (pos + length session_key) (value_end cookies pos - (pos + length session_key)) cookies

unfoldable pub extract_session : Option Text → Text
unfolding cookie_value find starts_with
extract_session none = []
extract_session (some cookies) = elim (find session_key cookies) [
  | none ↦ []
  | some pos ↦ cookie_value cookies pos
]

unfoldable pub is_static : Text → Bool
unfolding same_bytes starts_with
is_static target =
    same_bytes target (codes "/")
    || (starts_with (codes "/js/") target
        || (starts_with (codes "/css/") target || starts_with (codes "/img/") target))

-- What the router uses: the directory of the pages and their files, SHA-256 with a salt, the id of
-- a session made at a time, the two fields of a JSON login (`none` is an exception), and the
-- client of the control socket (`none` is its exception).
pub record Outside : Type 0 where
  pub base_dir : Text
  pub load : Text → Option Text
  pub hash : Text → Text → Text
  pub session_id : ℕ → Text
  pub credentials : Text → Option (Text × Text)
  pub ask : Text → Option Text

-- What a request brings about: the commands asked of the server, and the response, or `none` for an
-- exception that leaves the router.
abbrev pub Answer : Type 0
Answer = List Text × Option Response

module _ (o : Outside) where
  open o use {base_dir, load, hash, session_id, credentials, ask}

  unfoldable pub handle_static : Request → Response
  unfolding get make_response
  handle_static req = elim (get base_dir load req.target) [
    | none ↦ make_response 404 (codes "not found") (codes "text/plain") req.version req.keep_alive
    | some file ↦ make_response 200 file.body file.content_type req.version req.keep_alive
  ]

  -- The response to a login that gave a session, or none.
  unfoldable pub login_response : Request → Option Text → Response
  unfolding make_response
  login_response req none = json_response req 401 (codes "{\"error\":\"invalid credentials\"}")
  login_response req (some sid) = record (json_response req 200 (codes "{\"status\":\"ok\"}")) {
    set_cookie = some (session_key ++ (sid ++ codes "; HttpOnly; Path=/; SameSite=Strict"));
  }

  -- `handleLogin`, with the two readings of the clock.
  unfoldable pub handle_login : Service → ℕ → ℕ → Request → Service × Response
  unfolding login login_response make_response
  handle_login s now now' req = elim (credentials req.body) [
    | none ↦ (s, json_response req 400 (codes "{\"error\":\"bad request\"}"))
    | some (username, password) ↦
        let (s', handed) = login Text text_eq hash session_id s now now' username password in
        (s', login_response req handed)
  ]

  -- The part of `handle` for a logout.
  unfoldable pub handle_logout : Service → Request → Service × Response
  unfolding logout extract_session make_response
  handle_logout s req = (
    logout Text text_eq s (extract_session req.cookie),
    record (json_response req 200 (codes "{\"status\":\"logged_out\"}")) {
      set_cookie = some (codes "session=; Path=/; Max-Age=0");
    },
  )

  -- A command that is asked of the server, and an answer of the daemon's own.
  abbrev pub asking : Text → List Text × Option Text
  asking cmd = (cmd ∷ [], ask cmd)

  abbrev pub returning : Text → List Text × Option Text
  returning text = ([], some text)

  -- The response with the server's answer to a command; an exception of the client is passed on.
  unfoldable pub stats_response : Request → Stat → Answer
  unfolding fetch make_response
  stats_response req stat =
      let (asked, text) = fetch asking returning stat in
      (asked, elim text [ none ↦ none | some body ↦ some (json_response req 200 body) ])

  unfoldable pub dispatch_protected : Request → Answer
  unfolding stats_response same_bytes make_response
  dispatch_protected req =
      if same_bytes req.target (codes "/api/v1/stats/session")
      then stats_response req Stat.session
      else if same_bytes req.target (codes "/api/v1/stats/engine")
      then stats_response req Stat.engine
      else if same_bytes req.target (codes "/api/v1/stats/shard")
      then stats_response req Stat.shard
      else if same_bytes req.target (codes "/api/v1/stats/market")
      then stats_response req Stat.market
      else ([], some (json_response req 404 (codes "{\"error\":\"not found\"}")))

  -- The part of `handle` for the targets under `/api/v1/`.
  unfoldable pub handle_protected : Service → ℕ → Request → Service × Answer
  unfolding validate_session extract_session dispatch_protected make_response
  handle_protected s now req =
      let (s', valid) = validate_session Text text_eq s now (extract_session req.cookie) in
      (
        s',
        if valid
            then dispatch_protected req
            else ([], some (json_response req 401 (codes "{\"error\":\"unauthorized\"}"))),
      )

  unfoldable pub handle : Service → ℕ → ℕ → Request → Service × Answer
  unfolding is_static handle_static handle_login handle_logout handle_protected same_bytes
      starts_with make_response
  handle s now now' req =
      if is_static req.target
      then (s, ([], some (handle_static req)))
      else if same_bytes req.target (codes "/api/login") && is_post req.method
      then (let (s', res) = handle_login s now now' req in (s', ([], some res)))
      else if same_bytes req.target (codes "/api/logout") && is_post req.method
      then (let (s', res) = handle_logout s req in (s', ([], some res)))
      else if starts_with (codes "/api/v1/") req.target
      then handle_protected s now req
      else (s, ([], some (json_response req 404 (codes "{\"error\":\"not found\"}"))))

  -- `HttpSession::onRead`: an exception becomes a response of its own.
  unfoldable pub on_read : Service → ℕ → ℕ → Request → Service × (List Text × Response)
  unfolding handle
  on_read s now now' req =
      let (s', (asked, res)) = handle s now now' req in
      (
        s',
        (
          asked,
          elim res [
            | some r ↦ r
            | none ↦ record {
              status = 500;
              body = codes "{\"error\":\"internal_error\"}";
              content_type = codes "application/json";
              version = req.version;
              keep_alive = false;
              set_cookie = none;
            }
          ],
        ),
      )
