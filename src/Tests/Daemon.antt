-- ===== src/Tests/Daemon.antt =====
-- The management daemon at concrete inputs: its client, its routes and its sessions.
use nf_engine.Prelude.{◌≡◌, refl, [], ◌∷◌, ◌++◌, true, Option, none, some, arith}
use nf_engine.Prelude.Texts.{Text, codes, find, starts_with}
use nf_engine.Daemon.Client.{WriteAnswer, Kernel, send}
use nf_engine.Daemon.Client.Sound.{Sound}
use nf_engine.Daemon.Stats.{Stat, command}
use nf_engine.Daemon.Http.{
  Verb, post, Request, Response, Service, session_key, json_response, Outside, handle,
}
use nf_engine.Daemon.Http.Laws.{Behind}
use nf_engine.Daemon.Http.Guard.{Guarded, api, handle-Guarded}
use nf_engine.Daemon.Http.Flow.{session_flow}

-- A kernel that takes the length and the first of three bytes, and then breaks off.
abbrev broken_kernel : Kernel
broken_kernel = record {
  socket_ok = true;
  connect_ok = true;
  writes =
      WriteAnswer.accepted 1
      ∷ WriteAnswer.interrupted
      ∷ WriteAnswer.accepted 1
      ∷ WriteAnswer.accepted 1
      ∷ WriteAnswer.failed
      ∷ [];
  reads = [];
}

broken_off : (send (codes "/run/nf") broken_kernel (7 ∷ 8 ∷ 9 ∷ [])).sent ≡ 0 ∷ 3 ∷ 7 ∷ []
unfolding send
broken_off = refl

abbrev outside : Outside
outside = record {
  base_dir = codes "/www";
  load = λ path. none;
  hash = λ password salt. password ++ salt;
  session_id = λ time. codes "7_sess";
  credentials = λ body. some (codes "admin", body);
  ask = λ cmd. some (codes "{}");
}

abbrev service : Service
service = record {
  username = codes "admin";
  password_hash = codes "pwsalt";
  salt = codes "salt";
  sessions = λ id. none;
}

abbrev request : Text → Verb → Option Text → Text → Request
request target method cookie body = record {
  target = target;
  method = method;
  cookie = cookie;
  body = body;
  version = 11;
  keep_alive = true;
}

-- A cookie of another page, the session's, and another one.
abbrev cookie : Text
cookie = codes "lang=en; session=7_sess; x=1"

abbrev login_request : Request
login_request = request (codes "/api/login") post none (codes "pw")

abbrev stat_request : Request
stat_request = request (api Stat.session) Verb.get_verb (some cookie) []

abbrev logout_request : Request
logout_request = request (codes "/api/logout") post (some cookie) []

handle-Guarded_example :
    let (s', (asked, res)) = handle outside service 10 11 stat_request in
    Guarded outside service 10 stat_request s' asked
handle-Guarded_example = handle-Guarded outside service 10 11 stat_request

key_found : find session_key cookie ≡ some 9
unfolding find starts_with
key_found = refl

session_flow_example :
    let (s1, (asked, res)) = handle outside service 10 11 login_request in
    let s2 = (handle outside s1 500 501 logout_request).0 in
    ((r : Response) × ((asked ≡ [])
        × ((res ≡ some r)
            × ((r.status ≡ 200)
                × (r.set_cookie
                    ≡ some (
                        session_key
                        ++ (codes "7_sess" ++ codes "; HttpOnly; Path=/; SameSite=Strict")))))))
    × ((handle outside s1 500 501 stat_request
          ≡ (s1, (command Stat.session ∷ [], some (json_response stat_request 200 (codes "{}")))))
        × (handle outside s2 500 501 stat_request ≡ (
          s2,
          ([], some (json_response stat_request 401 (codes "{\"error\":\"unauthorized\"}"))),
        )))
session_flow_example =
    session_flow outside service 10 11 (codes "admin") (codes "pw") (codes "lang=en; ")
      (codes "; x=1") Stat.session login_request stat_request logout_request refl refl refl refl
      refl (refl, (refl, (refl, (refl, (refl, (refl, tt)))))) (Behind.more (codes " x=1")) key_found
      refl refl refl refl refl refl 500 501 (omega arith)
