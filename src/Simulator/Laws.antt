-- ===== src/Simulator/Laws.antt =====
-- About Client.cpp: its requests are what the server reads, and it reads what the server answers.
use nf_engine.Prelude.{
  ℕ, zero, suc, ◌+◌, ◌-◌, ◌%◌, ◌^◌, ◌≤◌, ◌<◌, ◌≡◌, refl, sym, ap, ◌∙◌, List, [], ◌∷◌, ◌++◌, true,
  false, none, some, arith, length, length-append, ltb, replicate,
}
use nf_engine.Prelude.Texts.{codes, same_bytes}
use nf_engine.Bytes.{to_be, be, be64, byte_at, be16_at, be32_at, be64_at}
use nf_engine.Bytes.Laws.{length-to_be}
use nf_engine.Packet.{
  Packet, login_req, lobby_entry_req, ping_req, login_success_res, login_fail_res, ping_res,
}
use nf_engine.Codec.Parser.{ParsedPacket, parse, set_session_id}
use nf_engine.Codec.ParserLaws.{built, with_payload, parse-header}
use nf_engine.Codec.Requests.{
  Event, login, lobby_entry, ping, create, parse_login_req, login_fields, parse_lobby_entry_req,
}
use nf_engine.Codec.RequestLaws.{login_body, create-ping}
use nf_engine.Codec.Responses.{
  header, serialize_login, serialize_ping, build_login_res_success, build_login_res_fail,
  build_ping_res,
}
use nf_engine.Execution.{admits}
use nf_engine.Simulator.{
  Client, build_login_req, build_lobby_entry_req, build_ping_req, RecvAnswer, got, nothing,
  received, wait_recv, buffer, login_phase, measured, read_ping,
}

abbrev pub test : List ℕ
test = codes "test"

login-header : build_login_req ≡ header login_req 12 0 ++ login_body test test
unfolding build_login_req to_be
login-header = refl

lobby-header : (c : Client) → build_lobby_entry_req c ≡ header lobby_entry_req 0 c.session_id ++ []
unfolding build_lobby_entry_req to_be
lobby-header c = refl

ping-header :
    (c : Client) (ts : ℕ)
    → (build_ping_req c ts).1
      ≡ header ping_req 16 c.session_id ++ (be64 ((c.ping_seq + 1) % 2 ^ 64) ++ be64 ts)
unfolding build_ping_req to_be
ping-header c ts = refl

-- The packet whose bytes a builder of the client made becomes the event.
abbrev pub Raises : Packet → List ℕ → (ParsedPacket → ParsedPacket) → Event → Type 0
Raises pkt bytes change e =
    (p : ParsedPacket) × ((parse (some (with_payload pkt bytes)) ≡ some p)
      × (create (change p) ≡ some e))

abbrev pub same_packet : ParsedPacket → ParsedPacket
same_packet p = p

login-Raises :
    (pkt : Packet) (sid : ℕ)
    → sid < 2 ^ 64
    → Raises pkt build_login_req (λ p. set_session_id p sid) (login sid test test)
unfolding build_login_req to_be parse byte_at be16_at be32_at be64_at be set_session_id create
    parse_login_req login_fields
login-Raises pkt sid h = (built pkt login_req 0 (login_body test test), (refl, refl))

create-lobby :
    (pkt : Packet) (sid : ℕ)
    → sid < 2 ^ 64
    → create (built pkt lobby_entry_req sid []) ≡ some (lobby_entry sid)
unfolding create parse_lobby_entry_req to_be
create-lobby pkt sid h = ap (λ n. some (lobby_entry n)) (omega arith)

wait-received :
    (n : ℕ) (b : ℕ) (bytes : List ℕ) (more : List RecvAnswer)
    → wait_recv (replicate n nothing ++ got (b ∷ bytes) ∷ more) ≡ received (b ∷ bytes)
unfolding wait_recv
wait-received zero b bytes more = refl
wait-received (suc n) b bytes more = wait-received n b bytes more

success-id :
    (sid : ℕ) (rest : List ℕ)
    → sid < 2 ^ 64
    → be64_at (serialize_login login_success_res sid ++ rest) 4 ≡ sid
unfolding serialize_login build_login_res_success be64_at be to_be
success-id sid rest h = omega arith

fail-id : (sid : ℕ) (rest : List ℕ) → be64_at (serialize_login login_fail_res sid ++ rest) 4 ≡ 0
unfolding serialize_login build_login_res_fail be64_at be to_be
fail-id sid rest = omega arith

-- A packet with a header of the builders parses, and raises the event of its parsed form.
raises :
    (pkt : Packet) (op sid : ℕ) (body : List ℕ) (e : Event) {bytes : List ℕ}
    → bytes ≡ header op (length body) sid ++ body
    → length body < 2 ^ 16
    → create (built pkt op sid body) ≡ some e
    → Raises pkt bytes same_packet e
raises pkt op sid body e same small made = (
  built pkt op sid body,
  (
    ap (λ bs. parse (some (with_payload pkt bs))) same ∙ (parse-header pkt op sid body small).0,
    made,
  ),
)

ping-fields :
    (sid nonce ts server_ts : ℕ)
    → nonce < 2 ^ 64
    → ts < 2 ^ 64
    → server_ts < 2 ^ 64
    → let bytes = serialize_ping ping_res sid nonce ts server_ts in
      (length bytes ≡ 40)
      × ((be64_at bytes 16 ≡ nonce) × ((be64_at bytes 24 ≡ ts) × (be64_at bytes 32 ≡ server_ts)))
unfolding serialize_ping build_ping_res to_be be64_at be
ping-fields sid nonce ts server_ts hn ht hs = (refl, (omega arith, (omega arith, omega arith)))

read-ping :
    (sid nonce ts server_ts now : ℕ)
    → nonce < 2 ^ 64
    → ts < 2 ^ 64
    → server_ts < 2 ^ 64
    → ts ≤ now
    → read_ping (serialize_ping ping_res sid nonce ts server_ts) now
      ≡ measured nonce (now - ts) ((server_ts + 2 ^ 64 - ts) % 2 ^ 64)
unfolding read_ping
read-ping sid nonce ts server_ts now hn ht hs le =
    let (size, (n, (t, s))) = ping-fields sid nonce ts server_ts hn ht hs in
    let d : ltb now ts ≡ false = ground arith in rw (size, n, t, s) (rw d refl)

module _ (c : Client) (waits : ℕ) (old : List ℕ) (more : List RecvAnswer) where
  -- The client after a login that some bytes answer, after some waiting.
  abbrev pub logged_in : List ℕ → Client
  logged_in bytes = login_phase c true (replicate waits nothing ++ got bytes ∷ more) old

  logged_in-bytes :
      (b : ℕ) (bytes : List ℕ)
      → logged_in (b ∷ bytes) ≡ record c { session_id = be64_at (buffer old (b ∷ bytes)) 4 }
  unfolding login_phase
  logged_in-bytes b bytes = rw (login_phase, wait-received waits b bytes more) refl

  success_id :
      (sid : ℕ)
      → sid < 2 ^ 64
      → (logged_in (serialize_login login_success_res sid)).session_id ≡ sid
  unfolding serialize_login build_login_res_success
  success_id sid h = ap (λ d. d.session_id) (logged_in-bytes _ _) ∙ success-id sid _ h

  fail_id : (sid : ℕ) → (logged_in (serialize_login login_fail_res sid)).session_id ≡ 0
  unfolding serialize_login build_login_res_fail
  fail_id sid = ap (λ d. d.session_id) (logged_in-bytes _ _) ∙ fail-id sid _

  seq_kept : (sid : ℕ) → (logged_in (serialize_login login_success_res sid)).ping_seq ≡ c.ping_seq
  unfolding serialize_login build_login_res_success
  seq_kept sid = ap (λ d. d.ping_seq) (logged_in-bytes _ _)

  lobby-Raises :
      (pkt : Packet) (d : Client) (sid : ℕ)
      → sid < 2 ^ 64
      → d.session_id ≡ sid
      → Raises pkt (build_lobby_entry_req d) same_packet (lobby_entry sid)
  lobby-Raises pkt d sid h e =
      raises pkt lobby_entry_req sid [] (lobby_entry sid)
        (lobby-header d ∙ ap (λ n. header lobby_entry_req 0 n ++ []) e) (omega arith)
        (create-lobby pkt sid h)

  ping-Raises :
      (pkt : Packet) (d : Client) (sid seq ts : ℕ)
      → sid < 2 ^ 64
      → ts < 2 ^ 64
      → d.session_id ≡ sid
      → d.ping_seq ≡ seq
      → Raises pkt (build_ping_req d ts).1 same_packet (ping sid ((seq + 1) % 2 ^ 64) ts)
  ping-Raises pkt d sid seq ts h ht e f =
      raises pkt ping_req sid (be64 nonce ++ be64 ts) (ping sid nonce ts)
        (ping-header d ts
          ∙ ap (λ n. header ping_req 16 n ++ (be64 ((d.ping_seq + 1) % 2 ^ 64) ++ be64 ts)) e
          ∙ ap (λ n. header ping_req 16 sid ++ (be64 ((n + 1) % 2 ^ 64) ++ be64 ts)) f
          ∙ ap (λ n. header ping_req n sid ++ (be64 nonce ++ be64 ts)) (sym size))
        (omega (arith, size)) (create-ping pkt sid nonce ts h (omega arith) ht)
    where
      nonce : ℕ
      nonce = (seq + 1) % 2 ^ 64

      size : length (be64 nonce ++ be64 ts) ≡ 16
      size =
          omega
            (arith, length-append (be64 nonce) (be64 ts), length-to_be 8 nonce, length-to_be 8 ts)

  -- The client and the server: the login request raises the login of `test` in the session that the
  -- router gave it, which is let in without a database. The client takes its session id from the
  -- answer, zero from an answer of failure. Its later requests raise a lobby entry and a ping of that
  -- session, the ping with the next number, and it measures the time that has passed since the ping
  -- and the server's part of it from the answer to the ping.
  pub client_session :
      (pkt : Packet) (sid ts server_ts now : ℕ)
      → sid < 2 ^ 64
      → ts ≤ now
      → now < 2 ^ 64
      → server_ts < 2 ^ 64
      → let c' = logged_in (serialize_login login_success_res sid) in
        let nonce = (c.ping_seq + 1) % 2 ^ 64 in
        Raises pkt build_login_req (λ p. set_session_id p sid) (login sid test test)
        × ((admits none test test ≡ true)
            × ((c'.session_id ≡ sid)
                × (((logged_in (serialize_login login_fail_res sid)).session_id ≡ 0)
                    × (Raises pkt (build_lobby_entry_req c') same_packet (lobby_entry sid)
                        × (Raises pkt (build_ping_req c' ts).1 same_packet (ping sid nonce ts)
                            × (read_ping (serialize_ping ping_res sid nonce ts server_ts) now
                                ≡ measured nonce
                                    (now - ts)
                                    ((server_ts + 2 ^ 64 - ts) % 2 ^ 64)))))))
  unfolding admits same_bytes
  client_session pkt sid ts server_ts now h le hn hs = (
    login-Raises pkt sid h,
    (
      refl,
      (
        success_id sid h,
        (
          fail_id sid,
          (
            lobby-Raises pkt _ sid h (success_id sid h),
            (
              ping-Raises pkt _ sid c.ping_seq ts h (omega arith) (success_id sid h) (seq_kept sid),
              read-ping sid ((c.ping_seq + 1) % 2 ^ 64) ts server_ts now (omega arith) (omega arith)
                  hs le,
            ),
          ),
        ),
      ),
    ),
  )
