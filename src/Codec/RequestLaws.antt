-- ===== src/Codec/RequestLaws.antt =====
-- What the event factory makes of the requests of a client.
use nf_engine.Prelude.{
  ℕ, ◌+◌, ◌^◌, ◌≤◌, ◌<◌, ◌≡◌, refl, sym, ap, ap₂, ◌∙◌, List, ◌++◌, some, arith, length, take, drop,
  length-append, length-take, length-drop, take-append, drop-append, take-all, drop-drop,
}
use native.Mathlib.Decide.{dec_le}
use nf_engine.Packet.{Packet, login_req, ping_req}
use nf_engine.Bytes.{be16, be64, be16_at, be64_at, be, to_be}
use nf_engine.Bytes.Laws.{length-to_be, be16_lem}
use nf_engine.Codec.Parser.{ParsedPacket, header_size}
use nf_engine.Codec.ParserLaws.{built, length-header}
use nf_engine.Codec.Responses.{header}
use nf_engine.Codec.Requests.{login, ping, login_fields, parse_login_req, parse_ping_req, create}

-- The body of a login request: each of the two strings behind its length.
abbrev pub login_body : List ℕ → List ℕ → List ℕ
login_body id pw = be16 (length id) ++ (id ++ (be16 (length pw) ++ pw))

-- A body with room for both lengths and both strings is read in full.
login_fields-long :
    (buf : List ℕ) (len : ℕ)
    → 2 + be16_at buf 0 + 2 + be16_at buf (2 + be16_at buf 0) ≤ len
    → login_fields buf len
      ≡ some (
        take (be16_at buf 0) (drop 2 buf),
        take (be16_at buf (2 + be16_at buf 0)) (drop (2 + be16_at buf 0 + 2) buf),
      )
unfolding login_fields
login_fields-long buf len h = ground arith

module _ (id pw : List ℕ) (fits : 4 + (length id + length pw) < 2 ^ 16) where
  id_len : be16_at (login_body id pw) 0 ≡ length id
  unfolding be16_at
  id_len = omega (arith, be16_lem (length id) (id ++ (be16 (length pw) ++ pw)))

  behind_id : drop (2 + length id) (login_body id pw) ≡ be16 (length pw) ++ pw
  behind_id =
      sym (drop-drop 2 (length id) (login_body id pw))
      ∙ ap (drop (length id)) (drop-append (be16 (length id)) _ 2 (length-to_be 2 (length id)))
      ∙ drop-append id _ (length id) refl

  pw_len : be16_at (login_body id pw) (2 + length id) ≡ length pw
  unfolding be16_at
  pw_len = rw behind_id (omega (arith, be16_lem (length pw) pw))

  the_id : take (length id) (drop 2 (login_body id pw)) ≡ id
  the_id =
      ap (take (length id)) (drop-append (be16 (length id)) _ 2 (length-to_be 2 (length id)))
      ∙ take-append id _ (length id) refl

  the_pw : take (length pw) (drop (2 + length id + 2) (login_body id pw)) ≡ pw
  the_pw =
      ap (take (length pw)) (
        sym (drop-drop (2 + length id) 2 (login_body id pw))
        ∙ ap (drop 2) behind_id
        ∙ drop-append (be16 (length pw)) _ 2 (length-to_be 2 (length pw)))
      ∙ take-all (length pw) pw (omega arith)

  -- The parser reads both strings back.
  login_fields-login_body :
      login_fields (login_body id pw) (4 + (length id + length pw)) ≡ some (id, pw)
  login_fields-login_body =
      login_fields-long (login_body id pw) _ (rw (id_len, pw_len) (omega arith))
      ∙ rw (id_len, pw_len, the_id, the_pw) refl

login_fields-room :
    (buf id pw : List ℕ) (len : ℕ)
    → login_fields buf len ≡ some (id, pw)
    → 2 + be16_at buf 0 + 2 + be16_at buf (2 + be16_at buf 0) ≤ len
unfolding login_fields
login_fields-room buf id pw len e =
    elim (dec_le (2 + be16_at buf 0 + 2 + be16_at buf (2 + be16_at buf 0)) len) [
      | yes room ↦ room
      | no short ↦ ground arith
    ]

-- What the login parser returns lies in the body: the two strings, each as long as the length
-- before it says, are the front of the body, and the body holds them whole.
pub login_fields-bounds :
    (buf id pw : List ℕ) (len : ℕ)
    → len ≤ length buf
    → login_fields buf len ≡ some (id, pw)
    → (4 + (length id + length pw) ≤ len)
      × ((length id ≡ be16_at buf 0)
          × ((length pw ≡ be16_at buf (2 + length id))
              × ((id ≡ take (length id) (drop 2 buf))
                  × (pw ≡ take (length pw) (drop (4 + length id) buf)))))
login_fields-bounds buf id pw len fits e = (
  omega (arith, sizes, id_size, pw_size),
  (
    id_size,
    (
      rw id_size pw_size,
      (
        rw id_size the_id,
        rw (id_size, pw_size) (the_pw ∙ ap (λ k. take pl (drop k buf)) (omega arith)),
      ),
    ),
  ),
)
  where
    il : ℕ
    il = be16_at buf 0

    pl : ℕ
    pl = be16_at buf (2 + be16_at buf 0)

    sizes : 2 + il + 2 + pl ≤ len
    sizes =
        let d : 2 + be16_at buf 0 + 2 + be16_at buf (2 + be16_at buf 0) ≤ len =
          login_fields-room buf id pw len e in
        d

    both :
        ◌≡◌ {A = List ℕ × List ℕ} (take il (drop 2 buf), take pl (drop (2 + il + 2) buf)) (id, pw)
    both = ground (arith, login_fields-long buf len sizes)

    the_id : id ≡ take il (drop 2 buf)
    the_id = sym (ap (λ x. x.0) both)

    the_pw : pw ≡ take pl (drop (2 + il + 2) buf)
    the_pw = sym (ap (λ x. x.1) both)

    id_size : length id ≡ il
    id_size = rw the_id (omega (arith, sizes, length-take il (drop 2 buf), length-drop 2 buf))

    pw_size : length pw ≡ pl
    pw_size =
        rw the_pw (
          omega
            (arith, sizes, length-take pl (drop (2 + il + 2) buf), length-drop (2 + il + 2) buf))

parse_login_req-fields :
    (p : ParsedPacket) (id pw : List ℕ)
    → header_size + p.body_len ≤ length p.payload
    → login_fields (drop header_size p.payload) p.body_len ≡ some (id, pw)
    → parse_login_req p ≡ some (login p.session_id id pw)
unfolding parse_login_req
parse_login_req-fields p id pw long e = ground arith

length-login_body : (id pw : List ℕ) → length (login_body id pw) ≡ 4 + (length id + length pw)
length-login_body id pw = omega (
  arith,
  length-append (be16 (length id)) (id ++ (be16 (length pw) ++ pw)),
  length-append id (be16 (length pw) ++ pw),
  length-append (be16 (length pw)) pw,
  length-to_be 2 (length id),
  length-to_be 2 (length pw),
)

-- A login request with an id and a password, together less than 64 K with their lengths, is the
-- event of that login.
pub create-login :
    (pkt : Packet) (sid : ℕ) (id pw : List ℕ)
    → sid < 2 ^ 64
    → 4 + (length id + length pw) < 2 ^ 16
    → create (built pkt login_req sid (login_body id pw)) ≡ some (login sid id pw)
unfolding create
create-login pkt sid id pw hs h =
    parse_login_req-fields (built pkt login_req sid (login_body id pw)) id pw
      (omega (arith, length-header login_req (length (login_body id pw)) sid (login_body id pw)))
      fields
    ∙ ap (λ n. some (login n id pw)) (omega arith)
  where
    bytes : List ℕ
    bytes = login_body id pw

    fields :
        login_fields (drop 16 (header login_req (length bytes) sid ++ bytes)) (length bytes)
        ≡ some (id, pw)
    fields =
        ap₂ login_fields
          (drop-append (header login_req (length bytes) sid) bytes 16 (
            omega (
              arith,
              length-header login_req (length bytes) sid bytes,
              length-append (header login_req (length bytes) sid) bytes,
            )))
          (length-login_body id pw)
        ∙ login_fields-login_body id pw h

same_ping : {s t n m c d : ℕ} → s ≡ t → n ≡ m → c ≡ d → some (ping s n c) ≡ some (ping t m d)
same_ping p q r = cc

-- A ping request with two numbers of 64 bits is their event.
pub create-ping :
    (pkt : Packet) (sid nonce client_ts : ℕ)
    → sid < 2 ^ 64
    → nonce < 2 ^ 64
    → client_ts < 2 ^ 64
    → create (built pkt ping_req sid (be64 nonce ++ be64 client_ts))
      ≡ some (ping sid nonce client_ts)
unfolding create parse_ping_req to_be be64_at be
create-ping pkt sid nonce client_ts hs hn hc = same_ping (omega arith) (omega arith) (omega arith)

-- A login request with an id and a password, together less than 64 K with their lengths, becomes
-- the event of that login, and a ping request with two numbers of 64 bits their event.
pub requests_create :
    (pkt : Packet) (sid : ℕ) (id pw : List ℕ) (nonce client_ts : ℕ)
    → sid < 2 ^ 64
    → 4 + (length id + length pw) < 2 ^ 16
    → nonce < 2 ^ 64
    → client_ts < 2 ^ 64
    → (create (built pkt login_req sid (login_body id pw)) ≡ some (login sid id pw))
      × (create (built pkt ping_req sid (be64 nonce ++ be64 client_ts))
          ≡ some (ping sid nonce client_ts))
requests_create pkt sid id pw nonce client_ts hs h hn hc =
    (create-login pkt sid id pw hs h, create-ping pkt sid nonce client_ts hs hn hc)
