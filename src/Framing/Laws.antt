-- ===== src/Framing/Laws.antt =====
-- About the four `tryExtractFrame`, and the formats of the streams of packets and of messages.
use nf_engine.Prelude.{
  ℕ, zero, suc, ◌+◌, ◌*◌, ◌%◌, ◌^◌, ◌≤◌, ◌<◌, ◌≡◌, refl, sym, ap, ◌∙◌, List, [], ◌∷◌, ◌++◌, arith,
  length, take, drop, drop-append_le, length-take, length-drop, take-append-drop, ltb,
  if◌then◌else◌, Bool-cases, inl, inr,
}
use native.Mathlib.Decide.{dec_lt}
use nf_engine.Ring.{Ring, peek}
use nf_engine.Ring.Inv.{IsValid, contents, length-contents}
use nf_engine.Ring.Chunk.{peek_lem}
use nf_engine.Bytes.{be, be16_at, byte_at}
use nf_engine.Framing.{
  ok, need_more_data, invalid_body_len, packet_header_size, ipc_header_size, max_body_len,
}
use nf_engine.Framing.Spec.{Format, Framer, next_frame}
use nf_engine.Framing.Tcp
use nf_engine.Framing.Tls
use nf_engine.Framing.Ipc
use nf_engine.Framing.Mgmt

be-append : (k : ℕ) (xs ys : List ℕ) → k ≤ length xs → be k (xs ++ ys) ≡ be k xs
unfolding be
be-append zero xs ys h = refl
be-append (suc k) [] ys h = absurd (omega arith)
be-append (suc k) (x ∷ xs) ys h = ap (◌+◌ (x % 256 * 256 ^ k)) (be-append k xs ys (omega arith))

pub be16_at-append :
    (xs ys : List ℕ) (i : ℕ) → i + 2 ≤ length xs → be16_at (xs ++ ys) i ≡ be16_at xs i
unfolding be16_at
be16_at-append xs ys i h =
    ap (be 2) (drop-append_le xs ys i (omega arith))
    ∙ be-append 2 (drop i xs) ys (omega (arith, length-drop i xs))

be2-lt : (ys : List ℕ) → be 2 ys < 2 ^ 16
unfolding be
be2-lt [] = omega arith
be2-lt (y ∷ []) = omega arith
be2-lt (y ∷ z ∷ ys) = omega arith

pub be16_at-lt : (xs : List ℕ) (i : ℕ) → be16_at xs i < 2 ^ 16
unfolding be16_at
be16_at-lt xs i = be2-lt (drop i xs)

pub two_bytes : (xs : List ℕ) → 2 ≤ length xs → byte_at xs 0 * 256 + byte_at xs 1 ≡ be16_at xs 0
unfolding be16_at be byte_at
two_bytes [] h = absurd (omega arith)
two_bytes (x ∷ []) h = absurd (omega arith)
two_bytes (x ∷ y ∷ xs) h = omega arith

-- A frame of the TCP and TLS streams: CommonPacketHeader, `bodyLen` at offset 2.
abbrev pub packet_format : Format
packet_format = record {
  header_size = packet_header_size;
  body_len = λ xs. be16_at xs 2;
  header_pos = omega arith;
  body_len_stable = λ xs ys h. be16_at-append xs ys 2 (omega arith);
}

-- A frame of the IPC stream: a length of two bytes.
abbrev pub ipc_format : Format
ipc_format = record {
  header_size = ipc_header_size;
  body_len = λ xs. be16_at xs 0;
  header_pos = omega arith;
  body_len_stable = λ xs ys h. be16_at-append xs ys 0 (omega arith);
}

pub take-be16 :
    (xs : List ℕ) (i n : ℕ) → i + 2 ≤ n → n ≤ length xs → be16_at (take n xs) i ≡ be16_at xs i
take-be16 xs i n h k =
    sym (be16_at-append (take n xs) (drop n xs) i (omega (arith, length-take n xs)))
    ∙ ap (λ ys. be16_at ys i) (take-append-drop n xs)

-- The source's tests, where `seen` is the length read from the header's copy.
tests :
    (hs size seen bl : ℕ)
    → (hs ≤ size → seen ≡ bl)
    → bl < 2 ^ 16
    → (if ltb size hs
        then need_more_data
        else if ltb max_body_len seen
        then invalid_body_len
        else if ltb size (hs + seen)
        then need_more_data
        else ok (hs + seen))
      ≡ (if ltb size hs
          then need_more_data
          else if ltb size (hs + bl)
          then need_more_data
          else ok (hs + bl))
tests hs size seen bl same small = elim (Bool-cases (ltb size hs)) [
  | inl e ↦ rw e
  | inr e ↦ rw (e, same (ground arith)) (ground arith)
]

module _ {r : Ring} (v : IsValid r) where
  -- TcpFraming finds the frame at the front of the bytes that the ring holds, or asks for more.
  pub tcp_finds : Tcp.try_extract_frame r ≡ next_frame packet_format (contents r)
  unfolding Tcp.try_extract_frame
  tcp_finds =
      rw (length-contents v) (
        tests packet_header_size r.size _ (be16_at (contents r) 2) seen (be16_at-lt (contents r) 2))
    where
      seen :
          packet_header_size ≤ r.size
          → be16_at (peek r packet_header_size) 2 ≡ be16_at (contents r) 2
      seen h =
          rw (peek_lem 16 v)
            (take-be16 (contents r) 2 16 (omega arith) (omega (arith, length-contents v)))

  -- So does TlsFraming.
  pub tls_finds : Tls.try_extract_frame r ≡ next_frame packet_format (contents r)
  unfolding Tls.try_extract_frame Tcp.try_extract_frame
  tls_finds = tcp_finds

  two_long : 2 ≤ r.size → 2 ≤ length (peek r 2)
  two_long h = rw (peek_lem 2 v) (omega (arith, length-take 2 (contents r), length-contents v))

  ipc_seen : 2 ≤ r.size → be16_at (peek r 2) 0 ≡ be16_at (contents r) 0
  ipc_seen h =
      rw (peek_lem 2 v)
        (take-be16 (contents r) 0 2 (omega arith) (omega (arith, length-contents v)))

  -- serverd's IpcFraming finds the frame of the length-prefixed stream.
  pub ipc_finds : Ipc.try_extract_frame r ≡ next_frame ipc_format (contents r)
  unfolding Ipc.try_extract_frame
  ipc_finds = elim (dec_lt r.size 2) [
    | yes short ↦ ground (arith, length-contents v)
    | no long ↦ ground (
      arith,
      length-contents v,
      two_bytes (peek r 2) (two_long (omega arith)),
      ipc_seen (omega arith),
      be16_at-lt (contents r) 0,
    )
  ]

  -- mgmtd's IpcFraming finds the same frame.
  pub mgmt_finds : Mgmt.try_extract_frame r ≡ next_frame ipc_format (contents r)
  unfolding Mgmt.try_extract_frame
  mgmt_finds = elim (dec_lt r.size 2) [
    | yes short ↦ ground (arith, length-contents v)
    | no long ↦ ground (arith, length-contents v, ipc_seen (omega arith), be16_at-lt (contents r) 0)
  ]

  -- TcpFraming and TlsFraming find the frame at the front of the bytes that the ring holds, or ask
  -- for more; both IpcFramings do the same for the length-prefixed stream.
  pub framers_find :
      (Tcp.try_extract_frame r ≡ next_frame packet_format (contents r))
      × (Tls.try_extract_frame r ≡ next_frame packet_format (contents r))
      × (Ipc.try_extract_frame r ≡ next_frame ipc_format (contents r))
      × (Mgmt.try_extract_frame r ≡ next_frame ipc_format (contents r))
  framers_find = (tcp_finds, tls_finds, ipc_finds, mgmt_finds)

-- The interface that the reactors use: the code's `tryExtractFrame`, with the format that it finds.
abbrev pub tcp_framer : Framer
tcp_framer = record {
  format = packet_format;
  extract = Tcp.try_extract_frame;
  finds = λ r v. tcp_finds v;
}

abbrev pub tls_framer : Framer
tls_framer = record {
  format = packet_format;
  extract = Tls.try_extract_frame;
  finds = λ r v. tls_finds v;
}

abbrev pub ipc_framer : Framer
ipc_framer = record {
  format = ipc_format;
  extract = Ipc.try_extract_frame;
  finds = λ r v. ipc_finds v;
}
