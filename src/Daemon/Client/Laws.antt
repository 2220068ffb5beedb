-- ===== src/Daemon/Client/Laws.antt =====
-- About IpcClient.cpp.
use nf_engine.Prelude.{
  ℕ, suc, ◌-◌, ◌%◌, ◌^◌, ◌≤◌, ◌<◌, ◌≡◌, refl, sym, ap, ◌∙◌, List, [], ◌∷◌, ◌++◌, append_assoc,
  arith, true, false, length, take, drop, length-append, take-append, drop-append, take-append-drop,
  ltb, leb,
}
use nf_engine.Bytes.{be16, to_be, be16_at, be}
use nf_engine.Daemon.Client.{
  WriteAnswer, ReadAnswer, complete, write_all, read_exact, reply, Kernel, max_body, path_size,
  closing, receive_body, receive_reply, send_body, send_frame, send,
}

-- The answers that take these bytes, in order and in any pieces, with interruptions; and the answers
-- behind them.
pub data Accepts : List ℕ → List WriteAnswer → List WriteAnswer → Type 0 where
  done : {left : List WriteAnswer} → Accepts [] left left
  again :
      {x : ℕ} {xs : List ℕ} {answers left : List WriteAnswer}
      → Accepts (x ∷ xs) answers left
      → Accepts (x ∷ xs) (WriteAnswer.interrupted ∷ answers) left
  piece :
      {xs : List ℕ} {answers left : List WriteAnswer} (x : ℕ) (front : List ℕ)
      → Accepts xs answers left
      → Accepts ((x ∷ front) ++ xs) (WriteAnswer.accepted (suc (length front)) ∷ answers) left

-- The same for the answers that bring these bytes.
pub data Brings : List ℕ → List ReadAnswer → List ReadAnswer → Type 0 where
  done : {left : List ReadAnswer} → Brings [] left left
  again :
      {x : ℕ} {xs : List ℕ} {answers left : List ReadAnswer}
      → Brings (x ∷ xs) answers left
      → Brings (x ∷ xs) (ReadAnswer.interrupted ∷ answers) left
  piece :
      {xs : List ℕ} {answers left : List ReadAnswer} (x : ℕ) (front : List ℕ)
      → Brings xs answers left
      → Brings ((x ∷ front) ++ xs) (ReadAnswer.arrived (x ∷ front) ∷ answers) left

-- `writeAll` sends all bytes, and none twice.
pub write_all-Accepts :
    {xs : List ℕ} {answers left : List WriteAnswer}
    → Accepts xs answers left
    → write_all answers xs ≡ (complete, (xs, left))
unfolding write_all
write_all-Accepts done = refl
write_all-Accepts (again more) = write_all-Accepts more
write_all-Accepts (piece {xs = xs} {left = left} x front more) =
    rw (drop-append front xs (length front) refl, take-append front xs (length front) refl)
      (rw (write_all-Accepts more) refl)

-- `readExact` brings all bytes, and asks for no more.
pub read_exact-Brings :
    {xs : List ℕ} {answers left : List ReadAnswer}
    → Brings xs answers left
    → read_exact answers (length xs) ≡ (complete, (xs, left))
unfolding read_exact
read_exact-Brings done = refl
read_exact-Brings (again more) = read_exact-Brings more
read_exact-Brings (piece {xs = xs} {left = left} x front more) =
    rw (minus front xs) (rw (read_exact-Brings more) refl)
  where
    minus : (ys zs : List ℕ) → length (ys ++ zs) - length ys ≡ length zs
    minus ys zs = omega (arith, length-append ys zs)

-- What `writeAll` sent is a front part of the bytes, and all of them where it is complete.
pub write_all-prefix :
    (answers : List WriteAnswer) (xs : List ℕ)
    → (rest : List ℕ) × (((write_all answers xs).1.0 ++ rest ≡ xs)
        × ((write_all answers xs).0 ≡ complete → (write_all answers xs).1.0 ≡ xs))
unfolding write_all
write_all-prefix answers [] = ([], (refl, λ h. refl))
write_all-prefix [] (x ∷ xs) = (x ∷ xs, (refl, λ h. ground arith))
write_all-prefix (WriteAnswer.interrupted ∷ more) (x ∷ xs) = write_all-prefix more (x ∷ xs)
write_all-prefix (WriteAnswer.failed ∷ more) (x ∷ xs) = (x ∷ xs, (refl, λ h. ground arith))
write_all-prefix (WriteAnswer.accepted n ∷ more) (x ∷ xs) =
    let (rest, (joined, whole)) = write_all-prefix more (drop n (x ∷ xs)) in
    let front : List ℕ = take n (x ∷ xs) in
    (
      rest,
      (
        append_assoc front (write_all more (drop n (x ∷ xs))).1.0 rest
            ∙ ap (λ ys. front ++ ys) joined
            ∙ take-append-drop n (x ∷ xs),
        λ h. ap (λ ys. front ++ ys) (whole h) ∙ take-append-drop n (x ∷ xs),
      ),
    )

-- The kernel takes the whole frame of a payload, and brings an answer behind its length, each in
-- any pieces and with interruptions.
pub record Served (path : List ℕ) (k : Kernel) (payload answer : List ℕ) : Type 0 where
  pub writes : List WriteAnswer
  pub reads : List ReadAnswer
  pub writes' : List WriteAnswer
  pub reads' : List ReadAnswer
  pub payload_fits : length payload ≤ max_body
  pub answer_fits : length answer < 2 ^ 16
  pub opens : k.socket_ok ≡ true
  pub path_fits : length path < path_size
  pub connects : k.connect_ok ≡ true
  pub takes_head : Accepts (be16 (length payload % 2 ^ 16)) k.writes writes
  pub takes_body : Accepts payload writes writes'
  pub brings_head : Brings (be16 (length answer)) k.reads reads
  pub brings_body : Brings answer reads reads'

be16_at-be16 : (v : ℕ) → v < 2 ^ 16 → be16_at (be16 v) 0 ≡ v
unfolding be16_at be to_be
be16_at-be16 v h = omega arith

length-be16 : (v : ℕ) → length (be16 v) ≡ 2
unfolding to_be
length-be16 v = refl

module _ {path payload answer : List ℕ} {k : Kernel} (s : Served path k payload answer) where
  open s use {
    writes, reads, writes', reads', payload_fits, answer_fits, opens, path_fits, connects,
    takes_head, takes_body, brings_head, brings_body,
  }

  abbrev pub head : List ℕ
  head = be16 (length answer)

  receive_body-served :
      (sent : List ℕ)
      → receive_body sent head (length answer) reads ≡ closing (reply answer) sent (head ++ answer)
  unfolding receive_body
  receive_body-served sent =
      let d : ltb max_body (length answer) ≡ false = ground arith in
      let g = read_exact-Brings brings_body in rw d (rw (ap (λ q. q.0) g, ap (λ q. q.1.0) g) refl)

  receive_reply-served :
      (sent : List ℕ) → receive_reply sent k.reads ≡ closing (reply answer) sent (head ++ answer)
  unfolding receive_reply
  receive_reply-served sent =
      rw (receive_reply, ap (λ q. q.0) got)
        (ap (λ q. receive_body sent q.1.0 (be16_at q.1.0 0) q.1.1) got
          ∙ ap (λ n. receive_body sent head n reads) (be16_at-be16 (length answer) answer_fits)
          ∙ receive_body-served sent)
    where
      got : read_exact k.reads 2 ≡ (complete, (head, reads))
      got =
          ap (read_exact k.reads) (sym (length-be16 (length answer)))
          ∙ read_exact-Brings brings_head

  -- Then `send` returns the answer, having sent the frame of the payload, and has closed its socket.
  pub send-served :
      send path k payload
      ≡ closing (reply answer) (be16 (length payload % 2 ^ 16) ++ payload) (head ++ answer)
  unfolding send send_frame send_body
  send-served =
      let d : ltb max_body (length payload) ≡ false = ground arith in
      let e : leb path_size (length path) ≡ false = ground arith in
      let h = write_all-Accepts takes_head in
      let b = write_all-Accepts takes_body in
      rw (d, opens, e, connects)
        (rw (ap (λ q. q.0) h, ap (λ q. q.1.0) h, ap (λ q. q.1.1) h)
          (rw (send_body, ap (λ q. q.0) b, ap (λ q. q.1.0) b)
            (receive_reply-served (be16 (length payload % 2 ^ 16) ++ payload))))
