-- ===== src/Reactor/Receive/Outcome.antt =====
-- What one call of `receive` may do with the bytes that arrive.
use nf_engine.Prelude.{
  ℕ, ◌≤◌, ◌<◌, ◌≡◌, ◌≢◌, refl, sym, ap, ◌∙◌, List, [], ◌∷◌, ◌++◌, arith, length, append_assoc,
  append-nil,
}
use mathlib.Core.Path.{subst}
use nf_engine.Ring.{Ring, capacity, write_len, produce, store}
use nf_engine.Ring.Inv.{IsValid, contents, length-contents, write_len_lem}
use nf_engine.Framing.Spec.{Format, Framer, frame_len, IsIncomplete, Deframed, rest}
use nf_engine.Framing.Stream.{Deframed-append}
use nf_engine.Reactor.Receive.{
  Recv, bytes, eof, intr, again, fail, Reason, rx_full, bad_frame, read_mismatch, peer_closed,
  recv_failed, idle, Ending, waiting, closed, unanswered, out_of_fuel, drain_all,
}

-- The bytes that the socket had until it first answered with something else (EINTR apart).
abbrev pub arrived : List Recv → List ℕ
arrived [] = []
arrived (bytes xs ∷ events) = xs ++ arrived events
arrived (intr ∷ events) = arrived events
arrived (eof ∷ events) = []
arrived (again ∷ events) = []
arrived (fail ∷ events) = []

-- What a caller of `recv` relies on: it returns no more than it was asked for.
abbrev pub Respects : Framer → List Recv → Ring → Type 0
Respects m [] r = Unit {0}
Respects m (bytes xs ∷ events) r =
    (write_len r ≢ 0 → length xs ≤ write_len r)
    × ((frames : List (List ℕ)) (r' : Ring)
        → drain_all m.extract (produce (store r xs) (length xs)) ≡ idle frames r'
        → Respects m events r')
Respects m (intr ∷ events) r = Respects m events r
Respects m (eof ∷ events) r = Unit {0}
Respects m (again ∷ events) r = Unit {0}
Respects m (fail ∷ events) r = Unit {0}

-- What a close must have for its reason, with `left` in the ring of capacity `c` and `unread` in
-- the socket.
abbrev pub Blame : Format → ℕ → Reason → List ℕ → List ℕ → Type 0
Blame f c rx_full left unread = (length left ≡ c) × (c < frame_len f left)
Blame f c bad_frame left unread = ⊥
Blame f c read_mismatch left unread = ⊥
Blame f c peer_closed left unread = unread ≡ []
Blame f c recv_failed left unread = unread ≡ []

-- What a call has done, with `held` in the ring before it.
abbrev pub Explains : Format → ℕ → List ℕ → List Recv → List (List ℕ) → Ending → Type 0
Explains f c held events frames (waiting r) =
    IsValid r × (capacity r ≡ c) × Deframed f (held ++ arrived events) frames (contents r)
Explains f c held events frames (closed why) =
    (used unread left : List ℕ) × (arrived events ≡ used ++ unread)
    × Deframed f (held ++ used) frames left
    × Blame f c why left unread
Explains f c held events frames unanswered = Unit {0}
Explains f c held events frames out_of_fuel = ⊥

module _ (f : Format) (c : ℕ) where
  -- Frames cut from what has come so far, and then what the rest of the call does.
  pub Explains-after :
      (held ys : List ℕ) (events : List Recv) (frames : List (List ℕ)) (left : List ℕ)
      (more : List (List ℕ)) (e : Ending)
      → Deframed f (held ++ ys) frames left
      → Explains f c left events more e
      → Explains f c held (bytes ys ∷ events) (frames ++ more) e
  Explains-after held ys events frames left more (waiting r) d (v, same, d') = (
    v,
    same,
    subst (λ zs. Deframed f zs (frames ++ more) (contents r))
        (append_assoc held ys (arrived events))
        (Deframed-append f d (arrived events) more (contents r) d'),
  )
  Explains-after held ys events frames left more (closed why) d (used, unread, left', e, d', b) = (
    ys ++ used,
    unread,
    left',
    ap (◌++◌ ys) e ∙ sym (append_assoc ys used unread),
    subst (λ zs. Deframed f zs (frames ++ more) left') (append_assoc held ys used)
        (Deframed-append f d used more left' d'),
    b,
  )
  Explains-after held ys events frames left more unanswered d x = x
  Explains-after held ys events frames left more out_of_fuel d x = x

  -- A call that takes nothing from the socket.
  pub Explains-close :
      (held : List ℕ) (events : List Recv) (why : Reason)
      → IsIncomplete f held
      → Blame f c why held (arrived events)
      → Explains f c held events [] (closed why)
  Explains-close held events why short b = (
    [],
    arrived events,
    held,
    refl,
    subst (λ zs. Deframed f zs [] held) (sym (append-nil held)) (rest short),
    b,
  )

  pub Explains-wait :
      (r : Ring) (held : List ℕ) (events : List Recv)
      → IsValid r
      → capacity r ≡ c
      → held ≡ contents r
      → arrived events ≡ []
      → IsIncomplete f (contents r)
      → Explains f c held events [] (waiting r)
  Explains-wait r held events v same e none short =
      (v, same, subst (λ zs. Deframed f zs [] (contents r)) whole (rest short))
    where
      whole : contents r ≡ held ++ arrived events
      whole = sym (ap (λ zs. held ++ zs) none ∙ append-nil held ∙ e)

-- A full ring that holds no whole frame holds the start of one that can never fit.
pub full-Blame :
    (f : Format) {r : Ring} (unread : List ℕ)
    → IsValid r
    → IsIncomplete f (contents r)
    → f.header_size ≤ capacity r
    → write_len r ≡ 0
    → Blame f (capacity r) rx_full (contents r) unread
full-Blame f {r} unread v short fit e = (
  length-contents v ∙ (write_len_lem v).3 e,
  omega (arith, length-contents v, (write_len_lem v).3 e, short, fit),
)
