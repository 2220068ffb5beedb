-- ===== src/Reactor/Transmit/Flush.antt =====
-- About the loop of `flushTxBuffer`.
use nf_engine.Prelude.{
  ℕ, ◌≤◌, ◌<◌, ◌≡◌, ◌≢◌, refl, sym, ap, ◌∙◌, List, [], ◌∷◌, ◌++◌, arith, append_assoc,
}
use mathlib.Core.Path.{subst}
use native.Mathlib.Decide.{ℕ_discrete, dec_lt}
use nf_engine.Ring.{Ring, capacity, readable, read_len, load, consume}
use nf_engine.Ring.Inv.{IsValid, contents, contents-empty}
use nf_engine.Ring.Chunk.{contents-consume, consume-IsValid, capacity-consume}
use nf_engine.Reactor.Transmit.{
  Send, sent, again, fail, Flushed, emptied, blocked, failed, unanswered, flush_loop,
}

-- What a caller of `send` relies on: it takes no more than it was given.
abbrev pub Takes : List Send → Ring → Type 0
Takes [] r = Unit {0}
Takes (sent n ∷ events) r = (n ≤ read_len r) × Takes events (consume r n)
Takes (again ∷ events) r = Unit {0}
Takes (fail ∷ events) r = Unit {0}

-- The bytes sent, and those that the ring still holds, are the bytes that it held. The ring is
-- valid and has the capacity `c`.
abbrev pub Sends : ℕ → List ℕ → List ℕ × Flushed → Type 0
Sends c held (out, emptied r) = IsValid r × (capacity r ≡ c) × (out ≡ held) × (contents r ≡ [])
Sends c held (out, blocked r) = IsValid r × (capacity r ≡ c) × (out ++ contents r ≡ held)
Sends c held (out, failed) = (lost : List ℕ) × (out ++ lost ≡ held)
Sends c held (out, unanswered) = Unit {0}

Sends-after :
    (c : ℕ) (chunk held : List ℕ) (out : List ℕ) (e : Flushed)
    → Sends c held (out, e)
    → Sends c (chunk ++ held) (chunk ++ out, e)
Sends-after c chunk held out (emptied r) (v, k, e, none) = (v, k, ap (◌++◌ chunk) e, none)
Sends-after c chunk held out (blocked r) (v, k, e) =
    (v, k, append_assoc chunk out (contents r) ∙ ap (◌++◌ chunk) e)
Sends-after c chunk held out failed (lost, e) =
    (lost, append_assoc chunk out lost ∙ ap (◌++◌ chunk) e)
Sends-after c chunk held out unanswered x = x

flush_empty : (events : List Send) (r : Ring) → r.size ≡ 0 → flush_loop events r ≡ ([], emptied r)
unfolding flush_loop readable
flush_empty [] r e = ground arith
flush_empty (sent n ∷ events) r e = ground arith
flush_empty (again ∷ events) r e = ground arith
flush_empty (fail ∷ events) r e = ground arith

-- A call with nothing to send returns; any other calls `send`.
unless_empty :
    (events : List Send) (r : Ring)
    → IsValid r
    → (r.size ≢ 0 → Sends (capacity r) (contents r) (flush_loop events r))
    → Sends (capacity r) (contents r) (flush_loop events r)
unless_empty events r v go = elim (ℕ_discrete r.size 0) [
  | yes e ↦
      let none_held : contents r ≡ [] = contents-empty r e in
      subst (Sends (capacity r) (contents r)) (sym (flush_empty events r e))
        (v, refl, sym none_held, none_held)
  | no held ↦ go held
]

flush_none : (r : Ring) → r.size ≢ 0 → flush_loop [] r ≡ ([], unanswered)
unfolding flush_loop readable
flush_none r held = ground arith

flush_again :
    (events : List Send) (r : Ring) → r.size ≢ 0 → flush_loop (again ∷ events) r ≡ ([], blocked r)
unfolding flush_loop readable
flush_again events r held = ground arith

flush_fail :
    (events : List Send) (r : Ring) → r.size ≢ 0 → flush_loop (fail ∷ events) r ≡ ([], failed)
unfolding flush_loop readable
flush_fail events r held = ground arith

module _ (n : ℕ) (events : List Send) (r : Ring) (held : r.size ≢ 0) where
  flush_part : n < read_len r → flush_loop (sent n ∷ events) r ≡ (load r n, blocked (consume r n))
  unfolding flush_loop readable
  flush_part h = ground arith

  flush_whole :
      ¬ (n < read_len r)
      → flush_loop (sent n ∷ events) r
        ≡ (load r n ++ (flush_loop events (consume r n)).0, (flush_loop events (consume r n)).1)
  unfolding flush_loop readable
  flush_whole h = ground arith

-- `flushTxBuffer` gives `send` the bytes that the ring holds, in order and each once: what was sent,
-- followed by what the ring still holds, is what it held. It returns with nothing left, or with the
-- socket full and the rest in the ring; only where `send` failed the rest is lost with the
-- connection. The ring stays valid, and of its capacity.
pub flush_lem :
    (events : List Send) (r : Ring)
    → IsValid r
    → Takes events r
    → Sends (capacity r) (contents r) (flush_loop events r)
flush_lem [] r v obeys =
    unless_empty [] r v λ held. subst (Sends (capacity r) (contents r)) (sym (flush_none r held)) tt
flush_lem (sent n ∷ events) r v obeys = unless_empty (sent n ∷ events) r v λ held.
    let cut = contents-consume n v obeys.0 in
    let v' = consume-IsValid n v obeys.0 in
    elim (dec_lt n (read_len r)) [
      | yes part ↦
          subst (Sends (capacity r) (contents r)) (sym (flush_part n events r held part))
            (v', capacity-consume r n, sym cut)
      | no whole ↦
          subst (Sends (capacity r) (contents r)) (sym (flush_whole n events r held whole)) (
            subst
              (λ h. Sends (capacity r) h (
                load r n ++ (flush_loop events (consume r n)).0,
                (flush_loop events (consume r n)).1,
              ))
              (sym cut)
              (Sends-after (capacity r) (load r n) (contents (consume r n))
                (flush_loop events (consume r n)).0 (flush_loop events (consume r n)).1
                (subst (λ c. Sends c (contents (consume r n)) (flush_loop events (consume r n)))
                  (capacity-consume r n) (flush_lem events (consume r n) v' obeys.1))))
    ]
flush_lem (again ∷ events) r v obeys = unless_empty (again ∷ events) r v λ held.
    subst (Sends (capacity r) (contents r)) (sym (flush_again events r held)) (v, refl, refl)
flush_lem (fail ∷ events) r v obeys = unless_empty (fail ∷ events) r v λ held.
    subst (Sends (capacity r) (contents r)) (sym (flush_fail events r held)) (contents r, refl)
