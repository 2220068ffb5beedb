-- ===== src/Reactor/Transmit/Fill.antt =====
-- About one packet of `processTxQueue`.
use nf_engine.Prelude.{
  ℕ, ◌+◌, ◌<◌, ◌^◌, ◌≡◌, refl, ap, ◌∙◌, inl, inr, List, ◌++◌, arith, length, Bool, true, false,
  Bool-cases, ltb, some, take-all, min, take, if◌then◌else◌,
}
use nf_engine.Ring.{Ring, writable, capacity}
use nf_engine.Ring.Inv.{IsValid, contents, length-contents, writable_lem}
use nf_engine.Ring.Write.{write_lem}
use nf_engine.Reactor.Transmit.{fill}

-- What a connection whose ring has `c` bytes has in line after a packet: all of it, or none.
abbrev pub queued : ℕ → List ℕ → List ℕ → List ℕ × Bool
queued c held payload =
    if ltb c (length held + length payload) then (held, false) else (held ++ payload, true)

-- A packet that fits is appended whole to the bytes in line for its connection, and one that does
-- not fit leaves them as they are. The loop of `write` ends, and the ring stays valid.
pub fill_lem :
    {tx : Ring} (payload : List ℕ)
    → IsValid tx
    → length payload < 2 ^ 64
    → (tx' : Ring) × (went_in : Bool) × (fill tx payload ≡ some (tx', went_in))
      × ((contents tx', went_in) ≡ queued (capacity tx) (contents tx) payload)
      × (capacity tx' ≡ capacity tx)
      × IsValid tx'
unfolding fill
fill_lem {tx} payload v small = elim (Bool-cases (ltb (writable tx) (length payload))) [
  | inl full ↦ (tx, false, rw full, ground (arith, writable_lem v, length-contents v), refl, v)
  | inr fits ↦
      let (tx', e, grown, same, v') = write_lem payload v small in
      let whole : min (length payload) (writable tx) ≡ length payload = ground arith in
      let appended : contents tx' ≡ contents tx ++ payload =
        grown
        ∙ ap (λ k. contents tx ++ take k payload) whole
        ∙ ap (◌++◌ (contents tx)) (take-all (length payload) payload (omega arith)) in
      (
        tx',
        true,
        rw (fits, e),
        ap (λ xs. (xs, true)) appended ∙ ground (arith, writable_lem v, length-contents v),
        same,
        v',
      )
]
