-- ===== src/Reactor/Receive/Drain.antt =====
-- About the loop of `receive` that cuts frames.
use nf_engine.Prelude.{
  ℕ, zero, suc, ◌<◌, ◌≡◌, refl, ap, ◌∙◌, inl, inr, ◌⊎◌, List, arith, length, take, drop,
  length-take, length-drop, ==_iff,
}
use mathlib.Core.Path.{subst₂}
use nf_engine.Ring.{Ring, capacity}
use nf_engine.Ring.Inv.{IsValid, contents, length-contents}
use nf_engine.Ring.Read.{read_lem}
use nf_engine.Framing.{ok, need_more_data}
use nf_engine.Framing.Spec.{
  Format, Framer, next_frame, frame_len, IsComplete, IsIncomplete, Deframed, rest, next,
}
use nf_engine.Reactor.Receive.{Drained, idle, broken, stuck, deliver, drain}

-- The stream `xs` is cut, and the ring keeps what is left of it.
abbrev pub Drains : Format → ℕ → List ℕ → Drained → Type 0
Drains f c xs (idle frames r) = IsValid r × (capacity r ≡ c) × Deframed f xs frames (contents r)
Drains f c xs (broken frames why) = ⊥
Drains f c xs stuck = ⊥

-- The two answers of `next_frame`.
next_frame_cases :
    (f : Format) (xs : List ℕ)
    → ((next_frame f xs ≡ need_more_data) × IsIncomplete f xs)
      ⊎ ((next_frame f xs ≡ ok (frame_len f xs)) × IsComplete f xs)
next_frame_cases f xs = ground arith

Drains-deliver :
    (f : Format) (c : ℕ) (xs : List ℕ) (d : Drained)
    → IsComplete f xs
    → Drains f c (drop (frame_len f xs) xs) d
    → Drains f c xs (deliver (take (frame_len f xs) xs) d)
Drains-deliver f c xs (idle frames r) whole (v, same, cut) = (v, same, next whole cut)
Drains-deliver f c xs (broken frames why) whole d = d
Drains-deliver f c xs stuck whole d = d

-- With a round more than bytes held, the loop stops only because it needs more data: no frame is
-- invalid, and no read falls short.
pub drain-Drains :
    (m : Framer) (fuel : ℕ) (r : Ring)
    → IsValid r
    → r.size < fuel
    → Drains m.format (capacity r) (contents r) (drain m.extract fuel r)
unfolding drain
drain-Drains m zero r v h = absurd (omega arith)
drain-Drains m (suc fuel) r v h = elim (next_frame_cases m.format (contents r)) [
  | inl (e, short) ↦ rw (m.finds r v, drain) (rw (e, drain) (v, refl, rest short))
  | inr (e, whole) ↦
      let n = frame_len m.format (contents r) in
      let (r', got, left, same, v') = read_lem n v in
      let full : length (take n (contents r)) ≡ n =
        omega (arith, length-take n (contents r), whole.1) in
      let shorter : r'.size < fuel = omega (
        arith,
        h,
        length-contents v,
        length-contents v',
        ap length left,
        length-drop n (contents r),
        m.format.header_pos,
        whole.1,
      ) in
      let ih : Drains m.format (capacity r) (drop n (contents r)) (drain m.extract fuel r') =
        subst₂ (λ c xs. Drains m.format c xs (drain m.extract fuel r')) same left
          (drain-Drains m fuel r' v' shorter) in
      rw (m.finds r v ∙ e, drain)
        (rw (got, drain)
          (rw ((==_iff (length (take n (contents r))) n).1 full, drain)
            (Drains-deliver m.format (capacity r) (contents r) (drain m.extract fuel r') whole ih)))
]
