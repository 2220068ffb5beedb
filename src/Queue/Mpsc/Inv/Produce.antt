-- ===== src/Queue/Mpsc/Inv/Produce.antt =====
-- The steps of the threads in `enqueue` of shared/algorithm/MpscQueue.h.
use nf_engine.Prelude.{
  ℕ, ◌%◌, ◌≡◌, ◌⊎◌, inl, inr, refl, sym, ap, ◌∙◌, some, Bool, true, false, arith, length,
}
use mathlib.Core.Path.{subst}
use native.Mathlib.Decide.{ℕ_discrete}
use nf_engine.Queue.Slots.{update, update_self, update_ne}
use nf_engine.Queue.Mpsc.{
  Producer, Consumer, System, idle, trying, loaded, checked, claimed, stored, waiting, scanning,
  seen, got, cleared, go,
}
use nf_engine.Queue.Mpsc.Inv.{
  IsConsistent, ProducerInv, ConsumerInv, Owns, Claim, slot_inj, update-All,
}

module _ {ℓ} {A : Type ℓ} where
  pub Owns-update :
      (f : ℕ → Producer A) (k j t : ℕ) (at : Producer A)
      → Owns (update f k at j) t
      → ((k ≡ j) × Owns at t) ⊎ Owns (f j) t
  Owns-update f k j t at o = elim (ℕ_discrete k j) [
    | yes same ↦
        inl (same, subst (λ p. Owns p t) (ap (update f k at) (sym same) ∙ update_self f k at) o)
    | no ne ↦ inr (subst (λ p. Owns p t) (update_ne f k j at ne) o)
  ]

  -- A count that a thread owns has been claimed.
  pub Owns-Claim :
      (c : ℕ) (s : System A) (p : Producer A) (t : ℕ)
      → ProducerInv c s p
      → Owns p t
      → (item : A) × Claim c s item t
  Owns-Claim c s idle t h o = absurd o
  Owns-Claim c s (trying item) t h o = absurd o
  Owns-Claim c s (loaded item tail) t h o = absurd o
  Owns-Claim c s (checked item tail) t h o = absurd o
  Owns-Claim c s (claimed item tail) t h o = (item, subst (Claim c s item) o h)
  Owns-Claim c s (stored item tail) t h o = (item, subst (Claim c s item) o h.0)

  module _ {c : ℕ} {s : System A} (inv : IsConsistent c s) where
    open inv use {head, tail, published, order, room, given, free, held, producers, alone, consumer}

    -- A thread moves on. What it owns then, no other thread owns.
    pub go-IsConsistent :
        (k : ℕ) (at : Producer A)
        → ProducerInv c s at
        → ((t : ℕ) → Owns at t → (j : ℕ) → Owns (s.producers j) t → j ≡ k)
        → IsConsistent c (go A k at s)
    go-IsConsistent k at new only = record {
      head = head;
      tail = tail;
      published = published;
      order = order;
      room = room;
      given = given;
      free = free;
      held = held;
      producers = update-All (ProducerInv c s) s.producers k at new (λ j ne. producers j);
      alone = λ i j t o o'. elim (Owns-update s.producers k i t at o) [
        | inl (same, mine) ↦ elim (Owns-update s.producers k j t at o') [
          | inl (same', _) ↦ sym same ∙ same'
          | inr other ↦ sym same ∙ sym (only t mine j other)
        ]
        | inr other ↦ elim (Owns-update s.producers k j t at o') [
          | inl (same', mine) ↦ only t mine i other ∙ same'
          | inr other' ↦ alone i j t other other'
        ]
      ];
      consumer = consumer;
    }

    pub at_point : (k : ℕ) {p : Producer A} → s.producers k ≡ p → ProducerInv c s p
    at_point k e = subst (ProducerInv c s) e (producers k)

    -- A pointer is stored in a slot that a thread has claimed.
    pub ptr-IsConsistent :
        (k : ℕ) (item : A) (t : ℕ)
        → s.producers k ≡ claimed item t
        → IsConsistent c
            (record s { queue = record s.queue { ptr = update s.queue.ptr (t % c) (some item) } })
    ptr-IsConsistent k item t e = record {
      head = head;
      tail = tail;
      published = published;
      order = order;
      room = room;
      given = given;
      free = free;
      held = λ i lo hi flag.
          update_ne s.queue.ptr (t % c) (i % c) (some item) (λ same.
            let d : ◌≡◌ {A = Bool} false true = sym mine.3 ∙ ap s.queue.ready same ∙ flag in cc)
          ∙ held i lo hi flag;
      producers = λ j. others j (s.producers j) refl (producers j);
      alone = alone;
      consumer = keep s.consumer consumer;
    }
      where
        mine : Claim c s item t
        mine = at_point k e

        two_owners : (j : ℕ) (x : A) (u : ℕ) → s.producers j ≡ stored x u → t ≡ u → ⊥
        two_owners j x u e' same =
            let one : k ≡ j =
              alone k j t (subst (λ p. Owns p t) (sym e) refl)
                (subst (λ p. Owns p t) (sym e') (sym same)) in
            let d : claimed item t ≡ stored x u = sym e ∙ ap s.producers one ∙ e' in cc

        others :
            (j : ℕ) (p : Producer A)
            → s.producers j ≡ p
            → ProducerInv c s p
            → ProducerInv c
                (record s {
                  queue = record s.queue { ptr = update s.queue.ptr (t % c) (some item) };
                })
                p
        others j idle e' h = tt
        others j (trying x) e' h = tt
        others j (loaded x u) e' h = h
        others j (checked x u) e' h = h
        others j (claimed x u) e' h = h
        others j (stored x u) e' h = (
          h.0,
          update_ne s.queue.ptr (t % c) (u % c) (some item) (λ same. two_owners j x u e' (
                slot_inj c (length s.returned) t u mine.0 (omega (arith, mine.1, room, published))
                  h.0.0 (omega (arith, h.0.1, room, published)) same))
              ∙ h.1,
        )

        keep :
            (p : Consumer A)
            → ConsumerInv c s p
            → ConsumerInv c
                (record s {
                  queue = record s.queue { ptr = update s.queue.ptr (t % c) (some item) };
                })
                p
        keep waiting h = h
        keep (scanning n) h = h
        keep (seen n) h = h
        keep (got n p) h = h
        keep (cleared n p) h = h
