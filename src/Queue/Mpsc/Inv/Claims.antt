-- ===== src/Queue/Mpsc/Inv/Claims.antt =====
-- The flags and the claims of shared/algorithm/MpscQueue.h.
use nf_engine.Prelude.{
  ℕ, ◌+◌, ◌%◌, ◌^◌, ◌<◌, ◌≡◌, inl, inr, refl, sym, ap, ◌∙◌, [], ◌∷◌, ◌++◌, some, Bool, true, false,
  arith, length, get_elem?, map, length-append, take-append_le,
}
use mathlib.Core.Path.{subst}
use native.Mathlib.Decide.{ℕ_discrete, dec_lt}
use nf_engine.Queue.Slots.{update, update_ne, slot-ne, get_elem?-append_lt}
use nf_engine.Queue.Mpsc.{
  Producer, Consumer, System, idle, trying, loaded, checked, claimed, stored, waiting, scanning,
  seen, got, cleared,
}
use nf_engine.Queue.Mpsc.Inv.{
  IsConsistent, ProducerInv, ConsumerInv, Owns, Claim, slot_inj, le-first,
}

module _ {ℓ} {A : Type ℓ} {c : ℕ} {s : System A} (inv : IsConsistent c s) where
  open inv use {head, tail, published, order, room, given, free, held, producers, alone, consumer}

  -- A slot that no thread owns any more becomes ready, with its pointer in it.
  pub ready-IsConsistent :
      (item : A) (t : ℕ)
      → Claim c s item t
      → s.queue.ptr (t % c) ≡ some item
      → ((j : ℕ) → ¬ Owns (s.producers j) t)
      → IsConsistent c
          (record s { queue = record s.queue { ready = update s.queue.ready (t % c) true } })
  ready-IsConsistent item t mine there nobody = record {
    head = head;
    tail = tail;
    published = published;
    order = order;
    room = room;
    given = given;
    free = λ i lo hi.
        update_ne s.queue.ready (t % c) (i % c) true
          (λ same. slot-ne c t i (omega (arith, mine.1, lo)) (omega (arith, mine.0, hi)) same)
        ∙ free i lo hi;
    held = λ i lo hi flag. elim (ℕ_discrete t i) [
      | yes same ↦
          ap (λ n. s.queue.ptr (n % c)) (sym same)
          ∙ there
          ∙ sym mine.2
          ∙ ap (get_elem? s.claims) same
      | no ne ↦ held i lo hi (
          sym (
            update_ne s.queue.ready (t % c) (i % c) true (λ same. ne (
              slot_inj c (length s.returned) t i mine.0 (omega (arith, mine.1, room, published))
                (omega (arith, lo, le-first s.consumer (length s.returned)))
                (omega (arith, hi, room, published)) same)))
          ∙ flag)
    ];
    producers = λ j. others j (s.producers j) refl (producers j);
    alone = alone;
    consumer = keep s.consumer consumer;
  }
    where
      s' : System A
      s' = record s { queue = record s.queue { ready = update s.queue.ready (t % c) true } }

      claim_kept :
          (j : ℕ) (p : Producer A) (x : A) (u : ℕ)
          → s.producers j ≡ p
          → Owns p u
          → Claim c s x u
          → Claim c s' x u
      claim_kept j p x u e o h = (
        h.0,
        h.1,
        h.2,
        update_ne s.queue.ready (t % c) (u % c) true (λ same. nobody j (
              subst (λ q. Owns q t) (sym e)
                (subst (Owns p)
                  (sym (
                    slot_inj c (length s.returned) t u mine.0
                      (omega (arith, mine.1, room, published)) h.0
                      (omega (arith, h.1, room, published)) same))
                  o)))
            ∙ h.3,
      )

      others : (j : ℕ) (p : Producer A) → s.producers j ≡ p → ProducerInv c s p → ProducerInv c s' p
      others j idle e h = tt
      others j (trying x) e h = tt
      others j (loaded x u) e h = h
      others j (checked x u) e h = h
      others j (claimed x u) e h = claim_kept j (claimed x u) x u e refl h
      others j (stored x u) e h = (claim_kept j (stored x u) x u e refl h.0, h.1)

      flag_kept : (n : ℕ) → s.queue.ready n ≡ true → s'.queue.ready n ≡ true
      flag_kept n h = ground arith

      keep : (p : Consumer A) → ConsumerInv c s p → ConsumerInv c s' p
      keep waiting h = h
      keep (scanning n) h = h
      keep (seen n) h = (tt, h.1, flag_kept (length s.returned % c) h.2)
      keep (got n p) h = (h.0, flag_kept (length s.returned % c) h.1, h.2)
      keep (cleared n p) h = (h.0, flag_kept (length s.returned % c) h.1, h.2)

  -- The next slot is claimed for an item; the thread is not counted in yet.
  pub claims-IsConsistent :
      (item : A)
      → length s.claims < s.published + c
      → length s.claims + 1 < 2 ^ 64
      → IsConsistent c (record s {
        queue = record s.queue { tail = (s.queue.tail + 1) % 2 ^ 64 };
        claims = s.claims ++ item ∷ [];
      })
  claims-IsConsistent item space small = record {
    head = head;
    tail = omega (arith, tail, size, small);
    published = published;
    order = omega (arith, order, size);
    room = omega (arith, space, size);
    given =
        given ∙ ap (map some) (sym (take-append_le s.claims (item ∷ []) (length s.returned) order));
    free = λ i lo hi. free i (omega (arith, lo, size)) hi;
    held = λ i lo hi flag. elim (dec_lt i (length s.claims)) [
      | yes old ↦ held i lo old flag ∙ sym (get_elem?-append_lt s.claims (item ∷ []) i old)
      | no new ↦
          let d : ◌≡◌ {A = Bool} false true =
            sym (free i (omega arith) (omega (arith, hi, size, space, published))) ∙ flag in
          absurd (cc)
    ];
    producers = λ j. others (s.producers j) (producers j);
    alone = alone;
    consumer = keep s.consumer consumer;
  }
    where
      s' : System A
      s' = record s {
        queue = record s.queue { tail = (s.queue.tail + 1) % 2 ^ 64 };
        claims = s.claims ++ item ∷ [];
      }

      size : length (s.claims ++ item ∷ []) ≡ length s.claims + 1
      size = omega (arith, length-append s.claims (item ∷ []))

      claim_kept : (x : A) (u : ℕ) → Claim c s x u → Claim c s' x u
      claim_kept x u h =
          (h.0, omega (arith, h.1, size), get_elem?-append_lt s.claims (item ∷ []) u h.1 ∙ h.2, h.3)

      others : (p : Producer A) → ProducerInv c s p → ProducerInv c s' p
      others idle h = tt
      others (trying x) h = tt
      others (loaded x u) h = (tt, omega (arith, h.1, size))
      others (checked x u) h = elim h.1 [
        | inl stale ↦ (tt, inl (omega (arith, stale, size)))
        | inr (now, fits) ↦ (tt, inl (omega (arith, now, size)))
      ]
      others (claimed x u) h = claim_kept x u h
      others (stored x u) h = (claim_kept x u h.0, h.1)

      inside : s.queue.ready (length s.returned % c) ≡ true → length s.returned < length s.claims
      inside flag = elim (dec_lt (length s.returned) (length s.claims)) [
        | yes p ↦ p
        | no p ↦
            let d : ◌≡◌ {A = Bool} false true =
              sym (free (length s.returned) (omega arith) (omega (arith, space, order))) ∙ flag in
            absurd (cc)
      ]

      keep : (p : Consumer A) → ConsumerInv c s p → ConsumerInv c s' p
      keep waiting h = h
      keep (scanning n) h = h
      keep (seen n) h = h
      keep (got n p) h = (
        h.0,
        h.1,
        h.2 ∙ sym (get_elem?-append_lt s.claims (item ∷ []) (length s.returned) (inside h.1)),
      )
      keep (cleared n p) h = (
        h.0,
        h.1,
        h.2 ∙ sym (get_elem?-append_lt s.claims (item ∷ []) (length s.returned) (inside h.1)),
      )
