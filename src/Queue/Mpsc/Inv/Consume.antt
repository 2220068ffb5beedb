-- ===== src/Queue/Mpsc/Inv/Consume.antt =====
-- `dequeueAll` of shared/algorithm/MpscQueue.h, one lemma to a step.
use nf_engine.Prelude.{
  ℕ, ◌+◌, ◌*◌, ◌%◌, ◌^◌, ◌<◌, ◌≡◌, ◌≢◌, inl, inr, refl, sym, ap, ap₂, ◌∙◌, suc, [], ◌∷◌, ◌++◌,
  Option, none, some, Bool, true, false, arith, length, take, map, length-append, Bool-cases,
}
use mathlib.Core.Path.{subst}
use native.Mathlib.Decide.{ℕ_discrete, dec_lt}
use native.Mathlib.Nat.{add-mul-mod_self_left}
use nf_engine.Queue.Slots.{update, update_self, update_ne, slot-ne, map-take-suc}
use nf_engine.Queue.Mpsc.{
  Producer, Consumer, System, idle, trying, loaded, checked, claimed, stored, waiting, scanning,
  seen, got, cleared, test_ready, read_ptr, clear_ptr, clear_ready,
}
use nf_engine.Queue.Mpsc.Inv.{IsConsistent, ProducerInv, ConsumerInv, Claim, first, Held}

module _ {ℓ} {A : Type ℓ} {c : ℕ} {s : System A} (inv : IsConsistent c s) (positive : 0 < c) where
  open inv use {head, tail, published, order, room, given, free, held, producers, alone, consumer}

  known : {p : Consumer A} → s.consumer ≡ p → ConsumerInv c s p
  known e = subst (ConsumerInv c s) e consumer

  before : {p : Consumer A} → s.consumer ≡ p → Held c s (first p (length s.returned))
  before e = subst (λ p. Held c s (first p (length s.returned))) e held

  -- A slot that is ready has been claimed.
  inside : s.queue.ready (length s.returned % c) ≡ true → length s.returned < length s.claims
  inside flag = elim (dec_lt (length s.returned) (length s.claims)) [
    | yes p ↦ p
    | no p ↦
        let d : ◌≡◌ {A = Bool} false true =
          sym (free (length s.returned) (omega arith) (omega (arith, positive))) ∙ flag in
        absurd (cc)
  ]

  pub scan-IsConsistent :
      s.consumer ≡ waiting → IsConsistent c (record s { consumer = scanning s.queue.head })
  scan-IsConsistent e = record {
    head = head;
    tail = tail;
    published = published;
    order = order;
    room = room;
    given = given;
    free = free;
    held = before e;
    producers = producers;
    alone = alone;
    consumer = (tt, head ∙ (known e).1);
  }

  -- The head is stored when the loop ends.
  stored_head : System A
  stored_head = record s {
    queue = record s.queue { head = length s.returned };
    consumer = waiting;
    published = length s.returned;
  }

  later : (p : Producer A) → ProducerInv c s p → ProducerInv c stored_head p
  unfolding stored_head
  later idle h = h
  later (trying x) h = h
  later (loaded x u) h = h
  later (checked x u) h = elim h.1 [
    | inl stale ↦ (tt, inl stale)
    | inr (now, fits) ↦ (tt, inr (now, omega (arith, fits, published)))
  ]
  later (claimed x u) h = h
  later (stored x u) h = h

  stored_head-IsConsistent : (n : ℕ) → s.consumer ≡ scanning n → IsConsistent c stored_head
  unfolding stored_head
  stored_head-IsConsistent n e = record {
    head = refl;
    tail = tail;
    published = omega arith;
    order = order;
    room = omega (arith, room, published);
    given = given;
    free = free;
    held = before e;
    producers = λ k. later (s.producers k) (producers k);
    alone = alone;
    consumer = (tt, refl);
  }

  pub test_ready-IsConsistent :
      (n : ℕ) → s.consumer ≡ scanning n → IsConsistent c (test_ready A c n s)
  unfolding test_ready stored_head
  test_ready-IsConsistent n e =
      let at : n ≡ length s.returned = (known e).1 in
      elim (Bool-cases (s.queue.ready (n % c))) [
        | inr over ↦ rw over (rw at (stored_head-IsConsistent n e))
        | inl more ↦ rw more (record {
          head = head;
          tail = tail;
          published = published;
          order = order;
          room = room;
          given = given;
          free = free;
          held = before e;
          producers = producers;
          alone = alone;
          consumer = (tt, at, ap (λ k. s.queue.ready (k % c)) (sym at) ∙ more);
        })
      ]

  pub read_ptr-IsConsistent : (n : ℕ) → s.consumer ≡ seen n → IsConsistent c (read_ptr A c n s)
  unfolding read_ptr
  read_ptr-IsConsistent n e = record {
    head = head;
    tail = tail;
    published = published;
    order = order;
    room = room;
    given = given;
    free = free;
    held = before e;
    producers = producers;
    alone = alone;
    consumer = (
      (known e).1,
      (known e).2,
      ap (λ k. s.queue.ptr (k % c)) (known e).1
          ∙ before e (length s.returned) (omega arith) (inside (known e).2) (known e).2,
    );
  }

  -- A slot that a thread owns is not the one that is ready.
  owned_ne :
      {item : A} {t n : ℕ}
      → n ≡ length s.returned
      → s.queue.ready (length s.returned % c) ≡ true
      → Claim c s item t
      → n % c ≢ t % c
  owned_ne at flag h same =
      let d : ◌≡◌ {A = Bool} false true =
        sym h.3 ∙ ap s.queue.ready (sym same ∙ ap (λ k. k % c) at) ∙ flag in
      cc

  pub clear_ptr-IsConsistent :
      (n : ℕ) (item : Option A) → s.consumer ≡ got n item → IsConsistent c (clear_ptr A c n item s)
  unfolding clear_ptr
  clear_ptr-IsConsistent n item e = record {
    head = head;
    tail = tail;
    published = published;
    order = order;
    room = room;
    given = given;
    free = free;
    held = λ i lo hi flag.
        update_ne s.queue.ptr (n % c) (i % c) none (λ same.
          slot-ne c (length s.returned) i (omega arith) (omega (arith, hi, room, published))
            (ap (λ k. k % c) (sym (known e).0) ∙ same))
        ∙ before e i (omega arith) hi flag;
    producers = λ k. others (s.producers k) (producers k);
    alone = alone;
    consumer = known e;
  }
    where
      others : (p : Producer A) → ProducerInv c s p → ProducerInv c (clear_ptr A c n item s) p
      others idle h = h
      others (trying x) h = h
      others (loaded x u) h = h
      others (checked x u) h = h
      others (claimed x u) h = h
      others (stored x u) h = (
        h.0,
        update_ne s.queue.ptr (n % c) (u % c) none (owned_ne (known e).0 (known e).1 h.0) ∙ h.1,
      )

  pub clear_ready-IsConsistent :
      (n : ℕ) (item : Option A)
      → length s.claims < 2 ^ 64
      → s.consumer ≡ cleared n item
      → IsConsistent c (clear_ready A c n item s)
  unfolding clear_ready
  clear_ready-IsConsistent n item small e = record {
    head = head;
    tail = tail;
    published = omega (arith, published, size);
    order = omega (arith, size, inside (known e).1);
    room = room;
    given =
        ap₂ (λ xs x. xs ++ x ∷ []) given (known e).2
        ∙ sym (map-take-suc s.claims (length s.returned) (inside (known e).1))
        ∙ ap (λ k. map some (take k s.claims))
            (let d : suc (length s.returned) ≡ length (s.returned ++ item ∷ []) =
                omega (arith, size) in
              d);
    free = λ i lo hi. elim (ℕ_discrete (n % c) (i % c)) [
      | yes same ↦
          ap (update s.queue.ready (n % c) false) (sym same)
          ∙ update_self s.queue.ready (n % c) false
      | no ne ↦
          update_ne s.queue.ready (n % c) (i % c) false ne
          ∙ free i lo (not_next i (omega (arith, hi, size)) ne)
    ];
    held = λ i lo hi flag. before e i (omega (arith, lo, size)) hi (still (n % c) (i % c) flag);
    producers = λ k. others (s.producers k) (producers k);
    alone = alone;
    consumer = (tt, omega (arith, (known e).0, size, inside (known e).1, small));
  }
    where
      size : length (s.returned ++ item ∷ []) ≡ length s.returned + 1
      size = omega (arith, length-append s.returned (item ∷ []))

      not_next : (i : ℕ) → i < length s.returned + 1 + c → n % c ≢ i % c → i < length s.returned + c
      not_next i hi ne = elim (dec_lt i (length s.returned + c)) [
        | yes p ↦ p
        | no p ↦ absurd (
            ne (
              sym (add-mul-mod_self_left n c 1)
              ∙ ap (λ k. k % c) (let d : n + c * 1 ≡ i = omega (arith, (known e).0) in d)))
      ]

      still : (i j : ℕ) → update s.queue.ready i false j ≡ true → s.queue.ready j ≡ true
      still i j flag = ground arith

      beyond : (x : A) (u : ℕ) → Claim c s x u → length s.returned < u
      beyond x u h = elim (dec_lt (length s.returned) u) [
        | yes p ↦ p
        | no p ↦ absurd (
            owned_ne (known e).0 (known e).1 h
              (ap (λ k. k % c) (let d : n ≡ u = omega (arith, (known e).0, h.0) in d)))
      ]

      claim_kept : (x : A) (u : ℕ) → Claim c s x u → Claim c (clear_ready A c n item s) x u
      claim_kept x u h = (
        omega (arith, size, beyond x u h),
        h.1,
        h.2,
        update_ne s.queue.ready (n % c) (u % c) false (owned_ne (known e).0 (known e).1 h) ∙ h.3,
      )

      others : (p : Producer A) → ProducerInv c s p → ProducerInv c (clear_ready A c n item s) p
      others idle h = h
      others (trying x) h = h
      others (loaded x u) h = h
      others (checked x u) h = h
      others (claimed x u) h = claim_kept x u h
      others (stored x u) h = (claim_kept x u h.0, h.1)
