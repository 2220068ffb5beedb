-- ===== src/Queue/Spsc/Inv/Steps.antt =====
-- The steps of the two threads of shared/algorithm/SpscQueue.h, one lemma to a step.
use nf_engine.Prelude.{
  ℕ, ◌+◌, ◌-◌, ◌%◌, ◌<◌, ◌≡◌, refl, sym, ap, ap₂, ◌∙◌, suc, [], ◌∷◌, ◌++◌, Option, none, some, ltb,
  ◌==◌, arith, length, get_elem?, take, map, length-append, take-append_le, inl, inr, Bool-cases,
}
use mathlib.Core.Path.{subst}
use native.Mathlib.Decide.{dec_lt}
use nf_engine.Queue.Slots.{
  IsCapacity, update, wrap-mod, slot-ne, update_self, update_ne, get_elem?-append_lt,
  get_elem?-append_last, map-take-suc,
}
use nf_engine.Queue.Spsc.{
  Producer, Consumer, System, checked, written, waiting, found, got, cleared, initial, check_room,
  write_slot, publish_tail, check_item, read_slot, clear_slot, publish_head, used,
}
use nf_engine.Queue.Spsc.Inv.{
  IsConsistent, ProducerInv, ConsumerInv, Held, first, used_lem, le-first, ConsumerInv-append,
  ProducerInv-more, ProducerInv-slots,
}

module _ {ℓ} {A : Type ℓ} where
  pub initial-IsConsistent : (c : ℕ) → IsConsistent c (initial A)
  unfolding initial
  initial-IsConsistent c = record {
    head = refl;
    tail = refl;
    order = omega arith;
    room = omega arith;
    given = refl;
    held = λ i lo hi. absurd (omega arith);
    producer = tt;
    consumer = tt;
  }

  module _ {c : ℕ} (v : IsCapacity c) {s : System A} (inv : IsConsistent c s) where
    open inv use {head, tail, order, room, given, held, producer, consumer}

    -- The test for room compares the true numbers.
    pub used_count : used A s.queue ≡ length s.accepted + 1 - length s.returned
    used_count =
        used_lem c (length s.returned) (length s.accepted) s.queue.head s.queue.tail v.small
          v.positive order room head tail

    tail_slot : s.queue.tail % c ≡ length s.accepted % c
    tail_slot = ap (λ k. k % c) tail ∙ wrap-mod v (length s.accepted)

    head_slot : s.queue.head % c ≡ length s.returned % c
    head_slot = ap (λ k. k % c) head ∙ wrap-mod v (length s.returned)

    pub check_room-IsConsistent : (item : A) → IsConsistent c (check_room A c item s)
    unfolding check_room
    check_room-IsConsistent item = record {
      head = head;
      tail = tail;
      order = order;
      room = room;
      given = given;
      held = held;
      producer = elim (Bool-cases (ltb c (used A s.queue))) [
        | inl full ↦ rw full tt
        | inr free ↦ rw free (tt, ground (arith, used_count))
      ];
      consumer = consumer;
    }

    before :
        {k : Consumer A}
        → s.consumer ≡ k
        → Held c (first k (length s.returned)) s.accepted s.queue.slots
    before at = subst (λ k. Held c (first k (length s.returned)) s.accepted s.queue.slots) at held

    sender :
        {k : Producer A}
        → s.producer ≡ k
        → ProducerInv c (length s.returned) (length s.accepted) s.queue.slots k
    sender at =
        subst (ProducerInv c (length s.returned) (length s.accepted) s.queue.slots) at producer

    receiver : {k : Consumer A} → s.consumer ≡ k → ConsumerInv (length s.returned) s.accepted k
    receiver at = subst (ConsumerInv (length s.returned) s.accepted) at consumer

    pub check_item-IsConsistent : s.consumer ≡ waiting → IsConsistent c (check_item A s)
    unfolding check_item
    check_item-IsConsistent at = elim (Bool-cases (s.queue.head == s.queue.tail)) [
      | inl empty ↦ rw empty (record {
        head = head;
        tail = tail;
        order = order;
        room = room;
        given = given;
        held = before at;
        producer = producer;
        consumer = tt;
      })
      | inr more ↦ rw more (record {
        head = head;
        tail = tail;
        order = order;
        room = room;
        given = given;
        held = before at;
        producer = producer;
        consumer = (tt, ground arith);
      })
    ]

    pub read_slot-IsConsistent : s.consumer ≡ found → IsConsistent c (read_slot A c s)
    unfolding read_slot
    read_slot-IsConsistent at = record {
      head = head;
      tail = tail;
      order = order;
      room = room;
      given = given;
      held = before at;
      producer = producer;
      consumer = (
        (receiver at).1,
        ap s.queue.slots head_slot ∙ before at (length s.returned) (omega arith) (receiver at).1,
      );
    }

    -- The slot that `enqueue` writes holds no item that is still to be given.
    pub write_slot-IsConsistent :
        (item : A) → s.producer ≡ checked item → IsConsistent c (write_slot A c item s)
    unfolding write_slot
    write_slot-IsConsistent item at = record {
      head = head;
      tail = tail;
      order = order;
      room = room;
      given = given;
      held = λ i lo hi.
          update_ne s.queue.slots (s.queue.tail % c) (i % c) (some item) (λ e.
            slot-ne c i (length s.accepted) hi
              (omega (arith, le-first s.consumer (length s.returned), (sender at).1))
              (sym e ∙ tail_slot))
          ∙ held i lo hi;
      producer = (
        (sender at).1,
        ap (update s.queue.slots (s.queue.tail % c) (some item)) (sym tail_slot)
            ∙ update_self s.queue.slots (s.queue.tail % c) (some item),
      );
      consumer = consumer;
    }

    taken_length : (item : A) → length (s.accepted ++ item ∷ []) ≡ length s.accepted + 1
    taken_length item = omega (arith, length-append s.accepted (item ∷ []))

    -- The item is in its slot before the counter lets the other thread see it.
    pub publish_tail-IsConsistent :
        (item : A) → s.producer ≡ written item → IsConsistent c (publish_tail A item s)
    unfolding publish_tail
    publish_tail-IsConsistent item at = record {
      head = head;
      tail = omega (arith, tail, taken_length item);
      order = omega (arith, order, taken_length item);
      room = omega (arith, (sender at).0, taken_length item);
      given =
          given
          ∙ ap (map some) (sym (take-append_le s.accepted (item ∷ []) (length s.returned) order));
      held = λ i lo hi. elim (dec_lt i (length s.accepted)) [
        | yes old ↦ held i lo old ∙ sym (get_elem?-append_lt s.accepted (item ∷ []) i old)
        | no new ↦
            let last : i ≡ length s.accepted = omega (arith, hi, taken_length item) in
            ap (λ k. s.queue.slots (k % c)) last
            ∙ (sender at).1
            ∙ sym (get_elem?-append_last s.accepted item)
            ∙ ap (get_elem? (s.accepted ++ item ∷ [])) (sym last)
      ];
      producer = tt;
      consumer = ConsumerInv-append (length s.returned) s.accepted item s.consumer consumer;
    }

    -- The slot that `dequeue` clears is no other item's.
    pub clear_slot-IsConsistent :
        (item : Option A) → s.consumer ≡ got item → IsConsistent c (clear_slot A c item s)
    unfolding clear_slot
    clear_slot-IsConsistent item at = record {
      head = head;
      tail = tail;
      order = order;
      room = room;
      given = given;
      held = λ i lo hi. kept i (omega arith) (omega arith) ∙ before at i (omega arith) hi;
      producer =
          ProducerInv-slots c (length s.returned) (length s.accepted) s.queue.slots
            (update s.queue.slots (s.queue.head % c) none) s.producer
            (kept (length s.accepted) (omega (arith, (receiver at).0))) producer;
      consumer = receiver at;
    }
      where
        kept :
            (i : ℕ)
            → length s.returned < i
            → i < length s.returned + c
            → update s.queue.slots (s.queue.head % c) none (i % c) ≡ s.queue.slots (i % c)
        kept i lo hi =
            update_ne s.queue.slots (s.queue.head % c) (i % c) none
              (λ e. slot-ne c (length s.returned) i lo hi (sym head_slot ∙ e))

    given_length : (item : Option A) → length (s.returned ++ item ∷ []) ≡ length s.returned + 1
    given_length item = omega (arith, length-append s.returned (item ∷ []))

    -- What is returned is the next item.
    pub publish_head-IsConsistent :
        (item : Option A) → s.consumer ≡ cleared item → IsConsistent c (publish_head A item s)
    unfolding publish_head
    publish_head-IsConsistent item at = record {
      head = omega (arith, head, given_length item);
      tail = tail;
      order = omega (arith, (receiver at).0, given_length item);
      room = omega (arith, room, given_length item);
      given =
          ap₂ (λ xs x. xs ++ x ∷ []) given (receiver at).1
          ∙ sym (map-take-suc s.accepted (length s.returned) (receiver at).0)
          ∙ ap (λ k. map some (take k s.accepted))
              (let d : suc (length s.returned) ≡ length (s.returned ++ item ∷ []) =
                  omega (arith, given_length item) in
                d);
      held = λ i lo hi. before at i (omega (arith, lo, given_length item)) hi;
      producer =
          subst (λ k. ProducerInv c k (length s.accepted) s.queue.slots s.producer)
            (let d : suc (length s.returned) ≡ length (s.returned ++ item ∷ []) =
                omega (arith, given_length item) in
              d)
            (ProducerInv-more c (length s.returned) (length s.accepted) s.queue.slots s.producer
              producer);
      consumer = tt;
    }
