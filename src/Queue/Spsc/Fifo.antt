-- ===== src/Queue/Spsc/Fifo.antt =====
-- shared/algorithm/SpscQueue.h as a first-in first-out queue, in every order of the accesses.
use nf_engine.Prelude.{
  ℕ, ◌+◌, ◌%◌, ◌^◌, ◌≤◌, ◌≡◌, refl, sym, ap, ◌∙◌, List, some, arith, length, take, take-all, map,
  ◌↔◌, true, ==_iff, [], ◌∷◌,
}
use nf_engine.Queue.Slots.{IsCapacity}
use nf_engine.Queue.Spsc.{
  System, idle, Step, Reach, start, next, check_room_step, write_slot_step, publish_tail_step,
  check_item_step, read_slot_step, clear_slot_step, publish_head_step, check_room, empty,
}
use nf_engine.Queue.Spsc.Inv.{IsConsistent}
use nf_engine.Queue.Spsc.Inv.Steps.{
  initial-IsConsistent, check_room-IsConsistent, write_slot-IsConsistent, publish_tail-IsConsistent,
  check_item-IsConsistent, read_slot-IsConsistent, clear_slot-IsConsistent,
  publish_head-IsConsistent, used_count,
}

length-map {ℓ κ} :
    {A : Type ℓ} {B : Type κ} (f : A → B) (xs : List A) → length (map f xs) ≡ length xs
length-map f [] = refl
length-map f (x ∷ xs) = omega (arith, length-map f xs)

module _ {ℓ} {A : Type ℓ} {c : ℕ} (v : IsCapacity c) where
  Step-IsConsistent : {s t : System A} → Step A c s t → IsConsistent c s → IsConsistent c t
  Step-IsConsistent (check_room_step s item at) inv = check_room-IsConsistent v inv item
  Step-IsConsistent (write_slot_step s item at) inv = write_slot-IsConsistent v inv item at
  Step-IsConsistent (publish_tail_step s item at) inv = publish_tail-IsConsistent v inv item at
  Step-IsConsistent (check_item_step s at) inv = check_item-IsConsistent v inv at
  Step-IsConsistent (read_slot_step s at) inv = read_slot-IsConsistent v inv at
  Step-IsConsistent (clear_slot_step s item at) inv = clear_slot-IsConsistent v inv item at
  Step-IsConsistent (publish_head_step s item at) inv = publish_head-IsConsistent v inv item at

  Reach-IsConsistent : {s : System A} → Reach A c s → IsConsistent c s
  Reach-IsConsistent start = initial-IsConsistent c
  Reach-IsConsistent (next r st) = Step-IsConsistent st (Reach-IsConsistent r)

  -- In such a state `enqueue` refuses exactly when the queue is full, and `empty` holds exactly when
  -- everything accepted has been returned.
  full_empty :
      {s : System A}
      → Reach A c s
      → (item : A)
      → (((check_room A c item s).producer ≡ idle) ↔ (length s.accepted ≡ length s.returned + c))
        × ((empty A s.queue ≡ true) ↔ (s.returned ≡ map some s.accepted))
  unfolding check_room empty
  full_empty {s} r item = (
    ground (arith, used_count v inv, inv.room),
    (
      (λ e.
          inv.given
          ∙ ap (map some)
              (take-all (length s.returned) s.accepted (omega (arith, same ((==_iff _ _).0 e))))),
      (λ e. (==_iff _ _).1 (
          inv.head
          ∙ ap (λ k. k % 2 ^ 64) (ap length e ∙ length-map some s.accepted)
          ∙ sym inv.tail)),
    ),
  )
    where
      inv : IsConsistent c s
      inv = Reach-IsConsistent r

      same : s.queue.head ≡ s.queue.tail → length s.returned ≡ length s.accepted
      same e = omega (arith, e, inv.head, inv.tail, inv.order, inv.room, v.small, v.positive)

  -- In every state that some order of the two threads' accesses leads to, what `dequeue` has
  -- returned is exactly the items that `enqueue` has accepted, from the first on and in their
  -- order, and those that are still inside are no more than the capacity; `enqueue` refuses an item
  -- exactly when the queue holds as many items as its capacity, and `empty` says yes exactly when
  -- every item accepted has been returned.
  pub spsc_fifo :
      {s : System A}
      → Reach A c s
      → (item : A)
      → (s.returned ≡ map some (take (length s.returned) s.accepted))
        × (length s.returned ≤ length s.accepted)
        × (length s.accepted ≤ length s.returned + c)
        × (((check_room A c item s).producer ≡ idle) ↔ (length s.accepted ≡ length s.returned + c))
        × ((empty A s.queue ≡ true) ↔ (s.returned ≡ map some s.accepted))
  spsc_fifo r item =
      let inv = Reach-IsConsistent r in
      let fe = full_empty r item in (inv.given, inv.order, inv.room, fe.0, fe.1)
