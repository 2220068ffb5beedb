-- ===== src/Queue/Mpsc/Inv/Enqueue.antt =====
-- `enqueue` of shared/algorithm/MpscQueue.h, one lemma to a step.
use nf_engine.Prelude.{
  ℕ, ◌+◌, ◌-◌, ◌%◌, ◌^◌, ◌≤◌, ◌<◌, ◌≡◌, ◌⊎◌, inl, inr, refl, sym, ap, ◌∙◌, [], ◌∷◌, ◌++◌, some,
  arith, length, get_elem?, length-append, Bool-cases, leb, ◌==◌,
}
use mathlib.Core.Path.{subst}
use native.Mathlib.Decide.{dec_lt}
use nf_engine.Queue.Slots.{update, update_self, get_elem?-append_last}
use nf_engine.Queue.Mpsc.{
  System, idle, trying, loaded, checked, claimed, stored, go, held_at, check_room, exchange,
  store_ptr, set_ready,
}
use nf_engine.Queue.Mpsc.Inv.{IsConsistent, Owns}
use nf_engine.Queue.Mpsc.Inv.Produce.{
  Owns-update, Owns-Claim, go-IsConsistent, at_point, ptr-IsConsistent,
}
use nf_engine.Queue.Mpsc.Inv.Claims.{ready-IsConsistent, claims-IsConsistent}

-- The test for room: with the tail that is still the queue's it is exact, and a stale tail passes or
-- not.
room_lem :
    (c given taken head tail : ℕ)
    → head ≡ given
    → given ≤ taken
    → taken < 2 ^ 64
    → tail ≤ taken
    → (tail + 2 ^ 64 - head) % 2 ^ 64 < c
    → (tail < taken) ⊎ ((tail ≡ taken) × (taken < given + c))
room_lem c given taken head tail h le small t room = elim (dec_lt tail taken) [
  | yes stale ↦ inl stale
  | no now ↦ inr (omega arith, omega arith)
]

module _ {ℓ} {A : Type ℓ} {c : ℕ} {s : System A} (inv : IsConsistent c s) (k : ℕ) where
  open inv use {head, tail, published, order, room}

  pub enter-IsConsistent : (item : A) → IsConsistent c (go A k (trying item) s)
  enter-IsConsistent item = go-IsConsistent inv k (trying item) tt (λ t o. absurd o)

  pub load_tail-IsConsistent : (item : A) → IsConsistent c (go A k (loaded item s.queue.tail) s)
  load_tail-IsConsistent item =
      go-IsConsistent inv k (loaded item s.queue.tail) (tt, omega (arith, tail)) (λ t o. absurd o)

  pub check_room-IsConsistent :
      (item : A) (t : ℕ)
      → length s.claims < 2 ^ 64
      → s.producers k ≡ loaded item t
      → IsConsistent c (check_room A c k item t s)
  unfolding check_room
  check_room-IsConsistent item t small e = elim (Bool-cases (leb c (held_at A t s.queue.head))) [
    | inl full ↦ rw full (go-IsConsistent inv k idle tt (λ u o. absurd o))
    | inr free ↦ rw free (
        go-IsConsistent inv k (checked item t)
          (
            tt,
            room_lem c s.published (length s.claims) s.queue.head t head
                (omega (arith, published, order)) small (at_point inv k e).1 (ground arith),
          )
          (λ u o. absurd o))
  ]

  won-IsConsistent :
      (item : A)
      → length s.claims < s.published + c
      → length s.claims + 1 < 2 ^ 64
      → IsConsistent c (
          go A k (claimed item s.queue.tail) (record s {
            queue = record s.queue { tail = (s.queue.tail + 1) % 2 ^ 64 };
            claims = s.claims ++ item ∷ [];
          }))
  won-IsConsistent item space small =
      go-IsConsistent (claims-IsConsistent inv item space small) k (claimed item s.queue.tail)
        (
          omega (arith, tail, order),
          omega (arith, tail, length-append s.claims (item ∷ [])),
          ap (get_elem? (s.claims ++ item ∷ [])) tail ∙ get_elem?-append_last s.claims item,
          ap (λ n. s.queue.ready (n % c)) tail
              ∙ inv.free (length s.claims) (omega arith) (omega (arith, space, published)),
        )
        (λ u mine j other. absurd (
          omega
            (arith, mine, tail, (Owns-Claim c s (s.producers j) u (inv.producers j) other).1.1)))

  pub exchange-IsConsistent :
      (item : A) (t : ℕ)
      → length (exchange A k item t s).claims < 2 ^ 64
      → s.producers k ≡ checked item t
      → IsConsistent c (exchange A k item t s)
  unfolding exchange
  exchange-IsConsistent item t small e = elim (Bool-cases (s.queue.tail == t)) [
    | inr lost ↦ rw lost (enter-IsConsistent item)
    | inl won ↦
        let here : s.queue.tail ≡ t = ground arith in
        rw won (
          subst
            (λ u. IsConsistent c (
              go A k (claimed item u) (record s {
                queue = record s.queue { tail = (u + 1) % 2 ^ 64 };
                claims = s.claims ++ item ∷ [];
              })))
            here
            (won-IsConsistent item (space here)
              (omega (arith, small, ap length (grown here), length-append s.claims (item ∷ [])))))
  ]
    where
      grown : s.queue.tail ≡ t → (exchange A k item t s).claims ≡ s.claims ++ item ∷ []
      grown here = ground arith

      space : s.queue.tail ≡ t → length s.claims < s.published + c
      space here = elim (at_point inv k e).1 [
        | inl stale ↦ absurd (omega (arith, stale, here, tail))
        | inr (now, fits) ↦ fits
      ]

  pub store_ptr-IsConsistent :
      (item : A) (t : ℕ)
      → s.producers k ≡ claimed item t
      → IsConsistent c (store_ptr A c k item t s)
  unfolding store_ptr
  store_ptr-IsConsistent item t e =
      go-IsConsistent (ptr-IsConsistent inv k item t e) k (stored item t)
        (at_point inv k e, update_self s.queue.ptr (t % c) (some item))
        (λ u o j o'. inv.alone j k u o' (subst (λ p. Owns p u) (sym e) o))

  pub set_ready-IsConsistent :
      (item : A) (t : ℕ) → s.producers k ≡ stored item t → IsConsistent c (set_ready A c k t s)
  unfolding set_ready
  set_ready-IsConsistent item t e =
      ready-IsConsistent (go-IsConsistent inv k idle tt (λ u o. absurd o)) item t
        (at_point inv k e).0 (at_point inv k e).1
        (λ j o. elim (Owns-update s.producers k j t idle o) [
          | inl (same, mine) ↦ mine
          | inr other ↦ left j other o
        ])
    where
      left : (j : ℕ) → Owns (s.producers j) t → Owns (update s.producers k idle j) t → ⊥
      left j other o =
          let same : k ≡ j = inv.alone k j t (subst (λ p. Owns p t) (sym e) refl) other in
          subst (λ p. Owns p t)
            (ap (update s.producers k idle) (sym same) ∙ update_self s.producers k idle) o
