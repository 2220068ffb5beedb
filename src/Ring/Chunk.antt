-- ===== src/Ring/Chunk.antt =====
-- One contiguous chunk: `load` and `consume` take bytes off the front of what the ring holds, and
-- `store` and `produce` put bytes at its back.
use nf_engine.Prelude.{
  ltb, if◌then◌else◌, Bool-cases, ℕ, zero, suc, ◌+◌, ◌-◌, ◌*◌, ◌%◌, ◌^◌, ◌≤◌, ◌<◌, ◌≡◌, ◌≢◌, refl,
  sym, ap, ◌∙◌, ◌⊎◌, inl, inr, min, List, ◌++◌, some, arith, length, take, append-nil,
}
use nf_engine.Prelude.Slices.{slice, blit, length-blit}
use native.Mathlib.Nat.{mod-eq_of_lt, mod_self}
use native.Mathlib.Decide.{dec_lt}
use nf_engine.Ring.Window.{
  before_end, take-window, window, window-cut, window-cut_end, window-blit, window-blit_round,
}
use nf_engine.Ring.{
  Ring, capacity, write_ptr, write_len, produce, read_len, consume, store, load, peek, add_size,
  sub_size,
}
use nf_engine.Ring.Inv.{IsValid, contents, write_len_lem, read_len_lem}

-- An index moved on by at most the distance to the end of the storage goes round at most once.
advance :
    (i n c : ℕ)
    → i < c
    → i + n ≤ c
    → 2 * c < 2 ^ 64
    → ((i + n < c) × (add_size i n % c ≡ i + n)) ⊎ ((i + n ≡ c) × (add_size i n % c ≡ 0))
advance i n c hi hn small = elim (dec_lt (i + n) c) [
  | yes p ↦ inl (p, rw (mod-eq_of_lt {n = i + n} {m = 2 ^ 64} (omega arith)) (mod-eq_of_lt p))
  | no p ↦
      inr (omega arith, ap (λ k. k % c) (let e : add_size i n ≡ c = omega arith in e) ∙ mod_self c)
]

-- The object after `consume` of a chunk.
record Consumed (r : Ring) (n : ℕ) (r' : Ring) : Type 0 where
  buffer : r'.buffer ≡ r.buffer
  tail : r'.tail ≡ r.tail
  size : r'.size + n ≡ r.size
  head :
      ((r.head + n < capacity r) × (r'.head ≡ r.head + n))
      ⊎ ((r.head + n ≡ capacity r) × (r'.head ≡ 0))

consume-Consumed : {r : Ring} (n : ℕ) → IsValid r → n ≤ read_len r → Consumed r n (consume r n)
unfolding consume
consume-Consumed {r} n v h = record {
  buffer = refl;
  tail = refl;
  size = omega (arith, read_len_lem v);
  head = advance r.head n (capacity r) v.head_in (omega (arith, read_len_lem v)) v.small;
}

pub consume-IsValid : {r : Ring} (n : ℕ) → IsValid r → n ≤ read_len r → IsValid (consume r n)
consume-IsValid {r} n v h = ground (arith, consume-Consumed n v h, read_len_lem v)

pub load_lem : {r : Ring} (n : ℕ) → IsValid r → n ≤ read_len r → load r n ≡ slice r.head n r.buffer
unfolding load
load_lem {r} zero v h = ground (arith, read_len_lem v)
load_lem {r} (suc n) v h = ground (arith, read_len_lem v)

cut :
    {r : Ring} {n : ℕ} (r' : Ring)
    → IsValid r
    → Consumed r n r'
    → contents r ≡ slice r.head n r.buffer ++ contents r'
cut {r} {n} r' v c = rw (c.buffer) (at c.head)
  where
    left : r'.size ≡ r.size - n
    left = omega (arith, c.size)

    at :
        ((r.head + n < capacity r) × (r'.head ≡ r.head + n))
          ⊎ ((r.head + n ≡ capacity r) × (r'.head ≡ 0))
        → contents r ≡ slice r.head n r.buffer ++ window r.buffer r'.head r'.size
    at (inl (p, e)) = rw (e, left) (window-cut r.buffer r.head r.size n (omega (arith, c.size)) p)
    at (inr (p, e)) =
        rw (e, left) (window-cut_end r.buffer r.head r.size n (omega (arith, c.size)) v.size_in p)

-- What `load` shows of a chunk is what `consume` takes off the front.
pub contents-consume :
    {r : Ring} (n : ℕ)
    → IsValid r
    → n ≤ read_len r
    → contents r ≡ load r n ++ contents (consume r n)
contents-consume {r} n v h =
    cut (consume r n) v (consume-Consumed n v h)
    ∙ ap (λ xs. xs ++ contents (consume r n)) (sym (load_lem n v h))

-- The object after a chunk has been stored and produced.
record Produced (r : Ring) (xs : List ℕ) (r' : Ring) : Type 0 where
  buffer : r'.buffer ≡ blit r.buffer r.tail xs
  head : r'.head ≡ r.head
  size : r'.size ≡ r.size + length xs
  tail :
      ((r.tail + length xs < capacity r) × (r'.tail ≡ r.tail + length xs))
      ⊎ ((r.tail + length xs ≡ capacity r) × (r'.tail ≡ 0))

produced :
    {r : Ring} (xs : List ℕ)
    → IsValid r
    → length xs ≤ write_len r
    → write_ptr r ≡ some r.tail
    → Produced r xs (produce (store r xs) (length xs))
unfolding produce store
produced {r} xs v h e =
    rw (e, store, produce)
      (record {
        buffer = refl;
        head = refl;
        size = omega (arith, write_len_lem v);
        tail = rw same (
            advance r.tail (length xs) (capacity r) v.tail_in (omega (arith, write_len_lem v))
              v.small);
      })
  where
    same : length (blit r.buffer r.tail xs) ≡ capacity r
    same = length-blit r.buffer r.tail xs (omega (arith, write_len_lem v))

-- What has become of a valid ring after `xs` has been stored and produced.
pub record Extended (r : Ring) (xs : List ℕ) (r' : Ring) : Type 0 where
  pub valid : IsValid r'
  pub capacity_kept : capacity r' ≡ capacity r
  pub size_grown : r'.size ≡ r.size + length xs
  pub bytes : contents r' ≡ contents r ++ xs

extended :
    {r : Ring} (xs : List ℕ) (r' : Ring)
    → IsValid r
    → r.tail + length xs ≤ capacity r
    → r.size + length xs ≤ capacity r
    → Produced r xs r'
    → Extended r xs r'
extended {r} xs r' v p q c = record {
  valid = record {
    small = omega (arith, same, v.small);
    head_in = omega (arith, same, c.head, v.head_in);
    tail_in = omega (arith, same, c.tail, v.head_in);
    size_in = omega (arith, same, c.size);
    tail_at = wrapped v.tail_at c.tail;
  };
  capacity_kept = same;
  size_grown = c.size;
  bytes = grown v.tail_at;
}
  where
    same : capacity r' ≡ capacity r
    same = ap length c.buffer ∙ length-blit r.buffer r.tail xs p

    wrapped :
        (r.tail ≡ r.head + r.size) ⊎ (r.tail + capacity r ≡ r.head + r.size)
        → ((r.tail + length xs < capacity r) × (r'.tail ≡ r.tail + length xs))
          ⊎ ((r.tail + length xs ≡ capacity r) × (r'.tail ≡ 0))
        → (r'.tail ≡ r'.head + r'.size) ⊎ (r'.tail + capacity r' ≡ r'.head + r'.size)
    wrapped (inl e) (inl (_, f)) = inl (omega (arith, c.head, c.size))
    wrapped (inr e) (inl (_, f)) = inr (omega (arith, c.head, c.size, same))
    wrapped (inl e) (inr (d, f)) = inr (omega (arith, c.head, c.size, same))
    wrapped (inr e) (inr (d, f)) = absurd (omega (arith, v.head_in))

    grown :
        (r.tail ≡ r.head + r.size) ⊎ (r.tail + capacity r ≡ r.head + r.size)
        → contents r' ≡ contents r ++ xs
    grown (inl e) = rw (c.buffer, c.head, c.size) (window-blit r.buffer xs r.head r.size r.tail e p)
    grown (inr e) =
        rw (c.buffer, c.head, c.size)
          (window-blit_round r.buffer xs r.head r.size r.tail (omega (arith, v.head_in)) e q)

-- Storing a chunk through `write_ptr`, no longer than `write_len`, and producing it appends it.
pub produce-Extended :
    {r : Ring} (xs : List ℕ)
    → IsValid r
    → write_len r ≢ 0
    → length xs ≤ write_len r
    → Extended r xs (produce (store r xs) (length xs))
produce-Extended {r} xs v ne h =
    extended xs (produce (store r xs) (length xs)) v (omega (arith, write_len_lem v))
      (omega (arith, write_len_lem v)) (produced xs v h (pointer (write_len_lem v).2))
  where
    pointer : (write_len r ≡ 0) ⊎ (write_ptr r ≡ some r.tail) → write_ptr r ≡ some r.tail
    pointer (inl e) = absurd (ne e)
    pointer (inr e) = e

pub capacity-consume : (r : Ring) (n : ℕ) → capacity (consume r n) ≡ capacity r
unfolding consume
capacity-consume r n = refl

pub size-consume : {r : Ring} (n : ℕ) → IsValid r → n ≤ read_len r → (consume r n).size + n ≡ r.size
size-consume n v h = (consume-Consumed n v h).size

join :
    (buf : List ℕ) (h b t : ℕ)
    → b ≤ t
    → (if ltb b t then slice h b buf ++ slice 0 (t - b) buf else slice h b buf)
      ≡ slice h b buf ++ slice 0 (t - b) buf
join buf h b t p = elim (Bool-cases (ltb b t)) [
  | inl e ↦ rw e
  | inr e ↦ rw e (
      sym (
        ap (λ k. slice h b buf ++ slice 0 k buf) (let d : t - b ≡ 0 = ground arith in d)
        ∙ append-nil _))
]

-- `peek` copies a prefix of what the ring holds, round the end if need be, and no more than asked.
pub peek_lem : {r : Ring} (n : ℕ) → IsValid r → peek r n ≡ take n (contents r)
unfolding peek
peek_lem {r} n v = rw near (
    join r.buffer r.head (before_end r.buffer r.head (min n r.size)) (min n r.size) (omega arith)
    ∙ sym (take-window r.buffer r.head r.size n (omega (arith, v.head_in)) v.size_in))
  where
    near :
        min (min n r.size) (sub_size (capacity r) r.head)
        ≡ before_end r.buffer r.head (min n r.size)
    near = omega (arith, v.head_in, v.small)
