-- ===== src/BoundedQueue/Sum.antt =====
-- The bounded queue holds the latest values, and its sum is theirs.
use riss.Base.{
  ℕ, zero, suc, ◌+◌, ◌≤◌, ◌<◌, ◌≡◌, ◌⊎◌, inl, inr, refl, ap, ◌^◌, true, false, ◌==◌, update,
  Bool-cases, arith,
}
use riss.BoundedQueue.{Bqueue, minus64, advance, drop_oldest, put, push, grow_to}

-- the sum of the values at the places from `i` up to `i + n`
abbrev pub total : (ℕ → ℕ) → ℕ → ℕ
total f zero = 0
total f (suc n) = f n + total f n

total-update-above : (f : ℕ → ℕ) (n i x : ℕ) → n ≤ i → total (update f i x) n ≡ total f n
total-update-above f zero i x h = refl
total-update-above f (suc n) i x h = ground (arith, total-update-above f n i x (omega arith))

total-update : (f : ℕ → ℕ) (n i x : ℕ) → i < n → total (update f i x) n + f i ≡ total f n + x
total-update f zero i x h = absurd (omega arith)
total-update f (suc n) i x h = elim (Bool-cases (i == n)) [
  | inl b ↦ ground (arith, total-update-above f n i x (ground arith))
  | inr b ↦ ground (arith, total-update f n i x (ground arith))
]

pub total-member : (f : ℕ → ℕ) (n i : ℕ) → i < n → f i ≤ total f n
total-member f zero i h = absurd (omega arith)
total-member f (suc n) i h = elim (Bool-cases (i == n)) [
  | inl b ↦ ground arith
  | inr b ↦ omega (arith, total-member f n i (ground arith))
]

-- Only pushes since the queue was set up: until it is full it is filled from the start, then each
-- value takes the place of the oldest.
pub record Counted (q : Bqueue) : Type 0 where
  pub size : q.elems_size ≡ q.maxsize
  pub positive : 0 < q.maxsize
  pub place : q.first < q.maxsize
  pub filled :
      ((q.queuesize < q.maxsize) × (q.first ≡ q.queuesize) × (q.last ≡ 0))
      ⊎ ((q.queuesize ≡ q.maxsize) × (q.last ≡ q.first))
  pub sum : q.sumofqueue ≡ total q.elems q.queuesize

module _ (x : ℕ) (q : Bqueue) (c : Counted q) (fits : q.sumofqueue + x < 2 ^ 64) where
  drop-filling : q.queuesize < q.maxsize → drop_oldest q ≡ record q { queuesize = suc q.queuesize }
  unfolding drop_oldest
  drop-filling low =
      let open_place : (q.queuesize == q.maxsize) ≡ false = ground arith in rw open_place refl

  push-filling :
      q.queuesize < q.maxsize
      → q.first ≡ q.queuesize
      → q.last ≡ 0
      → Counted (put x (record q { queuesize = suc q.queuesize }))
  push-filling low at start = record {
    size = c.size;
    positive = c.positive;
    place = ground (arith, c.positive, c.place);
    filled = elim (Bool-cases (q.first + 1 == q.maxsize)) [
      | inl b ↦ inr (ground arith, ground arith)
      | inr b ↦ inl (ground (arith, c.place), ground arith, ground arith)
    ];
    sum =
        let above = total-update-above q.elems q.queuesize q.first x (omega (arith, at)) in
        let here : total (update q.elems q.first x) (suc q.queuesize)
            ≡ x + total q.elems q.queuesize =
          ground (arith, above) in
        omega (arith, here, c.sum, fits);
  }

  drop-full :
      q.queuesize ≡ q.maxsize
      → drop_oldest q ≡ record q {
        sumofqueue = minus64 q.sumofqueue (q.elems q.last);
        last = advance q.last q.maxsize;
      }
  unfolding drop_oldest
  drop-full full =
      let no_place : (q.queuesize == q.maxsize) ≡ true = ground arith in
      let room : (q.elems_size == 0) ≡ false = ground (arith, c.size, c.positive) in
      rw (no_place, room) refl

  push-full :
      q.queuesize ≡ q.maxsize
      → q.last ≡ q.first
      → Counted (
          put x (record q {
            sumofqueue = minus64 q.sumofqueue (q.elems q.last);
            last = advance q.last q.maxsize;
          }))
  push-full full same = record {
    size = c.size;
    positive = c.positive;
    place = ground (arith, c.positive, c.place);
    filled = inr (full, ground arith);
    sum =
        let low : q.first < q.queuesize = omega (arith, full, c.place) in
        let oldest : q.elems q.last ≡ q.elems q.first = ap q.elems same in
        let member = total-member q.elems q.queuesize q.first low in
        let new = total-update q.elems q.queuesize q.first x low in
        omega (arith, oldest, member, new, c.sum, fits);
  }

-- push keeps the queue counted, if the sum fits into 64 bits: the sum is that of the values in the
-- queue, before the queue is full and after.
pub push-Counted : (x : ℕ) (q : Bqueue) → Counted q → q.sumofqueue + x < 2 ^ 64 → Counted (push x q)
unfolding push
push-Counted x q c h = elim c.filled [
  | inl (low, at, start) ↦ rw (drop-filling x q c h low) (push-filling x q c h low at start)
  | inr (full, same) ↦ rw (drop-full x q c h full) (push-full x q c h full same)
]

-- growTo sets up an empty queue of the given size, if no value was pushed before.
pub grow_to-Counted :
    (n : ℕ) (q : Bqueue) → q.elems_size ≤ n → 0 < n → q.sumofqueue ≡ 0 → Counted (grow_to n q)
unfolding grow_to
grow_to-Counted n q h pos zero_sum = record {
  size = ground arith;
  positive = pos;
  place = pos;
  filled = inl (pos, refl, refl);
  sum = zero_sum;
}
