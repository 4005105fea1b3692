-- ===== src/Queue/Refine.antt =====
-- The ring buffer refines a sequence: insert appends at the end, pop takes from the front, and a
-- larger buffer keeps the order.
use native.Mathlib.Nat.{mod-eq_of_lt, mod-eq-sub-mod}
use riss.Base.{
  List, [], ◌∷◌, ℕ, zero, suc, ◌+◌, ◌-◌, ◌*◌, ◌/◌, ◌%◌, ◌≤◌, ◌<◌, ◌≡◌, inl, inr, refl, ap, sym, ◌∙◌,
  true, false, ◌==◌, ==→eq, ltb, if◌then◌else◌, update, Bool-cases, arith,
}
use riss.Queue.{Queue, size, get, pop, copy_range, resized, write_end, insert}

mod-wrap : (n m : ℕ) → n < m + m → n % m ≡ (if ltb n m then n else n - m)
mod-wrap n m h = elim (Bool-cases (ltb n m)) [
  | inl b ↦ rw b (mod-eq_of_lt (ground arith))
  | inr b ↦
      let above : m ≤ n = ground arith in
      let low : n - m < m = omega (arith, above) in rw b (mod-eq-sub-mod above ∙ mod-eq_of_lt low)
]

module _ {ℓ} {A : Type ℓ} where
  pub record Valid (q : Queue A) : Type 0 where
    pub first_low : q.first < q.buf_size
    pub end_low : q.end < q.buf_size

  -- the place of an element
  abbrev place : Queue A → ℕ → ℕ
  place q i = if ltb (q.first + i) q.buf_size then q.first + i else q.first + i - q.buf_size

  get-place : (q : Queue A) (i : ℕ) → Valid q → i < q.buf_size → get q i ≡ q.buf (place q i)
  get-place q i v h =
      let low : q.first + i < q.buf_size + q.buf_size = omega (arith, v.first_low, h) in
      ap q.buf (mod-wrap (q.first + i) q.buf_size low)

  size-low : (q : Queue A) → Valid q → size q < q.buf_size
  size-low q v = ground (arith, v.first_low, v.end_low)

  copy_range-below :
      (buf : ℕ → A) (from i count : ℕ) (tmp : ℕ → A) (k : ℕ)
      → k < i
      → copy_range buf from i count tmp k ≡ tmp k
  unfolding copy_range
  copy_range-below buf from i zero tmp k h = refl
  copy_range-below buf from i (suc count) tmp k h =
      copy_range-below buf (from + 1) (i + 1) count (update tmp i (buf from)) k (omega (arith, h))
      ∙ ground arith

  copy_range-at :
      (buf : ℕ → A) (from i count : ℕ) (tmp : ℕ → A) (k : ℕ)
      → k < count
      → copy_range buf from i count tmp (i + k) ≡ buf (from + k)
  unfolding copy_range
  copy_range-at buf from i zero tmp k h = absurd (omega arith)
  copy_range-at buf from i (suc count) tmp zero h =
      let here : i + 0 ≡ i = omega arith in
      let there : from + 0 ≡ from = omega arith in
      let below : i < i + 1 = omega arith in
      rw (here, there)
        (copy_range-below buf (from + 1) (i + 1) count (update tmp i (buf from)) i below
          ∙ ground arith)
  copy_range-at buf from i (suc count) tmp (suc k) h =
      let here : i + suc k ≡ i + 1 + k = omega arith in
      let there : from + suc k ≡ from + 1 + k = omega arith in
      rw (here, there)
        (copy_range-at buf (from + 1) (i + 1) count (update tmp i (buf from)) k (omega (arith, h)))

  -- the larger buffer holds the elements in their order
  resized-buf :
      (fresh : A) (r : Queue A) (k : ℕ)
      → r.first < r.buf_size
      → r.first ≡ r.end
      → k < r.buf_size
      → (resized fresh r).buf k ≡ r.buf (place r k)
  unfolding resized
  resized-buf fresh r k h full low =
      let w = r.buf_size - r.first in
      let upper = copy_range r.buf r.first 0 w (λ _. fresh) in
      elim (Bool-cases (ltb k w)) [
        | inl b ↦
            let here : place r k ≡ r.first + k = ground arith in
            let start : k ≡ 0 + k = omega arith in
            copy_range-below r.buf 0 w r.end upper k (ground arith)
            ∙ (ap upper start
                ∙ copy_range-at r.buf r.first 0 w (λ _. fresh) k (ground arith)
                ∙ ap r.buf (sym here))
        | inr b ↦
            let above : w ≤ k = ground arith in
            let at : k ≡ w + (k - w) = omega (arith, above) in
            let here : place r k ≡ 0 + (k - w) = ground (arith, above, h) in
            ap (copy_range r.buf 0 w r.end upper) at
            ∙ (copy_range-at r.buf 0 w r.end upper (k - w) (omega (arith, low, full, above, h))
                ∙ ap r.buf (sym here))
      ]

  -- what insert does to the sequence
  pub record Appended (q : Queue A) (x : A) (r : Queue A) : Type ℓ where
    pub valid : Valid r
    pub longer : size r ≡ size q + 1
    pub kept : (i : ℕ) → i < size q → get r i ≡ get q i
    pub last : get r (size q) ≡ x

  module _ (fresh x : A) (q : Queue A) (v : Valid q) where
    end-place : place q (size q) ≡ q.end
    end-place = ground (arith, v.first_low, v.end_low)

    other-place : (i : ℕ) → i < size q → (q.end == place q i) ≡ false
    other-place i h = ground (arith, v.first_low, v.end_low)

    -- the elements, when the buffer is not full
    write_end-Appended : (q.first == (write_end x q).end) ≡ false → Appended q x (write_end x q)
    write_end-Appended n =
        let valid : Valid (write_end x q) = record {
          first_low = v.first_low;
          end_low = ground (arith, v.end_low);
        } in
        record {
          valid = valid;
          longer = ground (arith, v.first_low, v.end_low);
          kept = λ i h.
              let low : i < q.buf_size = omega (arith, h, size-low q v) in
              let other = other-place i h in
              get-place (write_end x q) i valid low
              ∙ (ap (λ b. if b then x else q.buf (place q i)) other ∙ sym (get-place q i v low));
          last =
              get-place (write_end x q) (size q) valid (size-low q v)
              ∙ ap (λ p. update q.buf q.end x p) end-place
              ∙ ground arith;
        }

    -- the elements after the buffer was full
    resized-Appended :
        (q.first == (write_end x q).end) ≡ true → Appended q x (resized fresh (write_end x q))
    unfolding resized
    resized-Appended n =
        let r = write_end x q in
        let full : r.first ≡ r.end = ==→eq r.first r.end n in
        let count : size q + 1 ≡ q.buf_size = ground (arith, v.first_low, v.end_low) in
        let larger : q.buf_size < (q.buf_size * 3 + 1) / 2 = omega (arith, v.first_low) in
        let at : (i : ℕ)
            → i < q.buf_size
            → get (resized fresh r) i ≡ update q.buf q.end x (place q i) =
          λ i h.
            let same : 0 + i ≡ i = omega arith in
            ap (resized fresh r).buf (
              ap (λ y. y % ((q.buf_size * 3 + 1) / 2)) same
              ∙ mod-eq_of_lt (omega (arith, h, larger)))
            ∙ resized-buf fresh r i v.first_low full h in
        record {
          valid = record { first_low = omega (arith, larger); end_low = larger };
          longer = ground (arith, count);
          kept = λ i h.
              let low : i < q.buf_size = omega (arith, h, size-low q v) in
              let other = other-place i h in
              at i low
              ∙ (ap (λ b. if b then x else q.buf (place q i)) other ∙ sym (get-place q i v low));
          last =
              at (size q) (size-low q v)
              ∙ ap (λ p. update q.buf q.end x p) end-place
              ∙ ground arith;
        }

  -- insert keeps the buffer valid and appends the element, whether the buffer grows or not.
  pub insert-Appended : (fresh x : A) (q : Queue A) → Valid q → Appended q x (insert fresh x q)
  unfolding insert
  insert-Appended fresh x q v = elim (Bool-cases (q.first == (write_end x q).end)) [
    | inl b ↦ rw b (resized-Appended fresh x q v b)
    | inr b ↦ rw b (write_end-Appended fresh x q v b)
  ]

  -- the elements from an index on, in their order
  abbrev pub contents_from : Queue A → ℕ → ℕ → List A
  contents_from q i zero = []
  contents_from q i (suc n) = get q i ∷ contents_from q (i + 1) n

  abbrev pub contents : Queue A → List A
  contents q = contents_from q 0 (size q)

  module _ (q : Queue A) (v : Valid q) (pos : 0 < size q) where
    popped-Valid : Valid (pop q)
    unfolding pop
    popped-Valid = record { first_low = ground (arith, v.first_low); end_low = v.end_low }

    popped-size : size q ≡ suc (size (pop q))
    unfolding pop
    popped-size = ground (arith, v.first_low, v.end_low)

    popped-get : (i : ℕ) → i + 1 < size q → get (pop q) i ≡ get q (i + 1)
    unfolding pop
    popped-get i h =
        let low : i + 1 < q.buf_size = omega (arith, h, size-low q v) in
        let low' : i < q.buf_size = omega (arith, low) in
        let same : place (pop q) i ≡ place q (i + 1) = ground (arith, v.first_low, low) in
        get-place (pop q) i popped-Valid low' ∙ (ap q.buf same ∙ sym (get-place q (i + 1) v low))

    shifted : (i n : ℕ) → i + n < size q → contents_from q (i + 1) n ≡ contents_from (pop q) i n
    shifted i zero h = refl
    shifted i (suc n) h =
        let e = popped-get i (omega arith) in let r = shifted (i + 1) n (omega arith) in cc

    -- pop of a valid queue that is not empty keeps the buffer valid and takes the first element off
    -- its contents, the others keep their order.
    pub pop-contents : Valid (pop q) × (contents q ≡ get q 0 ∷ contents (pop q))
    pop-contents = (
      popped-Valid,
      ap (contents_from q 0) popped-size
          ∙ ap (λ r. get q 0 ∷ r) (shifted 0 (size (pop q)) (let e = popped-size in omega arith)),
    )
