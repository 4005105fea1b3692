-- ===== src/MarkArray/Steps.antt =====
-- Counting the step removes all marks, and the counter stays far below 2 ^ 32.
mod Tests
use riss.Base.{
  ℕ, suc, ◌+◌, ◌^◌, ◌≤◌, ◌<◌, ◌≡◌, ◌≢◌, inl, inr, refl, Bool, true, false, arith, ◌==◌, leb, ltb,
  if◌then◌else◌, update, ==-refl, Bool-cases,
}
use riss.MarkArray
use riss.MarkArray.{MarkArray}

-- no mark is of a later step, and the step is within the limit
pub record Marks (m : MarkArray) : Type 0 where
  pub below : (i : ℕ) → m.array i ≤ m.step
  pub limit : m.step ≤ 2 ^ 30

pub empty-Marks : Marks MarkArray.empty
empty-Marks = record { below = λ i. omega arith; limit = omega arith }

pub next_step-Marks : (m : MarkArray) → Marks m → Marks (MarkArray.next_step m)
unfolding MarkArray.next_step MarkArray.reset
next_step-Marks m h = elim (Bool-cases (leb (2 ^ 30) m.step)) [
  | inl b ↦ rw b (record { below = λ i. omega arith; limit = omega arith })
  | inr b ↦
      let low : m.step + 1 ≤ 2 ^ 30 = ground arith in
      rw b (record { below = λ i. omega (arith, h.below i); limit = low })
]

pub set_current_step-Marks :
    (m : MarkArray) (i : ℕ) → Marks m → Marks (MarkArray.set_current_step m i)
unfolding MarkArray.set_current_step
set_current_step-Marks m i h = record { below = λ j. ground (arith, h.below j); limit = h.limit }

-- nextStep of an array whose marks are all of earlier steps keeps it so, stays within the limit of the
-- counter, and leaves no index marked, also when the counter is set back.
pub next_step-clears :
    (m : MarkArray)
    → Marks m
    → (i : ℕ)
    → Marks (MarkArray.next_step m) × (MarkArray.is_current_step (MarkArray.next_step m) i ≡ false)
unfolding MarkArray.is_current_step MarkArray.next_step MarkArray.reset
next_step-clears m h i = (
  next_step-Marks m h,
  elim (Bool-cases (leb (2 ^ 30) m.step)) [
    | inl b ↦ rw b refl
    | inr b ↦ rw b (ground (arith, h.below i))
  ],
)
