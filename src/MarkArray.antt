-- ===== src/MarkArray.antt =====
-- riss/core/SolverTypes.h: class MarkArray, marks that are all reset by counting a step.
-- The vector is a function with its size. The source asserts that an index is below the size; at
-- other indices the functions say nothing of it. What is appended is zero where no write was out of
-- range.
pub mod Steps
use riss.Base.{ℕ, ◌+◌, ◌^◌, Bool, ◌==◌, leb, ltb, if◌then◌else◌, update}

pub record MarkArray : Type 0 where
  pub array : ℕ → ℕ
  pub size : ℕ
  pub step : ℕ

abbrev pub empty : MarkArray
empty = record { array = λ _. 0; size = 0; step = 0 }

unfoldable pub destroy : MarkArray → MarkArray
destroy m = empty

unfoldable pub create : MarkArray → ℕ → MarkArray
create m n = record m { array = λ _. 0; size = n }

unfoldable pub resize : MarkArray → ℕ → MarkArray
resize m n = if ltb m.size n then record m { size = n } else m

unfoldable pub capacity : MarkArray → ℕ → MarkArray
capacity m n = if ltb m.size n then record m { size = n } else m

unfoldable pub reset_at : MarkArray → ℕ → MarkArray
reset_at m i = record m { array = update m.array i 0 }

unfoldable pub reset : MarkArray → MarkArray
reset m = record m { array = λ _. 0; step = 0 }

unfoldable pub next_step : MarkArray → MarkArray
unfolding reset
next_step m =
    let m' = (if leb (2 ^ 30) m.step then reset m else m) in record m' { step = m'.step + 1 }

unfoldable pub is_current_step : MarkArray → ℕ → Bool
is_current_step m i = m.array i == m.step

unfoldable pub set_current_step : MarkArray → ℕ → MarkArray
set_current_step m i = record m { array = update m.array i m.step }

unfoldable pub has_same_index : MarkArray → ℕ → ℕ → Bool
has_same_index m i step = m.array i == step
