-- ===== src/MarkArray/Steps/Tests.antt =====
-- Marks at concrete arrays.
use riss.Base.{◌^◌, ◌≡◌, false, arith}
use riss.MarkArray
use riss.MarkArray.{MarkArray}
use riss.MarkArray.Steps.{Marks, next_step-clears}

-- an array whose counter is at the limit
abbrev full : MarkArray
full = record { array = λ i. 2 ^ 30; size = 4; step = 2 ^ 30 }

next_step-clears_example :
    Marks (MarkArray.next_step full)
    × (MarkArray.is_current_step (MarkArray.next_step full) 2 ≡ false)
next_step-clears_example =
    next_step-clears full (record { below = λ i. omega arith; limit = omega arith }) 2
