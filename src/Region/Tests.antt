-- ===== src/Region/Tests.antt =====
-- Regions that grow.
use riss.Base.{◌+◌, ◌^◌, ◌≤◌, ◌<◌, ◌≡◌, refl, some, arith}
use riss.Region.{Region, empty_region, grow, capacity, reserve, alloc}
use riss.Region.Growth.{reserve-Grown, alloc-within}

reserve-Grown_example :
    (t : Region) × (reserve 2000 1000 empty_region ≡ some t)
    × (1000 ≤ t.cap)
    × (0 ≤ t.cap)
    × (t.cap < 2 ^ 32)
    × (t.sz ≡ 0)
reserve-Grown_example =
    reserve-Grown 2000 1000 empty_region (omega arith) (omega arith) (omega arith)

abbrev used : Region
used = record { sz = 10; cap = 12; wasted = 0 }

alloc-within_example :
    (t : Region) × (alloc 20 5 used ≡ some (10, t)) × (t.sz ≡ 10 + 5) × (t.sz ≤ t.cap)
alloc-within_example = alloc-within 20 5 used (omega arith) (omega arith) (omega arith)

grow_test : grow 10 0 20 0 ≡ capacity 24
unfolding grow
grow_test = refl
