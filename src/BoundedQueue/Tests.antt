-- ===== src/BoundedQueue/Tests.antt =====
-- A queue of two places.
use riss.Base.{◌+◌, ◌^◌, ◌≡◌, ◌<◌, refl, arith}
use riss.BoundedQueue.{Bqueue, new_bqueue, push, grow_to, drop_oldest, get_avg}
use riss.BoundedQueue.Sum.{Counted, push-Counted, grow_to-Counted}

abbrev two : Bqueue
two = grow_to 2 new_bqueue

two-Counted : Counted two
two-Counted = grow_to-Counted 2 new_bqueue (omega arith) (omega arith) refl

two-fits : two.sumofqueue + 5 < 2 ^ 64
unfolding grow_to
two-fits = omega arith

push-Counted_example : Counted (push 5 two)
push-Counted_example = push-Counted 5 two two-Counted two-fits

-- the third value takes the place of the first
avg_test : get_avg (push 9 (push 7 (push 5 two))) ≡ 8
unfolding get_avg push drop_oldest grow_to
avg_test = refl
