-- ===== src/Heap/Tests.antt =====
-- A heap of numbers, the smallest first.
use riss.Base.{ℕ, ◌-◌, ◌<◌, ◌≡◌, refl, true, false, [], ◌∷◌, ltb, ◌==◌, if◌then◌else◌, arith}
use riss.Heap.{
  Heap, new_heap, in_heap, up, percolate_up, down, percolate_down, insert, remove_min, fill, forget,
  clear, heapify, build,
}
use riss.Heap.Swap.{Placed}
use riss.Heap.Placed.{insert-Placed, remove_min-Placed}

new_heap-Placed : Placed new_heap
new_heap-Placed = record { known = λ i low. absurd (omega (arith, low)); held = λ n i e. cc }

insert-Placed_example :
    Placed (insert ltb 5 new_heap)
    × ((insert ltb 5 new_heap).size ≡ 1)
    × ((m : ℕ) → in_heap (insert ltb 5 new_heap) m ≡ (if 5 == m then true else in_heap new_heap m))
insert-Placed_example = insert-Placed ltb 5 new_heap new_heap-Placed refl

abbrev one : Heap
one = insert ltb 5 new_heap

one-Placed : Placed one
one-Placed = (insert-Placed ltb 5 new_heap new_heap-Placed refl).0

one-size : 0 < one.size
unfolding insert percolate_up up
one-size = omega arith

remove_min-Placed_example :
    ((remove_min ltb one).0 ≡ one.heap 0)
    × Placed (remove_min ltb one).1
    × ((remove_min ltb one).1.size ≡ one.size - 1)
    × ((m : ℕ)
        → in_heap (remove_min ltb one).1 m ≡ (if one.heap 0 == m then false else in_heap one m))
remove_min-Placed_example = remove_min-Placed ltb one one-Placed one-size

order_test : (remove_min ltb (insert ltb 2 (insert ltb 7 (insert ltb 5 new_heap)))).0 ≡ 2
unfolding insert percolate_up up remove_min
order_test = refl

build_test : (remove_min ltb (remove_min ltb (build ltb (9 ∷ 4 ∷ 6 ∷ 1 ∷ []) new_heap)).1).0 ≡ 4
unfolding build fill clear forget heapify percolate_down down remove_min
build_test = refl
