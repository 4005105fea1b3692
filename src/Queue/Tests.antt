-- ===== src/Queue/Tests.antt =====
-- A queue whose buffer grows.
use riss.Base.{[], ◌∷◌, ℕ, ◌+◌, ◌≡◌, refl, arith}
use riss.Queue.{Queue, new_queue, get, pop, insert, copy_range, resized}
use riss.Queue.Refine.{Valid, Appended, contents, insert-Appended, pop-contents}

abbrev empty : Queue ℕ
empty = new_queue 0

empty-Valid : Valid empty
empty-Valid = record { first_low = omega arith; end_low = omega arith }

insert-Appended_example : Appended empty 7 (insert 0 7 empty)
insert-Appended_example = insert-Appended 0 7 empty empty-Valid

-- five elements around the end of a buffer of six
abbrev full : Queue ℕ
full = record { buf = λ i. i + 10; buf_size = 6; first = 4; end = 3 }

pop-contents_example : Valid (pop full) × (contents full ≡ get full 0 ∷ contents (pop full))
pop-contents_example =
    pop-contents full (record { first_low = omega arith; end_low = omega arith }) (omega arith)

-- a queue of one element
pop_last : contents (pop (insert 0 7 empty)) ≡ []
unfolding insert pop resized
pop_last = refl

grown_test : get (insert 0 99 full) 5 ≡ 99
unfolding insert resized copy_range
grown_test = refl

order_test : get (insert 0 99 full) 2 ≡ 10
unfolding insert resized copy_range
order_test = refl
