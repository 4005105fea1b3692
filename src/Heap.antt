-- ===== src/Heap.antt =====
-- riss/mtl/Heap.h: class Heap, a binary minimum heap of integers with the place of each element.
-- An entry -1 of `indices` is `none`, and so is an entry behind its size; `lt` is the comparator.
-- Assertions are not evaluated.
pub mod Swap
pub mod Placed
mod Tests
use riss.Base.{
  ℕ, zero, suc, ◌+◌, ◌-◌, ◌*◌, ◌/◌, Bool, true, false, not, ◌&&◌, List, [], ◌∷◌, Option, none, some,
  ◌==◌, ltb, if◌then◌else◌, update, length,
}

pub record Heap : Type 0 where
  pub heap : ℕ → ℕ
  pub size : ℕ
  pub indices : ℕ → Option ℕ
  pub indices_size : ℕ

abbrev pub new_heap : Heap
new_heap = record { heap = λ _. 0; size = 0; indices = λ _. none; indices_size = 0 }

abbrev pub left : ℕ → ℕ
left i = i * 2 + 1

abbrev pub right : ℕ → ℕ
right i = (i + 1) * 2

abbrev pub parent : ℕ → ℕ
parent i = (i - 1) / 2

abbrev pub is_index : Option ℕ → Bool
is_index none = false
is_index (some i) = true

abbrev pub in_heap : Heap → ℕ → Bool
in_heap h n = is_index (h.indices n)

-- heap[i] = x; indices[x] = i
abbrev pub place : ℕ → ℕ → Heap → Heap
place x i h = record h { heap = update h.heap i x; indices = update h.indices x (some i) }

-- indices[n], which is not -1 where it is used
abbrev pub index_or_zero : Option ℕ → ℕ
index_or_zero none = 0
index_or_zero (some i) = i

-- indices.growTo(n + 1, -1); the new element is put at the end
abbrev pub append : ℕ → Heap → Heap
append n h = record {
  heap = update h.heap h.size n;
  size = suc h.size;
  indices = update h.indices n (some h.size);
  indices_size = if ltb h.indices_size (n + 1) then n + 1 else h.indices_size;
}

-- the last element takes the first place; the heap is not empty
abbrev pub drop_first : Heap → Heap
drop_first h =
    let last = h.heap (h.size - 1) in
    record h {
      heap = update h.heap 0 last;
      size = h.size - 1;
      indices = update (update h.indices last (some 0)) (h.heap 0) none;
    }

-- forget the places of the first `n` elements
unfoldable pub forget : ℕ → Heap → Heap
forget zero h = h
forget (suc n) h = let r = forget n h in record r { indices = update r.indices (h.heap n) none }

unfoldable pub clear : Heap → Heap
clear h = record (forget h.size h) { size = 0 }

-- indices[ns[i]] = i; heap.push(ns[i])
unfoldable pub fill : List ℕ → Heap → Heap
fill [] h = h
fill (n ∷ ns) h = fill ns (record h {
  heap = update h.heap h.size n;
  size = suc h.size;
  indices = update h.indices n (some h.size);
})

-- addNewElement(number); `none` is -1
unfoldable pub add_new_element : Option ℕ → Heap → Heap
add_new_element none h = record h { indices_size = h.indices_size + 1 }
add_new_element (some number) h = record h {
  indices_size = if ltb h.indices_size (number + 1) then number + 1 else h.indices_size;
}

module _ (lt : ℕ → ℕ → Bool) where
  -- the loop of percolateUp, with x at the open place `i`
  unfoldable pub up : ℕ → ℕ → ℕ → Heap → Heap
  up zero x i h = place x i h
  up (suc fuel) x i h =
      let p = parent i in
      let rest = up fuel x p (place (h.heap p) i h) in
      if not (i == 0) && lt x (h.heap p) then rest else place x i h

  unfoldable pub percolate_up : ℕ → Heap → Heap
  percolate_up i h = up i (h.heap i) i h

  -- the smaller child
  abbrev pub child_of : ℕ → Heap → ℕ
  child_of i h =
      if ltb (right i) h.size && lt (h.heap (right i)) (h.heap (left i)) then right i else left i

  -- the loop of percolateDown, with x at the open place `i`
  unfoldable pub down : ℕ → ℕ → ℕ → Heap → Heap
  down zero x i h = place x i h
  down (suc fuel) x i h =
      let child = child_of i h in
      let rest = down fuel x child (place (h.heap child) i h) in
      if ltb (left i) h.size && lt (h.heap child) x then rest else place x i h

  unfoldable pub percolate_down : ℕ → Heap → Heap
  percolate_down i h = down h.size (h.heap i) i h

  unfoldable pub decrease : ℕ → Heap → Heap
  decrease n h = percolate_up (index_or_zero (h.indices n)) h

  unfoldable pub increase : ℕ → Heap → Heap
  increase n h = percolate_down (index_or_zero (h.indices n)) h

  unfoldable pub insert : ℕ → Heap → Heap
  insert n h = percolate_up h.size (append n h)

  unfoldable pub update_key : ℕ → Heap → Heap
  update_key n h =
      let up_first = percolate_up (index_or_zero (h.indices n)) h in
      let both = percolate_down (index_or_zero (up_first.indices n)) up_first in
      if in_heap h n then both else insert n h

  unfoldable pub remove_min : Heap → ℕ × Heap
  remove_min h = let d = drop_first h in (h.heap 0, if ltb 1 d.size then percolate_down 0 d else d)

  -- for (i = heap.size() / 2 - 1; i >= 0; i--) percolateDown(i), from `i - 1`
  unfoldable pub heapify : ℕ → Heap → Heap
  heapify zero h = h
  heapify (suc i) h = heapify i (percolate_down i h)

  unfoldable pub build : List ℕ → Heap → Heap
  build ns h = let f = fill ns (clear h) in heapify (f.size / 2) f
