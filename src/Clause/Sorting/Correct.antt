-- ===== src/Clause/Sorting/Correct.antt =====
-- Clause::sort orders the literals and keeps them all.
use mathlib.Core.List.{Permᴰ}
use mathlib.Core.List.Permᴰ
use riss.Base.{◌≤◌, inl, inr, refl, List, [], ◌∷◌, All, All-map, Bool-cases, ltb, arith}
use riss.Lit.{Lit}
use riss.Clause.{Clause}
use riss.Clause.Sorting.{insert_key, reverse_onto, sort_from, sort}

abbrev pub Sorted : List Lit → Type 0
Sorted [] = Unit
Sorted (l ∷ c) = All (λ m. l ≤ m) c × Sorted c

-- the sorted part, from its end
abbrev Falling : List Lit → Type 0
Falling [] = Unit
Falling (l ∷ r) = All (λ m. m ≤ l) r × Falling r

insert_key-All :
    (P : Lit → Type 0) (key : Lit) (r : List Lit) → P key → All P r → All P (insert_key key r)
unfolding insert_key
insert_key-All P key [] p h = (p, tt)
insert_key-All P key (l ∷ r) p h = elim (Bool-cases (ltb key l)) [
  | inl b ↦ rw b (h.0, insert_key-All P key r p h.1)
  | inr b ↦ rw b (p, (h.0, h.1))
]

insert_key-Falling : (key : Lit) (r : List Lit) → Falling r → Falling (insert_key key r)
unfolding insert_key
insert_key-Falling key [] h = (tt, tt)
insert_key-Falling key (l ∷ r) h = elim (Bool-cases (ltb key l)) [
  | inl b ↦
      let low : key ≤ l = ground arith in
      rw b (insert_key-All (λ m. m ≤ l) key r low h.0, insert_key-Falling key r h.1)
  | inr b ↦
      let low : l ≤ key = ground arith in
      rw b ((low, All-map r (λ m k. omega (arith, k, low)) h.0), (h.0, h.1))
]

insert_key-perm : (key : Lit) (r : List Lit) → Permᴰ (key ∷ r) (insert_key key r)
unfolding insert_key
insert_key-perm key [] = Permᴰ.refl _
insert_key-perm key (l ∷ r) = elim (Bool-cases (ltb key l)) [
  | inl b ↦ rw b (Permᴰ.trans (Permᴰ.swap refl refl) (Permᴰ.cons refl (insert_key-perm key r)))
  | inr b ↦ rw b (Permᴰ.refl _)
]

reverse_onto-Sorted :
    (r c : List Lit)
    → Falling r
    → Sorted c
    → All (λ m. All (λ l. m ≤ l) c) r
    → Sorted (reverse_onto r c)
reverse_onto-Sorted [] c h k b = k
reverse_onto-Sorted (l ∷ r) c h k b = reverse_onto-Sorted r (l ∷ c) h.1 (b.0, k) (both r h.0 b.1)
  where
    both :
        (r : List Lit)
        → All (λ m. m ≤ l) r
        → All (λ m. All (λ l. m ≤ l) c) r
        → All (λ m. All (λ l. m ≤ l) (l ∷ c)) r
    both [] h b = tt
    both (m ∷ r) h b = ((h.0, b.0), both r h.1 b.1)

below_none : (r : List Lit) → All (λ m. All (λ l. m ≤ l) []) r
below_none [] = tt
below_none (m ∷ r) = (tt, below_none r)

reverse_onto-perm : (r c d : List Lit) → Permᴰ c d → Permᴰ (reverse_onto r c) (reverse_onto r d)
reverse_onto-perm [] c d p = p
reverse_onto-perm (l ∷ r) c d p = reverse_onto-perm r (l ∷ c) (l ∷ d) (Permᴰ.cons refl p)

-- a literal may stand at either end
reverse_onto-cons :
    (r c : List Lit) (l : Lit) → Permᴰ (l ∷ reverse_onto r c) (reverse_onto r (l ∷ c))
reverse_onto-cons [] c l = Permᴰ.refl _
reverse_onto-cons (m ∷ r) c l =
    Permᴰ.trans (reverse_onto-cons r (m ∷ c) l)
      (reverse_onto-perm r (l ∷ m ∷ c) (m ∷ l ∷ c) (Permᴰ.swap refl refl))

reverse_onto-move :
    {r q : List Lit} (c : List Lit) → Permᴰ r q → Permᴰ (reverse_onto r c) (reverse_onto q c)
reverse_onto-move c Permᴰ.nil = Permᴰ.refl _
reverse_onto-move c (Permᴰ.cons {a = a} {b = b} {l₁ = x} {l₂ = y} e p) =
    Permᴰ.trans (Permᴰ.symm (reverse_onto-cons x c a))
      (Permᴰ.trans (Permᴰ.cons e (reverse_onto-move c p)) (reverse_onto-cons y c b))
reverse_onto-move c (Permᴰ.swap {a = a} {b = b} {a' = a'} {b' = b'} {l = l} e f) =
    reverse_onto-perm l (b ∷ a ∷ c) (b' ∷ a' ∷ c) (Permᴰ.swap f e)
reverse_onto-move c (Permᴰ.trans p q) = Permᴰ.trans (reverse_onto-move c p) (reverse_onto-move c q)

sort_from-Sorted : (r c : List Lit) → Falling r → Sorted (sort_from r c)
unfolding sort_from
sort_from-Sorted r [] h = reverse_onto-Sorted r [] h tt (below_none r)
sort_from-Sorted r (key ∷ c) h = sort_from-Sorted (insert_key key r) c (insert_key-Falling key r h)

sort_from-perm : (r c : List Lit) → Permᴰ (reverse_onto r c) (sort_from r c)
unfolding sort_from
sort_from-perm r [] = Permᴰ.refl _
sort_from-perm r (key ∷ c) =
    Permᴰ.trans (reverse_onto-move c (insert_key-perm key r)) (sort_from-perm (insert_key key r) c)

-- sort leaves the literals in ascending order, and it only reorders them.
pub sort-Sorted : (c : Clause) → Sorted (sort c).lits × Permᴰ c.lits (sort c).lits
unfolding sort
sort-Sorted c = (sort_from-Sorted [] c.lits tt, sort_from-perm [] c.lits)
