-- ===== src/Alg.antt =====
-- riss/mtl/Alg.h: removing and searching for elements of a vector.
pub mod Kept
use riss.Base.{
  ℕ, zero, suc, ◌+◌, ◌-◌, ◌<◌, ◌≡◌, refl, Bool, true, false, List, [], ◌∷◌, ◌++◌, Option, none,
  some, ltb, length, set, All, if◌then◌else◌, arith,
}

module _ {ℓ} {A : Type ℓ} where
  -- the first index at which the test holds, or the size
  unfoldable pub index_of : (A → Bool) → List A → ℕ
  index_of p [] = 0
  index_of p (x ∷ xs) = if p x then 0 else suc (index_of p xs)

  abbrev pub last? : List A → Option A
  last? [] = none
  last? (x ∷ xs) = elim (last? xs) [ none ↦ some x | some z ↦ some z ]

  -- pop
  abbrev pub pop : List A → List A
  pop [] = []
  pop (x ∷ []) = []
  pop (x ∷ y ∷ xs) = x ∷ pop (y ∷ xs)

  -- ts[j] = ts[ts.size() - 1]; ts.pop(); a write behind the end changes nothing
  unfoldable pub swap_last : List A → ℕ → List A
  swap_last xs j = elim (last? xs) [ none ↦ [] | some z ↦ pop (set xs j z) ]

  unfoldable pub remove_unsort : (A → Bool) → List A → List A
  unfolding index_of swap_last
  remove_unsort p xs = swap_last xs (index_of p xs)

  unfoldable pub find : (A → Bool) → List A → Bool
  unfolding index_of
  find p xs = ltb (index_of p xs) (length xs)

  -- for (; j < ts.size() - 1; j++) ts[j] = ts[j + 1]; ts.pop()
  abbrev pub remove_at : List A → ℕ → List A
  remove_at [] j = []
  remove_at (x ∷ xs) zero = xs
  remove_at (x ∷ []) (suc j) = []
  remove_at (x ∷ y ∷ xs) (suc j) = x ∷ remove_at (y ∷ xs) j

  unfoldable pub remove : (A → Bool) → List A → List A
  unfolding index_of
  remove p xs = remove_at xs (index_of p xs)
