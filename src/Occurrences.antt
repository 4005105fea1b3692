-- ===== src/Occurrences.antt =====
-- riss/core/SolverTypes.h: class OccLists, lists with lazy deletion. `deleted` is the test of the
-- elements. A vector is a function with its size where it is indexed.
pub mod Clean
mod Tests
use riss.Base.{
  ℕ, zero, suc, ◌+◌, Bool, true, false, not, List, [], ◌∷◌, ◌++◌, ltb, if◌then◌else◌, update,
}

-- `size` is occs.size() and dirty.size()
pub record OccLists {ℓ} (A : Type ℓ) : Type ℓ where
  pub occs : ℕ → List A
  pub dirty : ℕ → Bool
  pub dirties : List ℕ
  pub size : ℕ

module _ {ℓ} {A : Type ℓ} where
  abbrev pub new_occ_lists : OccLists A
  new_occ_lists = record { occs = λ _. []; dirty = λ _. false; dirties = []; size = 0 }

  -- growTo(idx + 1), and growTo(idx + 1, 0) of the flags
  unfoldable pub init : ℕ → OccLists A → OccLists A
  init i s = if ltb s.size (i + 1) then record s { size = i + 1 } else s

  unfoldable pub smudge : ℕ → OccLists A → OccLists A
  smudge i s =
      if s.dirty i
      then s
      else record s { dirty = update s.dirty i true; dirties = s.dirties ++ i ∷ [] }

  unfoldable pub clear : OccLists A → OccLists A
  clear s = new_occ_lists

  unfoldable pub clear_dirties : OccLists A → OccLists A
  clear_dirties s = record s { dirties = [] }

  module _ (deleted : A → Bool) where
    -- vec[j++] = vec[i] for the elements that are not deleted
    unfoldable pub remaining : List A → List A
    remaining [] = []
    remaining (x ∷ xs) = let rest = remaining xs in if not (deleted x) then x ∷ rest else rest

    unfoldable pub clean : ℕ → OccLists A → OccLists A
    clean i s = record s {
      occs = update s.occs i (remaining (s.occs i));
      dirty = update s.dirty i false;
    }

    unfoldable pub lookup : ℕ → OccLists A → List A × OccLists A
    lookup i s = let t = clean i s in if s.dirty i then (t.occs i, t) else (s.occs i, s)

    -- the dirties may contain duplicates
    unfoldable pub clean_each : List ℕ → OccLists A → OccLists A
    clean_each [] s = s
    clean_each (i ∷ is) s =
        let cleaned = clean_each is (clean i s) in
        let passed = clean_each is s in if s.dirty i then cleaned else passed

    unfoldable pub clean_all : OccLists A → OccLists A
    clean_all s = record (clean_each s.dirties s) { dirties = [] }
