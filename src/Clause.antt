-- ===== src/Clause.antt =====
-- riss/core/SolverTypes.h: class Clause, and its operations that change the literals.
-- The word behind the literals is read as its bits, for the abstraction of problem clauses.
-- Assertions are not evaluated (NDEBUG).
pub mod Subsume
pub mod Sorting
pub mod Order
pub mod Abstraction
pub mod Subsumption
mod Tests
use riss.Base.{
  ℕ, zero, suc, ◌%◌, Bool, true, false, not, ◌&&◌, List, [], ◌∷◌, ◌==◌, if◌then◌else◌, update,
  length, ltb,
}
use riss.Lit.{Lit, var}
use riss.Alg.{index_of, swap_last, remove_at}

-- the header bits that the modelled code reads
pub record Clause : Type 0 where
  pub mark : Bool
  pub learnt : Bool
  pub has_extra : Bool
  pub lits : List Lit
  pub extra : ℕ → Bool

-- abstraction |= 1 << (var(lit) & 31), for each literal
abbrev pub abstraction_from : (ℕ → Bool) → List Lit → ℕ → Bool
abstraction_from w [] = w
abstraction_from w (l ∷ c) = abstraction_from (update w (var l % 32) true) c

abbrev pub no_bits : ℕ → Bool
no_bits i = false

unfoldable pub calc_abstraction : Clause → Clause
calc_abstraction c = record c { extra = abstraction_from no_bits c.lits }

-- remove_lit without its last step: the literals behind the first `p` move one place to the front,
-- and the last place is dropped, which is the last literal if there is no `p`
unfoldable pub shift_out : Lit → List Lit → List Lit
shift_out p [] = []
shift_out p (l ∷ []) = []
shift_out p (l ∷ m ∷ c) = if l == p then m ∷ c else l ∷ shift_out p (m ∷ c)

-- if (has_extra() && size() > 1 && !learnt) calcAbstraction()
unfoldable pub refresh : Clause → Clause
unfolding calc_abstraction
refresh c = if c.has_extra && ltb 1 (length c.lits) && not c.learnt then calc_abstraction c else c

unfoldable pub remove_lit : Lit → Clause → Clause
remove_lit p c = refresh (record c { lits = shift_out p c.lits })

unfoldable pub remove_lit_unsorted : Lit → Clause → Clause
remove_lit_unsorted p c =
    refresh (record c { lits = swap_last c.lits (index_of (λ l. l == p) c.lits) })

unfoldable pub strengthen : Lit → Clause → Clause
strengthen p c = remove_lit p c

-- removePositionUnsorted and removePositionSorted recompute the abstraction of a unit, too
unfoldable pub remove_position_unsorted : ℕ → Clause → Clause
unfolding calc_abstraction
remove_position_unsorted i c =
    let d = record c { lits = swap_last c.lits i } in
    if c.has_extra && not c.learnt then calc_abstraction d else d

unfoldable pub remove_position_sorted : ℕ → Clause → Clause
unfolding calc_abstraction
remove_position_sorted i c =
    let d = record c { lits = remove_at c.lits i } in
    if c.has_extra && not c.learnt then calc_abstraction d else d
