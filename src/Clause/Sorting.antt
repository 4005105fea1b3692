-- ===== src/Clause/Sorting.antt =====
-- riss/core/SolverTypes.h: Clause::sort, an insertion sort.
pub mod Correct
use riss.Base.{ℕ, List, [], ◌∷◌, Bool, ltb, if◌then◌else◌}
use riss.Lit.{Lit}
use riss.Clause.{Clause}

-- The inner loop on the sorted part, which is listed from its end.
unfoldable pub insert_key : Lit → List Lit → List Lit
insert_key key [] = key ∷ []
insert_key key (l ∷ r) = if ltb key l then l ∷ insert_key key r else key ∷ l ∷ r

-- from the end to the front
abbrev pub reverse_onto : List Lit → List Lit → List Lit
reverse_onto [] c = c
reverse_onto (l ∷ r) c = reverse_onto r (l ∷ c)

unfoldable pub sort_from : List Lit → List Lit → List Lit
sort_from r [] = reverse_onto r []
sort_from r (key ∷ c) = sort_from (insert_key key r) c

unfoldable pub sort : Clause → Clause
sort c = record c { lits = sort_from [] c.lits }
