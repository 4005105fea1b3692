-- ===== src/Clause/Order.antt =====
-- riss/core/SolverTypes.h: Clause::operator <, which orders clauses before their removal.
use riss.Base.{
  ℕ, ◌≡◌, refl, Bool, true, false, not, ◌&&◌, List, [], ◌∷◌, ltb, if◌then◌else◌, length, arith,
}
use riss.Lit.{Lit, var}
use riss.Clause.{Clause}

-- Lexicographic, on what `key` reads of the literals: the clauses have the same size. `none_smaller`
-- is the answer when the keys are all equal.
unfoldable pub less_by : (Lit → ℕ) → Bool → List Lit → List Lit → Bool
less_by key none_smaller (l ∷ c) (m ∷ d) =
    let rest = less_by key none_smaller c d in
    if ltb (key m) (key l) then false else if ltb (key l) (key m) then true else rest
less_by key none_smaller c d = none_smaller

unfoldable pub less : Clause → Clause → Bool
less c d =
    let by_lits = less_by (λ l. l) false c.lits d.lits in
    let by_vars = less_by var by_lits c.lits d.lits in
    if d.mark && not c.mark
    then true
    else if not d.mark && c.mark
    then false
    else if ltb (length d.lits) (length c.lits)
    then false
    else if ltb (length c.lits) (length d.lits)
    then true
    else by_vars

less_by-asym :
    (key : Lit → ℕ) (a b : Bool) (c d : List Lit)
    → (a ≡ true → b ≡ false)
    → less_by key a c d ≡ true
    → less_by key b d c ≡ false
unfolding less_by
less_by-asym key a b [] [] h e = h e
less_by-asym key a b [] (m ∷ d) h e = h e
less_by-asym key a b (l ∷ c) [] h e = h e
less_by-asym key a b (l ∷ c) (m ∷ d) h e = ground (arith, less_by-asym key a b c d h)

-- neither is smaller: the literals are equal
less_by-total :
    (c d : List Lit)
    → length c ≡ length d
    → less_by (λ l. l) false c d ≡ false
    → less_by (λ l. l) false d c ≡ false
    → c ≡ d
unfolding less_by
less_by-total [] [] n e f = refl
less_by-total [] (m ∷ d) n e f = absurd (omega (arith, n))
less_by-total (l ∷ c) [] n e f = absurd (omega (arith, n))
less_by-total (l ∷ c) (m ∷ d) n e f =
    let n' : length c ≡ length d = omega (arith, n) in
    let first : l ≡ m = ground arith in
    let rest = less_by-total c d n' (ground arith) (ground arith) in cc

-- with the second answer in place of the first
less_by-below :
    (key : Lit → ℕ) (a b : Bool) (c d : List Lit)
    → less_by key a c d ≡ false
    → less_by key b d c ≡ false
    → (a ≡ false) × (b ≡ false)
unfolding less_by
less_by-below key a b [] [] e f = (e, f)
less_by-below key a b [] (m ∷ d) e f = (e, f)
less_by-below key a b (l ∷ c) [] e f = (e, f)
less_by-below key a b (l ∷ c) (m ∷ d) e f = less_by-below key a b c d (ground arith) (ground arith)

abbrev by_lits : Clause → Clause → Bool
by_lits c d = less_by (λ l. l) false c.lits d.lits

abbrev by_vars : Clause → Clause → Bool
by_vars c d = less_by var (by_lits c d) c.lits d.lits

-- operator < is asymmetric.
pub less-asym : (c d : Clause) → less c d ≡ true → less d c ≡ false
unfolding less
less-asym c d h =
    let inner : by_lits c d ≡ true → by_lits d c ≡ false =
      less_by-asym (λ l. l) false false c.lits d.lits (λ e. refl) in
    let outer : by_vars c d ≡ true → by_vars d c ≡ false =
      less_by-asym var (by_lits c d) (by_lits d c) c.lits d.lits inner in
    ground (arith, outer)

-- neither is less: the tests before the literals were all passed
less-none :
    (c d : Clause)
    → less c d ≡ false
    → less d c ≡ false
    → (c.mark ≡ d.mark)
      × (length c.lits ≡ length d.lits)
      × (by_vars c d ≡ false)
      × (by_vars d c ≡ false)
unfolding less
less-none c d e f =
    let marks : c.mark ≡ d.mark = ground arith in
    let sizes : length c.lits ≡ length d.lits = ground arith in
    (marks, sizes, ground arith, ground arith)

-- If of two clauses neither is less than the other, then they have the same literals in the same order
-- and the same mark.
pub less-total :
    (c d : Clause) → less c d ≡ false → less d c ≡ false → (c.lits ≡ d.lits) × (c.mark ≡ d.mark)
less-total c d e f =
    let (marks, sizes, g, h) = less-none c d e f in
    let (k, l) = less_by-below var (by_lits c d) (by_lits d c) c.lits d.lits g h in
    (less_by-total c.lits d.lits sizes k l, marks)
