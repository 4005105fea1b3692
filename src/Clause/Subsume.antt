-- ===== src/Clause/Subsume.antt =====
-- riss/core/SolverTypes.h: Clause::subsumes, ordered_subsumes and ordered_equals.
use riss.Base.{
  ℕ, zero, suc, Bool, true, false, not, ◌&&◌, ◌||◌, List, [], ◌∷◌, Option, none, some, ◌==◌, ltb,
  if◌then◌else◌, length,
}
use riss.Lit.{Lit, LitCode, lit, lit_undef, lit_error, neg}
use riss.Clause.{Clause}

-- (abs & ~other.abs) != 0, on the lowest `n` bits
abbrev pub any_beyond : ℕ → (ℕ → Bool) → (ℕ → Bool) → Bool
any_beyond zero a b = false
any_beyond (suc n) a b = (a n && not (b n)) || any_beyond n a b

abbrev pub is_lit_undef : LitCode → Bool
is_lit_undef lit_undef = true
is_lit_undef _ = false

-- the inner loop: search for the literal, or for its complement if none was used before
unfoldable pub search_lit : LitCode → Lit → List Lit → Option LitCode
search_lit ret l [] = none
search_lit ret l (m ∷ d) =
    let rest = search_lit ret l d in
    if l == m then some ret else if is_lit_undef ret && (l == neg m) then some (lit l) else rest

unfoldable pub subsumes_from : LitCode → List Lit → List Lit → LitCode
subsumes_from ret [] d = ret
subsumes_from ret (l ∷ c) d = elim (search_lit ret l d) [
  | none ↦ lit_error
  | some r ↦ subsumes_from r c d
]

unfoldable pub subsumes : Clause → Clause → LitCode
subsumes c d =
    if ltb (length d.lits) (length c.lits) || any_beyond 32 c.extra d.extra
    then lit_error
    else subsumes_from lit_undef c.lits d.lits

-- both clauses are sorted
unfoldable pub ordered_subsumes_lits : List Lit → List Lit → Bool
ordered_subsumes_lits [] d = true
ordered_subsumes_lits (l ∷ c) [] = false
ordered_subsumes_lits (l ∷ c) (m ∷ d) =
    let both = ordered_subsumes_lits c d in
    let one = ordered_subsumes_lits (l ∷ c) d in
    if l == m then both else if ltb l m then false else one

unfoldable pub ordered_subsumes : Clause → Clause → Bool
ordered_subsumes c d = ordered_subsumes_lits c.lits d.lits

abbrev pub equal_lits : List Lit → List Lit → Bool
equal_lits [] d = true
equal_lits (l ∷ c) [] = true
equal_lits (l ∷ c) (m ∷ d) = (l == m) && equal_lits c d

unfoldable pub ordered_equals : Clause → Clause → Bool
ordered_equals c d =
    if not (length c.lits == length d.lits) then false else equal_lits c.lits d.lits
