-- ===== src/Search/Final.antt =====
-- riss/core/Solver.cc: both overloads of Solver::analyzeFinal.
pub mod Sound
pub mod Cleared
pub mod Correct
use riss.Base.{
  ℕ, Bool, true, false, List, [], ◌∷◌, ◌++◌, ltb, leb, ◌==◌, if◌then◌else◌, update, length, get_or,
}
use riss.Lit.{Lit, Var, neg, var}
use riss.Search.{
  Reason, no_reason, by_clause, by_lit, Solver, decision_level, level, reason, lits, vec_at,
}

abbrev pub Seen : Type 0
Seen = Var → Bool

-- the literals that are not of level 0 are seen
unfoldable pub see : Solver → List Lit → Seen → Seen
see s [] seen = seen
see s (k ∷ ks) seen = see s ks (if ltb 0 (level s (var k)) then update seen (var k) true else seen)

-- for (j = (c.size() == 2) ? 0 : 1; j < c.size(); j++)
abbrev pub tail : List Lit → List Lit
tail [] = []
tail (k ∷ ks) = ks

abbrev pub reason_lits : List Lit → List Lit
reason_lits c = if length c == 2 then c else tail c

unfoldable pub explain : Solver → Lit → Reason → Seen × List Lit → Seen × List Lit
unfolding see
explain s p (by_lit q) (seen, out) = (see s (q ∷ []) seen, out)
explain s p no_reason (seen, out) = (seen, out ++ neg p ∷ [])
explain s p (by_clause cr) (seen, out) = (see s (reason_lits (lits s cr)) seen, out)

unfoldable pub clear_seen : Var → Seen × List Lit → Seen × List Lit
clear_seen x (seen, out) = (update seen x false, out)

-- the loop over the trail, from its newest literal down to the index `lim`
unfoldable pub final_down : Solver → ℕ → List Lit → Seen × List Lit → Seen × List Lit
final_down s lim [] r = r
final_down s lim (p ∷ ps) r =
    let x = var p in
    let r' = if r.0 x then clear_seen x (explain s p (reason s x) r) else r in
    if leb lim (length ps) then final_down s lim ps r' else r

-- analyzeFinal(p, out_conflict)
unfoldable pub analyze_final : Lit → Solver → List Lit × Solver
unfolding final_down explain clear_seen see
analyze_final p s =
    if decision_level s == 0
    then (p ∷ [], s)
    else (let r =
          final_down s (vec_at s.trail_lim 0 0) s.trail (update s.seen (var p) true, p ∷ []) in
        (r.1, record s { seen = update r.0 (var p) false }))

-- the second loop over the conflicting clause
unfoldable pub unsee : Solver → List Lit → Seen → Seen
unsee s [] seen = seen
unsee s (k ∷ ks) seen =
    unsee s ks (if ltb 0 (level s (var k)) then update seen (var k) false else seen)

-- the literals of a conflict: a clause, or the two literals of a binary one
abbrev pub conflict_lits : Solver → Reason → Lit → List Lit
conflict_lits s (by_clause cr) other = lits s cr
conflict_lits s (by_lit q) other = other ∷ q ∷ []
conflict_lits s no_reason other = []

-- analyzeFinal(conflictingClause, out_conflict, otherLit)
unfoldable pub analyze_final_clause : Reason → Lit → Solver → List Lit × Solver
unfolding final_down explain clear_seen see unsee
analyze_final_clause conflicting other s =
    if decision_level s == 0
    then ([], s)
    else (let c = conflict_lits s conflicting other in
        let r = final_down s (vec_at s.trail_lim 0 0) s.trail (see s c s.seen, []) in
        (r.1, record s { seen = unsee s c r.0 }))
