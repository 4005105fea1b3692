-- ===== src/Search/Learning.antt =====
-- riss/core/Solver.cc: the backtrack level of a learned clause, at the end of Solver::analyze,
-- Solver::attachClause, Solver::handleLearntClause and Solver::conflictAnalysis, for a configuration
-- in which the learned clause stays as the loop of analyze left it: opt_biAsserting = 0,
-- opt_learnDecPrecent = -1 (no clause of the decisions in its place), ccmin_mode = 0 and no
-- minimisation with binary clauses; and no naive backtracking. Left out: extended resolution, sharing
-- and the proof, activities, statistics, the list of the learned clauses that may be removed, and
-- analyzeNewLearnedClause, which may add units or find a contradiction.
pub mod Second
pub mod Stored
pub mod Jump
pub mod Resume
use riss.Base.{
  ℕ, ◌+◌, Bool, true, false, not, ◌&&◌, ◌||◌, List, [], ◌∷◌, ◌++◌, Option, none, some, ltb, ◌==◌,
  if◌then◌else◌, update, length,
}
use riss.Lit.{Lit, var}
use riss.Lifted.{LBool, l_true, l_false, l_undef}
use riss.Clause.{Clause}
use riss.Checker.{CRef}
use riss.Checker.Operations.{clause_words, attach_lits}
use riss.Search.{
  Reason, no_reason, by_clause, Solver, level, lits, value, unchecked_enqueue, cancel_until,
}
use riss.Search.Final.{Seen}
use riss.Search.Analyze.{analyze}

-- The loop for `max_i`, where `best` is the literal at `max_i`, and the exchange with the literal `x`
-- at index 1: the literal of the highest level, whether it stood in the list, and the list with `x`
-- in its place.
unfoldable pub exchange : Solver → Lit → Lit → List Lit → Lit × Bool × List Lit
exchange s x best [] = (best, false, [])
exchange s x best (q ∷ r) =
    let higher = ltb (level s (var best)) (level s (var q)) in
    let (m, moved, r') = exchange s x (if higher then q else best) r in
    (m, higher || moved, (if higher && not moved then x else q) ∷ r')

-- the clause with a literal of the backtrack level at index 1, and the backtrack level
unfoldable pub backtrack_level : Solver → List Lit → List Lit × ℕ
unfolding exchange
backtrack_level s (k ∷ x ∷ r) =
    let (m, moved, r') = exchange s x x r in (k ∷ m ∷ r', level s (var m))
backtrack_level s c = (c, 0)

-- the marks of analyze_toclear
abbrev pub clear_marks : List Lit → Seen → Seen
clear_marks [] seen = seen
clear_marks (l ∷ c) seen = clear_marks c (update seen (var l) false)

-- ClauseAllocator::alloc, with extra_clause_field = false
unfoldable pub alloc_clause : Bool → List Lit → Solver → Solver
alloc_clause learnt c s = record s {
  memory =
      update s.memory s.next_ref (record {
        mark = false;
        learnt = learnt;
        has_extra = learnt;
        lits = c;
        extra = λ i. false;
      });
  next_ref = s.next_ref + clause_words (length c) + (if learnt then 1 else 0);
}

unfoldable pub attach : CRef → Solver → Solver
attach cr s = record s { watches = attach_lits cr (lits s cr) s.watches }

-- The learned clause is `k` with the literals behind it; `core`: it is kept with the formula.
unfoldable pub handle_learnt_clause : Bool → Lit → List Lit → Solver → LBool × Solver
unfolding alloc_clause attach unchecked_enqueue
handle_learnt_clause core k [] s = elim (value s k) [
  | l_undef ↦ (l_undef, unchecked_enqueue k no_reason s)
  | l_false ↦ (l_false, s)
  | l_true ↦ (l_undef, s)
]
handle_learnt_clause core k (x ∷ r) s =
    let cr = s.next_ref in
    let s' = alloc_clause (not core) (k ∷ x ∷ r) s in
    let s'' = record s' { clauses = if core then s'.clauses ++ cr ∷ [] else s'.clauses } in
    (l_undef, unchecked_enqueue k (by_clause cr) (attach cr s''))

-- analyze, whose marks are taken away at the end, backtracking, and the new clause
unfoldable pub conflict_analysis : Bool → CRef → Solver → Option (LBool × Solver)
unfolding analyze backtrack_level cancel_until handle_learnt_clause
conflict_analysis core confl s = elim (analyze false confl s) [
  | none ↦ none
  | some (c, s') ↦
      let s'' = record s' { seen = clear_marks c s'.seen } in
      let (c', lev) = backtrack_level s'' c in
      elim c' [ [] ↦ none | k ∷ d ↦ some (handle_learnt_clause core k d (cancel_until lev s'')) ]
]
