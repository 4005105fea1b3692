-- ===== src/Search/Learning/Resume.antt =====
-- Solver::conflictAnalysis returns to a valid state at a lower level.
use riss.Base.{◌≡◌, ◌<◌, inl, inr, sym, Bool, false, List, [], ◌∷◌, All, Option, none, some, arith}
use riss.Lit.{Lit, Var, IsMem, neg, var}
use riss.Lifted.{LBool}
use riss.Semantics.{Entails}
use riss.Checker.{CRef}
use riss.Checker.Watched.{NoDup}
use riss.Search.{Solver, decision_level, level, lits, cancel_until}
use riss.Search.Justified.{IsValid}
use riss.Search.Analyze.{analyze}
use riss.Search.Analyze.Reasons.{Structured}
use riss.Search.Analyze.Selected.{Same}
use riss.Search.Analyze.Learned.{Asserting}
use riss.Search.Analyze.Correct.{LearnsFrom, Asserting-same, analyze_lem}
use riss.Search.Learning.{backtrack_level, clear_marks, handle_learnt_clause, conflict_analysis}
use riss.Search.Learning.Stored.{NoReason}
use riss.Search.Learning.Jump.{Resumes, backjump}

Resumes-same :
    (f : List (List Lit)) (s s' : Solver)
    → Same s s'
    → (o : Option (LBool × Solver)) → Resumes f s' o
    → Resumes f s o
Resumes-same f s s' e none h = h
Resumes-same f s s' (et, ev, el, en) (some (b, u)) (r, v, low, k, latest, tr) =
    (r, v, rw (sym el) low, k, rw (sym et, sym ev, sym el) latest, tr)

Same-sym : (s s' : Solver) → Same s s' → Same s' s
Same-sym s s' (et, ev, el, en) = (sym et, sym ev, sym el, sym en)

NoReason-same : (s s' : Solver) → Same s s' → NoReason s s.next_ref → NoReason s' s'.next_ref
NoReason-same s s' (et, ev, el, en) h = rw (ev, en) h

module _ (f : List (List Lit)) (core : Bool) (s : Solver) (n : NoReason s s.next_ref)
    (deciding : 0 < decision_level s) where
  resumed :
      (o : Option (List Lit × Solver))
      → LearnsFrom f false s o
      → Resumes f s (elim o [
        | none ↦ none
        | some (c, s') ↦
            let s'' = record s' { seen = clear_marks c s'.seen } in
            let (c', lev) = backtrack_level s'' c in
            elim c' [
              | [] ↦ none
              | k ∷ d ↦ some (handle_learnt_clause core k d (cancel_until lev s''))
            ]
      ])
  resumed none h = h
  resumed (some ([], s')) (ent, asserts, v, same) = absurd asserts
  resumed (some (k ∷ d, s')) (ent, asserts, v, same) =
      let s'' : Solver = record s' { seen = clear_marks (k ∷ d) s'.seen } in
      let v' : IsValid f s'' = record {
        justified = v.justified;
        holding = v.holding;
        on_trail = v.on_trail;
        leveled = v.leveled;
        limits = v.limits;
        head = v.head;
      } in
      let asserts' : Asserting false s'' (k ∷ d) =
        Asserting-same false s'' s (Same-sym s s' same) (k ∷ d) asserts in
      let pos : 0 < decision_level s'' = rw (same.2) deciding in
      Resumes-same f s s'' same _ (
        backjump core s'' v' (NoReason-same s s'' same n) k d ent asserts'.0
          (elim asserts'.1 [ inl a ↦ a | inr b ↦ absurd (let e = b.0 in ground arith) ]) pos)

-- If a clause that follows from the formula is false on a valid trail and one of its literals has the
-- current level, above 0, conflictAnalysis ends without a contradiction: the state is valid, its
-- decision level is lower, and a literal that was false at the level of the conflict is true. This is
-- for states where no clause has a literal twice, no variable is marked, every decision above level 0
-- is the first literal of its level, a binary reason has the level of what it implies, and the next
-- free reference is of no reason.
pub conflict_analysis_lem :
    {f : List (List Lit)} (core : Bool) (confl : CRef) (k : Lit) (s : Solver)
    → IsValid f s
    → ((cr : CRef) → NoDup (lits s cr))
    → Structured s.vardata s.trail
    → 0 < decision_level s
    → Entails f (lits s confl)
    → All (λ q. IsMem (neg q) s.trail) (lits s confl)
    → IsMem k (lits s confl)
    → level s (var k) ≡ decision_level s
    → ((v : Var) → s.seen v ≡ false)
    → NoReason s s.next_ref
    → Resumes f s (conflict_analysis core confl s)
unfolding conflict_analysis
conflict_analysis_lem {f} core confl k s v nd st pos ent fa m at cl n =
    resumed f core s n pos (analyze false confl s)
      (analyze_lem false confl k s v nd st pos ent fa m at cl)
