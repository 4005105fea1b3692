-- ===== src/Search/Propagate.antt =====
-- riss/core/Solver.cc: Solver::propagate. Left out: the sharing of clauses, the update of the LBD, the
-- counters, and the proof; `watches.cleanAll()` is that of Occurrences.antt.
pub mod Projection
pub mod Reordered
pub mod Shape
pub mod Good
pub mod Walked
pub mod Ends
use riss.Base.{
  ℕ, zero, suc, ◌+◌, Bool, true, false, not, ◌&&◌, List, [], ◌∷◌, ◌++◌, Option, none, some, ◌==◌,
  ltb, if◌then◌else◌, update, length, get_or,
}
use riss.Lit.{Lit, neg}
use riss.Lifted.{is_true, is_false, is_undef}
use riss.Checker.{CRef, Watcher}
use riss.Checker.Propagate.{order_false, new_watch}
use riss.Search.{Solver, value, lits, vec_at, by_clause, by_lit, unchecked_enqueue}

abbrev pub write_clause : CRef → List Lit → Solver → Solver
write_clause cr c s = record s { memory = update s.memory cr (record (s.memory cr) { lits = c }) }

-- What becomes of a long watcher: it stays in the list, it goes to another list, or its clause is
-- false.
pub data Visit : Type 0 where
  keep move conflict : Watcher → Solver → Visit

-- look for a new watch in the clause with the false literal `f` at data[1]
unfoldable pub look_for_watch : Lit → CRef → List Lit → Solver → Visit
look_for_watch f cr (first ∷ second ∷ r) s =
    let w : Watcher = record { cref = cr; blocker = first; long = true } in
    elim (new_watch (λ l. is_false (value s l)) f r) [
      | some (k, r') ↦
          let s' = write_clause cr (first ∷ k ∷ r') s in
          move w (record s' { watches = update s'.watches (neg k) (s'.watches (neg k) ++ w ∷ []) })
      | none ↦
          if is_false (value s first)
          then conflict w s
          else keep w (unchecked_enqueue first (by_clause cr) s)
    ]
look_for_watch f cr c s = keep (record { cref = cr; blocker = 0; long = true }) s

-- the clause of a watcher whose blocker is not true, with its literals ordered
unfoldable pub visit_clause : Lit → Watcher → List Lit → Solver → Visit
unfolding look_for_watch
visit_clause f w c s =
    let s' = write_clause w.cref c s in
    let first = get_or c 0 0 in
    if not (first == w.blocker) && is_true (value s' first)
    then keep (record { cref = w.cref; blocker = first; long = true }) s'
    else look_for_watch f w.cref c s'

unfoldable pub visit_long : Lit → Watcher → Solver → Visit
unfolding visit_clause
visit_long p w s =
    if is_true (value s w.blocker)
    then keep w s
    else visit_clause (neg p) w (order_false (neg p) (lits s w.cref)) s

-- what the walk over a list gives: the conflict, what is left of the list, the state, and whether
-- propagation stops at once
pub record Walk : Type 0 where
  pub confl : Option CRef
  pub kept : List Watcher
  pub after : Solver
  pub finished : Bool

abbrev pub keeping : Watcher → Walk → Walk
keeping w r = record r { kept = w ∷ r.kept }

-- a binary watcher of `p`; `stop` is !opt_long_conflict, and `next` is the walk over the rest
unfoldable pub after_short :
    Bool
    → Lit
    → Watcher
    → List Watcher
    → (Option CRef → Solver → Walk)
    → Option CRef
    → Solver
    → Walk
after_short stop p w ws next confl s =
    if is_false (value s w.blocker)
    then (if stop
        then record { confl = some w.cref; kept = w ∷ ws; after = s; finished = true }
        else keeping w (next (some w.cref) s))
    else if is_undef (value s w.blocker)
    then keeping w (next confl (unchecked_enqueue w.blocker (by_lit p) s))
    else keeping w (next confl s)

abbrev pub after_long : List Watcher → (Solver → Walk) → Visit → Walk
after_long ws next (keep w s) = keeping w (next s)
after_long ws next (move w s) = next s
after_long ws next (conflict w s) = record {
  confl = some w.cref;
  kept = w ∷ ws;
  after = record s { qhead = length s.trail };
  finished = false;
}

-- the walk over the watchers of `p`
unfoldable pub walk : Bool → Lit → List Watcher → Option CRef → Solver → Walk
unfolding after_short
walk stop p [] confl s = record { confl = confl; kept = []; after = s; finished = false }
walk stop p (w ∷ ws) confl s =
    let next = walk stop p ws in
    if w.long
    then after_long ws (next confl) (visit_long p w s)
    else after_short stop p w ws next confl s

-- one round of the loop
unfoldable pub propagate_lit : Bool → Lit → Option CRef → Solver → Walk
unfolding walk
propagate_lit stop p confl s =
    let s' = record s { qhead = s.qhead + 1; real_head = s.qhead + 1 } in
    let r = walk stop p (s'.watches p) confl s' in
    record r { after = record r.after { watches = update r.after.watches p r.kept } }

-- while (qhead < trail.size()); `none` means that the fuel ran out
unfoldable pub propagate_loop : Bool → ℕ → Option CRef → Solver → Option (Option CRef × Solver)
propagate_loop stop zero confl s = none
propagate_loop stop (suc fuel) confl s =
    if ltb s.qhead (length s.trail)
    then (let r = propagate_lit stop (vec_at s.trail s.qhead 0) confl s in
        let rest = propagate_loop stop fuel r.confl r.after in
        if r.finished then some (r.confl, r.after) else rest)
    else some (confl, s)

-- with as many rounds as there are variables
unfoldable pub propagate : Bool → ℕ → Solver → Option (Option CRef × Solver)
propagate stop n_vars s = propagate_loop stop (n_vars + length s.trail + 1) none s
