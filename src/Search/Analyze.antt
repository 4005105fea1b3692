-- ===== src/Search/Analyze.antt =====
-- riss/core/Solver.cc: Solver::analyze up to the learned clause before its minimisation, with
-- opt_allUipHack = 0. Left out: activities, LBD, the sharing of clauses, OTFSS.
pub mod Counted
pub mod Resolvent
pub mod Cover
pub mod Reasons
pub mod Selected
pub mod Chosen
pub mod Learned
pub mod Correct
use riss.Base.{
  ℕ, ◌+◌, ◌-◌, Bool, true, false, not, ◌&&◌, List, [], ◌∷◌, ◌++◌, Option, none, some, ltb, leb,
  ◌==◌, if◌then◌else◌, update, length,
}
use riss.Lit.{Lit, neg, var}
use riss.Lifted.{is_false}
use riss.Checker.{CRef}
use riss.Search.{
  Reason, no_reason, by_clause, by_lit, Solver, decision_level, level, reason, lits, value,
}
use riss.Search.Final.{Seen, tail}
use riss.Search.Propagate.{write_clause}

-- the marks, pathC, out_learnt without its first place, pathLimit and didNotResetBiasserting
pub record Analysis : Type 0 where
  pub seen : Seen
  pub path_c : ℕ
  pub out : List Lit
  pub path_limit : ℕ
  pub not_reset : Bool

-- one literal of the reason; `allow` is allowBiAsserting
unfoldable pub collect : Bool → Solver → Lit → Analysis → Analysis
collect allow s q a =
    if not (a.seen (var q)) && ltb 0 (level s (var q))
    then (if leb (decision_level s) (level s (var q))
        then record a { seen = update a.seen (var q) true; path_c = a.path_c + 1 }
        else record a { seen = update a.seen (var q) true; out = a.out ++ q ∷ [] })
    else if a.seen (var q) && allow
    then (if a.path_limit == 0 && a.not_reset
        then record a { path_limit = 1 }
        else record a { not_reset = false; path_limit = 0 })
    else a

unfoldable pub collect_all : Bool → Solver → List Lit → Analysis → Analysis
unfolding collect
collect_all allow s [] a = a
collect_all allow s (q ∷ qs) a = collect_all allow s qs (collect allow s q a)

-- updateMetricsDuringAnalyze: the true literal of a binary clause comes first
abbrev pub true_first : Solver → List Lit → List Lit
true_first s (x ∷ y ∷ []) = if is_false (value s x) then y ∷ x ∷ [] else x ∷ y ∷ []
true_first s c = c

-- The reason of a literal that is not the conflict. Without a reason, where the source reads the clause
-- CRef_Undef, all stays as it is.
unfoldable pub resolve : Bool → Reason → Analysis → Solver → Analysis × Solver
unfolding collect_all
resolve allow no_reason a s = (a, s)
resolve allow (by_lit q) a s = (collect_all allow s (q ∷ []) a, s)
resolve allow (by_clause cr) a s =
    let s' = write_clause cr (true_first s (lits s cr)) s in
    (collect_all allow s' (tail (lits s' cr)) a, s')

-- from the trail's remaining literals select the next one to look at, until pathC is small enough;
-- `none` if there is none
unfoldable pub select :
    Bool → List Lit → Analysis → Solver → Option (Lit × List Lit × Analysis × Solver)
unfolding resolve
select allow [] a s = none
select allow (p ∷ t) a s = elim (a.seen (var p)) [
  | false ↦ select allow t a s
  | true ↦
      let a' = record a { seen = update a.seen (var p) false; path_c = a.path_c - 1 } in
      elim (ltb a.path_limit (a.path_c - 1)) [
        | true ↦ let (b, s') = resolve allow (reason s (var p)) a' s in select allow t b s'
        | false ↦ some (p, t, a', s)
      ]
]

-- while (!seen[var(trail[index--])])
unfoldable pub next_seen : List Lit → Seen → Option Lit
next_seen [] seen = none
next_seen (p ∷ t) seen = if seen (var p) then some p else next_seen t seen

-- the learned clause, where the loop ended with `p`
unfoldable pub learned : Lit → List Lit → Analysis → Option (List Lit)
unfolding next_seen
learned p t a =
    if ltb 0 a.path_c
    then elim (next_seen t a.seen) [ none ↦ none | some q ↦ some (neg p ∷ a.out ++ neg q ∷ []) ]
    else some (neg p ∷ a.out)

-- the conflict is a clause
unfoldable pub analyze : Bool → CRef → Solver → Option (List Lit × Solver)
unfolding collect_all select learned
analyze allow confl s =
    let start : Analysis = record {
      seen = s.seen;
      path_c = 0;
      out = [];
      path_limit = 0;
      not_reset = true;
    } in
    elim (select allow s.trail (collect_all allow s (lits s confl) start) s) [
      | none ↦ none
      | some (p, t, a, s') ↦ elim (learned p t a) [
        | none ↦ none
        | some c ↦ some (c, record s' { seen = a.seen })
      ]
    ]
