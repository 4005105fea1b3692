-- ===== src/Search/Tests.antt =====
-- Runs of the search's parts on a formula of three variables, and the theorems at these states.
use riss.Base.{
  ℕ, ◌≡◌, ◌≢◌, ◌<◌, ◌⊎◌, inl, inr, refl, ap, sym, subst, true, false, List, [], ◌∷◌, ◌++◌, All,
  length, arith, Option, none, some, if◌then◌else◌, ltb, leb, update, ◌==◌, Bool-cases,
}
use native.Mathlib.Decide.{ℕ_discrete}
use riss.Lit.{Lit, Var, neg, var, lit_undef}
use riss.Lifted.{LBool, l_undef}
use riss.Semantics.{Entails}
use riss.Clause.{Clause}
use riss.Checker.{CRef, Watcher}
use riss.Checker.Watched.{NoDup}
use riss.Checker.Watched.Scan.{Listed}
use riss.Checker.Rounds.{Watching}
use riss.Search.{
  Solver, no_reason, by_clause, by_lit, new_decision_level, unchecked_enqueue, cancel_until,
  decision_level, level,
}
use riss.Search.Justified.{IsValid, level_at}
use riss.Search.Trail.{unchecked_enqueue-IsValid}
use riss.Search.Backtrack.Cancel.{cancel_until-IsValid}
use riss.Search.Final.{analyze_final, analyze_final_clause}
use riss.Search.Final.Cleared.{Decided}
use riss.Search.Final.Correct.{analyze_final_lem, analyze_final_clause_lem}
use riss.Search.Analyze.{analyze, collect, collect_all, select, resolve, learned}
use riss.Search.Analyze.Reasons.{Structured}
use riss.Search.Analyze.Correct.{LearnsFrom, analyze_lem}
use riss.Search.Learning.{conflict_analysis, handle_learnt_clause, backtrack_level}
use riss.Search.Learning.Stored.{NoReason}
use riss.Search.Learning.Jump.{Resumes}
use riss.Search.Learning.Resume.{conflict_analysis_lem}
use riss.Search.Propagate.{propagate, propagate_loop, propagate_lit, visit_long}
use riss.Search.Propagate.Projection.{core}
use riss.Search.Propagate.Good.{Good}
use riss.Search.Propagate.Ends.{InRange, Propagated, propagate_returns}

-- the clauses -a b, at 5, -a -b c, at 8, and -b -c, at 9
abbrev binary : List Lit
binary = 1 ∷ 2 ∷ []

abbrev ternary : List Lit
ternary = 1 ∷ 3 ∷ 4 ∷ []

abbrev last : List Lit
last = 3 ∷ 5 ∷ []

abbrev formula : List (List Lit)
formula = binary ∷ ternary ∷ last ∷ []

abbrev clause : List Lit → Clause
clause c = record { mark = false; learnt = false; has_extra = false; lits = c; extra = λ i. false }

abbrev store : CRef → Clause
store cr =
    if cr == 5
    then clause binary
    else if cr == 8
    then clause ternary
    else if cr == 9
    then clause last
    else clause []

abbrev short : Lit → List Watcher
short b = record { cref = 5; blocker = b; long = false } ∷ []

abbrev pair : Lit → List Watcher
pair b = record { cref = 9; blocker = b; long = false } ∷ []

abbrev long : Lit → List Watcher
long b = record { cref = 8; blocker = b; long = true } ∷ []

abbrev lists : Lit → List Watcher
lists p =
    if p == 0
    then short 2 ++ long 3
    else if p == 3
    then short 1
    else if p == 2
    then long 1 ++ pair 5
    else if p == 4
    then pair 3
    else []

abbrev start : Solver
start = record {
  ok = true;
  assigns = λ v. l_undef;
  polarity = λ v. false;
  decision = λ v. true;
  seen = λ v. false;
  vardata = λ v. record { reason = no_reason; level = 0; dom = lit_undef; position = 0 };
  order_heap = λ v. true;
  trail = [];
  trail_lim = [];
  qhead = 0;
  real_head = 0;
  memory = store;
  clauses = 5 ∷ 8 ∷ 9 ∷ [];
  next_ref = 13;
  watches = lists;
  phase_saving = 2;
}

-- decide a
abbrev decided : Solver
unfolding unchecked_enqueue new_decision_level
decided = unchecked_enqueue 0 no_reason (new_decision_level start)

decided-IsValid : IsValid formula decided
unfolding unchecked_enqueue new_decision_level level_at
decided-IsValid = record {
  justified = ((λ e. absurd (omega arith)), tt, tt);
  holding = (refl, tt);
  on_trail = λ v. elim (ℕ_discrete v 0) [ yes e ↦ inr (inl e) | no n ↦ inl (ground arith) ];
  leveled = (refl, tt);
  limits = (omega arith, tt);
  head = omega arith;
}

by_cases :
    (P : CRef → Type 0)
    → P 5
    → P 8
    → P 9
    → ((cr : CRef) → 5 ≢ cr → 8 ≢ cr → 9 ≢ cr → P cr)
    → (cr : CRef) → P cr
by_cases P a b c d cr = elim (ℕ_discrete 5 cr) [
  | yes e ↦ subst P e a
  | no n ↦ elim (ℕ_discrete 8 cr) [
    | yes e ↦ subst P e b
    | no m ↦ elim (ℕ_discrete 9 cr) [ yes e ↦ subst P e c | no k ↦ d cr n m k ]
  ]
]

store_empty : (cr : CRef) → 5 ≢ cr → 8 ≢ cr → 9 ≢ cr → (store cr).lits ≡ []
store_empty cr n m k = ground arith

decided-Good : Good formula decided
unfolding unchecked_enqueue new_decision_level
decided-Good = record {
  valid = decided-IsValid;
  store =
      by_cases (λ cr. 0 < length (store cr).lits → Entails formula (store cr).lits) (λ k m h. h.0)
        (λ k m h. h.1.0) (λ k m h. h.1.1.0)
        (λ cr n m o k. absurd (let e = ap length (store_empty cr n m o) in omega arith));
}

ne : (a b : ℕ) → a < b → a ≢ b
ne a b h = omega arith

decided-Watching : Watching (core decided)
unfolding unchecked_enqueue new_decision_level neg
decided-Watching = record {
  lists = λ q. elim (ℕ_discrete 0 q) [
    | yes e ↦
        subst (Listed (core decided)) e
          ((inl (refl, refl), (inl refl, tt)), ((ne 5 8 (omega arith), tt), (tt, tt)))
    | no n ↦ elim (ℕ_discrete 3 q) [
      | yes e ↦ subst (Listed (core decided)) e ((inr (refl, refl), tt), (tt, tt))
      | no m ↦ elim (ℕ_discrete 2 q) [
        | yes e ↦
            subst (Listed (core decided)) e
              ((inr refl, (inl (refl, refl), tt)), ((ne 8 9 (omega arith), tt), (tt, tt)))
        | no k ↦ elim (ℕ_discrete 4 q) [
          | yes e ↦ subst (Listed (core decided)) e ((inr (refl, refl), tt), (tt, tt))
          | no j ↦ let z : lists q ≡ [] = ground arith in rw z (tt, tt)
        ]
      ]
    ]
  ];
  no_dup =
      by_cases (λ cr. NoDup (store cr).lits) ((ne 1 2 (omega arith), tt), (tt, tt))
        ((ne 1 3 (omega arith), (ne 1 4 (omega arith), tt)), ((ne 3 4 (omega arith), tt), (tt, tt)))
        ((ne 3 5 (omega arith), tt), (tt, tt)) (λ cr n m k. rw (store_empty cr n m k) tt);
}

decided-InRange : InRange 3 decided
unfolding unchecked_enqueue new_decision_level
decided-InRange =
    by_cases (λ cr. All (λ l. var l < 3) (store cr).lits) (omega arith) (omega arith) (omega arith)
      (λ cr n m k. rw (store_empty cr n m k) tt)

propagate_returns_example : Propagated formula 3 decided (propagate true 3 decided)
propagate_returns_example =
    propagate_returns true 3 decided decided-Good decided-Watching decided-InRange

-- b and c are implied, and the last clause is false
abbrev outcome : Option (Option CRef × Solver) → Option CRef × List Lit
outcome none = (none, [])
outcome (some (o, s)) = (o, s.trail)

propagate_conflict : outcome (propagate true 3 decided) ≡ (some 9, 4 ∷ 2 ∷ 0 ∷ [])
unfolding propagate propagate_loop propagate_lit visit_long unchecked_enqueue new_decision_level neg
propagate_conflict = refl

-- c in front of its clause, where propagation puts it
abbrev ordered : Solver
ordered = record decided { memory = update store 8 (clause (4 ∷ 3 ∷ 1 ∷ [])) }

ordered-IsValid : IsValid formula ordered
unfolding unchecked_enqueue new_decision_level level_at
ordered-IsValid = record {
  justified = ((λ e. absurd (omega arith)), tt, tt);
  holding = decided-IsValid.holding;
  on_trail = decided-IsValid.on_trail;
  leveled = (refl, tt);
  limits = (omega arith, tt);
  head = omega arith;
}

-- b follows from a, and c from both
abbrev first_implied : Solver
unfolding unchecked_enqueue new_decision_level
first_implied = unchecked_enqueue 2 (by_lit 0) ordered

abbrev implied : Solver
unfolding unchecked_enqueue new_decision_level
implied = unchecked_enqueue 4 (by_clause 8) first_implied

binary-Entails : Entails formula (2 ∷ neg 0 ∷ [])
unfolding neg
binary-Entails m h = let e = h.0 in ground arith

ternary-Entails : Entails formula (4 ∷ 3 ∷ 1 ∷ [])
ternary-Entails m h = let e = h.1.0 in ground arith

first_implied-IsValid : IsValid formula first_implied
unfolding unchecked_enqueue new_decision_level
first_implied-IsValid =
    unchecked_enqueue-IsValid 2 (by_lit 0) ordered ordered-IsValid refl (inl refl, binary-Entails)

implied-IsValid : IsValid formula implied
unfolding unchecked_enqueue new_decision_level neg
implied-IsValid =
    unchecked_enqueue-IsValid 4 (by_clause 8) first_implied first_implied-IsValid refl
      (ternary-Entails, ((inl refl, (inr (inl refl), (inr (inr (inl refl)), tt))), inr refl))

analyze_final_lem_example :
    Entails formula (analyze_final 4 implied).0
    × All (λ k. (k ≡ 4) ⊎ Decided implied implied.trail k) (analyze_final 4 implied).0
    × ((v : Var) → (analyze_final 4 implied).1.seen v ≡ false)
unfolding implied
analyze_final_lem_example = analyze_final_lem 4 implied implied-IsValid (inl refl) (λ v. refl)

analyze_final_clause_lem_example :
    Entails formula (analyze_final_clause (by_clause 9) 0 implied).0
    × All (Decided implied implied.trail) (analyze_final_clause (by_clause 9) 0 implied).0
    × ((v : Var) → (analyze_final_clause (by_clause 9) 0 implied).1.seen v ≡ false)
unfolding neg implied
analyze_final_clause_lem_example =
    analyze_final_clause_lem (by_clause 9) 0 last implied implied-IsValid (λ m h. h.1.1.0) refl
      (inr (inl refl), (inl refl, tt)) (λ v. refl)

-- only the decision is blamed
analyze_final_run : (analyze_final 4 implied).0 ≡ 4 ∷ 1 ∷ []
unfolding analyze_final unchecked_enqueue new_decision_level neg
analyze_final_run = refl

cancel_until-IsValid_example :
    IsValid formula (cancel_until 0 implied)
    × ((v : Var)
        → (cancel_until 0 implied).assigns v
          ≡ (if leb (level implied v) 0 then implied.assigns v else l_undef))
    × (decision_level (cancel_until 0 implied)
        ≡ (if ltb 0 (decision_level implied) then 0 else decision_level implied))
    × ((cancel_until 0 implied).qhead ≡ (
        if ltb 0 (decision_level implied)
        then length (cancel_until 0 implied).trail
        else implied.qhead))
cancel_until-IsValid_example = cancel_until-IsValid 0 implied implied-IsValid

implied-NoDup : (cr : CRef) → NoDup (implied.memory cr).lits
unfolding unchecked_enqueue new_decision_level
implied-NoDup =
    by_cases (λ cr. NoDup (implied.memory cr).lits) ((ne 1 2 (omega arith), tt), (tt, tt))
      (
        (λ e. ne 3 4 (omega arith) (sym e), ((λ e. ne 1 4 (omega arith) (sym e)), tt)),
        (((λ e. ne 1 3 (omega arith) (sym e)), tt), (tt, tt)),
      )
      ((ne 3 5 (omega arith), tt), (tt, tt))
      (λ cr n m k. let e : (implied.memory cr).lits ≡ [] = ground arith in rw e tt)

implied-Structured : Structured implied.vardata implied.trail
unfolding unchecked_enqueue new_decision_level
implied-Structured = (tt, (refl, ((λ h. tt), tt)))

analyze_lem_example : LearnsFrom formula false implied (analyze false 9 implied)
unfolding unchecked_enqueue new_decision_level neg
analyze_lem_example =
    analyze_lem false 9 3 implied implied-IsValid implied-NoDup implied-Structured (omega arith)
      (λ m h. h.1.1.0) (inr (inl refl), (inl refl, tt)) (inl refl) refl (λ v. refl)

-- the decision is the first unique implication point
abbrev learnt : Option (List Lit × Solver) → List Lit
learnt none = []
learnt (some (c, s)) = c

analyze_run : learnt (analyze false 9 implied) ≡ 1 ∷ []
unfolding analyze collect collect_all select resolve learned unchecked_enqueue new_decision_level
    neg
analyze_run = refl

-- the reasons are `by_clause 8` and `by_lit 0`
implied-NoReason : NoReason implied implied.next_ref
unfolding unchecked_enqueue new_decision_level
implied-NoReason v e = elim (Bool-cases (2 == v)) [
  | inl a ↦ ground arith
  | inr a ↦ elim (Bool-cases (1 == v)) [ inl b ↦ ground arith | inr b ↦ ground arith ]
]

conflict_analysis_lem_example : Resumes formula implied (conflict_analysis true 9 implied)
unfolding unchecked_enqueue new_decision_level neg
conflict_analysis_lem_example =
    conflict_analysis_lem true 9 3 implied implied-IsValid implied-NoDup implied-Structured
      (omega arith) (λ m h. h.1.1.0) (inr (inl refl), (inl refl, tt)) (inl refl) refl (λ v. refl)
      implied-NoReason

-- the complement of the decision is all that is left on the trail
abbrev resumed_trail : Option (LBool × Solver) → List Lit
resumed_trail none = []
resumed_trail (some (b, s)) = s.trail

conflict_analysis_run : resumed_trail (conflict_analysis true 9 implied) ≡ 1 ∷ []
unfolding conflict_analysis handle_learnt_clause backtrack_level cancel_until analyze collect
    collect_all select resolve learned unchecked_enqueue new_decision_level neg
conflict_analysis_run = refl
