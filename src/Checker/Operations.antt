-- ===== src/Checker/Operations.antt =====
-- proofcheck/OnlineProofChecker.h: adding clauses. `none` means that propagation ran out of fuel, or
-- that the source's assertion on the empty clause fails, behind which it reads out of bounds. Other
-- assertions are not evaluated (NDEBUG). Clause memory is taken not to run out.
use riss.Base.{
  ℕ, zero, suc, ◌+◌, ◌-◌, Bool, true, false, not, List, [], ◌∷◌, ◌++◌, Option, none, some, ◌==◌,
  leb, if◌then◌else◌, update, length,
}
use riss.Lit.{Lit, neg, var}
use riss.Lifted.{LBool, l_undef, is_false, is_undef}
use riss.Clause.{Clause}
use riss.MarkArray
use riss.MarkArray.{MarkArray}
use riss.Checker.{Checker, Watcher, CRef, ProofStyle, drat_proof, value, unchecked_enqueue}
use riss.Checker.Propagate.{propagate}

unfoldable pub new_checker : ProofStyle → Checker
new_checker style = record {
  ok = true;
  proof = style;
  memory = λ _. record {
    mark = false;
    learnt = false;
    has_extra = false;
    lits = [];
    extra = λ _. false;
  };
  sz = 0;
  wasted = 0;
  clauses = [];
  unit_clauses = [];
  occ = λ _. [];
  watches = λ _. [];
  ma = MarkArray.empty;
  qhead = 0;
  trail = [];
  assigns = λ _. l_undef;
  n_vars = 0;
}

-- the slots of the two literals of the new variable
abbrev pub init_slots {ℓ} : {A : Type ℓ} → ℕ → (Lit → List A) → Lit → List A
init_slots v f = update (update f (v + v) []) (v + v + 1) []

unfoldable pub new_var : Checker → Checker
unfolding MarkArray.resize
new_var s = record s {
  watches = init_slots s.n_vars s.watches;
  occ = init_slots s.n_vars s.occ;
  assigns = update s.assigns s.n_vars l_undef;
  ma = MarkArray.resize s.ma (s.ma.size + 2);
  n_vars = s.n_vars + 1;
}

unfoldable pub new_vars : ℕ → Checker → Checker
new_vars zero s = s
new_vars (suc n) s = new_vars n (new_var s)

-- while (nVars() <= var(l)) newVar(), for each literal
unfoldable pub cover : List Lit → Checker → Checker
cover [] s = s
cover (l ∷ c) s = cover c (new_vars (var l + 1 - s.n_vars) s)

abbrev pub clear_trail : List Lit → (ℕ → LBool) → ℕ → LBool
clear_trail [] a = a
clear_trail (l ∷ t) a = update (clear_trail t a) (var l) l_undef

unfoldable pub cancel_until : Checker → Checker
cancel_until s = record s { assigns = clear_trail s.trail s.assigns; qhead = 0; trail = [] }

-- enqueue all complementary literals; `true` if one of them is false already
unfoldable pub enqueue_complements : List Lit → Checker → Bool × Checker
enqueue_complements [] s = (false, s)
enqueue_complements (l ∷ c) s =
    let enqueued = enqueue_complements c (unchecked_enqueue (neg l) s) in
    let next = enqueue_complements c s in
    if is_undef (value s l)
    then enqueued
    else if is_false (value s (neg l))
    then (true, s)
    else next

-- words of a clause without the extra field: the header has two
abbrev pub clause_words : ℕ → ℕ
clause_words size = 2 + size

abbrev pub watch : CRef → Lit → Lit → Bool → (Lit → List Watcher) → Lit → List Watcher
watch cr l other long ws =
    update ws (neg l) (ws (neg l) ++ record { cref = cr; blocker = other; long = long } ∷ [])

unfoldable pub attach_lits : CRef → List Lit → (Lit → List Watcher) → Lit → List Watcher
attach_lits cr (a ∷ b ∷ []) ws = watch cr b a false (watch cr a b false ws)
attach_lits cr (a ∷ b ∷ d ∷ r) ws = watch cr b a true (watch cr a b true ws)
attach_lits cr c ws = ws

unfoldable pub attach_clause : CRef → Checker → Checker
unfolding attach_lits
attach_clause cr s = record s { watches = attach_lits cr (s.memory cr).lits s.watches }

unfoldable pub push_occ : CRef → List Lit → (Lit → List CRef) → Lit → List CRef
push_occ cr [] o = o
push_occ cr (l ∷ c) o = push_occ cr c (update o l (o l ++ cr ∷ []))

abbrev pub fresh_clause : List Lit → Clause
fresh_clause c = record {
  mark = false;
  learnt = false;
  has_extra = false;
  lits = c;
  extra = λ _. false;
}

-- ca.alloc, the occurrence lists, the watches and the list of clauses
unfoldable pub store_clause : List Lit → Checker → Checker
unfolding attach_clause push_occ
store_clause c s =
    let s' = record s {
      memory = update s.memory s.sz (fresh_clause c);
      sz = s.sz + clause_words (length c);
      occ = push_occ s.sz c s.occ;
    } in
    let t = attach_clause s.sz s' in record t { clauses = t.clauses ++ s.sz ∷ [] }

-- add the clause: an empty one ends the proof
unfoldable pub insert_clause : List Lit → Checker → Checker
unfolding store_clause
insert_clause [] s = record s { ok = false }
insert_clause (l ∷ []) s = record s { unit_clauses = s.unit_clauses ++ l ∷ [] }
insert_clause (l ∷ m ∷ c) s = store_clause (l ∷ m ∷ c) s

unfoldable pub add_parsed_clause : List Lit → Checker → Checker
unfolding insert_clause cover
add_parsed_clause [] s = record s { ok = false }
add_parsed_clause (l ∷ c) s = insert_clause (l ∷ c) (cover (l ∷ c) s)

-- mark all literals but the first; `true` if two of them are complementary
unfoldable pub mark_rest : List Lit → MarkArray → Bool × MarkArray
mark_rest [] m = (false, m)
mark_rest (l ∷ c) m =
    let next = mark_rest c (MarkArray.set_current_step m l) in
    if MarkArray.is_current_step m (neg l) then (true, m) else next

-- the literals of `d` that the resolvent gains; `none` for a tautology
unfoldable pub resolve_rest : MarkArray → Lit → List Lit → Option (List Lit)
resolve_rest m pivot [] = some []
resolve_rest m pivot (l ∷ d) =
    let rest = resolve_rest m pivot d in
    if l == pivot
    then rest
    else if MarkArray.is_current_step m (neg l)
    then none
    else if MarkArray.is_current_step m l
    then rest
    else elim rest [ none ↦ none | some r ↦ some (l ∷ r) ]

-- whether propagation of the complements of `c` meets a conflict
unfoldable pub refutes : List Lit → Checker → Option (Bool × Checker)
unfolding cancel_until enqueue_complements
refutes c s =
    let (conflict, s') = enqueue_complements c (cancel_until s) in
    if conflict then some (true, s') else propagate s'

-- every resolvent with a clause of the list is a tautology or leads to a conflict
unfoldable pub check_resolvents : List Lit → Lit → List CRef → Checker → Option (Bool × Checker)
check_resolvents c pivot [] s = some (true, s)
check_resolvents c pivot (cr ∷ crs) s = elim (resolve_rest s.ma pivot (s.memory cr).lits) [
  | none ↦ check_resolvents c pivot crs s
  | some r ↦ elim (refutes (c ++ r) s) [
    | none ↦ none
    | some (conflict, s') ↦
        let next = check_resolvents c pivot crs s' in if conflict then next else some (false, s')
  ]
]

-- The DRAT check on the first literal, after propagation met no conflict. The empty clause is refused
-- with checkOnly; without it the source's assertion fails.
unfoldable pub check_rat : Bool → ℕ → List Lit → Checker → Option (Bool × Checker)
check_rat check_only initial_vars [] s = if check_only then some (false, s) else none
check_rat check_only initial_vars (l ∷ c) s =
    let (complementary, m) = mark_rest c (MarkArray.next_step s.ma) in
    let s' = record s { ma = m } in
    let checked = check_resolvents c (neg l) (s.occ (neg l)) s' in
    if leb (var l) initial_vars
    then if complementary then some (true, s') else checked
    else some (true, s)

-- whether the proof format accepts the clause
unfoldable pub accepts : List Lit → Bool → Checker → Option (Bool × Checker)
accepts c check_only s = elim (refutes c (cover c s)) [
  | none ↦ none
  | some (true, t) ↦ some (true, t)
  | some (false, t) ↦ elim t.proof [
    | drat_proof ↦ check_rat check_only s.n_vars c t
    | _ ↦ some (false, t)
  ]
]

-- addClause(cls, checkOnly)
unfoldable pub add_clause : List Lit → Bool → Checker → Option (Bool × Checker)
add_clause c check_only s =
    let checked : Option (Bool × Checker) = elim (accepts c check_only s) [
      | none ↦ none
      | some r ↦
          if not r.0
          then some (false, r.1)
          else if check_only
          then some (true, r.1)
          else some (true, insert_clause c r.1)
    ] in
    if not s.ok then some (true, s) else checked
