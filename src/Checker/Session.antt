-- ===== src/Checker/Session.antt =====
-- Whole runs of the proof checker: a formula is parsed and clauses are added and removed, in any
-- order.
pub mod Drup
pub mod Rat
use riss.Base.{
  ℕ, zero, suc, ◌+◌, ◌≤◌, ◌<◌, ◌≡◌, ◌≢◌, ◌⊎◌, inl, inr, refl, ap, sym, subst, ◌∙◌, Bool, true,
  false, not, List, [], ◌∷◌, ◌++◌, arith, if◌then◌else◌, All, All-map, Bool-cases, Option, some,
  none,
}
use riss.Lit.{Lit, neg, var}
use riss.Semantics.{Assignment, holds, sat, Models, Unsatisfiable}
use riss.MarkArray
use riss.Checker.{Checker, CRef, ProofStyle, drup_proof, drat_proof}
use riss.Checker.Operations.{new_checker, cover, add_parsed_clause, add_clause, insert_clause}
use riss.Checker.Removal.{remove_clause}
use riss.Checker.Watched.{lits, NoDup}
use riss.Checker.Rounds.{Watching}
use riss.Checker.Valid.{Valid, cover-Valid, cover-Quiet, cover-covers}
use riss.Checker.Satisfaction.{Satisfies, Satisfies-Shuffled, Quiet-Shuffled}
use riss.Checker.Refutation.{Checked}
use riss.Checker.Insertion.{insert_clause-Valid, Satisfies-insert_clause, ok-insert_clause}
use riss.Checker.Addition.{Added, ended, refused, only_checked, inserted, Answers, add_clause_ends}
use riss.Checker.Removed.{Fewer, remove_clause-Fewer}

pub data Op : Type 0 where
  parse : List Lit → Op
  add : List Lit → Bool → Op
  remove : List Lit → Op

unfoldable pub perform : Op → Checker → Option Checker
perform (parse c) s = some (add_parsed_clause c s)
perform (add c check_only) s = elim (add_clause c check_only s) [ none ↦ none | some r ↦ some r.1 ]
perform (remove c) s = some (remove_clause c s).1

unfoldable pub session : List Op → Checker → Option Checker
session [] s = some s
session (o ∷ ops) s = elim (perform o s) [ none ↦ none | some t ↦ session ops t ]

-- the formula that was parsed
abbrev pub formula : List Op → List (List Lit)
formula [] = []
formula (parse c ∷ ops) = c ∷ formula ops
formula (add c k ∷ ops) = formula ops
formula (remove c ∷ ops) = formula ops

-- clauses have no literal twice, as the constructor of Clause asserts
abbrev pub IsProper : Op → Type 0
IsProper (parse c) = NoDup c
IsProper (add c k) = NoDup c
IsProper (remove c) = Unit

pub new_checker-Valid : (style : ProofStyle) → Valid (new_checker style)
unfolding new_checker
new_checker-Valid style = record {
  watching = record { lists = λ q. (tt, tt); no_dup = λ cr. tt };
  in_range = λ cr. tt;
  units_in_range = tt;
  on_trail = λ v. inl refl;
  fresh = λ cr h. refl;
}

pub new_checker-Satisfies : (style : ProofStyle) (g : Assignment) → Satisfies g (new_checker style)
unfolding new_checker
new_checker-Satisfies style g = record { stored = λ cr. inl refl; units = tt }

-- the empty clause sets the flag
ended-Valid : {s : Checker} → Valid s → Valid (record s { ok = false })
ended-Valid v = record {
  watching = record { lists = v.watching.lists; no_dup = v.watching.no_dup };
  in_range = v.in_range;
  units_in_range = v.units_in_range;
  on_trail = v.on_trail;
  fresh = v.fresh;
}

pub parse-Valid : (c : List Lit) (s : Checker) → NoDup c → Valid s → Valid (add_parsed_clause c s)
unfolding add_parsed_clause
parse-Valid [] s d v = ended-Valid v
parse-Valid (l ∷ c) s d v =
    insert_clause-Valid (l ∷ c) (cover (l ∷ c) s) (cover-Valid (l ∷ c) v) d (cover-covers (l ∷ c) s)

Added-Valid : {c : List Lit} {s t : Checker} {k b : Bool} → Valid s → Added c s k b t → Valid t
Added-Valid v (ended e) = v
Added-Valid v (refused e k) = k.valid
Added-Valid v (only_checked e k f) = k.valid
Added-Valid v (inserted e k f r w) = w

-- The operation keeps to what the source's assertions ask for: no literal twice, the empty clause only
-- where addClause has an answer, and a clause is removed only if its variables are known.
abbrev pub Allowed : Op → Checker → Type 0
Allowed (parse c) s = NoDup c
Allowed (add c k) s = NoDup c × Answers c k s
Allowed (remove c) s = (s.ok ≡ false) ⊎ All (λ l. var l < s.n_vars) c

-- each operation of a run does, at the state that it meets
abbrev pub AllAllowed : List Op → Checker → Type 0
AllAllowed [] s = Unit
AllAllowed (o ∷ ops) s =
    Allowed o s × elim (perform o s) [ none ↦ Unit | some t ↦ AllAllowed ops t ]

abbrev Performed : Op → Checker → Type 0
Performed o s = (t : Checker) × (perform o s ≡ some t) × Valid t

perform_ends : (o : Op) (s : Checker) → Allowed o s → Valid s → Performed o s
unfolding perform
perform_ends (parse c) s d v = (add_parsed_clause c s, refl, parse-Valid c s d v)
perform_ends (add c k) s d v =
    let (b, t, e, a) = add_clause_ends c k s v d.0 d.1 in (t, rw (e, perform), Added-Valid v a)
perform_ends (remove c) s d v = ((remove_clause c s).1, refl, (remove_clause-Fewer c s v).valid)

session-Valid :
    (ops : List Op) (s : Checker)
    → AllAllowed ops s
    → Valid s
    → (t : Checker) × (session ops s ≡ some t) × Valid t
unfolding session
session-Valid [] s p v = (s, refl, v)
session-Valid (o ∷ ops) s p v =
    let (t, e, w) = perform_ends o s p.0 v in
    let later : AllAllowed ops t = rw e at p.1 in
    let (u, r, x) = session-Valid ops t later w in (u, rw (e, session) r, x)

-- Whatever clauses are parsed, added and removed, in a proof of any format, where the run keeps to the
-- source's assertions (no parsed or added clause has a literal twice, in DRAT mode the empty clause is
-- added only if propagation refutes or it is only checked, and removed clauses are over known
-- variables), it returns a checker that keeps the invariant: each watcher is in the list of the
-- complement of one of the first two literals of its clause, once, and that clause is not freed; and
-- only variables on the trail have a value.
pub session_ends :
    (style : ProofStyle) (ops : List Op)
    → AllAllowed ops (new_checker style)
    → (t : Checker) × (session ops (new_checker style) ≡ some t) × Valid t
session_ends style ops p = session-Valid ops (new_checker style) p (new_checker-Valid style)

-- whether a run reaches the empty clause
abbrev pub reaches_empty : ProofStyle → List Op → Bool
reaches_empty style ops = elim (session ops (new_checker style)) [
  | none ↦ false
  | some t ↦ not t.ok
]

-- the answer of addClause
abbrev pub answer : Option (Bool × Checker) → Bool
answer none = false
answer (some r) = r.0
