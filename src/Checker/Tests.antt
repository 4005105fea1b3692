-- ===== src/Checker/Tests.antt =====
-- Runs of the proof checker at concrete inputs: a formula of four binary clauses over two variables,
-- and one of three longer clauses.
use riss.Base.{
  ◌<◌, inl, inr, ◌≡◌, ◌≢◌, refl, Bool, true, false, List, [], ◌∷◌, arith, All, All-of_all, some,
}
use riss.Lit.{Lit, neg, var}
use riss.MarkArray.Steps.{Marks}
use riss.Semantics.{Assignment, sat, Unsatisfiable}
use riss.MarkArray.{next_step, set_current_step, is_current_step, resize}
use riss.Alg.{index_of, swap_last, remove_unsort}
use riss.Checker.{Checker, CRef, drup_proof, drat_proof}
use riss.Checker.Propagate.{units, binaries, rewatch, examine, visit, longs, round, loop, propagate}
use riss.Checker.Operations.{
  new_checker, new_var, new_vars, cover, cancel_until, enqueue_complements, attach_lits,
  attach_clause, push_occ, store_clause, insert_clause, add_parsed_clause, refutes, accepts,
  add_clause,
}
use riss.Checker.Removal.{
  mark_all, smallest_from, smallest_index, all_marked, is_same, find_clause, drop_occ, detach_lits,
  detach_clause, free_clause, remove_long, remove_clause,
}
use riss.Checker.Watched.{NoDup}
use riss.Checker.Valid.{Valid}
use riss.Checker.Outcome.{Prepared, Propagated, propagate_ends}
use riss.Checker.Removed.Exact.{Listed, Removes, remove_clause-Removes}
use riss.Checker.Session.{
  Op, parse, add, remove, perform, session, formula, IsProper, AllAllowed, reaches_empty, answer,
  parse-Valid, new_checker-Valid, session_ends,
}
use riss.Checker.Session.Drup.{Knows, start-Knows, parse-Knows, drup_sound, add_clause_entails}
use riss.Checker.Session.Rat.{short_cut, rat_ignores_units}

pair : (a b : Lit) → a ≢ b → NoDup (a ∷ b ∷ [])
pair a b n = ((n, tt), (tt, tt))

-- all four clauses over the variables 0 and 1
abbrev square : List Op
square =
    parse (0 ∷ 2 ∷ [])
    ∷ parse (1 ∷ 2 ∷ [])
    ∷ parse (0 ∷ 3 ∷ [])
    ∷ parse (1 ∷ 3 ∷ [])
    ∷ add (2 ∷ []) false
    ∷ remove (1 ∷ 2 ∷ [])
    ∷ add [] false
    ∷ []

square-IsProper : All IsProper square
square-IsProper = (
  pair 0 2 (λ e. omega arith),
  (
    pair 1 2 (λ e. omega arith),
    (pair 0 3 (λ e. omega arith), (pair 1 3 (λ e. omega arith), ((tt, tt), (tt, (tt, tt))))),
  ),
)

square_refuted : reaches_empty drup_proof square ≡ true
unfolding session perform neg units binaries rewatch examine visit longs round loop propagate
    new_checker new_var new_vars cover cancel_until enqueue_complements attach_lits attach_clause
    push_occ store_clause insert_clause add_parsed_clause refutes accepts add_clause mark_all
    smallest_from smallest_index all_marked is_same find_clause drop_occ detach_lits detach_clause
    free_clause remove_long remove_clause index_of swap_last remove_unsort next_step
    set_current_step is_current_step resize
square_refuted = refl

drup_sound_example : Unsatisfiable (formula square)
drup_sound_example = drup_sound square square-IsProper square_refuted

square-Allowed : AllAllowed square (new_checker drat_proof)
unfolding session perform neg units binaries rewatch examine visit longs round loop propagate
    new_checker new_var new_vars cover cancel_until enqueue_complements attach_lits attach_clause
    push_occ store_clause insert_clause add_parsed_clause refutes accepts add_clause mark_all
    smallest_from smallest_index all_marked is_same find_clause drop_occ detach_lits detach_clause
    free_clause remove_long remove_clause index_of swap_last remove_unsort next_step
    set_current_step is_current_step resize
square-Allowed = (
  pair 0 2 (λ e. omega arith),
  (
    pair 1 2 (λ e. omega arith),
    (
      pair 0 3 (λ e. omega arith),
      (
        pair 1 3 (λ e. omega arith),
        (
          ((tt, tt), inl (λ e. cc)),
          (inr (omega arith, (omega arith, tt)), ((tt, inr (inr (inr (inr (_, refl))))), tt)),
        ),
      ),
    ),
  ),
)

session_ends_example : (t : Checker) × (session square (new_checker drat_proof) ≡ some t) × Valid t
session_ends_example = session_ends drat_proof square square-Allowed

-- two of the clauses
abbrev empty : Checker
empty = new_checker drup_proof

abbrev two : Checker
two = add_parsed_clause (1 ∷ 2 ∷ []) (add_parsed_clause (0 ∷ 2 ∷ []) empty)

two-Valid : Valid two
two-Valid =
    parse-Valid (1 ∷ 2 ∷ []) (add_parsed_clause (0 ∷ 2 ∷ []) empty) (pair 1 2 (λ e. omega arith))
      (parse-Valid (0 ∷ 2 ∷ []) empty (pair 0 2 (λ e. omega arith)) (new_checker-Valid drup_proof))

abbrev all_true : Assignment
all_true v = true

two-Knows : Knows all_true two
two-Knows =
    parse-Knows all_true (1 ∷ 2 ∷ []) (add_parsed_clause (0 ∷ 2 ∷ []) empty)
      (pair 1 2 (λ e. omega arith)) refl
      (parse-Knows all_true (0 ∷ 2 ∷ []) empty (pair 0 2 (λ e. omega arith)) refl
        (start-Knows all_true))

two-accepts : answer (add_clause (2 ∷ []) false two) ≡ true
unfolding neg units binaries rewatch examine visit longs round loop propagate new_checker new_var
    new_vars cover cancel_until enqueue_complements attach_lits attach_clause push_occ store_clause
    insert_clause add_parsed_clause refutes accepts add_clause resize
two-accepts = refl

add_clause_entails_example : sat all_true (2 ∷ []) ≡ true
add_clause_entails_example =
    add_clause_entails (2 ∷ []) false two two-Valid (tt, tt) two-Knows.ok two-Knows.drup two-accepts
      all_true two-Knows.satisfies

two-Prepared : Prepared two
unfolding add_parsed_clause cover new_vars new_var insert_clause store_clause attach_clause
    attach_lits push_occ new_checker
two-Prepared = record {
  watching = two-Valid.watching;
  trail_true = tt;
  in_range = two-Valid.in_range;
  units_in_range = two-Valid.units_in_range;
  qhead = refl;
}

propagate_ends_example :
    (c : Bool) × (t : Checker) × (propagate two ≡ some (c, t)) × Propagated two c t
propagate_ends_example = propagate_ends two two-Prepared

two-Marks : Marks two.ma
unfolding add_parsed_clause cover new_vars new_var insert_clause store_clause attach_clause
    attach_lits push_occ new_checker resize
two-Marks = record { below = λ i. omega arith; limit = omega arith }

two-kept : (cr : CRef) → (two.memory cr).mark ≡ false
unfolding add_parsed_clause cover new_vars new_var insert_clause store_clause attach_clause
    attach_lits push_occ new_checker resize
two-kept cr = ground arith

two-Listed : Listed two
two-Listed q = All-of_all (two.occ q) two-kept

two-known : All (λ x. var x < two.n_vars) (1 ∷ 2 ∷ [])
unfolding add_parsed_clause cover new_vars new_var insert_clause store_clause attach_clause
    attach_lits push_occ new_checker resize
two-known = (omega arith, (omega arith, tt))

remove_clause-Removes_example : Removes (1 ∷ 2 ∷ []) two (remove_clause (1 ∷ 2 ∷ []) two)
remove_clause-Removes_example =
    remove_clause-Removes 1 2 [] two two-Valid two-Marks two-Listed two-known two-Knows.ok

-- the clause was there
two_removed : (remove_clause (1 ∷ 2 ∷ []) two).0 ≡ true
unfolding session perform neg units binaries rewatch examine visit longs round loop propagate
    new_checker new_var new_vars cover cancel_until enqueue_complements attach_lits attach_clause
    push_occ store_clause insert_clause add_parsed_clause refutes accepts add_clause mark_all
    smallest_from smallest_index all_marked is_same find_clause drop_occ detach_lits detach_clause
    free_clause remove_long remove_clause index_of swap_last remove_unsort next_step
    set_current_step is_current_step resize
two_removed = refl

rat_ignores_units_example :
    (reaches_empty drat_proof (short_cut 4) ≡ true) × ¬ Unsatisfiable (formula (short_cut 4))
rat_ignores_units_example = rat_ignores_units 4
