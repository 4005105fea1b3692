-- ===== src/Checker/Session/Rat.antt =====
-- The DRAT check resolves with the clauses of the occurrence lists, and unit clauses stand in none
-- of them.
use riss.Base.{
  ℕ, zero, suc, ◌+◌, ◌-◌, ◌≡◌, inl, inr, refl, ap, ◌∙◌, fun_ext, true, false, List, [], ◌∷◌, arith,
  some, update, leb, ◌==◌, Bool-cases,
}
use riss.Lit.{Lit, neg, var, sign, var-neg, sign-neg}
use riss.Lifted.{LBool, l_true, l_false, l_undef}
use riss.Semantics.{Assignment, sat, Unsatisfiable, holds-neg}
use riss.MarkArray
use riss.MarkArray.{MarkArray}
use riss.Checker.{Checker, Watcher, CRef, drat_proof, value, unchecked_enqueue}
use riss.Checker.Propagate.{propagate, units, loop, round, binaries, longs}
use riss.Checker.Operations.{
  new_checker, new_var, new_vars, cover, add_parsed_clause, add_clause, insert_clause, refutes,
  cancel_until, enqueue_complements, check_rat, mark_rest, check_resolvents, accepts, init_slots,
}
use riss.Checker.Forced.{enqueue, enqueue_self}
use riss.Checker.Session.{Op, parse, add, perform, session, formula, reaches_empty}

-- a DRAT checker with `n` variables and the given units, and no other clause
abbrev blank : ℕ → MarkArray → List Lit → Checker
blank n m us = record {
  ok = true;
  proof = drat_proof;
  memory = λ _. record {
    mark = false;
    learnt = false;
    has_extra = false;
    lits = [];
    extra = λ _. false;
  };
  sz = 0;
  wasted = 0;
  clauses = [];
  unit_clauses = us;
  occ = λ _. [];
  watches = λ _. [];
  ma = m;
  qhead = 0;
  trail = [];
  assigns = λ _. l_undef;
  n_vars = n;
}

slots-nil {ℓ} : {A : Type ℓ} (v : ℕ) → init_slots {A = A} v (λ _. []) ≡ (λ _. [])
slots-nil {A = A} v = fun_ext λ q. elim (Bool-cases (v + v + 1 == q)) [
  | inl a ↦ rw a
  | inr a ↦ elim (Bool-cases (v + v == q)) [ inl b ↦ rw (a, b) | inr b ↦ rw (a, b) ]
]

undef-again : (n : ℕ) → ◌≡◌ {A = ℕ → LBool} (update (λ _. l_undef) n l_undef) (λ _. l_undef)
undef-again n = fun_ext λ v. ground arith

new_var-blank :
    (n : ℕ) (m : MarkArray) (us : List Lit)
    → (m' : MarkArray) × (new_var (blank n m us) ≡ blank (n + 1) m' us)
unfolding new_var
new_var-blank n m us =
    let m' = MarkArray.resize m (m.size + 2) in
    (
      m',
      λ i. record (blank (n + 1) m' us) {
        watches = slots-nil {A = Watcher} n i;
        occ = slots-nil {A = CRef} n i;
        assigns = undef-again n i;
      },
    )

new_vars-blank :
    (k n : ℕ) (m : MarkArray) (us : List Lit)
    → (m' : MarkArray) × (new_vars k (blank n m us) ≡ blank (n + k) m' us)
unfolding new_vars
new_vars-blank zero n m us = (m, ap (λ x. blank x m us) (omega arith))
new_vars-blank (suc k) n m us =
    let (m1, e1) = new_var-blank n m us in
    let (m2, e2) = new_vars-blank k (n + 1) m1 us in
    (m2, ap (new_vars k) e1 ∙ (e2 ∙ ap (λ x. blank x m2 us) (omega arith)))

module _ (l : Lit) where
  -- the checker after the unit clause of the complement was parsed
  abbrev parsed : MarkArray → Checker
  parsed m = blank (var l + 1) m (neg l ∷ [])

  parse-parsed :
      (m : MarkArray) × (add_parsed_clause (neg l ∷ []) (new_checker drat_proof) ≡ parsed m)
  unfolding add_parsed_clause new_checker
  parse-parsed =
      let (m, e) = new_vars-blank (var (neg l) + 1 - 0) 0 MarkArray.empty [] in
      (
        m,
        ap (insert_clause (neg l ∷ [])) e
            ∙ ap (λ x. blank x m (neg l ∷ [])) (omega (arith, var-neg l)),
      )

  -- the assignment of the complement
  abbrev assigned : MarkArray → Checker
  assigned m = record (parsed m) { assigns = enqueue (neg l) (λ _. l_undef); trail = neg l ∷ [] }

  cover-parsed : (m : MarkArray) → cover (l ∷ []) (parsed m) ≡ parsed m
  unfolding cover new_vars
  cover-parsed m = let none_new : var l + 1 - (var l + 1) ≡ 0 = omega arith in rw none_new refl

  value-assigned : (m : MarkArray) → value (assigned m) (neg l) ≡ l_true
  value-assigned m = enqueue_self (λ _. l_undef) (neg l) refl

  units-assigned : (m : MarkArray) → units (neg l ∷ []) (assigned m) ≡ (false, assigned m)
  unfolding units
  units-assigned m = rw value-assigned refl

  -- propagation finds nothing more
  abbrev settled : MarkArray → Checker
  settled m = record (assigned m) { qhead = 1; watches = update (λ _. []) (neg l) [] }

  loop-assigned :
      (m : MarkArray) (k : ℕ) → loop (suc (suc k)) (assigned m) ≡ some (false, settled m)
  unfolding loop round binaries longs
  loop-assigned m k = refl

  propagate-assigned : (m : MarkArray) → propagate (assigned m) ≡ some (false, settled m)
  unfolding propagate
  propagate-assigned m =
      let fuel : var l + 1 + 1 + 1 ≡ suc (suc (var l + 1)) = omega arith in
      rw (units-assigned m, propagate) (rw (fuel, loop-assigned m (var l + 1)))

  refutes-parsed : (m : MarkArray) → refutes (l ∷ []) (parsed m) ≡ some (false, settled m)
  unfolding refutes cancel_until enqueue_complements
  refutes-parsed m = propagate-assigned m

  -- after the check the unit is accepted, since no stored clause holds the complement
  abbrev both : MarkArray → Checker
  both m = record (settled m) { ma = MarkArray.next_step m; unit_clauses = neg l ∷ l ∷ [] }

  rat-settled :
      (m : MarkArray)
      → check_rat false (var l + 1) (l ∷ []) (settled m)
        ≡ some (true, record (settled m) { ma = MarkArray.next_step m })
  unfolding check_rat mark_rest check_resolvents
  rat-settled m = let low : leb (var l) (var l + 1) ≡ true = ground arith in rw low refl

  add-parsed : (m : MarkArray) → add_clause (l ∷ []) false (parsed m) ≡ some (true, both m)
  unfolding add_clause accepts insert_clause
  add-parsed m = rw (cover-parsed m, refutes-parsed m, accepts) (rw (rat-settled m))

  -- and the empty clause follows
  abbrev cleared : MarkArray → Checker
  cleared m = record (both m) {
    assigns = update (enqueue (neg l) (λ _. l_undef)) (var (neg l)) l_undef;
    qhead = 0;
    trail = [];
  }

  undef-cleared : (m : MarkArray) → value (cleared m) (neg l) ≡ l_undef
  undef-cleared m = ground arith

  false-next : (m : MarkArray) → value (unchecked_enqueue (neg l) (cleared m)) l ≡ l_false
  false-next m = ground (arith, var-neg l, sign-neg l)

  propagate-cleared :
      (m : MarkArray) → propagate (cleared m) ≡ some (true, unchecked_enqueue (neg l) (cleared m))
  unfolding propagate units
  propagate-cleared m = simp (undef-cleared m, false-next m)

  add-both :
      (m : MarkArray)
      → add_clause [] false (both m)
        ≡ some (true, record (unchecked_enqueue (neg l) (cleared m)) { ok = false })
  unfolding add_clause accepts refutes cancel_until enqueue_complements cover insert_clause
  add-both m = rw (propagate-cleared m)

session-step :
    (o : Op) (s t : Checker) (ops : List Op)
    → perform o s ≡ some t
    → session (o ∷ ops) s ≡ session ops t
unfolding session
session-step o s t ops e = rw (e, session)

-- a run that parses one unit clause, and adds the complement and then the empty clause
abbrev pub short_cut : Lit → List Op
short_cut l = parse (neg l ∷ []) ∷ add (l ∷ []) false ∷ add [] false ∷ []

run :
    (l : Lit)
    → (t : Checker) × (session (short_cut l) (new_checker drat_proof) ≡ some t) × (t.ok ≡ false)
unfolding session perform
run l =
    let (m, e) = parse-parsed l in
    let first : perform (parse (neg l ∷ [])) (new_checker drat_proof) ≡ some (parsed l m) =
      ap some e in
    let second : perform (add (l ∷ []) false) (parsed l m) ≡ some (both l m) =
      rw (add-parsed l m, perform) in
    let rest : List Op = add (l ∷ []) false ∷ add [] false ∷ [] in
    let final : Checker = record (unchecked_enqueue (neg l) (cleared l m)) { ok = false } in
    let third : perform (add [] false) (both l m) ≡ some final = rw (add-both l m, perform) in
    (
      final,
      session-step (parse (neg l ∷ [])) (new_checker drat_proof) (parsed l m) rest first
          ∙ (session-step (add (l ∷ []) false) (parsed l m) (both l m) (add [] false ∷ []) second
              ∙ session-step (add [] false) (both l m) final [] third),
      refl,
    )

-- In DRAT mode a run that parses the unit clause of the complement of `l`, and nothing else, and
-- then adds `l` and the empty clause, reaches the empty clause, although the parsed formula has a
-- model.
pub rat_ignores_units :
    (l : Lit)
    → (reaches_empty drat_proof (short_cut l) ≡ true) × ¬ Unsatisfiable (formula (short_cut l))
rat_ignores_units l =
    let (t, e, f) = run l in
    (rw (e, f, reaches_empty), λ none_such. none_such model ((falsified, tt)))
  where
    model : Assignment
    model v = sign l

    falsified : sat model (neg l ∷ []) ≡ true
    falsified = ground (arith, holds-neg model l)
