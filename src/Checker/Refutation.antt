-- ===== src/Checker/Refutation.antt =====
-- The check by propagation: it ends, it keeps the invariant, and a conflict means that the clause
-- follows from the clauses of the checker.
use riss.Base.{◌≡◌, inl, inr, refl, Bool, true, List, Bool-cases, some}
use riss.Lit.{Lit}
use riss.Semantics.{Assignment, sat}
use riss.Checker.{Checker}
use riss.Checker.Propagate.{propagate}
use riss.Checker.Operations.{cancel_until, enqueue_complements, refutes}
use riss.Checker.Forced.Meaning.{Agrees, Forced-Agrees, all_false}
use riss.Checker.Outcome.{Prepared, propagate_ends, propagate-Propagated}
use riss.Checker.Valid.{Valid, cancel_until-Valid, cancel_until-Quiet}
use riss.Checker.Valid.{clear_trail-undef}
use riss.Checker.Satisfaction.{
  Satisfies, Satisfies-Known, Satisfies-Shuffled, Shuffled, Shuffled-trans, Quiet-Shuffled,
  Propagated-Shuffled, Propagated-Valid,
}
use riss.Checker.Loading.{LoadedResult, enqueue_complements-Loaded, enqueue_complements-Agrees}

-- the state after a check
pub record Checked (s t : Checker) : Type 0 where
  pub valid : Valid t
  pub shuffled : Shuffled s t

module _ (c : List Lit) (s : Checker) (v : Valid s) where
  abbrev start : Bool × Checker
  start = enqueue_complements c (cancel_until s)

  loaded : LoadedResult (cancel_until s) start
  unfolding cancel_until
  loaded = enqueue_complements-Loaded c (cancel_until s) (cancel_until-Valid v) tt

  prepared : Prepared start.1
  unfolding cancel_until
  prepared = record {
    watching = loaded.valid.watching;
    trail_true = loaded.trail_true;
    in_range = loaded.valid.in_range;
    units_in_range = loaded.valid.units_in_range;
    qhead = loaded.qhead;
  }

  to_start : Shuffled s start.1
  to_start = Shuffled-trans (Quiet-Shuffled (cancel_until-Quiet s)) (Quiet-Shuffled loaded.quiet)

  pub refutes_ends : (b : Bool) × (t : Checker) × (refutes c s ≡ some (b, t)) × Checked s t
  unfolding refutes
  refutes_ends = elim (Bool-cases start.0) [
    | inl e ↦ (true, start.1, rw (e, refutes), record { valid = loaded.valid; shuffled = to_start })
    | inr e ↦
        let (b, t, here, p) = propagate_ends start.1 prepared in
        (
          b,
          t,
          rw (e, refutes) here,
          record {
            valid = Propagated-Valid loaded.valid p;
            shuffled = Shuffled-trans to_start (Propagated-Shuffled p);
          },
        )
  ]

  pub refutes-Checked : (b : Bool) (t : Checker) → refutes c s ≡ some (b, t) → Checked s t
  refutes-Checked b t h = let (b', t', e, k) = refutes_ends in let et : t' ≡ t = cc in rw et at k

  -- before the first propagation no variable has a value
  Agrees-start : (g : Assignment) → Agrees g (cancel_until s).assigns
  unfolding cancel_until
  Agrees-start g x = inr (clear_trail-undef s.assigns s.trail v.on_trail x)

  pub refutes_sound :
      (g : Assignment) (t : Checker) → Satisfies g s → refutes c s ≡ some (true, t) → sat g c ≡ true
  unfolding refutes
  refutes_sound g t h r = elim (Bool-cases (sat g c)) [
    | inl e ↦ e
    | inr e ↦
        let (none_false, agrees) =
          enqueue_complements-Agrees g c (cancel_until s) e (Agrees-start g) in
        let run : propagate start.1 ≡ some (true, t) = rw (none_false, refutes) at r in
        let p = propagate-Propagated start.1 true t prepared run in
        let known = Satisfies-Known g start.1 (Satisfies-Shuffled to_start h) in
        let (d, k, nonempty, falses) = p.clash refl in
        let after = Forced-Agrees g known agrees p.forced in
        let wrong = all_false g t.assigns d after falses in
        elim (known d k) [ inl z ↦ absurd (nonempty z) | inr z ↦ cc ]
  ]
