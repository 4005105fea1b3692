-- ===== src/Search/Propagate/Projection.antt =====
-- Solver::propagate and the propagation of the online proof checker treat the watchers of long
-- clauses in the same way, up to the reasons that the solver keeps.
use riss.Base.{
  ◌≡◌, refl, ap, sym, ◌∙◌, true, false, not, ◌&&◌, List, [], ◌∷◌, ◌++◌, ◌==◌, inl, inr, Bool-cases,
  Option-cases, update, get_or, fun_ext,
}
use riss.Lit.{Lit, neg}
use riss.Lifted.{is_true, is_false}
use riss.MarkArray.{empty}
use riss.Checker.{Checker, CRef, Watcher, unknown_proof}
use riss.Checker.Propagate.{order_false, new_watch}
use riss.Checker.Propagate as P
use riss.Search.{Solver, value, lits, unchecked_enqueue, by_clause}
use riss.Search.Propagate.{
  Visit, keep, move, conflict, look_for_watch, visit_clause, visit_long, write_clause,
}

abbrev pub rev : List Lit → List Lit
rev [] = []
rev (l ∷ t) = rev t ++ l ∷ []

-- what the checker has of the solver's state, where no clause counts as freed
abbrev pub core : Solver → Checker
core s = record {
  ok = s.ok;
  proof = unknown_proof;
  memory = λ cr. record (s.memory cr) { mark = false };
  sz = 0;
  wasted = 0;
  clauses = [];
  unit_clauses = [];
  occ = λ l. [];
  watches = s.watches;
  ma = empty;
  qhead = s.qhead;
  trail = rev s.trail;
  assigns = s.assigns;
  n_vars = 0;
}

abbrev pub core_visit : Visit → P.Visit
core_visit (keep w s) = P.keep w (core s)
core_visit (move w s) = P.move w (core s)
core_visit (conflict w s) = P.conflict w (core s)

core-write_clause :
    (cr : CRef) (c : List Lit) (s : Solver)
    → core (write_clause cr c s) ≡ P.write_lits cr c (core s)
core-write_clause cr c s = ap (λ m. record (core s) { memory = m }) (fun_ext written)
  where
    written :
        (j : CRef) → (core (write_clause cr c s)).memory j ≡ (P.write_lits cr c (core s)).memory j
    written j = elim (Bool-cases (cr == j)) [ inl b ↦ rw b refl | inr b ↦ rw b refl ]

look_for_watch-core :
    (f : Lit) (cr : CRef) (c : List Lit) (s : Solver)
    → core_visit (look_for_watch f cr c s) ≡ P.rewatch f cr c (core s)
unfolding look_for_watch P.rewatch unchecked_enqueue
look_for_watch-core f cr [] s = refl
look_for_watch-core f cr (first ∷ []) s = refl
look_for_watch-core f cr (first ∷ second ∷ r) s =
    elim (Option-cases (new_watch (λ l. is_false (value s l)) f r)) [
      | inr ((k, r'), e) ↦
          let s' = write_clause cr (first ∷ k ∷ r') s in
          let w : Watcher = record { cref = cr; blocker = first; long = true } in
          let v =
            move w
              (record s' { watches = update s'.watches (neg k) (s'.watches (neg k) ++ w ∷ []) }) in
          let there : look_for_watch f cr (first ∷ second ∷ r) s ≡ v = rw (e, look_for_watch) in
          let here : P.rewatch f cr (first ∷ second ∷ r) (core s) ≡ core_visit v =
            rw (e, P.rewatch)
              (ap
                (λ t.
                  P.move w
                    (record t { watches = update t.watches (neg k) (t.watches (neg k) ++ w ∷ []) }))
                (sym (core-write_clause cr (first ∷ k ∷ r') s))) in
          ap core_visit there ∙ sym here
      | inl e ↦ elim (Bool-cases (is_false (value s first))) [
        | inl b ↦
            let v = conflict (record { cref = cr; blocker = first; long = true }) s in
            let there : look_for_watch f cr (first ∷ second ∷ r) s ≡ v =
              rw (e, b, look_for_watch) in
            let here : P.rewatch f cr (first ∷ second ∷ r) (core s) ≡ core_visit v =
              rw (e, b, P.rewatch) in
            ap core_visit there ∙ sym here
        | inr b ↦
            let v =
              keep (record { cref = cr; blocker = first; long = true })
                (unchecked_enqueue first (by_clause cr) s) in
            let there : look_for_watch f cr (first ∷ second ∷ r) s ≡ v =
              rw (e, b, look_for_watch) in
            let here : P.rewatch f cr (first ∷ second ∷ r) (core s) ≡ core_visit v =
              rw (e, b, P.rewatch) in
            ap core_visit there ∙ sym here
      ]
    ]

visit_clause-core :
    (f : Lit) (w : Watcher) (c : List Lit) (s : Solver)
    → core_visit (visit_clause f w c s) ≡ P.examine f w c (core s)
unfolding visit_clause P.examine
visit_clause-core f w c s =
    elim (Bool-cases (not (get_or c 0 0 == w.blocker) && is_true (value s (get_or c 0 0)))) [
      | inl b ↦ rw b (
          ap (P.keep (record { cref = w.cref; blocker = get_or c 0 0; long = true }))
            (core-write_clause w.cref c s))
      | inr b ↦ rw b (
          look_for_watch-core f w.cref c (write_clause w.cref c s)
          ∙ ap (P.rewatch f w.cref c) (core-write_clause w.cref c s))
    ]

pub visit_long-core :
    (p : Lit) (w : Watcher) (s : Solver)
    → w.long ≡ true
    → core_visit (visit_long p w s) ≡ P.visit p w (core s)
unfolding visit_long P.visit
visit_long-core p w s l = elim (Bool-cases (is_true (value s w.blocker))) [
  | inl b ↦
      let there : visit_long p w s ≡ keep w s = rw (b, visit_long) in
      let here : P.visit p w (core s) ≡ P.keep w (core s) = rw (l, b, P.visit) in
      ap core_visit there ∙ sym here
  | inr b ↦
      let c = order_false (neg p) (lits s w.cref) in
      let there : visit_long p w s ≡ visit_clause (neg p) w c s = rw (b, visit_long) in
      let here : P.visit p w (core s) ≡ P.examine (neg p) w c (core s) = rw (l, b, P.visit) in
      ap core_visit there ∙ visit_clause-core (neg p) w c s ∙ sym here
]
