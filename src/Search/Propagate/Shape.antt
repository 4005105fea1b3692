-- ===== src/Search/Propagate/Shape.antt =====
-- Solver::propagate: what the visit of a long watcher does to the trail and to the first literals.
use riss.Base.{
  ◌≡◌, ◌≢◌, ◌⊎◌, inl, inr, refl, ==→eq, ==-refl, ap, sym, subst, ◌∙◌, true, not, ◌&&◌, List, [],
  ◌∷◌, ◌++◌, get_or, arith, Option-cases, Bool-cases, ◌==◌, update, if◌then◌else◌,
}
use riss.Lit.{Lit, neg}
use riss.Lifted.{is_true, is_false}
use riss.Checker.{CRef, Watcher}
use riss.Checker.Propagate.{new_watch}
use riss.Search.{Solver, value, lits, by_clause, unchecked_enqueue}
use riss.Search.Propagate.{
  Visit, keep, move, conflict, look_for_watch, visit_clause, visit_long, write_clause,
}
use riss.Search.Propagate.Reordered.{SameData}

-- a first literal changes only if it is `x`
abbrev pub Heads : Lit → Solver → Solver → Type 0
Heads x s t =
    (cr : CRef) (d : Lit)
    → get_or (lits s cr) 0 d ≢ x
    → get_or (lits t cr) 0 d ≡ get_or (lits s cr) 0 d

-- nothing is enqueued, or the first literal of the clause
abbrev pub Enqueues : CRef → Solver → Solver → Type 0
Enqueues cr s t =
    (u : Solver) × SameData s u
    × (u.memory ≡ t.memory)
    × ((t ≡ u)
        ⊎ ((l : Lit) × (t ≡ unchecked_enqueue l (by_clause cr) u) × (get_or (lits t cr) 0 l ≡ l)))

abbrev pub Shape : Lit → CRef → Solver → Visit → Type 0
Shape x cr s (keep w t) = Heads x s t × Enqueues cr s t
Shape x cr s (move w t) = Heads x s t × SameData s t
Shape x cr s (conflict w t) = Heads x s t × SameData s t

lits-write :
    (cr : CRef) (c : List Lit) (s : Solver) (j : CRef)
    → lits (write_clause cr c s) j ≡ (if cr == j then c else lits s j)
lits-write cr c s j = ground arith

SameData-refl : (s : Solver) → SameData s s
SameData-refl s = (refl, refl, refl, refl, refl)

look_for_watch-Shape :
    (x : Lit) (cr : CRef) (first second : Lit) (r : List Lit) (s : Solver)
    → lits s cr ≡ first ∷ second ∷ r
    → Shape x cr s (look_for_watch x cr (first ∷ second ∷ r) s)
unfolding look_for_watch unchecked_enqueue
look_for_watch-Shape x cr first second r s e =
    elim (Option-cases (new_watch (λ l. is_false (value s l)) x r)) [
      | inr ((k, r'), n) ↦
          let s' = write_clause cr (first ∷ k ∷ r') s in
          let w : Watcher = record { cref = cr; blocker = first; long = true } in
          let u = record s' {
            watches = update s'.watches (neg k) (s'.watches (neg k) ++ w ∷ []);
          } in
          let here : look_for_watch x cr (first ∷ second ∷ r) s ≡ move w u =
            rw (n, look_for_watch) in
          subst (Shape x cr s) (sym here) (
            λ j d h. (elim (Bool-cases (cr == j)) [
              | inl b ↦
                  let q : lits s j ≡ first ∷ second ∷ r = ap (lits s) (sym (==→eq cr j b)) ∙ e in
                  rw (lits-write cr (first ∷ k ∷ r') s j, b, q) refl
              | inr b ↦ rw (lits-write cr (first ∷ k ∷ r') s j, b) refl
            ]),
            SameData-refl s,
          )
      | inl n ↦ elim (Bool-cases (is_false (value s first))) [
        | inl b ↦
            let here : look_for_watch x cr (first ∷ second ∷ r) s
                ≡ conflict (record { cref = cr; blocker = first; long = true }) s =
              rw (n, b, look_for_watch) in
            subst (Shape x cr s) (sym here) ((λ j d h. refl), SameData-refl s)
        | inr b ↦
            let here : look_for_watch x cr (first ∷ second ∷ r) s
                ≡ keep (record { cref = cr; blocker = first; long = true })
                    (unchecked_enqueue first (by_clause cr) s) =
              rw (n, b, look_for_watch) in
            subst (Shape x cr s) (sym here) (
              (λ j d h. refl),
              (s, SameData-refl s, refl, inr (first, refl, ap (λ c. get_or c 0 first) e)),
            )
      ]
    ]

SameData-trans : (s t u : Solver) → SameData s t → SameData t u → SameData s u
SameData-trans s t u (a, b, c, d, e) (a', b', c', d', e') = (a' ∙ a, b' ∙ b, c' ∙ c, d' ∙ d, e' ∙ e)

Heads-trans : (x : Lit) (s t u : Solver) → Heads x s t → Heads x t u → Heads x s u
Heads-trans x s t u h k cr d n = let e = h cr d n in k cr d (λ q. n (sym e ∙ q)) ∙ e

-- from a state that differs in the order of one clause
Shape-from :
    (x : Lit) (cr : CRef) (s s' : Solver) (v : Visit)
    → Heads x s s'
    → SameData s s'
    → Shape x cr s' v
    → Shape x cr s v
Shape-from x cr s s' (keep w t) hd sd (h, (u, su, m, o)) =
    (Heads-trans x s s' t hd h, (u, SameData-trans s s' u sd su, m, o))
Shape-from x cr s s' (move w t) hd sd (h, su) =
    (Heads-trans x s s' t hd h, SameData-trans s s' t sd su)
Shape-from x cr s s' (conflict w t) hd sd (h, su) =
    (Heads-trans x s s' t hd h, SameData-trans s s' t sd su)

visit_clause-Shape :
    (x : Lit) (w : Watcher) (first second : Lit) (r : List Lit) (s : Solver)
    → Heads x s (write_clause w.cref (first ∷ second ∷ r) s)
    → Shape x w.cref s (visit_clause x w (first ∷ second ∷ r) s)
unfolding visit_clause
visit_clause-Shape x w first second r s hd =
    let c = first ∷ second ∷ r in
    let s' = write_clause w.cref c s in
    elim (Bool-cases (not (first == w.blocker) && is_true (value s first))) [
      | inl b ↦
          let here : visit_clause x w c s
              ≡ keep (record { cref = w.cref; blocker = first; long = true }) s' =
            rw (b, visit_clause) in
          subst (Shape x w.cref s) (sym here) (hd, (s', SameData-refl s, refl, inl refl))
      | inr b ↦
          let here : visit_clause x w c s ≡ look_for_watch x w.cref c s' = rw (b, visit_clause) in
          subst (Shape x w.cref s) (sym here) (
            Shape-from x w.cref s s' (look_for_watch x w.cref c s') hd (SameData-refl s) (
              look_for_watch-Shape x w.cref first second r s'
                (rw (lits-write w.cref c s w.cref, ==-refl w.cref))))
    ]

pub visit_long-Shape :
    (p : Lit) (w : Watcher) (a b : Lit) (r : List Lit) (s : Solver)
    → lits s w.cref ≡ a ∷ b ∷ r
    → Shape (neg p) w.cref s (visit_long p w s)
unfolding visit_long
visit_long-Shape p w a b r s e = elim (Bool-cases (is_true (value s w.blocker))) [
  | inl t ↦
      let here : visit_long p w s ≡ keep w s = rw (t, visit_long) in
      subst (Shape (neg p) w.cref s) (sym here)
        ((λ j d h. refl), (s, SameData-refl s, refl, inl refl))
  | inr t ↦ elim (Bool-cases (a == neg p)) [
    | inl q ↦
        let here : visit_long p w s ≡ visit_clause (neg p) w (b ∷ neg p ∷ r) s =
          rw (t, e, q, visit_long) in
        subst (Shape (neg p) w.cref s) (sym here) (
          visit_clause-Shape (neg p) w b (neg p) r s (λ j d h. elim (Bool-cases (w.cref == j)) [
            | inl z ↦ absurd (
                h (
                  ap (λ c. get_or c 0 d) (ap (lits s) (sym (==→eq w.cref j z)) ∙ e)
                  ∙ ==→eq a (neg p) q))
            | inr z ↦ rw (lits-write w.cref (b ∷ neg p ∷ r) s j, z) refl
          ]))
    | inr q ↦
        let here : visit_long p w s ≡ visit_clause (neg p) w (a ∷ b ∷ r) s =
          rw (t, e, q, visit_long) in
        subst (Shape (neg p) w.cref s) (sym here) (
          visit_clause-Shape (neg p) w a b r s (λ j d h. elim (Bool-cases (w.cref == j)) [
            | inl z ↦
                let o : lits s j ≡ a ∷ b ∷ r = ap (lits s) (sym (==→eq w.cref j z)) ∙ e in
                rw (lits-write w.cref (a ∷ b ∷ r) s j, z, o) refl
            | inr z ↦ rw (lits-write w.cref (a ∷ b ∷ r) s j, z) refl
          ]))
  ]
]
