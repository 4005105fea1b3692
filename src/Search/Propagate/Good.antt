-- ===== src/Search/Propagate/Good.antt =====
-- Solver::propagate: a visit and an enqueued binary implication keep the invariant of the search.
use riss.Base.{
  ◌≡◌, ◌≢◌, ◌<◌, inl, inr, refl, ap, sym, subst, ◌∙◌, List, [], ◌∷◌, ◌++◌, All-map, length,
  length-append, get_or, arith,
}
use riss.Lit.{Lit, IsMem, neg}
use riss.Lifted.{l_true, l_undef}
use riss.Semantics.{Entails}
use riss.Checker.{CRef, Watcher}
use riss.Checker.Forced.{IsUnit}
use riss.Checker.Watched.Visit.{Step, Visited}
use riss.Checker.Watched.Scan.{Step-perm}
use riss.Search.{Solver, value, lits, by_clause, by_lit, unchecked_enqueue}
use riss.Search.Justified.{IsValid}
use riss.Search.Trail.{unchecked_enqueue-IsValid}
use riss.Search.Propagate.{Visit, keep, move, conflict}
use riss.Search.Propagate.Projection.{rev, core, core_visit}
use riss.Search.Propagate.Reordered.{
  StoreEntailed, StoreEntailed-reorder, Reordered, IsValid-reorder, on_trail-ne, false_on_trail,
  true_on_trail,
}
use riss.Search.Propagate.Shape.{Heads, Shape}

pub record Good (f : List (List Lit)) (s : Solver) : Type 0 where
  pub valid : IsValid f s
  pub store : StoreEntailed f s.memory

abbrev pub result : Visit → Solver
result (keep w t) = t
result (move w t) = t
result (conflict w t) = t

snoc_inj : (xs : List Lit) (a b : Lit) → xs ++ a ∷ [] ≡ xs ++ b ∷ [] → a ≡ b
snoc_inj [] a b e = cc
snoc_inj (x ∷ xs) a b e = snoc_inj xs a b (cc)

snoc_ne : (xs : List Lit) (a : Lit) → xs ++ a ∷ [] ≢ xs
snoc_ne xs a e = let k = ap length e in omega (arith, length-append xs (a ∷ []))

-- the first literal of a clause whose other literals are false
enqueue_first :
    {f : List (List Lit)} (l : Lit) (cr : CRef) (u : Solver)
    → Good f u
    → IsUnit u.assigns (lits u cr) l
    → get_or (lits u cr) 0 l ≡ l
    → Good f (unchecked_enqueue l (by_clause cr) u)
unfolding unchecked_enqueue
enqueue_first {f} l cr u g (m, others, undef) h = record {
  valid = unchecked_enqueue-IsValid l (by_clause cr) u g.valid (ground arith) (
    g.store cr (some_length (lits u cr) m),
    (
      All-map (lits u cr)
          (λ k o. elim o [ inl e ↦ inl e | inr w ↦ inr (false_on_trail u k g.valid w) ]) others,
      inr h,
    ),
  );
  store = g.store;
}
  where
    some_length : (c : List Lit) → IsMem l c → 0 < length c
    some_length [] x = absurd x
    some_length (y ∷ c) x = omega arith

unchecked_enqueue-trail :
    (l : Lit) (cr : CRef) (u : Solver) → (unchecked_enqueue l (by_clause cr) u).trail ≡ l ∷ u.trail
unfolding unchecked_enqueue
unchecked_enqueue-trail l cr u = refl

-- the other literal of a binary clause
pub enqueue_binary :
    {f : List (List Lit)} (b p : Lit) (s : Solver)
    → Good f s
    → value s p ≡ l_true
    → value s b ≡ l_undef
    → Entails f (b ∷ neg p ∷ [])
    → Good f (unchecked_enqueue b (by_lit p) s)
unfolding unchecked_enqueue
enqueue_binary {f} b p s g tr u e = record {
  valid =
      unchecked_enqueue-IsValid b (by_lit p) s g.valid (ground arith)
        (true_on_trail s p g.valid tr, e);
  store = g.store;
}

module _ (f : List (List Lit)) (p : Lit) (w : Watcher) (s : Solver) (g : Good f s)
    (tr : value s p ≡ l_true) where
  reordered :
      (t : Solver)
      → Heads (neg p) s t
      → Step p w (core s) (core t)
      → Reordered (λ y. y ≡ neg p) s.memory t.memory
  reordered t hd st = record { perm = λ cr. Step-perm st cr; head = hd }

  pub visit-Good :
      (v : Visit)
      → Visited p w (core s) (core_visit v)
      → Shape (neg p) w.cref s v
      → Good f (result v)
  visit-Good (move v t) (k, st, _, _, _, _, _, _) (hd, sd) =
      let r = reordered t hd st in
      record {
        valid = IsValid-reorder (λ y. y ≡ neg p) s t r (on_trail-ne s p g.valid tr) sd g.valid;
        store = StoreEntailed-reorder f (λ y. y ≡ neg p) s.memory t.memory r g.store;
      }
  visit-Good (conflict v t) (st, _, _, _, _, _) (hd, sd) =
      let r = reordered t hd st in
      record {
        valid = IsValid-reorder (λ y. y ≡ neg p) s t r (on_trail-ne s p g.valid tr) sd g.valid;
        store = StoreEntailed-reorder f (λ y. y ≡ neg p) s.memory t.memory r g.store;
      }
  visit-Good (keep v t) (st, ec, o, we, asg) (hd, (u, su, m, sh)) =
      let r : Reordered (λ y. y ≡ neg p) s.memory u.memory = rw m (reordered t hd st) in
      let gu : Good f u = record {
        valid = IsValid-reorder (λ y. y ≡ neg p) s u r (on_trail-ne s p g.valid tr) su g.valid;
        store = StoreEntailed-reorder f (λ y. y ≡ neg p) s.memory u.memory r g.store;
      } in
      elim sh [
        | inl e ↦ subst (Good f) (sym e) gu
        | inr (l, e, h) ↦
            let at_t : t.trail ≡ l ∷ s.trail =
              ap (λ (x : Solver). x.trail) e
              ∙ unchecked_enqueue-trail l w.cref u
              ∙ ap (λ (x : List Lit). l ∷ x) su.2 in
            let same : lits u w.cref ≡ lits t w.cref = ap (λ x. (x w.cref).lits) m in
            elim asg [
              | inl (ea, et) ↦ absurd (snoc_ne (rev s.trail) l (sym (ap rev at_t) ∙ et))
              | inr (k, unit, (ea, et)) ↦
                  let q : k ≡ l = sym (snoc_inj (rev s.trail) l k (sym (ap rev at_t) ∙ et)) in
                  let unit' : IsUnit u.assigns (lits u w.cref) l =
                    rw (su.0, same) (subst (IsUnit s.assigns (lits t w.cref)) q unit) in
                  subst (Good f) (sym e)
                    (enqueue_first l w.cref u gu unit' (ap (λ c. get_or c 0 l) same ∙ h))
            ]
      ]
