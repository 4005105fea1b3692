-- ===== src/Checker/Watched/Whole.antt =====
-- The visit as a whole: the false literal is ordered first.
use mathlib.Core.List.{Permᴰ}
use mathlib.Core.List.Permᴰ
use native.Mathlib.Decide.{ℕ_discrete}
use riss.Base.{
  ◌≡◌, ◌≢◌, ◌⊎◌, inl, inr, refl, ap, sym, subst, ◌∙◌, Bool, true, false, not, ◌&&◌, List, [], ◌∷◌,
  arith, Bool-cases, ◌==◌, ==-refl, ==→eq,
}
use riss.Lit.{Lit, neg}
use riss.Lifted.{l_false, is_true}
use riss.Checker.{Checker, Watcher, CRef, value}
use riss.Checker.Propagate.{
  order_false, write_lits, Visit, keep, move, conflict, rewatch, examine, visit,
}
use riss.Checker.Watched.{lits, Watches, Ok, NoDup, NoDup-perm}
use riss.Checker.Watched.Visit.{
  Same, Step, Visited, Step-refl, live-open, lits-write, rewatch-Visited,
}

pub Same-refl : {s : Checker} → Same s s
Same-refl = record {
  ok = refl;
  proof = refl;
  sz = refl;
  unit_clauses = refl;
  n_vars = refl;
  occ = refl;
}

pub long-shape :
    (c : List Lit) (q bl : Lit)
    → Watches true c q bl
    → (a : Lit) × (b : Lit) × (d : Lit) × (r : List Lit) × (c ≡ a ∷ b ∷ d ∷ r)
long-shape [] q bl h = absurd h
long-shape (a ∷ []) q bl h = absurd h
long-shape (a ∷ b ∷ []) q bl h = absurd h
long-shape (a ∷ b ∷ d ∷ r) q bl h = (a, b, d, r, refl)

module _ (p : Lit) (w : Watcher) (s : Checker) (c : List Lit) (ne : lits s w.cref ≢ [])
    (perm : Permᴰ (lits s w.cref) c)
    (kept : (b : Bool) (q bl : Lit) → Watches b (lits s w.cref) q bl → Watches b c q bl) where
  abbrev ordered : Checker
  ordered = write_lits w.cref c s

  lits-ordered : lits ordered w.cref ≡ c
  lits-ordered = rw (lits-write w.cref c s w.cref ne, ==-refl w.cref)

  lits-ordered_ne : (j : CRef) → j ≢ w.cref → lits ordered j ≡ lits s j
  lits-ordered_ne j n = ground (arith, lits-write w.cref c s j ne)

  frame-ordered : (q : Lit) (v : Watcher) → Ok s q v → Ok ordered q v
  frame-ordered q v o = elim (ℕ_discrete v.cref w.cref) [
    | yes same ↦
        subst (λ d. Watches v.long d q v.blocker) (sym (ap (lits ordered) same ∙ lits-ordered))
          (kept v.long q v.blocker (rw same at o))
    | no other ↦ subst (λ d. Watches v.long d q v.blocker) (sym (lits-ordered_ne v.cref other)) o
  ]

  Step-ordered : {t : Checker} → Step p w ordered t → Step p w s t
  Step-ordered k = record {
    others = λ j n. k.others j n ∙ lits-ordered_ne j n;
    perm = Permᴰ.trans perm (rw lits-ordered at k.perm);
    frame = λ q v o n. k.frame q v (frame-ordered q v o) n;
    same = record {
      ok = k.same.ok;
      proof = k.same.proof;
      sz = k.same.sz;
      unit_clauses = k.same.unit_clauses;
      n_vars = k.same.n_vars;
      occ = k.same.occ;
    };
    qhead = k.qhead;
  }

  Visited-ordered : (v : Visit) → Visited p w ordered v → Visited p w s v
  Visited-ordered (keep v t) (k, same, o, ws, a) = (Step-ordered k, same, o, ws, a)
  Visited-ordered (move v t) (k, st, same, n, o, ws, un, tr) =
      (k, Step-ordered st, same, n, o, ws, λ q h. un q (frame-ordered k q h), tr)
  Visited-ordered (conflict v t) (k, same, o, ws, a, f) = (Step-ordered k, same, o, ws, a, f)

  module _ (first d : Lit) (r : List Lit) (e : c ≡ first ∷ neg p ∷ d ∷ r) (no_dup : NoDup c)
      (is_f : value s (neg p) ≡ l_false) (open_blocker : is_true (value s w.blocker) ≡ false) where
    abbrev watcher : Watcher
    watcher = record { cref = w.cref; blocker = first; long = true }

    still : Ok ordered p watcher
    still = rw (lits-ordered, e) (inr refl)

    examine-Visited : Visited p w s (examine (neg p) w c s)
    unfolding examine
    examine-Visited = elim (Bool-cases (not (first == w.blocker) && is_true (value s first))) [
      | inl t ↦
          let here : examine (neg p) w c s ≡ keep watcher ordered = rw (e, t) in
          subst (Visited p w s) (sym here) (
            Step-ordered (Step-refl p w ordered ordered Same-refl refl refl),
            refl,
            still,
            refl,
            inl (refl, refl),
          )
      | inr t ↦
          let here : examine (neg p) w c s
              ≡ rewatch (neg p) w.cref (first ∷ neg p ∷ d ∷ r) ordered =
            rw (e, t) in
          subst (Visited p w s) (sym here) (
            Visited-ordered _ (
              rewatch-Visited p w ordered first d r (lits-ordered ∙ e) (rw e at no_dup) is_f
                (ground arith)))
    ]

-- the first two literals change places if the false one comes first
module _ (f a b d : Lit) (r : List Lit) where
  order-perm : ((a ≡ f) ⊎ (b ≡ f)) → Permᴰ (a ∷ b ∷ d ∷ r) (order_false f (a ∷ b ∷ d ∷ r))
  order-perm h = elim (Bool-cases (a == f)) [
    | inl t ↦ rw (t, order_false) (Permᴰ.swap (==→eq a f t) refl)
    | inr t ↦ rw (t, order_false) (Permᴰ.refl _)
  ]

  order-shape :
      ((a ≡ f) ⊎ (b ≡ f)) → (first : Lit) × (order_false f (a ∷ b ∷ d ∷ r) ≡ first ∷ f ∷ d ∷ r)
  order-shape h = elim (Bool-cases (a == f)) [
    | inl t ↦ (b, rw (t, order_false))
    | inr t ↦ (a, ground arith)
  ]

  order-Watches :
      (l : Bool) (q bl : Lit)
      → Watches l (a ∷ b ∷ d ∷ r) q bl
      → Watches l (order_false f (a ∷ b ∷ d ∷ r)) q bl
  order-Watches true q bl h = ground arith
  order-Watches false q bl h = absurd h

-- A visit of a long watcher, or of a binary one, which it passes over.
module _ (p : Lit) (w : Watcher) (s : Checker) (no_dup : NoDup (lits s w.cref))
    (is_f : value s (neg p) ≡ l_false) where
  visit-long :
      (a b d : Lit) (r : List Lit)
      → w.long ≡ true
      → lits s w.cref ≡ a ∷ b ∷ d ∷ r
      → Ok s p w
      → is_true (value s w.blocker) ≡ false
      → Visited p w s (visit p w s)
  unfolding visit
  visit-long a b d r l e o bt =
      let ne : lits s w.cref ≢ [] = λ x. (let y = sym e ∙ x in cc) in
      let o' : (a ≡ neg p) ⊎ (b ≡ neg p) = rw (l, e) at o in
      let (first, shape) = order-shape (neg p) a b d r o' in
      let perm : Permᴰ (lits s w.cref) (order_false (neg p) (lits s w.cref)) =
        rw e (order-perm (neg p) a b d r o') in
      let here : visit p w s ≡ examine (neg p) w (order_false (neg p) (lits s w.cref)) s =
        let raw : (s.memory w.cref).lits ≡ lits s w.cref = live-open (s.memory w.cref) ne in
        let there : visit p w s ≡ examine (neg p) w (order_false (neg p) (s.memory w.cref).lits) s =
          rw (l, bt, visit) in
        there ∙ ap (λ c. examine (neg p) w (order_false (neg p) c) s) raw in
      subst (Visited p w s) (sym here) (
        examine-Visited p w s (order_false (neg p) (lits s w.cref)) ne perm
          (rw e (order-Watches (neg p) a b d r)) first d r (rw e shape) (NoDup-perm perm no_dup)
          is_f bt)

  passed_over : visit p w s ≡ keep w s → Ok s p w → Visited p w s (visit p w s)
  passed_over here o =
      subst (Visited p w s) (sym here)
        (Step-refl p w s s Same-refl refl refl, refl, o, refl, inl (refl, refl))

  pub visit-Visited : Ok s p w → Visited p w s (visit p w s)
  unfolding visit
  visit-Visited o = elim (Bool-cases w.long) [
    | inr short ↦ passed_over (rw (short, visit)) o
    | inl long ↦ elim (Bool-cases (is_true (value s w.blocker))) [
      | inl t ↦ passed_over (rw (long, t, visit)) o
      | inr t ↦
          let (a, b, d, r, e) = long-shape (lits s w.cref) p w.blocker (rw long at o) in
          visit-long a b d r long e o t
    ]
  ]
