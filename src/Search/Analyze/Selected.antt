-- ===== src/Search/Analyze/Selected.antt =====
-- Solver::analyze: the loop ends with a clause that covers the conflict.
use riss.Base.{
  ◌+◌, ◌≡◌, ◌≤◌, ◌<◌, ◌⊎◌, inl, inr, refl, ap, sym, subst, ◌∙◌, Bool, true, false, List, [], ◌∷◌,
  All, All-map, arith, if◌then◌else◌, ==-refl,
}
use riss.Lit.{Lit, Var, IsMem, All-IsMem, IsMem-All, neg, var}
use riss.Lifted.{l_true, is_false}
use riss.Semantics.{Assignment, Models, Entails, holds, holds-neg, sat-IsMem}
use riss.Clause.{Clause}
use riss.Checker.{CRef}
use riss.Checker.Watched.{NoDup, NoDup-perm}
use riss.Search.{
  Reason, no_reason, by_clause, by_lit, VarData, Solver, decision_level, level, lits, value,
}
use riss.Search.Justified.{ReasonHolds, Justified, IsValid}
use riss.Search.Forced.{level_zero_holds}
use riss.Search.Backtrack.{Distinct}
use riss.Search.Propagate.{write_clause}
use riss.Search.Propagate.Reordered.{Justified-reorder, IsValid-reorder}
use riss.Search.Final.{Seen, tail}
use riss.Search.Analyze.{Analysis, collect_all, true_first, resolve}
use riss.Search.Analyze.Counted.{counts, count, count-none}
use riss.Search.Analyze.Resolvent.{
  Collected, Covers, Looked, SomeActs, collect_all-Collected, collect_all-limits,
}
use riss.Search.Analyze.Cover.{collect_all-Covers}
use riss.Search.Analyze.Reasons.{
  Structured, Stands, Holding, Holding-true, Behind, Forces-Behind, true_first-Reordered,
  lits-write,
}

-- analyze changes neither the trail nor the levels nor the next reference
abbrev pub Same : Solver → Solver → Type 0
Same s s' =
    (s'.trail ≡ s.trail)
    × (s'.vardata ≡ s.vardata)
    × (s'.trail_lim ≡ s.trail_lim)
    × (s'.next_ref ≡ s.next_ref)

-- what the loop relies on, for the part `t` of the trail
pub record Ready (f : List (List Lit)) (s : Solver) (t : List Lit) : Type 0 where
  pub valid : IsValid f s
  pub no_dup : (cr : CRef) → NoDup (lits s cr)
  pub justified : Justified f s.memory s.vardata t
  pub structured : Structured s.vardata t
  pub holding : Holding s t
  pub within : (k : Lit) → IsMem k t → IsMem k s.trail
  pub capped : All (λ k. level s (var k) ≤ decision_level s) t
  pub deciding : 0 < decision_level s

pub Justified-Distinct :
    (f : List (List Lit)) (mem : CRef → Clause) (vd : Var → VarData) (t : List Lit)
    → Justified f mem vd t
    → Distinct t
Justified-Distinct f mem vd [] j = tt
Justified-Distinct f mem vd (l ∷ t) j =
    (All-map t (λ k h. h.0) j.1, Justified-Distinct f mem vd t j.2)

-- the complement of `p` too may be what holds
abbrev pub CoversNext : Assignment → Solver → List Lit → Lit → Analysis → Type 0
CoversNext g s t p a = (holds g (neg p) ≡ true) ⊎ Covers g s t a

-- after a step: the same trail and levels, and the marks stand for a clause that covers the conflict
pub record Stepped (f : List (List Lit)) (allow : Bool) (s : Solver) (t : List Lit) (a b : Analysis)
    (s' : Solver) : Type 0 where
  pub ready : Ready f s' t
  pub same : Same s s'
  pub collected : Collected s' t b
  pub covers : (g : Assignment) → Models g f → Covers g s' t b
  pub grows : a.path_c ≤ b.path_c
  pub limit : a.path_limit ≤ 1 → b.path_limit ≤ 1
  pub strict : allow ≡ false → b.path_limit ≡ a.path_limit

pub some_acts :
    (g : Assignment) (s : Solver) (t : List Lit) (k : Lit) (qs : List Lit)
    → All (λ x. IsMem (neg x) t) qs
    → IsMem k qs
    → holds g k ≡ true
    → SomeActs g s t qs
some_acts g s t k [] al m h = absurd m
some_acts g s t k (q ∷ qs) al (inl e) h = inl (inl (al.0, ap (holds g) (sym e) ∙ h))
some_acts g s t k (q ∷ qs) al (inr m) h = inr (some_acts g s t k qs al.1 m h)

-- the clauses play no part in the count
count-memory :
    (s : Solver) (m : CRef → Clause) (t : List Lit) (seen : Seen)
    → count (record s { memory = m }) t seen ≡ count s t seen
count-memory s m [] seen = refl
count-memory s m (k ∷ t) seen =
    ap (λ n. (if counts s seen k then 1 else 0) + n) (count-memory s m t seen)

module _ (f : List (List Lit)) (allow : Bool) (s : Solver) (p : Lit) (t : List Lit) (a : Analysis)
    (r : Ready f s t) (cur : level s (var p) ≡ decision_level s) (tv : value s p ≡ l_true)
    (c : Collected s t a) (more : 0 < a.path_c)
    (cov : (g : Assignment) → Models g f → CoversNext g s t p a) where
  distinct : Distinct t
  distinct = Justified-Distinct f s.memory s.vardata t r.justified

  zero_true :
      (g : Assignment) → Models g f → (k : Lit) → IsMem k t → level s (var k) ≡ 0 → holds g k ≡ true
  zero_true g m k n z = level_zero_holds f g m s.memory s.vardata t r.justified k n z

  resolve-lit :
      (q : Lit)
      → IsMem q t
      → level s (var q) ≡ level s (var p)
      → Entails f (p ∷ neg q ∷ [])
      → Stepped f allow s t a (collect_all allow s (q ∷ []) a) s
  resolve-lit q m same ent =
      let looked : All (Looked s t) (q ∷ []) = (inr (m, omega arith), tt) in
      let lim = collect_all-limits allow s (q ∷ []) a in
      record {
        ready = r;
        same = (refl, refl, refl, refl);
        collected = collect_all-Collected allow s t (q ∷ []) a distinct r.within looked c;
        covers = λ g mo.
            collect_all-Covers g allow s t (q ∷ []) a distinct r.within (zero_true g mo) r.deciding
              looked c
              (elim (cov g mo) [
                | inr x ↦ inl x
                | inl x ↦ inr (
                    inl (inr (m, omega arith, (let e = ent g mo in ground (arith, holds-neg g p)))))
              ]);
        grows = lim.0;
        limit = lim.2;
        strict = lim.1;
      }

  resolve-list :
      (m : CRef → Clause) (cls qs : List Lit)
      → Entails f cls
      → Behind p t cls qs
      → Ready f (record s { memory = m }) t
      → Stepped f allow s t a
          (collect_all allow (record s { memory = m }) qs a)
          (record s { memory = m })
  resolve-list m cls qs ent be ready =
      let s' : Solver = record s { memory = m } in
      let c' : Collected s' t a = record {
        counted = c.counted ∙ sym (count-memory s m t a.seen);
        kept = c.kept;
        outs = c.outs;
      } in
      let looked : All (Looked s' t) qs = All-map qs (λ k n. inl n) be.0 in
      let lim = collect_all-limits allow s' qs a in
      record {
        ready = ready;
        same = (refl, refl, refl, refl);
        collected = collect_all-Collected allow s' t qs a distinct r.within looked c';
        covers = λ g mo.
            collect_all-Covers g allow s' t qs a distinct r.within (zero_true g mo) r.deciding
              looked c'
              (elim (cov g mo) [
                | inr x ↦ inl x
                | inl x ↦
                    let (k, n, h) = sat-IsMem g cls (ent g mo) in
                    elim (All-IsMem (λ k. (k ≡ p) ⊎ IsMem k qs) cls k be.1 n) [
                      | inl e ↦ absurd (let z = ap (holds g) e in ground (arith, holds-neg g p))
                      | inr w ↦ inr (some_acts g s' t k qs be.0 w h)
                    ]
              ]);
        grows = lim.0;
        limit = lim.2;
        strict = lim.1;
      }

  ready-ordered : (cr : CRef) → Ready f (write_clause cr (true_first s (lits s cr)) s) t
  ready-ordered cr =
      let s' = write_clause cr (true_first s (lits s cr)) s in
      let o = true_first-Reordered cr s in
      let N : Lit → Type 0 = λ y. is_false (value s y) ≡ true in
      let true_all : (u : List Lit) → Holding s u → All (λ l. ¬ N l) u =
        λ u h. IsMem-All (λ l. ¬ N l) u (λ l m b. let z = Holding-true s u l h m in ground arith) in
      record {
        valid =
            IsValid-reorder N s s' o (true_all s.trail r.valid.holding)
              (refl, refl, refl, refl, refl) r.valid;
        no_dup = λ j. NoDup-perm (o.perm j) (r.no_dup j);
        justified =
            Justified-reorder f N s.memory s'.memory s.vardata t o (true_all t r.holding)
              r.justified;
        structured = r.structured;
        holding = r.holding;
        within = r.within;
        capped = r.capped;
        deciding = r.deciding;
      }

  pub resolve-Stepped :
      (re : Reason)
      → ReasonHolds f s.memory p (level s (var p)) t re
      → Stands s.vardata (level s (var p)) t re
      → Stepped f allow s t a (resolve allow re a s).0 (resolve allow re a s).1
  unfolding resolve
  resolve-Stepped no_reason h st =
      let z =
        count-none s t a.seen
          (All-map t (λ k l. omega arith) (st (let d = r.deciding in omega arith))) in
      absurd (let e = c.counted in omega arith)
  resolve-Stepped (by_lit q) h st = resolve-lit q h.0 st h.1
  resolve-Stepped (by_clause cr) h st =
      let s' = write_clause cr (true_first s (lits s cr)) s in
      let e : lits s' cr ≡ true_first s (lits s cr) =
        lits-write cr (true_first s (lits s cr)) s cr ∙ rw (==-refl cr) refl in
      subst (λ x. Stepped f allow s t a (collect_all allow s' (tail x) a) s') (sym e)
        (resolve-list s'.memory (lits s cr) (tail (true_first s (lits s cr))) h.0
          (Forces-Behind s p t tv r.holding (lits s cr) (r.no_dup cr) h.1) (ready-ordered cr))
