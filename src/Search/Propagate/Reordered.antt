-- ===== src/Search/Propagate/Reordered.antt =====
-- Solver::propagate: reordering the literals of clauses keeps the invariant of the search.
use mathlib.Core.List.{Permᴰ}
use mathlib.Core.List.Permᴰ
use riss.Base.{
  ℕ, suc, ◌≡◌, ◌≢◌, ◌<◌, inl, inr, refl, ap, sym, subst, ◌∙◌, not, List, [], ◌∷◌, All, All-map,
  length, get_or, arith, map,
}
use riss.Lit.{Lit, Var, IsMem, neg, neg-neg, var, sign, var-neg, sign-neg}
use riss.Lifted.{l_true, l_false, of_bool}
use riss.Semantics.{Entails}
use riss.Clause.{Clause}
use riss.Checker.{CRef}
use riss.Checker.Satisfaction.{sat-perm}
use riss.Checker.Watched.{All-perm}
use riss.Search.{Reason, no_reason, by_clause, by_lit, VarData, Solver, value}
use riss.Search.Justified.{ReasonHolds, Justified, IsValid}

pub length-perm : {c d : List Lit} → Permᴰ c d → length d ≡ length c
length-perm Permᴰ.nil = refl
length-perm (Permᴰ.cons e p) = ap suc (length-perm p)
length-perm (Permᴰ.swap e f) = refl
length-perm (Permᴰ.trans p q) = length-perm q ∙ length-perm p

pub IsMem-perm : (l : Lit) {c d : List Lit} → Permᴰ c d → IsMem l c → IsMem l d
IsMem-perm l Permᴰ.nil m = m
IsMem-perm l (Permᴰ.cons e p) (inl q) = inl (q ∙ e)
IsMem-perm l (Permᴰ.cons e p) (inr m) = inr (IsMem-perm l p m)
IsMem-perm l (Permᴰ.swap e f) (inl q) = inr (inl (q ∙ e))
IsMem-perm l (Permᴰ.swap e f) (inr (inl q)) = inl (q ∙ f)
IsMem-perm l (Permᴰ.swap e f) (inr (inr m)) = inr (inr m)
IsMem-perm l (Permᴰ.trans p q) m = IsMem-perm l q (IsMem-perm l p m)

-- the clauses of the store follow from the formula
abbrev pub StoreEntailed : List (List Lit) → (CRef → Clause) → Type 0
StoreEntailed f mem = (cr : CRef) → 0 < length (mem cr).lits → Entails f (mem cr).lits

-- the literals are permuted, and a first literal changes only if it satisfies `N`
pub record Reordered (N : Lit → Type 0) (mem mem' : CRef → Clause) : Type 0 where
  pub perm : (cr : CRef) → Permᴰ (mem cr).lits (mem' cr).lits
  pub head :
      (cr : CRef) (d : Lit)
      → ¬ N (get_or (mem cr).lits 0 d)
      → get_or (mem' cr).lits 0 d ≡ get_or (mem cr).lits 0 d

pub Reordered-refl : (N : Lit → Type 0) (mem : CRef → Clause) → Reordered N mem mem
Reordered-refl N mem = record { perm = λ cr. Permᴰ.refl _; head = λ cr d n. refl }

pub StoreEntailed-reorder :
    (f : List (List Lit)) (N : Lit → Type 0) (mem mem' : CRef → Clause)
    → Reordered N mem mem'
    → StoreEntailed f mem
    → StoreEntailed f mem'
StoreEntailed-reorder f N mem mem' r h cr k g models =
    sat-perm g (r.perm cr) (h cr (let e = length-perm (r.perm cr) in omega arith) g models)

ReasonHolds-reorder :
    (f : List (List Lit)) (N : Lit → Type 0) (mem mem' : CRef → Clause) (l : Lit) (lev : ℕ)
    (below : List Lit) (re : Reason)
    → Reordered N mem mem'
    → ¬ N l
    → ReasonHolds f mem l lev below re
    → ReasonHolds f mem' l lev below re
ReasonHolds-reorder f N mem mem' l lev below no_reason r n h = h
ReasonHolds-reorder f N mem mem' l lev below (by_lit q) r n h = h
ReasonHolds-reorder f N mem mem' l lev below (by_clause cr) r n h = (
  λ g models. sat-perm g (r.perm cr) (h.0 g models),
  (
    All-perm _ (r.perm cr) h.1.0,
    elim h.1.1 [
      | inl e ↦ inl (length-perm (r.perm cr) ∙ e.0, IsMem-perm l (r.perm cr) e.1)
      | inr e ↦ inr (r.head cr l (λ q. n (subst N e q)) ∙ e)
    ],
  ),
)

pub Justified-reorder :
    (f : List (List Lit)) (N : Lit → Type 0) (mem mem' : CRef → Clause) (vd : Var → VarData)
    (t : List Lit)
    → Reordered N mem mem'
    → All (λ l. ¬ N l) t
    → Justified f mem vd t
    → Justified f mem' vd t
Justified-reorder f N mem mem' vd [] r n h = tt
Justified-reorder f N mem mem' vd (l ∷ t) r n h = (
  ReasonHolds-reorder f N mem mem' l (vd (var l)).level t (vd (var l)).reason r n.0 h.0,
  h.1,
  Justified-reorder f N mem mem' vd t r n.1 h.2,
)

-- a literal of the trail is true, and a false literal has its complement on the trail
pub on_trail-ne :
    {f : List (List Lit)} (s : Solver) (p : Lit)
    → IsValid f s
    → value s p ≡ l_true
    → All (λ l. l ≢ neg p) s.trail
on_trail-ne s p h v = All-map s.trail (λ l e q. clash l e q) h.holding
  where
    clash : (l : Lit) → s.assigns (var l) ≡ of_bool (not (sign l)) → l ≢ neg p
    clash l e q =
        let e' : s.assigns (var (neg p)) ≡ of_bool (not (sign (neg p))) =
          subst (λ x. s.assigns (var x) ≡ of_bool (not (sign x))) q e in
        ground (arith, var-neg p, sign-neg p)

holding-find :
    (s : Solver) (t : List Lit) (v : Var)
    → All (λ l. s.assigns (var l) ≡ of_bool (not (sign l))) t
    → IsMem v (map var t)
    → (l : Lit) × IsMem l t × (var l ≡ v) × (s.assigns (var l) ≡ of_bool (not (sign l)))
holding-find s [] v h m = absurd m
holding-find s (l ∷ t) v h (inl e) = (l, inl refl, sym e, h.0)
holding-find s (l ∷ t) v h (inr m) = let (k, n, e, q) = holding-find s t v h.1 m in (k, inr n, e, q)

lit-eq : (a b : Lit) → var a ≡ var b → sign a ≡ sign b → a ≡ b
lit-eq a b e f = ground arith

pub false_on_trail :
    {f : List (List Lit)} (s : Solver) (m : Lit)
    → IsValid f s
    → value s m ≡ l_false
    → IsMem (neg m) s.trail
false_on_trail s m h v = elim (h.on_trail (var m)) [
  | inl u ↦ absurd (ground arith)
  | inr o ↦
      let (l, n, e, q) = holding-find s s.trail (var m) h.holding o in
      let same : l ≡ neg m =
        lit-eq l (neg m) (e ∙ sym (var-neg m))
          (let a = ap s.assigns e in ground (arith, sign-neg m)) in
      subst (λ x. IsMem x s.trail) same n
]

pub true_on_trail :
    {f : List (List Lit)} (s : Solver) (m : Lit)
    → IsValid f s
    → value s m ≡ l_true
    → IsMem m s.trail
true_on_trail s m h v =
    subst (λ x. IsMem x s.trail) (neg-neg m)
      (false_on_trail s (neg m) h (ground (arith, var-neg m, sign-neg m)))

-- the fields that the invariant speaks of, but the clauses
abbrev pub SameData : Solver → Solver → Type 0
SameData s t =
    (t.assigns ≡ s.assigns)
    × (t.vardata ≡ s.vardata)
    × (t.trail ≡ s.trail)
    × (t.trail_lim ≡ s.trail_lim)
    × (t.qhead ≡ s.qhead)

pub IsValid-reorder :
    {f : List (List Lit)} (N : Lit → Type 0) (s t : Solver)
    → Reordered N s.memory t.memory
    → All (λ l. ¬ N l) s.trail
    → SameData s t
    → IsValid f s
    → IsValid f t
IsValid-reorder {f} N s t r n (ea, ev, et, el, eq) h = record {
  justified =
      rw (ev, et) (Justified-reorder f N s.memory t.memory s.vardata s.trail r n h.justified);
  holding = rw (ea, et) h.holding;
  on_trail = rw (ea, et) h.on_trail;
  leveled = rw (ev, et, el) h.leveled;
  limits = rw (et, el) h.limits;
  head = rw (et, eq) h.head;
}
