-- ===== src/Checker/Satisfaction.antt =====
-- What it means that an assignment satisfies the clauses of the checker.
use mathlib.Core.List.{Permᴰ}
use mathlib.Core.List.Permᴰ
use riss.Base.{
  ◌≤◌, ◌≡◌, ◌⊎◌, inl, inr, refl, ap, sym, subst, ◌∙◌, Bool, true, List, [], ◌∷◌, arith, All,
}
use riss.Lit.{Lit}
use riss.Semantics.{Assignment, holds, sat}
use riss.Checker.{Checker, CRef}
use riss.Checker.Forced.{IsMem}
use riss.Checker.Watched.{live, lits, All-perm}
use riss.Checker.UnitClauses.{Known}
use riss.Checker.Outcome.{Propagated}
use riss.Checker.Valid.{Valid, Forced-OnTrail, Quiet}

-- the assignment satisfies the units and the stored clauses that are not freed
pub record Satisfies (g : Assignment) (s : Checker) : Type 0 where
  pub stored : (cr : CRef) → (lits s cr ≡ []) ⊎ (sat g (lits s cr) ≡ true)
  pub units : All (λ l. holds g l ≡ true) s.unit_clauses

pub sat-perm : {c d : List Lit} (g : Assignment) → Permᴰ c d → sat g c ≡ true → sat g d ≡ true
sat-perm g Permᴰ.nil h = h
sat-perm g (Permᴰ.cons {a = a} {b = b} {l₁ = c} {l₂ = d} e p) h =
    let e' : holds g a ≡ holds g b = ap (holds g) e in ground (arith, sat-perm g p)
sat-perm g (Permᴰ.swap {a = a} {b = b} {a' = a'} {b' = b'} e f) h =
    let e' : holds g a ≡ holds g b' = ap (holds g) e in
    let f' : holds g b ≡ holds g a' = ap (holds g) f in ground arith
sat-perm g (Permᴰ.trans p q) h = sat-perm g q (sat-perm g p h)

nil-perm : {c d : List Lit} → Permᴰ c d → c ≡ [] → d ≡ []
nil-perm Permᴰ.nil h = refl
nil-perm (Permᴰ.cons e p) h = cc
nil-perm (Permᴰ.swap e f) h = cc
nil-perm (Permᴰ.trans p q) h = nil-perm q (nil-perm p h)

pub Satisfies-Known :
    (g : Assignment) (s : Checker)
    → Satisfies g s
    → (d : List Lit) → Known s d
    → (d ≡ []) ⊎ (sat g d ≡ true)
Satisfies-Known g s h d (inl (cr, p)) = elim (h.stored cr) [
  | inl e ↦ inl (nil-perm p e)
  | inr e ↦ inr (sat-perm g p e)
]
Satisfies-Known g s h d (inr (l, m, e)) = inr (rw e (in_units s.unit_clauses h.units m))
  where
    in_units : (us : List Lit) → All (λ u. holds g u ≡ true) us → IsMem l us → sat g (l ∷ []) ≡ true
    in_units [] a x = absurd x
    in_units (u ∷ us) a (inl x) = let k : holds g l ≡ holds g u = ap (holds g) x in ground arith
    in_units (u ∷ us) a (inr x) = in_units us a.1 x

-- the same clauses up to the order of their literals, and at least as many variables
pub record Shuffled (s t : Checker) : Type 0 where
  pub perm : (cr : CRef) → Permᴰ (lits s cr) (lits t cr)
  pub unit_clauses : t.unit_clauses ≡ s.unit_clauses
  pub ok : t.ok ≡ s.ok
  pub proof : t.proof ≡ s.proof
  pub sz : t.sz ≡ s.sz
  pub n_vars : s.n_vars ≤ t.n_vars

pub Shuffled-trans : {s t u : Checker} → Shuffled s t → Shuffled t u → Shuffled s u
Shuffled-trans a b = record {
  perm = λ cr. Permᴰ.trans (a.perm cr) (b.perm cr);
  unit_clauses = b.unit_clauses ∙ a.unit_clauses;
  ok = b.ok ∙ a.ok;
  proof = b.proof ∙ a.proof;
  sz = b.sz ∙ a.sz;
  n_vars = omega (arith, a.n_vars, b.n_vars);
}

pub Quiet-Shuffled : {s t : Checker} → Quiet s t → Shuffled s t
Quiet-Shuffled {s} {t} q = record {
  perm = λ cr. subst (Permᴰ (lits s cr)) (sym (ap (λ m. live (m cr)) q.memory)) (Permᴰ.refl _);
  unit_clauses = q.unit_clauses;
  ok = q.ok;
  proof = q.proof;
  sz = q.sz;
  n_vars = q.n_vars;
}

pub Propagated-Shuffled : {s t : Checker} {c : Bool} → Propagated s c t → Shuffled s t
Propagated-Shuffled {s} {t} p = record {
  perm = p.perm;
  unit_clauses = p.same.unit_clauses;
  ok = p.same.ok;
  proof = p.same.proof;
  sz = p.same.sz;
  n_vars = omega (arith, p.same.n_vars);
}

pub Satisfies-Shuffled :
    {g : Assignment} {s t : Checker} → Shuffled s t → Satisfies g s → Satisfies g t
Satisfies-Shuffled {g} {s} {t} k h = record {
  stored = λ cr. elim (h.stored cr) [
    | inl e ↦ inl (nil-perm (k.perm cr) e)
    | inr e ↦ inr (sat-perm g (k.perm cr) e)
  ];
  units = rw k.unit_clauses h.units;
}

pub Propagated-Valid : {s t : Checker} {c : Bool} → Valid s → Propagated s c t → Valid t
Propagated-Valid {s} {t} v p = record {
  watching = p.watching;
  in_range = λ cr. rw p.same.n_vars (All-perm _ (p.perm cr) (v.in_range cr));
  units_in_range = rw (p.same.n_vars, p.same.unit_clauses) v.units_in_range;
  on_trail = Forced-OnTrail p.forced v.on_trail;
  fresh = λ cr h. nil-perm (p.perm cr) (v.fresh cr (omega (arith, p.same.sz)));
}
