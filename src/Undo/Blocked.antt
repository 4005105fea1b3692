-- ===== src/Undo/Blocked.antt =====
-- coprocessor/techniques/BCE.cc: BlockedClauseElimination::tautologicResolvent. A blocked clause is
-- eliminated safely.
use riss.Base.{
  ◌≡◌, ◌≢◌, inl, inr, refl, ap, sym, subst, ◌∙◌, Bool, true, false, not, List, [], ◌∷◌, All, ◌==◌,
  ==→eq, ltb, if◌then◌else◌, Bool-cases, arith,
}
use riss.Lit.{Lit, LitCode, lit, lit_undef, neg, neg-neg, neg-inj, IsMem}
use riss.Semantics.{Assignment, holds, sat, Models, holds-neg, sat-IsMem, IsMem-sat, sat-All}
use riss.Undo.Reconstruct.{Entry, clause, repaired, with_lit}

-- both clauses are sorted
unfoldable pub tautologic_resolvent : List Lit → List Lit → Lit → LitCode
tautologic_resolvent (a ∷ c) (b ∷ d) l =
    let skip_a = tautologic_resolvent c (b ∷ d) l in
    let skip_b = tautologic_resolvent (a ∷ c) d l in
    let skip_both = tautologic_resolvent c d l in
    if a == l
    then skip_a
    else if b == neg l
    then skip_b
    else if a == b
    then skip_both
    else if a == neg b
    then lit a
    else if ltb a b
    then skip_a
    else skip_b
tautologic_resolvent c d l = lit_undef

-- the literal that makes the resolvent a tautology
abbrev Clashes : Lit → List Lit → List Lit → Lit → Type 0
Clashes q c d l = IsMem q c × IsMem (neg q) d × (q ≢ l)

Clashes-left : (q a : Lit) (c d : List Lit) (l : Lit) → Clashes q c d l → Clashes q (a ∷ c) d l
Clashes-left q a c d l (m, n, k) = (inr m, n, k)

Clashes-right : (q b : Lit) (c d : List Lit) (l : Lit) → Clashes q c d l → Clashes q c (b ∷ d) l
Clashes-right q b c d l (m, n, k) = (m, inr n, k)

tautologic_resolvent-Clashes :
    (c d : List Lit) (l q : Lit) → tautologic_resolvent c d l ≡ lit q → Clashes q c d l
unfolding tautologic_resolvent
tautologic_resolvent-Clashes [] d l q h = absurd (let wrong : lit_undef ≡ lit q = h in cc)
tautologic_resolvent-Clashes (a ∷ c) [] l q h = absurd (let wrong : lit_undef ≡ lit q = h in cc)
tautologic_resolvent-Clashes (a ∷ c) (b ∷ d) l q h = elim (Bool-cases (a == l)) [
  | inl e1 ↦
      Clashes-left q a c (b ∷ d) l
        (tautologic_resolvent-Clashes c (b ∷ d) l q (rw (e1, tautologic_resolvent) at h))
  | inr e1 ↦ elim (Bool-cases (b == neg l)) [
    | inl e2 ↦
        Clashes-right q b (a ∷ c) d l
          (tautologic_resolvent-Clashes (a ∷ c) d l q (rw (e1, e2, tautologic_resolvent) at h))
    | inr e2 ↦ elim (Bool-cases (a == b)) [
      | inl e3 ↦ Clashes-left q a c (b ∷ d) l (
          Clashes-right q b c d l
            (tautologic_resolvent-Clashes c d l q (rw (e1, e2, e3, tautologic_resolvent) at h)))
      | inr e3 ↦ elim (Bool-cases (a == neg b)) [
        | inl e4 ↦
            let same : lit a ≡ lit q = rw (e1, e2, e3, e4, tautologic_resolvent) at h in
            let here : q ≡ a = cc in
            let compl : neg q ≡ b = ap neg here ∙ (ap neg (==→eq a (neg b) e4) ∙ neg-neg b) in
            (inl here, inl compl, λ f. ground (arith, here, f))
        | inr e4 ↦ elim (Bool-cases (ltb a b)) [
          | inl e5 ↦ Clashes-left q a c (b ∷ d) l (
              tautologic_resolvent-Clashes c (b ∷ d) l q
                (rw (e1, e2, e3, e4, e5, tautologic_resolvent) at h))
          | inr e5 ↦ Clashes-right q b (a ∷ c) d l (
              tautologic_resolvent-Clashes (a ∷ c) d l q
                (rw (e1, e2, e3, e4, e5, tautologic_resolvent) at h))
        ]
      ]
    ]
  ]
]

with_lit-holds : (g : Assignment) (l : Lit) → holds (with_lit g l) l ≡ true
with_lit-holds g l = ground arith

-- all true literals but the complement stay true
with_lit-keeps :
    (g : Assignment) (l x : Lit) → x ≢ neg l → holds g x ≡ true → holds (with_lit g l) x ≡ true
unfolding neg
with_lit-keeps g l x n h = ground arith

-- a clause is blocked on `l`: each clause with the complement has a tautological resolvent with it
abbrev pub IsBlocked : List Lit → Lit → List (List Lit) → Type 0
IsBlocked c l f = All (λ d. IsMem (neg l) d → (q : Lit) × (tautologic_resolvent c d l ≡ lit q)) f

falsified :
    (g : Assignment) (c : List Lit) (l : Lit) → sat g c ≡ false → IsMem l c → holds g l ≡ false
falsified g c l h m = elim (Bool-cases (holds g l)) [
  | inr b ↦ b
  | inl b ↦ absurd (let wrong : ◌≡◌ {A = Bool} false true = sym h ∙ IsMem-sat g c l m b in cc)
]

-- one of the other clauses after the repair
repaired-clause :
    (g : Assignment) (l : Lit) (c d : List Lit)
    → sat g c ≡ false
    → (IsMem (neg l) d → (q : Lit) × (tautologic_resolvent c d l ≡ lit q))
    → sat g d ≡ true
    → sat (with_lit g l) d ≡ true
repaired-clause g l c d unsat blocked h =
    let (x, m, k) = sat-IsMem g d h in
    elim (Bool-cases (x == neg l)) [
      | inr b ↦ IsMem-sat (with_lit g l) d x m (with_lit-keeps g l x (λ e. ground arith) k)
      | inl b ↦
          let here : x ≡ neg l = ==→eq x (neg l) b in
          let (q, e) = blocked (rw here at m) in
          let (in_c, in_d, apart) = tautologic_resolvent-Clashes c d l q e in
          let no_q : holds g q ≡ false = falsified g c q unsat in_c in
          let yes_q : holds g (neg q) ≡ true = holds-neg g q ∙ ap not no_q in
          IsMem-sat (with_lit g l) d (neg q) in_d
            (with_lit-keeps g l (neg q) (λ same. apart (neg-inj q l same)) yes_q)
    ]

-- A blocked clause is eliminated safely: a model of the other clauses, repaired for the clause, is a
-- model of the clause and of the others. `c` lists the literals of the clause in the order in which
-- it is compared with the others.
pub blocked-safe :
    (e : Entry) (c : List Lit) (f : List (List Lit))
    → All (λ l. IsMem l (clause e)) c
    → IsBlocked c e.first f
    → (g : Assignment) → Models g f
    → Models (repaired e g) (clause e ∷ f)
blocked-safe e c f same blocked g m = elim (Bool-cases (sat g (clause e))) [
  | inl b ↦
      let here : repaired e g ≡ g = ap (λ y. if y then g else with_lit g e.first) b in
      subst (λ y. Models y (clause e ∷ f)) (sym here) (b, m)
  | inr b ↦
      let here : repaired e g ≡ with_lit g e.first =
        ap (λ y. if y then g else with_lit g e.first) b in
      let first =
        IsMem-sat (with_lit g e.first) (clause e) e.first (inl refl) (with_lit-holds g e.first) in
      subst (λ y. Models y (clause e ∷ f)) (sym here) (first, go f blocked m b)
]
  where
    unsat : sat g (clause e) ≡ false → sat g c ≡ false
    unsat b = elim (Bool-cases (sat g c)) [
      | inr a ↦ a
      | inl a ↦
          absurd
            (let wrong : ◌≡◌ {A = Bool} false true = sym b ∙ sat-All g c (clause e) same a in cc)
    ]

    go :
        (h : List (List Lit))
        → IsBlocked c e.first h
        → Models g h
        → sat g (clause e) ≡ false
        → Models (with_lit g e.first) h
    go [] p q b = tt
    go (d ∷ h) p q b = (repaired-clause g e.first c d (unsat b) p.0 q.0, go h p.1 q.1 b)
