-- ===== src/Resolution/Kept.antt =====
-- The resolvent that BoundedVariableElimination::resolve builds holds the literals of both clauses
-- but the pivots, so it follows from the clauses.
use riss.Base.{
  ◌≡◌, ◌⊎◌, inl, inr, refl, ap, sym, Bool, true, false, List, [], ◌∷◌, Option-cases, none, some,
  All, ◌==◌, ==→eq, ltb, Bool-cases, arith,
}
use riss.Lit.{Lit, Var, mk_lit, neg, IsMem, All-IsMem}
use riss.Semantics.{Assignment, holds, sat, sat-IsMem, IsMem-sat}
use riss.Resolution.{check_push, resolve}

-- all literals of the first list are in the second
abbrev Within : List Lit → List Lit → Type 0
Within ps qs = (x : Lit) → IsMem x ps → IsMem x qs

check_push-IsMem :
    (ps : List Lit) (l : Lit) (qs : List Lit)
    → check_push ps l ≡ some qs
    → Within ps qs × IsMem l qs
unfolding check_push
check_push-IsMem [] l qs h =
    let here : l ∷ [] ≡ qs = ground arith in rw (← here) ((λ x m. absurd m), inl refl)
check_push-IsMem (y ∷ ps) l qs h = elim (Bool-cases (y == l)) [
  | inl a ↦
      let here : y ∷ ps ≡ qs = ground arith in rw (← here) ((λ x m. m), inl (sym (==→eq y l a)))
  | inr a ↦ elim (Bool-cases (y == neg l)) [
    | inl b ↦ absurd (ground arith)
    | inr b ↦ let here : l ∷ y ∷ ps ≡ qs = ground arith in rw (← here) ((λ x m. inr m), inl refl)
  ]
]

-- what the finished resolvent holds
record Kept (v : Var) (c d ps qs : List Lit) : Type 0 where
  pushed : Within ps qs
  left : All (λ x. (x ≡ mk_lit v false) ⊎ IsMem x qs) c
  right : All (λ x. (x ≡ mk_lit v true) ⊎ IsMem x qs) d

abbrev KeptResult : Var → List Lit → List Lit → List Lit → Bool × List Lit → Type 0
KeptResult v c d ps r = r.0 ≡ false → Kept v c d ps r.1

module _ (v : Var) where
  skip-left :
      (a : Lit) (c d ps : List Lit) (r : Bool × List Lit)
      → (a == mk_lit v false) ≡ true
      → KeptResult v c d ps r
      → KeptResult v (a ∷ c) d ps r
  skip-left a c d ps r e h n =
      let k = h n in
      record {
        pushed = k.pushed;
        left = (inl (==→eq a (mk_lit v false) e), k.left);
        right = k.right;
      }

  skip-right :
      (b : Lit) (c d ps : List Lit) (r : Bool × List Lit)
      → (b == mk_lit v true) ≡ true
      → KeptResult v c d ps r
      → KeptResult v c (b ∷ d) ps r
  skip-right b c d ps r e h n =
      let k = h n in
      record {
        pushed = k.pushed;
        left = k.left;
        right = (inl (==→eq b (mk_lit v true) e), k.right);
      }

  take-left :
      (a : Lit) (c d ps : List Lit) (next : List Lit → Bool × List Lit)
      → ((qs : List Lit) → KeptResult v c d qs (next qs))
      → KeptResult v (a ∷ c) d ps (elim (check_push ps a) [ none ↦ (true, ps) | some qs ↦ next qs ])
  take-left a c d ps next h = elim (Option-cases (check_push ps a)) [
    | inl e ↦ rw e (λ n. absurd (let wrong : ◌≡◌ {A = Bool} true false = n in cc))
    | inr (qs, e) ↦ rw e (λ n.
        let k = h qs n in
        let (w, m) = check_push-IsMem ps a qs e in
        record {
          pushed = λ x y. k.pushed x (w x y);
          left = (inr (k.pushed a m), k.left);
          right = k.right;
        })
  ]

  take-right :
      (b : Lit) (c d ps : List Lit) (next : List Lit → Bool × List Lit)
      → ((qs : List Lit) → KeptResult v c d qs (next qs))
      → KeptResult v c (b ∷ d) ps (elim (check_push ps b) [ none ↦ (true, ps) | some qs ↦ next qs ])
  take-right b c d ps next h = elim (Option-cases (check_push ps b)) [
    | inl e ↦ rw e (λ n. absurd (let wrong : ◌≡◌ {A = Bool} true false = n in cc))
    | inr (qs, e) ↦ rw e (λ n.
        let k = h qs n in
        let (w, m) = check_push-IsMem ps b qs e in
        record {
          pushed = λ x y. k.pushed x (w x y);
          left = k.left;
          right = (inr (k.pushed b m), k.right);
        })
  ]

  resolve-Kept : (c d ps : List Lit) → KeptResult v c d ps (resolve v c d ps)
  unfolding resolve
  resolve-Kept [] [] ps = λ n. record { pushed = λ x m. m; left = tt; right = tt }
  resolve-Kept (a ∷ c) [] ps = elim (Bool-cases (a == mk_lit v false)) [
    | inl e ↦ rw (e, resolve) (skip-left a c [] ps (resolve v c [] ps) e (resolve-Kept c [] ps))
    | inr e ↦
        rw (e, resolve) (take-left a c [] ps (λ qs. resolve v c [] qs) (λ qs. resolve-Kept c [] qs))
  ]
  resolve-Kept [] (b ∷ d) ps = elim (Bool-cases (b == mk_lit v true)) [
    | inl e ↦ rw (e, resolve) (skip-right b [] d ps (resolve v [] d ps) e (resolve-Kept [] d ps))
    | inr e ↦
        rw (e, resolve)
          (take-right b [] d ps (λ qs. resolve v [] d qs) (λ qs. resolve-Kept [] d qs))
  ]
  resolve-Kept (a ∷ c) (b ∷ d) ps = elim (Bool-cases (a == mk_lit v false)) [
    | inl e ↦
        rw (e, resolve)
          (skip-left a c (b ∷ d) ps (resolve v c (b ∷ d) ps) e (resolve-Kept c (b ∷ d) ps))
    | inr e ↦ elim (Bool-cases (b == mk_lit v true)) [
      | inl f ↦
          rw (e, f, resolve)
            (skip-right b (a ∷ c) d ps (resolve v (a ∷ c) d ps) f (resolve-Kept (a ∷ c) d ps))
      | inr f ↦ elim (Bool-cases (ltb a b)) [
        | inl g ↦
            rw (e, f, g, resolve)
              (take-left a c (b ∷ d) ps (λ qs. resolve v c (b ∷ d) qs)
                (λ qs. resolve-Kept c (b ∷ d) qs))
        | inr g ↦
            rw (e, f, g, resolve)
              (take-right b (a ∷ c) d ps (λ qs. resolve v (a ∷ c) d qs)
                (λ qs. resolve-Kept (a ∷ c) d qs))
      ]
    ]
  ]

-- a literal that is not false, of a clause whose literals are the pivot or in the resolvent
from_clause :
    (g : Assignment) (c qs : List Lit) (p : Lit)
    → All (λ x. (x ≡ p) ⊎ IsMem x qs) c
    → holds g p ≡ false
    → sat g c ≡ true
    → sat g qs ≡ true
from_clause g c qs p k n h =
    let (x, m, t) = sat-IsMem g c h in
    elim (All-IsMem (λ y. (y ≡ p) ⊎ IsMem y qs) c x k m) [
      | inl e ↦ absurd (let same : holds g x ≡ holds g p = ap (holds g) e in ground arith)
      | inr e ↦ IsMem-sat g qs x e t
    ]

-- If resolve does not report a tautology, then the resolvent that it has built holds in every
-- assignment that satisfies both clauses.
pub resolve_entails :
    (v : Var) (c d qs : List Lit)
    → resolve v c d [] ≡ (false, qs)
    → (g : Assignment) → sat g c ≡ true
    → sat g d ≡ true
    → sat g qs ≡ true
resolve_entails v c d qs e g sc sd =
    let k : Kept v c d [] qs = rw e at (resolve-Kept v c d []) refl in
    elim (Bool-cases (g v)) [
      | inl t ↦
          let no_d : holds g (mk_lit v true) ≡ false = ground arith in
          from_clause g d qs (mk_lit v true) k.right no_d sd
      | inr t ↦
          let no_c : holds g (mk_lit v false) ≡ false = ground arith in
          from_clause g c qs (mk_lit v false) k.left no_c sc
    ]
