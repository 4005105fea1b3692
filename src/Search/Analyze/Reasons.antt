-- ===== src/Search/Analyze/Reasons.antt =====
-- Solver::analyze: resolving with the reason of a literal.
use mathlib.Core.List.{Permᴰ}
use mathlib.Core.List.Permᴰ
use riss.Base.{
  ℕ, ◌≡◌, ◌≢◌, ◌<◌, ◌⊎◌, inl, inr, refl, ap, sym, subst, ◌∙◌, Bool, true, not, List, [], ◌∷◌, All,
  arith, if◌then◌else◌, Bool-cases, ◌==◌, get_or, ==→eq,
}
use riss.Lit.{Lit, Var, IsMem, IsMem-All, neg, var, var-neg, sign, sign-neg}
use riss.Lifted.{LBool, l_true, l_false, of_bool, is_false, lxor}
use riss.Checker.{CRef}
use riss.Checker.Watched.{NoDup}
use riss.Search.{Reason, no_reason, by_clause, by_lit, VarData, Solver, lits, value}
use riss.Search.Justified.{Forces}
use riss.Search.Propagate.{write_clause}
use riss.Search.Propagate.Reordered.{Reordered}
use riss.Search.Analyze.{true_first}
use riss.Search.Final.{tail}

-- Where the reasons stand: a decision is the first literal of its level, and the literal of a binary
-- reason has the level of the implied one.
abbrev pub Stands : (Var → VarData) → ℕ → List Lit → Reason → Type 0
Stands vd lev below no_reason = 0 < lev → All (λ k. (vd (var k)).level < lev) below
Stands vd lev below (by_lit q) = (vd (var q)).level ≡ lev
Stands vd lev below (by_clause cr) = Unit

abbrev pub Structured : (Var → VarData) → List Lit → Type 0
Structured vd [] = Unit
Structured vd (l ∷ below) =
    Stands vd (vd (var l)).level below (vd (var l)).reason × Structured vd below

-- the literals of the list are true
abbrev pub Holding : Solver → List Lit → Type 0
Holding s t = All (λ l. s.assigns (var l) ≡ of_bool (not (sign l))) t

pub Holding-true :
    (s : Solver) (t : List Lit) (k : Lit) → Holding s t → IsMem k t → value s k ≡ l_true
Holding-true s [] k h m = absurd m
Holding-true s (l ∷ t) k h (inr m) = Holding-true s t k h.1 m
Holding-true s (l ∷ t) k h (inl e) = rw e (go (s.assigns (var l)) (sign l) h.0)
  where
    go : (a : LBool) (b : Bool) → a ≡ of_bool (not b) → lxor a b ≡ l_true
    go a b e = ground arith

pub false_of_neg : (s : Solver) (k : Lit) → value s (neg k) ≡ l_true → value s k ≡ l_false
false_of_neg s k h = ground (arith, var-neg k, sign-neg k)

-- what is looked at in the clause of the reason of `p`
abbrev pub Behind : Lit → List Lit → List Lit → List Lit → Type 0
Behind p t c qs = All (λ k. IsMem (neg k) t) qs × All (λ k. (k ≡ p) ⊎ IsMem k qs) c

module _ (s : Solver) (p : Lit) (t : List Lit) (v : value s p ≡ l_true) (h : Holding s t) where
  not_both : (x : Lit) → x ≡ p → is_false (value s x) ≡ true → ⊥
  not_both x e b = let z = ap (value s) e in ground arith

  is_false-below : (x : Lit) → IsMem (neg x) t → is_false (value s x) ≡ true
  is_false-below x m = let e = false_of_neg s x (Holding-true s t (neg x) h m) in ap is_false e

  two :
      (x y : Lit)
      → x ≢ y
      → (x ≡ p) ⊎ IsMem (neg x) t
      → (y ≡ p) ⊎ IsMem (neg y) t
      → IsMem p (x ∷ y ∷ [])
      → Behind p t (x ∷ y ∷ []) (tail (true_first s (x ∷ y ∷ [])))
  two x y ne ax ay m = elim (Bool-cases (is_false (value s x))) [
    | inl b ↦ rw b (
      (elim ax [ inl e ↦ absurd (not_both x e b) | inr n ↦ n ], tt),
      (
        inr (inl refl),
        (
          inl (elim m [
            | inl e ↦ absurd (not_both x (sym e) b)
            | inr o ↦ elim o [ inl e ↦ sym e | inr z ↦ absurd z ]
          ]),
          tt,
        ),
      ),
    )
    | inr b ↦
        let first : x ≡ p = elim ax [
          | inl e ↦ e
          | inr n ↦ absurd (let z = is_false-below x n in ground arith)
        ] in
        rw b (
          (elim ay [ inl e ↦ absurd (ne (first ∙ sym e)) | inr n ↦ n ], tt),
          (inl first, (inr (inl refl), tt)),
        )
  ]

  rest :
      (r : List Lit)
      → All (λ m. p ≢ m) r
      → All (λ k. (k ≡ p) ⊎ IsMem (neg k) t) r
      → All (λ k. IsMem (neg k) t) r
  rest [] f g = tt
  rest (w ∷ r) f g = (elim g.0 [ inl e ↦ absurd (f.0 (sym e)) | inr m ↦ m ], rest r f.1 g.1)

  -- the literals behind the first are false, and the first is `p`
  pub Forces-Behind : (c : List Lit) → NoDup c → Forces p t c → Behind p t c (tail (true_first s c))
  Forces-Behind [] d (a, b) = (tt, tt)
  Forces-Behind (x ∷ []) d (a, b) = elim b [
    | inl e ↦ absurd (let z = e.0 in omega arith)
    | inr e ↦ (tt, (inl e, tt))
  ]
  Forces-Behind (x ∷ y ∷ []) d (a, b) =
      two x y d.0.0 a.0 a.1.0 (elim b [ inl e ↦ e.1 | inr e ↦ inl (sym e) ])
  Forces-Behind (x ∷ y ∷ z ∷ c) d (a, b) = elim b [
    | inl e ↦ absurd (let w = e.0 in omega arith)
    | inr e ↦ (
      rest (y ∷ z ∷ c) (subst (λ w. All (λ m. w ≢ m) (y ∷ z ∷ c)) e d.0) a.1,
      (inl e, IsMem-All (λ k. (k ≡ p) ⊎ IsMem k (y ∷ z ∷ c)) (y ∷ z ∷ c) (λ l m. inr m)),
    )
  ]

pub lits-write :
    (cr : CRef) (c : List Lit) (s : Solver) (j : CRef)
    → lits (write_clause cr c s) j ≡ (if cr == j then c else lits s j)
lits-write cr c s j = ground arith

true_first-perm : (s : Solver) (c : List Lit) → Permᴰ c (true_first s c)
true_first-perm s [] = Permᴰ.refl _
true_first-perm s (x ∷ []) = Permᴰ.refl _
true_first-perm s (x ∷ y ∷ []) = elim (Bool-cases (is_false (value s x))) [
  | inl b ↦ rw b (Permᴰ.swap refl refl)
  | inr b ↦ rw b (Permᴰ.refl _)
]
true_first-perm s (x ∷ y ∷ z ∷ c) = Permᴰ.refl _

true_first-head :
    (s : Solver) (c : List Lit) (d : Lit)
    → is_false (value s (get_or c 0 d)) ≢ true
    → get_or (true_first s c) 0 d ≡ get_or c 0 d
true_first-head s [] d n = refl
true_first-head s (x ∷ []) d n = refl
true_first-head s (x ∷ y ∷ []) d n = elim (Bool-cases (is_false (value s x))) [
  | inl b ↦ absurd (n b)
  | inr b ↦ rw b
]
true_first-head s (x ∷ y ∷ z ∷ c) d n = refl

-- the clause is written, the others stay
ordered-lits :
    (cr : CRef) (s : Solver) (j : CRef)
    → (lits (write_clause cr (true_first s (lits s cr)) s) j ≡ true_first s (lits s j))
      ⊎ (lits (write_clause cr (true_first s (lits s cr)) s) j ≡ lits s j)
ordered-lits cr s j =
    let w = lits-write cr (true_first s (lits s cr)) s j in
    elim (Bool-cases (cr == j)) [
      | inl b ↦ inl (w ∙ rw b (ap (λ k. true_first s (lits s k)) (==→eq cr j b)))
      | inr b ↦ inr (w ∙ rw b)
    ]

-- only a false first literal is moved
pub true_first-Reordered :
    (cr : CRef) (s : Solver)
    → Reordered
        (λ y. is_false (value s y) ≡ true)
        s.memory
        (write_clause cr (true_first s (lits s cr)) s).memory
true_first-Reordered cr s = record {
  perm = λ j. elim (ordered-lits cr s j) [
    | inl e ↦ subst (Permᴰ (lits s j)) (sym e) (true_first-perm s (lits s j))
    | inr e ↦ subst (Permᴰ (lits s j)) (sym e) (Permᴰ.refl _)
  ];
  head = λ j d n. elim (ordered-lits cr s j) [
    | inl e ↦ ap (λ c. get_or c 0 d) e ∙ true_first-head s (lits s j) d n
    | inr e ↦ ap (λ c. get_or c 0 d) e
  ];
}
