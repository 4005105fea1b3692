-- ===== src/Clause/Subsumption/Ordered.antt =====
-- Clause::ordered_subsumes and ordered_equals on sorted clauses.
use riss.Base.{
  ◌≤◌, ◌<◌, ◌≡◌, inl, inr, refl, ◌↔◌, true, List, [], ◌∷◌, All, All-map, length, ltb, ◌==◌, ==→eq,
  ==-refl, arith, Bool-cases,
}
use riss.Lit.{Lit, IsMem, All-IsMem}
use riss.Clause.{Clause}
use riss.Clause.Subsume.{ordered_subsumes_lits, ordered_subsumes, equal_lits, ordered_equals}
use riss.Clause.Sorting.Correct.{Sorted}

-- sorted without duplicates
abbrev pub Ascending : List Lit → Type 0
Ascending [] = Unit
Ascending (l ∷ c) = All (λ m. l < m) c × Ascending c

ordered-IsMem : (c d : List Lit) → ordered_subsumes_lits c d ≡ true → All (λ l. IsMem l d) c
unfolding ordered_subsumes_lits
ordered-IsMem [] d h = tt
ordered-IsMem (l ∷ c) [] h = cc
ordered-IsMem (l ∷ c) (m ∷ d) h = elim (Bool-cases (l == m)) [
  | inl b ↦ (
    inl (==→eq l m b),
    All-map c (λ x k. inr k) (ordered-IsMem c d (rw (b, ordered_subsumes_lits) at h)),
  )
  | inr b ↦ All-map (l ∷ c) (λ x k. inr k) (ordered-IsMem (l ∷ c) d (ground arith))
]

-- all literals but the first of the other clause are behind it
behind :
    (m : Lit) (d c : List Lit)
    → All (λ l. IsMem l (m ∷ d)) c
    → All (λ l. m < l) c
    → All (λ l. IsMem l d) c
behind m d [] h k = tt
behind m d (l ∷ c) h k =
    (elim h.0 [ inl e ↦ absurd (omega (arith, e, k.0)) | inr e ↦ e ], behind m d c h.1 k.1)

IsMem-ordered :
    (c d : List Lit)
    → Ascending c
    → Sorted d
    → All (λ l. IsMem l d) c
    → ordered_subsumes_lits c d ≡ true
unfolding ordered_subsumes_lits
IsMem-ordered [] d a s h = refl
IsMem-ordered (l ∷ c) [] a s h = absurd h.0
IsMem-ordered (l ∷ c) (m ∷ d) a s h = elim (Bool-cases (l == m)) [
  | inl b ↦
      let e = ==→eq l m b in
      let above : All (λ x. m < x) c = All-map c (λ x k. omega (arith, e, k)) a.0 in
      rw (b, ordered_subsumes_lits) (IsMem-ordered c d a.1 s.1 (behind m d c h.1 above))
  | inr b ↦ elim (Bool-cases (ltb l m)) [
    | inl k ↦ elim h.0 [
      | inl e ↦ absurd (ground arith)
      | inr e ↦ absurd (let low : m ≤ l = All-IsMem (λ x. m ≤ x) d l s.0 e in ground arith)
    ]
    | inr k ↦
        let low : m < l = ground arith in
        let above : All (λ x. m < x) (l ∷ c) =
          (low, All-map c (λ x y. omega (arith, low, y)) a.0) in
        rw (b, k, ordered_subsumes_lits)
          (IsMem-ordered (l ∷ c) d a s.1 (behind m d (l ∷ c) h above))
  ]
]

-- On sorted clauses, the first without duplicates, ordered_subsumes answers whether all literals of
-- the clause are in the other one.
pub ordered_subsumes_lem :
    (c d : Clause)
    → Ascending c.lits
    → Sorted d.lits
    → ordered_subsumes c d ≡ true ↔ All (λ l. IsMem l d.lits) c.lits
unfolding ordered_subsumes
ordered_subsumes_lem c d a s = (ordered-IsMem c.lits d.lits, IsMem-ordered c.lits d.lits a s)

equal_lits-eq : (c d : List Lit) → length c ≡ length d → equal_lits c d ≡ true → c ≡ d
equal_lits-eq [] [] n h = refl
equal_lits-eq [] (m ∷ d) n h = absurd (omega (arith, n))
equal_lits-eq (l ∷ c) [] n h = absurd (omega (arith, n))
equal_lits-eq (l ∷ c) (m ∷ d) n h =
    let first : l ≡ m = ground arith in
    let n' : length c ≡ length d = omega (arith, n) in
    let rest = equal_lits-eq c d n' (ground arith) in cc

equal_lits_refl : (c : List Lit) → equal_lits c c ≡ true
equal_lits_refl [] = refl
equal_lits_refl (l ∷ c) = ground (arith, ==-refl l, equal_lits_refl c)

-- ordered_equals answers whether the clauses have the same literals in the same order.
pub ordered_equals_lem : (c d : Clause) → ordered_equals c d ≡ true ↔ c.lits ≡ d.lits
unfolding ordered_equals
ordered_equals_lem c d = (
  λ h.
      let n : length c.lits ≡ length d.lits = ground arith in
      equal_lits-eq c.lits d.lits n (ground arith),
  λ e. rw e (ground (arith, ==-refl (length d.lits), equal_lits_refl d.lits)),
)
