-- ===== src/Clause/Subsumption/Strengthen.antt =====
-- Clause::subsumes as subsumption resolution: a literal of the other clause is removed.
use riss.Base.{
  ◌≡◌, ◌≢◌, ◌⊎◌, inl, inr, ap, sym, ◌∙◌, true, List, [], ◌∷◌, All, ◌==◌, ==→eq, arith, Bool-cases,
}
use riss.Lit.{Lit, lit, neg, IsMem, All-IsMem}
use riss.Semantics.{Assignment, holds, sat, holds-neg, sat-IsMem, IsMem-sat}
use riss.Clause.{Clause, shift_out}
use riss.Clause.Subsume.{subsumes}
use riss.Clause.Subsumption.{subsumes_from-lit, subsumes-from}

-- a removal keeps the other literals
shift_out-IsMem :
    (q l : Lit) (d : List Lit) → IsMem q d → IsMem l d → l ≢ q → IsMem l (shift_out q d)
unfolding shift_out
shift_out-IsMem q l [] m k n = absurd m
shift_out-IsMem q l (x ∷ []) (inl e) (inl f) n = absurd (n (f ∙ sym e))
shift_out-IsMem q l (x ∷ []) (inl e) (inr k) n = absurd k
shift_out-IsMem q l (x ∷ []) (inr m) k n = absurd m
shift_out-IsMem q l (x ∷ y ∷ d) m k n = elim (Bool-cases (x == q)) [
  | inl b ↦ rw b (elim k [ inl f ↦ absurd (n (f ∙ ==→eq x q b)) | inr f ↦ f ])
  | inr b ↦ rw b (elim k [
    | inl f ↦ inl f
    | inr f ↦ elim m [
      | inl e ↦ absurd (ground arith)
      | inr e ↦ inr (shift_out-IsMem q l (y ∷ d) e f n)
    ]
  ])
]

-- If subsumes answers a literal `p`, and the clause does not hold the complement of `p` as well, then
-- an assignment that satisfies both clauses satisfies the other one without the complement of `p`,
-- as remove_lit leaves it.
pub subsumes_strengthens :
    (c d : Clause) (p : Lit)
    → subsumes c d ≡ lit p
    → (IsMem (neg p) c.lits → ⊥)
    → (g : Assignment) → sat g c.lits ≡ true
    → sat g d.lits ≡ true
    → sat g (shift_out (neg p) d.lits) ≡ true
subsumes_strengthens c d p h n g sc sd =
    let (a, b, z) = subsumes_from-lit p c.lits d.lits (subsumes-from c d (lit p) h (λ y. cc)) in
    let (l, m, k) = other a b z in
    IsMem-sat g (shift_out (neg p) d.lits) l (shift_out-IsMem (neg p) l d.lits b m k.0) k.1
  where
    other :
        IsMem p c.lits
        → IsMem (neg p) d.lits
        → All (λ l. (l ≡ p) ⊎ IsMem l d.lits) c.lits
        → (l : Lit) × IsMem l d.lits × ((l ≢ neg p) × (holds g l ≡ true))
    other a b z = elim (Bool-cases (holds g p)) [
      | inl e ↦
          let (l, m, k) = sat-IsMem g d.lits sd in
          (
            l,
            m,
            (
              (λ same.
                  let y : holds g l ≡ holds g (neg p) = ap (holds g) same in
                  ground (arith, holds-neg g p)),
              k,
            ),
          )
      | inr e ↦
          let (l, m, k) = sat-IsMem g c.lits sc in
          elim (All-IsMem (λ x. (x ≡ p) ⊎ IsMem x d.lits) c.lits l z m) [
            | inl same ↦ absurd (let y : holds g l ≡ holds g p = ap (holds g) same in ground arith)
            | inr in_d ↦ (l, in_d, ((λ same. n (rw same at m)), k))
          ]
    ]
