-- ===== src/Clause/Subsumption/Complete.antt =====
-- Clause::subsumes finds every clause whose literals are all in the other one.
use riss.Base.{
  ◌≤◌, ◌≡◌, inl, inr, refl, ap, ◌∙◌, false, List, [], ◌∷◌, All, All-map, some, length, ltb, ◌==◌,
  ==→eq, arith, Bool-cases,
}
use riss.Lit.{Lit, lit_undef, neg, neg-neg, IsMem}
use riss.Clause.{Clause}
use riss.Clause.Subsume.{any_beyond, search_lit, subsumes_from, subsumes}
use riss.Clause.Abstraction.{IsAbstracted, any_beyond-subset}

-- the search finds the literal itself when the complement is not there
search_lit-IsMem :
    (l : Lit) (d : List Lit)
    → IsMem l d
    → (IsMem (neg l) d → ⊥)
    → search_lit lit_undef l d ≡ some lit_undef
unfolding search_lit
search_lit-IsMem l [] m n = absurd m
search_lit-IsMem l (x ∷ d) m n = elim (Bool-cases (l == x)) [
  | inl b ↦ rw b refl
  | inr b ↦ elim (Bool-cases (l == neg x)) [
    | inl e ↦ absurd (n (inl (ap neg (==→eq l (neg x) e) ∙ neg-neg x)))
    | inr e ↦ elim m [
      | inl f ↦ absurd (ground arith)
      | inr f ↦ rw (b, e, search_lit) (search_lit-IsMem l d f (λ k. n (inr k)))
    ]
  ]
]

subsumes_from-all :
    (c d : List Lit)
    → All (λ l. IsMem l d × (IsMem (neg l) d → ⊥)) c
    → subsumes_from lit_undef c d ≡ lit_undef
unfolding subsumes_from
subsumes_from-all [] d h = refl
subsumes_from-all (l ∷ c) d h =
    rw (search_lit-IsMem l d h.0.0 h.0.1, subsumes_from) (subsumes_from-all c d h.1)

-- If all literals of a clause are in another clause that is not smaller and has no complementary
-- literals, and both abstractions are right, then subsumes answers lit_Undef: neither the test of
-- the abstractions nor the search for complements gets in the way.
pub subsumes_complete :
    (c d : Clause)
    → length c.lits ≤ length d.lits
    → IsAbstracted c
    → IsAbstracted d
    → All (λ l. IsMem l d.lits × (IsMem (neg l) d.lits → ⊥)) c.lits
    → subsumes c d ≡ lit_undef
unfolding subsumes
subsumes_complete c d size ac ad h =
    let subset = any_beyond-subset 32 c.lits d.lits (All-map c.lits (λ l k. k.0) h) in
    let bits : any_beyond 32 c.extra d.extra ≡ false = rw (ac, ad) subset in
    let small : ltb (length d.lits) (length c.lits) ≡ false = ground arith in
    rw (small, bits, subsumes) (subsumes_from-all c.lits d.lits h)
