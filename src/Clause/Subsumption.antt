-- ===== src/Clause/Subsumption.antt =====
-- What the answers of Clause::subsumes mean.
pub mod Strengthen
pub mod Complete
pub mod Ordered
use riss.Base.{
  ℕ, zero, suc, ◌≤◌, ◌<◌, ◌≡◌, ◌≢◌, ◌⊎◌, inl, inr, refl, ap, sym, ◌∙◌, Bool, true, false, not, ◌&&◌,
  ◌||◌, List, [], ◌∷◌, All, All-map, Option, none, some, Option-cases, length, ltb, ◌==◌, ==→eq,
  ==-refl, if◌then◌else◌, arith, Bool-cases,
}
use riss.Lit.{
  Lit, LitCode, lit, lit_undef, lit_error, neg, neg-neg, var, IsMem, All-IsMem, IsMem-All,
}
use riss.Semantics.{Assignment, holds, sat, holds-neg, sat-IsMem, IsMem-sat, sat-All}
use riss.Clause.{Clause, abstraction_from, no_bits, shift_out}
use riss.Clause.Subsume.{any_beyond, is_lit_undef, search_lit, subsumes_from, subsumes}
use riss.Clause.Abstraction.{IsAbstracted, any_beyond-subset}

-- what the inner loop finds: the literal, or its complement
abbrev Found : LitCode → Lit → List Lit → LitCode → Type 0
Found ret l d r = ((r ≡ ret) × IsMem l d) ⊎ ((ret ≡ lit_undef) × (r ≡ lit l) × IsMem (neg l) d)

Found-later :
    (ret : LitCode) (l m : Lit) (d : List Lit) (r : LitCode)
    → Found ret l d r
    → Found ret l (m ∷ d) r
Found-later ret l m d r (inl (e, k)) = inl (e, inr k)
Found-later ret l m d r (inr (e, f, k)) = inr (e, f, inr k)

is_lit_undef-eq : (ret : LitCode) → is_lit_undef ret ≡ true → ret ≡ lit_undef
is_lit_undef-eq lit_undef h = refl
is_lit_undef-eq lit_error h = cc
is_lit_undef-eq (lit p) h = cc

search_lit-Found :
    (ret : LitCode) (l : Lit) (d : List Lit) (r : LitCode)
    → search_lit ret l d ≡ some r
    → Found ret l d r
unfolding search_lit
search_lit-Found ret l [] r h = cc
search_lit-Found ret l (m ∷ d) r h = elim (Bool-cases (l == m)) [
  | inl b ↦ let e : ret ≡ r = ground arith in inl (sym e, inl (==→eq l m b))
  | inr b ↦ elim (Bool-cases (is_lit_undef ret && (l == neg m))) [
    | inr b' ↦ Found-later ret l m d r (search_lit-Found ret l d r (ground arith))
    | inl b' ↦
        let e : lit l ≡ r = ground arith in
        let undef : is_lit_undef ret ≡ true = ground arith in
        let here : l ≡ neg m = ground arith in
        inr (is_lit_undef-eq ret undef, sym e, inl (ap neg here ∙ neg-neg m))
  ]
]

-- once a complement was used, all other literals are in the other clause
subsumes_from-used :
    (p : Lit) (c d : List Lit) (r : LitCode)
    → subsumes_from (lit p) c d ≡ r
    → r ≢ lit_error
    → (r ≡ lit p) × All (λ l. IsMem l d) c
unfolding subsumes_from
subsumes_from-used p [] d r h n = (sym h, tt)
subsumes_from-used p (l ∷ c) d r h n = elim (Option-cases (search_lit (lit p) l d)) [
  | inl e ↦ absurd (n (sym (rw (e, subsumes_from) at h)))
  | inr (x, e) ↦ elim (search_lit-Found (lit p) l d x e) [
    | inr (f, g, k) ↦ absurd (let y : lit p ≡ lit_undef = f in cc)
    | inl (f, k) ↦
        let (a, b) = subsumes_from-used p c d r (rw (e, f, subsumes_from) at h) n in (a, (k, b))
  ]
]

subsumes_from-undef :
    (c d : List Lit) → subsumes_from lit_undef c d ≡ lit_undef → All (λ l. IsMem l d) c
unfolding subsumes_from
subsumes_from-undef [] d h = tt
subsumes_from-undef (l ∷ c) d h = elim (Option-cases (search_lit lit_undef l d)) [
  | inl e ↦ absurd (let y : lit_error ≡ lit_undef = rw (e, subsumes_from) at h in cc)
  | inr (x, e) ↦ elim (search_lit-Found lit_undef l d x e) [
    | inl (f, k) ↦ (k, subsumes_from-undef c d (rw (e, f, subsumes_from) at h))
    | inr (f, g, k) ↦ absurd (
        let (a, b) = subsumes_from-used l c d lit_undef (rw (e, g, subsumes_from) at h) (λ z. cc) in
        let y : lit_undef ≡ lit l = a in cc)
  ]
]

-- the literal that is used with its complement
abbrev pub Resolves : Lit → List Lit → List Lit → Type 0
Resolves p c d = IsMem p c × IsMem (neg p) d × All (λ l. (l ≡ p) ⊎ IsMem l d) c

pub subsumes_from-lit :
    (p : Lit) (c d : List Lit) → subsumes_from lit_undef c d ≡ lit p → Resolves p c d
unfolding subsumes_from
subsumes_from-lit p [] d h = absurd (let y : lit_undef ≡ lit p = h in cc)
subsumes_from-lit p (l ∷ c) d h = elim (Option-cases (search_lit lit_undef l d)) [
  | inl e ↦ absurd (let y : lit_error ≡ lit p = rw (e, subsumes_from) at h in cc)
  | inr (x, e) ↦ elim (search_lit-Found lit_undef l d x e) [
    | inl (f, k) ↦
        let (a, b, z) = subsumes_from-lit p c d (rw (e, f, subsumes_from) at h) in
        (inr a, b, (inr k, z))
    | inr (f, g, k) ↦
        let (a, b) = subsumes_from-used l c d (lit p) (rw (e, g, subsumes_from) at h) (λ z. cc) in
        let same : p ≡ l = cc in (inl same, rw same k, (inl (sym same), All-map c (λ m z. inr z) b))
  ]
]

pub subsumes-from :
    (c d : Clause) (r : LitCode)
    → subsumes c d ≡ r
    → r ≢ lit_error
    → subsumes_from lit_undef c.lits d.lits ≡ r
unfolding subsumes
subsumes-from c d r h n =
    elim (Bool-cases (ltb (length d.lits) (length c.lits) || any_beyond 32 c.extra d.extra)) [
      | inl b ↦ absurd (n (sym (rw (b, subsumes) at h)))
      | inr b ↦ rw (b, subsumes) at h
    ]

-- If subsumes answers lit_Undef, then every assignment that satisfies the clause satisfies the other
-- one.
pub subsumes_entails :
    (c d : Clause)
    → subsumes c d ≡ lit_undef
    → (g : Assignment) → sat g c.lits ≡ true
    → sat g d.lits ≡ true
subsumes_entails c d h g =
    sat-All g c.lits d.lits
      (subsumes_from-undef c.lits d.lits (subsumes-from c d lit_undef h (λ z. cc)))
