-- ===== src/Search/Analyze/Cover.antt =====
-- Solver::analyze: what is collected covers the reason.
use riss.Base.{
  ℕ, ◌+◌, ◌≡◌, ◌≤◌, ◌<◌, ◌⊎◌, inl, inr, refl, ap, subst, ◌∙◌, Bool, true, false, not, ◌&&◌, List,
  [], ◌∷◌, ◌++◌, All, arith, ltb, leb, update, Bool-cases, ◌==◌,
}
use riss.Lit.{Lit, Var, IsMem, neg, neg-neg, var, var-neg}
use riss.Semantics.{Assignment, holds, sat, holds-neg, IsMem-sat}
use riss.Search.{Solver, decision_level, level}
use riss.Search.Backtrack.{Distinct}
use riss.Search.Analyze.{Analysis, collect, collect_all}
use riss.Search.Analyze.Resolvent.{
  Collected, Covers, Looked, Acts, SomeActs, collect-Collected, IsMem-last,
}

pub sat-left : (g : Assignment) (c d : List Lit) → sat g c ≡ true → sat g (c ++ d) ≡ true
sat-left g [] d h = cc
sat-left g (x ∷ c) d h = ground (arith, sat-left g c d)

-- a mark more does not take one away
Covers-mark :
    (g : Assignment) (s : Solver) (t : List Lit) (a b : Analysis) (x : Var)
    → b.seen ≡ update a.seen x true
    → (sat g a.out ≡ true → sat g b.out ≡ true)
    → Covers g s t a
    → Covers g s t b
Covers-mark g s t a b x e f (inl h) = inl (f h)
Covers-mark g s t a b x e f (inr (k, m, c, h)) = inr (k, m, rw e (ground arith), h)

Covers-same :
    (g : Assignment) (s : Solver) (t : List Lit) (a : Analysis) (n : ℕ) (b : Bool)
    → Covers g s t a
    → Covers g s t (record a { path_limit = n; not_reset = b })
Covers-same g s t a n b h = h

module _ (g : Assignment) (allow : Bool) (s : Solver) (t : List Lit) (q : Lit) (a : Analysis)
    (d : Distinct t)
    (zero_true : (k : Lit) → IsMem k t → level s (var k) ≡ 0 → holds g k ≡ true) where
  -- the literal that acts is of the current level: its mark counts
  Acts-current :
      (b : Analysis)
      → b.seen (var q) ≡ true
      → decision_level s ≤ level s (var q)
      → Acts g s t q
      → Covers g s t b
  Acts-current b e cur (inl (m, h)) =
      inr (neg q, m, rw var-neg (ground arith), ap (holds g) (neg-neg q) ∙ h)
  Acts-current b e cur (inr (m, _, h)) = inr (q, m, ground arith, h)

  -- or of an earlier one: it is collected
  Acts-earlier :
      (b : Analysis)
      → IsMem q b.out
      → level s (var q) < decision_level s
      → Acts g s t q
      → Covers g s t b
  Acts-earlier b e low (inl (m, h)) = inl (IsMem-sat g b.out q e h)
  Acts-earlier b e low (inr (m, cur, h)) = absurd (omega arith)

  Acts-zero : level s (var q) ≡ 0 → 0 < decision_level s → ¬ Acts g s t q
  Acts-zero z pos (inl (m, h)) =
      let e = zero_true (neg q) m (ap (level s) (var-neg q) ∙ z) in ground (arith, holds-neg g q)
  Acts-zero z pos (inr (m, cur, h)) = omega arith

  Acts-seen :
      Collected s t a → 0 < decision_level s → a.seen (var q) ≡ true → Acts g s t q → Covers g s t a
  Acts-seen h pos see act = elim (Bool-cases (leb (decision_level s) (level s (var q)))) [
    | inl c ↦ Acts-current a see (ground arith) act
    | inr c ↦ elim act [
      | inl x ↦
          let kept : IsMem (neg (neg q)) a.out =
            h.kept (neg q) x.0 (ap a.seen (var-neg q) ∙ see)
              (let e = ap (level s) (var-neg q) in ground arith) in
          inl (IsMem-sat g a.out q (subst (λ y. IsMem y a.out) (neg-neg q) kept) x.1)
      | inr x ↦ absurd (let y = x.1 in ground arith)
    ]
  ]

  pub collect-Covers :
      Collected s t a
      → 0 < decision_level s
      → Covers g s t a ⊎ Acts g s t q
      → Covers g s t (collect allow s q a)
  unfolding collect
  collect-Covers h pos cov = elim (Bool-cases (not (a.seen (var q)) && ltb 0 (level s (var q)))) [
    | inl b ↦ elim (Bool-cases (leb (decision_level s) (level s (var q)))) [
      | inl c ↦
          rw (b, c)
            (elim cov [
              | inl x ↦
                  Covers-mark g s t a
                    (record a { seen = update a.seen (var q) true; path_c = a.path_c + 1 }) (var q)
                    refl (λ y. y) x
              | inr x ↦
                  Acts-current
                    (record a { seen = update a.seen (var q) true; path_c = a.path_c + 1 })
                    (ground arith) (ground arith) x
            ])
      | inr c ↦
          rw (b, c)
            (elim cov [
              | inl x ↦
                  Covers-mark g s t a
                    (record a { seen = update a.seen (var q) true; out = a.out ++ q ∷ [] }) (var q)
                    refl (sat-left g a.out (q ∷ [])) x
              | inr x ↦
                  Acts-earlier
                    (record a { seen = update a.seen (var q) true; out = a.out ++ q ∷ [] })
                    (IsMem-last a.out q) (ground arith) x
            ])
    ]
    | inr b ↦
        let here : Covers g s t a = elim cov [
          | inl x ↦ x
          | inr x ↦ elim (Bool-cases (a.seen (var q))) [
            | inl see ↦ Acts-seen h pos see x
            | inr un ↦ absurd (Acts-zero (ground arith) pos x)
          ]
        ] in
        elim (Bool-cases (a.seen (var q) && allow)) [
          | inr c ↦ rw (b, c) here
          | inl c ↦ elim (Bool-cases (a.path_limit == 0 && a.not_reset)) [
            | inl e ↦ rw (b, c, e) (Covers-same g s t a 1 a.not_reset here)
            | inr e ↦ rw (b, c, e) (Covers-same g s t a 0 false here)
          ]
        ]
  ]

pub collect_all-Covers :
    (g : Assignment) (allow : Bool) (s : Solver) (t qs : List Lit) (a : Analysis)
    → Distinct t
    → ((k : Lit) → IsMem k t → IsMem k s.trail)
    → ((k : Lit) → IsMem k t → level s (var k) ≡ 0 → holds g k ≡ true)
    → 0 < decision_level s
    → All (Looked s t) qs
    → Collected s t a
    → Covers g s t a ⊎ SomeActs g s t qs
    → Covers g s t (collect_all allow s qs a)
unfolding collect_all
collect_all-Covers g allow s t [] a d w z pos l h c = elim c [ inl x ↦ x | inr x ↦ absurd x ]
collect_all-Covers g allow s t (q ∷ qs) a d w z pos l h c =
    let rest =
      collect_all-Covers g allow s t qs (collect allow s q a) d w z pos l.1
        (collect-Collected allow s t q a d l.0 w h) in
    elim c [
      | inl x ↦ rest (inl (collect-Covers g allow s t q a d z h pos (inl x)))
      | inr x ↦ elim x [
        | inl y ↦ rest (inl (collect-Covers g allow s t q a d z h pos (inr y)))
        | inr y ↦ rest (inr y)
      ]
    ]
