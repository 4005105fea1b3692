-- ===== src/Search/Final/Cleared.antt =====
-- Solver::analyzeFinal: what it returns are negated decisions, and the marks are gone afterwards.
use native.Mathlib.Decide.{ℕ_discrete}
use riss.Base.{
  ℕ, ◌≡◌, ◌≤◌, ◌<◌, ◌⊎◌, inl, inr, refl, ap, subst, ◌∙◌, Bool-cases, true, List, [], ◌∷◌, All,
  All-map, All-append, length, ◌==◌, ltb, leb, update, arith, if◌then◌else◌, map,
}
use riss.Lit.{Lit, Var, IsMem, neg, var, var-neg}
use riss.Search.{Reason, no_reason, by_clause, by_lit, Solver, level, reason, lits}
use riss.Search.Justified.{ReasonHolds, Justified, Floor}
use riss.Search.Final.{Seen, see, reason_lits, explain, clear_seen, final_down}

-- the complement of a literal of the trail without a reason, above level 0
abbrev pub Decided : Solver → List Lit → Lit → Type 0
Decided s t k =
    (d : Lit) × IsMem d t × (k ≡ neg d) × (reason s (var d) ≡ no_reason) × (0 < level s (var d))

Decided-more : (s : Solver) (t : List Lit) (l k : Lit) → Decided s t k → Decided s (l ∷ t) k
Decided-more s t l k (d, m, e, r, h) = (d, inr m, e, r, h)

module _ (s : Solver) where
  -- one literal puts out at most the complement of a decision
  explain-Decided :
      (P : Lit → Type 0) (t : List Lit) (p : Lit) (r : Reason) (a : Seen × List Lit)
      → reason s (var p) ≡ r
      → 0 < level s (var p)
      → ((k : Lit) → Decided s (p ∷ t) k → P k)
      → All P a.1
      → All P (explain s p r a).1
  unfolding explain
  explain-Decided P t p no_reason (seen, out) e h f a =
      All-append P out (neg p ∷ []) a (f (neg p) (p, inl refl, refl, e, h), tt)
  explain-Decided P t p (by_lit q) (seen, out) e h f a = a
  explain-Decided P t p (by_clause cr) (seen, out) e h f a = a

  pub final_down-Decided :
      (P : Lit → Type 0) (lim : ℕ) (t : List Lit) (a : Seen × List Lit)
      → Floor lim s.vardata t
      → ((k : Lit) → Decided s t k → P k)
      → All P a.1
      → All P (final_down s lim t a).1
  unfolding final_down clear_seen
  final_down-Decided P lim [] a fl f h = h
  final_down-Decided P lim (p ∷ t) a fl f h =
      let f' : (k : Lit) → Decided s t k → P k = λ k d. f k (Decided-more s t p k d) in
      elim (Bool-cases (leb lim (length t))) [
        | inr b ↦ rw b h
        | inl b ↦ elim (Bool-cases (a.0 (var p))) [
          | inr c ↦ rw (b, c) (final_down-Decided P lim t a fl.2 f' h)
          | inl c ↦
              rw (b, c)
                (final_down-Decided P lim t (clear_seen (var p) (explain s p (reason s (var p)) a))
                  fl.2 f'
                  (explain-Decided P t p (reason s (var p)) a refl (fl.1 (ground arith)) f h))
        ]
      ]

-- where the marks satisfy `Q` after as before
pub see-marks :
    (s : Solver) (c : List Lit) (seen : Seen) (Q : Var → Type 0)
    → All (λ k. 0 < level s (var k) → Q (var k)) c
    → ((v : Var) → seen v ≡ true → Q v)
    → (v : Var) → see s c seen v ≡ true
    → Q v
unfolding see
see-marks s [] seen Q a h v e = h v e
see-marks s (k ∷ c) seen Q a h v e =
    see-marks s c (if ltb 0 (level s (var k)) then update seen (var k) true else seen) Q a.1
      (λ w e'. elim (Bool-cases (ltb 0 (level s (var k)))) [
        | inr b ↦ h w (rw b at e')
        | inl b ↦ elim (ℕ_discrete (var k) w) [
          | yes q ↦ subst Q q (a.0 (ground arith))
          | no n ↦ h w (ground arith)
        ]
      ])
      v e

reason_lits-All : (P : Lit → Type 0) (c : List Lit) → All P c → All P (reason_lits c)
reason_lits-All P [] h = tt
reason_lits-All P (k ∷ c) h = elim (Bool-cases (length (k ∷ c) == 2)) [
  | inl b ↦ rw b h
  | inr b ↦ rw b h.1
]

-- a mark is an exception, or belongs to a literal of the list above level 0
abbrev pub Pending : (Var → Type 0) → Solver → List Lit → Var → Type 0
Pending E s t v = E v ⊎ (IsMem v (map var t) × (0 < level s v))

pub IsMem-map : (k : Lit) (t : List Lit) → IsMem k t → IsMem (var k) (map var t)
IsMem-map k [] m = absurd m
IsMem-map k (l ∷ t) (inl e) = inl (ap (λ x. var x) e)
IsMem-map k (l ∷ t) (inr m) = inr (IsMem-map k t m)

pub IsMem-neg : (k : Lit) (t : List Lit) → IsMem (neg k) t → IsMem (var k) (map var t)
IsMem-neg k t m = subst (λ v. IsMem v (map var t)) (var-neg k) (IsMem-map (neg k) t m)

pub Floor-var :
    (lim : ℕ) (s : Solver) (t : List Lit)
    → Floor lim s.vardata t
    → length t ≤ lim
    → (v : Var) → IsMem v (map var t)
    → level s v ≡ 0
Floor-var lim s [] fl h v m = absurd m
Floor-var lim s (x ∷ t) fl h v (inl e) = ap (level s) e ∙ fl.0 (omega arith)
Floor-var lim s (x ∷ t) fl h v (inr m) = Floor-var lim s t fl.2 (omega arith) v m

module _ (f : List (List Lit)) (E : Var → Type 0) (s : Solver) where
  explain-Pending :
      (p : Lit) (t : List Lit) (r : Reason) (a : Seen × List Lit)
      → ReasonHolds f s.memory p (level s (var p)) t r
      → ((v : Var) → a.0 v ≡ true → Pending E s (p ∷ t) v)
      → (v : Var) → (explain s p r a).0 v ≡ true
      → Pending E s (p ∷ t) v
  unfolding explain
  explain-Pending p t no_reason (seen, out) rh h v e = h v e
  explain-Pending p t (by_lit q) (seen, out) rh h v e =
      see-marks s (q ∷ []) seen (Pending E s (p ∷ t)) (λ z. inr (inr (IsMem-map q t rh.0), z), tt) h
        v e
  explain-Pending p t (by_clause cr) (seen, out) rh h v e =
      see-marks s (reason_lits (lits s cr)) seen (Pending E s (p ∷ t))
        (reason_lits-All _ (lits s cr) (
          All-map (lits s cr)
            (λ k o z.
              inr (elim o [ inl q ↦ inl (ap (λ x. var x) q) | inr m ↦ inr (IsMem-neg k t m) ], z))
            rh.1.0))
        h v e

  pub final_down-Pending :
      (lim : ℕ) (t : List Lit) (a : Seen × List Lit)
      → Justified f s.memory s.vardata t
      → Floor lim s.vardata t
      → ((v : Var) → a.0 v ≡ true → Pending E s t v)
      → (v : Var) → (final_down s lim t a).0 v ≡ true
      → E v
  unfolding final_down clear_seen
  final_down-Pending lim [] a j fl h v e = elim (h v e) [ inl x ↦ x | inr m ↦ absurd m.0 ]
  final_down-Pending lim (p ∷ t) a j fl h v e = elim (Bool-cases (leb lim (length t))) [
    | inr b ↦ elim (h v (rw b at e)) [
      | inl x ↦ x
      | inr m ↦
          absurd (let z = Floor-var lim s (p ∷ t) fl (ground arith) v m.0 in omega (arith, z, m.1))
    ]
    | inl b ↦ elim (Bool-cases (a.0 (var p))) [
      | inr c ↦
          final_down-Pending lim t a j.2 fl.2
            (λ w e'. elim (h w e') [
              | inl x ↦ inl x
              | inr m ↦ elim m.0 [
                | inr n ↦ inr (n, m.1)
                | inl q ↦ absurd (let same : a.0 w ≡ a.0 (var p) = ap a.0 q in ground arith)
              ]
            ])
            v (rw (b, c) at e)
      | inl c ↦
          let explained = explain s p (reason s (var p)) a in
          final_down-Pending lim t (clear_seen (var p) explained) j.2 fl.2
            (λ w e'. elim (explain-Pending p t (reason s (var p)) a j.0 h w (ground arith)) [
              | inl x ↦ inl x
              | inr m ↦ elim m.0 [ inr n ↦ inr (n, m.1) | inl q ↦ absurd (ground arith) ]
            ])
            v (rw (b, c) at e)
    ]
  ]
