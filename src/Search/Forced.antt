-- ===== src/Search/Forced.antt =====
-- Solver: in a model of the formula the reason of a literal makes it true.
use riss.Base.{
  ℕ, ◌≡◌, ◌≢◌, ◌≤◌, ◌⊎◌, inl, inr, ap, sym, true, List, [], ◌∷◌, All, All-map, arith, ◌∙◌,
}
use riss.Lit.{Lit, Var, IsMem, All-IsMem, neg, var}
use riss.Semantics.{Assignment, Models, Entails, holds, sat, holds-neg, sat-IsMem}
use riss.Clause.{Clause}
use riss.Checker.{CRef}
use riss.Search.{Reason, no_reason, by_clause, by_lit, VarData}
use riss.Search.Justified.{ReasonHolds, Justified}

pub All-zip {κ} :
    (P Q R : Lit → Type κ) (c : List Lit)
    → ((k : Lit) → P k → Q k → R k)
    → All P c
    → All Q c
    → All R c
All-zip P Q R [] f a b = tt
All-zip P Q R (x ∷ c) f a b = (f x a.0 b.0, All-zip P Q R c f a.1 b.1)

pub unit_holds : (g : Assignment) (l : Lit) → sat g (l ∷ []) ≡ true → holds g l ≡ true
unit_holds g l h = ground arith

module _ (f : List (List Lit)) (g : Assignment) (models : Models g f) where
  pub clause_forces :
      (l : Lit) (c : List Lit)
      → Entails f c
      → All (λ k. (k ≡ l) ⊎ (holds g (neg k) ≡ true)) c
      → holds g l ≡ true
  clause_forces l c e a =
      let (k, m, h) = sat-IsMem g c (e g models) in
      elim (All-IsMem (λ k. (k ≡ l) ⊎ (holds g (neg k) ≡ true)) c k a m) [
        | inl q ↦ ap (holds g) (sym q) ∙ h
        | inr n ↦ ground (arith, holds-neg g k)
      ]

  pub lit_forces : (l q : Lit) → Entails f (l ∷ neg q ∷ []) → holds g q ≡ true → holds g l ≡ true
  lit_forces l q e h =
      let either : sat g (l ∷ neg q ∷ []) ≡ true = e g models in ground (arith, holds-neg g q)

  -- where all literals below hold, a literal of level 0 holds
  zero_holds :
      (mem : CRef → Clause) (l : Lit) (lev : ℕ) (below : List Lit) (r : Reason)
      → ReasonHolds f mem l lev below r
      → lev ≡ 0
      → ((k : Lit) → IsMem k below → holds g k ≡ true)
      → holds g l ≡ true
  zero_holds mem l lev below no_reason h z all = unit_holds g l (h z g models)
  zero_holds mem l lev below (by_lit q) h z all = lit_forces l q h.1 (all q h.0)
  zero_holds mem l lev below (by_clause cr) h z all =
      clause_forces l (mem cr).lits h.0 (
        All-map (mem cr).lits (λ k o. elim o [ inl e ↦ inl e | inr m ↦ inr (all (neg k) m) ]) h.1.0)

  pub level_zero_holds :
      (mem : CRef → Clause) (vd : Var → VarData) (t : List Lit)
      → Justified f mem vd t
      → (k : Lit) → IsMem k t
      → (vd (var k)).level ≡ 0
      → holds g k ≡ true
  level_zero_holds mem vd [] j k m z = absurd m
  level_zero_holds mem vd (l ∷ t) j k (inr m) z = level_zero_holds mem vd t j.2 k m z
  level_zero_holds mem vd (l ∷ t) j k (inl e) z =
      let z' : (vd (var l)).level ≡ 0 = ap (λ x. (vd (var x)).level) (sym e) ∙ z in
      let ih = level_zero_holds mem vd t j.2 in
      ap (holds g) e
      ∙ zero_holds mem l (vd (var l)).level t (vd (var l)).reason j.0 z' (λ x n. ih x n (
          let h =
            (All-IsMem (λ y. (var y ≢ var l) × ((vd (var y)).level ≤ (vd (var l)).level)) t x j.1
              n).1 in
          omega arith))
