-- ===== src/Search/Learning/Second.antt =====
-- Solver::analyze: a literal of the highest level is exchanged with the second one.
use mathlib.Core.List.{Permᴰ}
use mathlib.Core.List.Permᴰ
use riss.Base.{
  ◌≡◌, ◌≤◌, ◌⊎◌, inl, inr, refl, true, false, List, [], ◌∷◌, All, arith, if◌then◌else◌, ltb,
  Bool-cases,
}
use riss.Lit.{Lit, var}
use riss.Search.{Solver, level}
use riss.Search.Learning.{exchange}

pick :
    (s : Solver) (best q : Lit)
    → (level s (var best)
        ≤ level s (var (if ltb (level s (var best)) (level s (var q)) then q else best)))
      × (level s (var q)
          ≤ level s (var (if ltb (level s (var best)) (level s (var q)) then q else best)))
pick s best q = elim (Bool-cases (ltb (level s (var best)) (level s (var q)))) [
  | inl b ↦ rw b (ground arith, omega arith)
  | inr b ↦ rw b (omega arith, ground arith)
]

-- no level of the list is higher
pub exchange-highest :
    (s : Solver) (x best : Lit) (r : List Lit)
    → (level s (var best) ≤ level s (var (exchange s x best r).0))
      × All (λ q. level s (var q) ≤ level s (var (exchange s x best r).0)) r
unfolding exchange
exchange-highest s x best [] = (omega arith, tt)
exchange-highest s x best (q ∷ r) =
    let ih =
      exchange-highest s x (if ltb (level s (var best)) (level s (var q)) then q else best) r in
    let low = pick s best q in (omega (arith, ih.0, low.0), (omega (arith, ih.0, low.1), ih.1))

-- the literals are the same
pub exchange-perm :
    (s : Solver) (x best : Lit) (r : List Lit)
    → (((exchange s x best r).1 ≡ true)
        × Permᴰ (x ∷ r) ((exchange s x best r).0 ∷ (exchange s x best r).2))
      ⊎ (((exchange s x best r).1 ≡ false)
          × ((exchange s x best r).0 ≡ best)
          × ((exchange s x best r).2 ≡ r))
unfolding exchange
exchange-perm s x best [] = inr (refl, refl, refl)
exchange-perm s x best (q ∷ r) = elim (Bool-cases (ltb (level s (var best)) (level s (var q)))) [
  | inl b ↦ elim (exchange-perm s x q r) [
    | inl e ↦ rw (b, e.0) (inl (refl, third q e.1))
    | inr e ↦ rw (b, e.0, e.1, e.2) (inl (refl, Permᴰ.swap refl refl))
  ]
  | inr b ↦ elim (exchange-perm s x best r) [
    | inl e ↦ rw (b, e.0) (inl (refl, third q e.1))
    | inr e ↦ rw (b, e.0, e.1, e.2) (inr (refl, refl, refl))
  ]
]
  where
    third :
        (q : Lit) {x m : Lit} {r r' : List Lit}
        → Permᴰ (x ∷ r) (m ∷ r')
        → Permᴰ (x ∷ q ∷ r) (m ∷ q ∷ r')
    third q p =
        Permᴰ.trans (Permᴰ.swap refl refl) (Permᴰ.trans (Permᴰ.cons refl p) (Permᴰ.swap refl refl))

-- `x` alone is the literal to start with
pub exchange_all :
    (s : Solver) (x : Lit) (r : List Lit)
    → Permᴰ (x ∷ r) ((exchange s x x r).0 ∷ (exchange s x x r).2)
exchange_all s x r = elim (exchange-perm s x x r) [
  | inl e ↦ e.1
  | inr e ↦ rw (e.1, e.2) (Permᴰ.refl _)
]
