-- ===== src/Semantics.antt =====
-- What literals, clauses and formulas mean: the specification that the solver's parts are proved
-- against.
use riss.Base.{
  inl, inr, refl, ap, Bool-cases, ◌≡◌, ◌≡◌, Bool, true, false, not, ◌||◌, List, [], ◌∷◌, arith,
  if◌then◌else◌, All,
}
use riss.Lit.{IsMem, All-IsMem, Lit, Var, neg, sign, var, var-neg, sign-neg}

-- A total assignment of the variables.
abbrev pub Assignment : Type 0
Assignment = Var → Bool

abbrev pub holds : Assignment → Lit → Bool
holds s p = if sign p then not (s (var p)) else s (var p)

-- A clause is the disjunction of its literals.
abbrev pub sat : Assignment → List Lit → Bool
sat s [] = false
sat s (p ∷ c) = holds s p || sat s c

-- A formula is the conjunction of its clauses.
abbrev pub Models : Assignment → List (List Lit) → Type 0
Models s f = All (λ c. sat s c ≡ true) f

abbrev pub Entails : List (List Lit) → List Lit → Type 0
Entails f c = (s : Assignment) → Models s f → sat s c ≡ true

abbrev pub Unsatisfiable : List (List Lit) → Type 0
Unsatisfiable f = (s : Assignment) → ¬ Models s f

pub holds-neg : (s : Assignment) (p : Lit) → holds s (neg p) ≡ not (holds s p)
holds-neg s p = ground (arith, var-neg p, sign-neg p)

-- a clause holds if one of its literals does
pub sat-IsMem :
    (g : Assignment) (c : List Lit) → sat g c ≡ true → (l : Lit) × IsMem l c × (holds g l ≡ true)
sat-IsMem g [] h = cc
sat-IsMem g (x ∷ c) h = elim (Bool-cases (holds g x)) [
  | inl e ↦ (x, inl refl, e)
  | inr e ↦ let (l, m, k) = sat-IsMem g c (ground arith) in (l, inr m, k)
]

pub IsMem-sat :
    (g : Assignment) (c : List Lit) (l : Lit) → IsMem l c → holds g l ≡ true → sat g c ≡ true
IsMem-sat g [] l m h = absurd m
IsMem-sat g (x ∷ c) l (inl e) h = let here : holds g l ≡ holds g x = ap (holds g) e in ground arith
IsMem-sat g (x ∷ c) l (inr m) h = ground (arith, IsMem-sat g c l m h)

-- more literals
pub sat-All :
    (g : Assignment) (c d : List Lit) → All (λ l. IsMem l d) c → sat g c ≡ true → sat g d ≡ true
sat-All g c d a h =
    let (l, m, k) = sat-IsMem g c h in IsMem-sat g d l (All-IsMem (λ x. IsMem x d) c l a m) k
