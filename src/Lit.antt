-- ===== src/Lit.antt =====
-- riss/core/SolverTypes.h: variables and literals.
-- A literal is its field `x`, at a value that names a variable (`x ≥ 0`). The special values
-- lit_Undef and lit_Error are constructors of `LitCode`, for the functions that may return them.
use riss.Base.{
  refl, List, [], ◌∷◌, ◌⊎◌, inl, inr, All, ℕ, ◌+◌, ◌-◌, ◌/◌, ◌%◌, ◌<◌, ◌≡◌, ◌≢◌, Bool, arith, ◌==◌,
  not, ap, if◌then◌else◌,
}

abbrev pub Var : Type 0
Var = ℕ

abbrev pub Lit : Type 0
Lit = ℕ

pub data LitCode : Type 0 where
  lit_undef lit_error : LitCode
  lit : Lit → LitCode

abbrev pub mk_lit : Var → Bool → Lit
mk_lit v sign = v + v + (if sign then 1 else 0)

-- a literal of a list
abbrev pub IsMem : Lit → List Lit → Type 0
IsMem l [] = ⊥
IsMem l (m ∷ c) = (l ≡ m) ⊎ IsMem l c

-- `x ^ 1` flips the lowest bit
unfoldable pub neg : Lit → Lit
neg p = if p % 2 == 0 then p + 1 else p - 1

abbrev pub sign : Lit → Bool
sign p = p % 2 == 1

abbrev pub var : Lit → Var
var p = p / 2

-- operator ^ (p, b)
abbrev pub lit_xor : Lit → Bool → Lit
lit_xor p b = if b then neg p else p

pub neg-neg : (p : Lit) → neg (neg p) ≡ p
unfolding neg
neg-neg p = ground arith

pub neg-ne : (p : Lit) → neg p ≢ p
unfolding neg
neg-ne p = ground arith

pub neg-inj : (p q : Lit) → neg p ≡ neg q → p ≡ q
neg-inj p q e = omega (arith, neg-neg p, neg-neg q, ap neg e)

pub var-neg : (p : Lit) → var (neg p) ≡ var p
unfolding neg
var-neg p = ground arith

pub sign-neg : (p : Lit) → sign (neg p) ≡ not (sign p)
unfolding neg
sign-neg p = ground arith

-- a literal and its complement belong to the same variables
pub neg-lt : (p n : ℕ) → p < n + n → neg p < n + n
unfolding neg
neg-lt p n h = ground arith

pub All-IsMem {κ} : (P : Lit → Type κ) (c : List Lit) (l : Lit) → All P c → IsMem l c → P l
All-IsMem P [] l h m = absurd m
All-IsMem P (x ∷ c) l h (inl e) = rw e h.0
All-IsMem P (x ∷ c) l h (inr m) = All-IsMem P c l h.1 m

-- what holds of all members
pub IsMem-All {κ} : (P : Lit → Type κ) (c : List Lit) → ((l : Lit) → IsMem l c → P l) → All P c
IsMem-All P [] h = tt
IsMem-All P (x ∷ c) h = (h x (inl refl), IsMem-All P c (λ l m. h l (inr m)))
