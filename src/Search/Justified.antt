-- ===== src/Search/Justified.antt =====
-- Solver: what makes a trail justified by a formula. The trail is given newest literal first.
use riss.Base.{
  ℕ, suc, ◌≡◌, ◌≢◌, ◌≤◌, ◌<◌, ◌⊎◌, List, [], ◌∷◌, All, length, get_or, map, not, leb, if◌then◌else◌,
}
use riss.Lit.{Lit, Var, IsMem, neg, var, sign}
use riss.Semantics.{Entails}
use riss.Lifted.{l_undef, of_bool}
use riss.Clause.{Clause}
use riss.Checker.{CRef}
use riss.Search.{Reason, no_reason, by_clause, by_lit, VarData, Solver}

-- The clause `c` forces `l`: its other literals are false, and `l` stands in front unless the clause
-- is binary.
abbrev pub Forces : Lit → List Lit → List Lit → Type 0
Forces l below c =
    All (λ k. (k ≡ l) ⊎ IsMem (neg k) below) c × (((length c ≡ 2) × IsMem l c) ⊎ (get_or c 0 l ≡ l))

-- The reason of `l`, where the literals below it are true: at level 0 every literal follows from the
-- formula, above it a literal without a reason is a decision.
abbrev pub ReasonHolds : List (List Lit) → (CRef → Clause) → Lit → ℕ → List Lit → Reason → Type 0
ReasonHolds f mem l lev below no_reason = lev ≡ 0 → Entails f (l ∷ [])
ReasonHolds f mem l lev below (by_lit q) = IsMem q below × Entails f (l ∷ neg q ∷ [])
ReasonHolds f mem l lev below (by_clause cr) =
    Entails f (mem cr).lits × Forces l below (mem cr).lits

-- every literal has its reason, its own variable, and no lower level than those below it
abbrev pub Justified : List (List Lit) → (CRef → Clause) → (Var → VarData) → List Lit → Type 0
Justified f mem vd [] = Unit
Justified f mem vd (l ∷ below) =
    ReasonHolds f mem l (vd (var l)).level below (vd (var l)).reason
    × All (λ k. (var k ≢ var l) × ((vd (var k)).level ≤ (vd (var l)).level)) below
    × Justified f mem vd below

-- the literals below the index `lim` are those of level 0
abbrev pub Floor : ℕ → (Var → VarData) → List Lit → Type 0
Floor lim vd [] = Unit
Floor lim vd (l ∷ below) =
    (length below < lim → (vd (var l)).level ≡ 0)
    × (lim ≤ length below → 0 < (vd (var l)).level)
    × Floor lim vd below

-- the decision level at which the literal of an index was assigned
unfoldable pub level_at : List ℕ → ℕ → ℕ
level_at [] i = 0
level_at (n ∷ lims) i = if leb n i then suc (length lims) else level_at lims i

abbrev pub Leveled : List ℕ → (Var → VarData) → List Lit → Type 0
Leveled lims vd [] = Unit
Leveled lims vd (l ∷ below) =
    ((vd (var l)).level ≡ level_at lims (length below)) × Leveled lims vd below

-- the limits, newest first, do not grow and are at most `n`
abbrev pub Limits : ℕ → List ℕ → Type 0
Limits n [] = Unit
Limits n (m ∷ lims) = (m ≤ n) × Limits m lims

-- The invariant of the search for the formula `f`.
pub record IsValid (f : List (List Lit)) (s : Solver) : Type 0 where
  pub justified : Justified f s.memory s.vardata s.trail
  pub holding : All (λ l. s.assigns (var l) ≡ of_bool (not (sign l))) s.trail
  pub on_trail : (v : Var) → (s.assigns v ≡ l_undef) ⊎ IsMem v (map var s.trail)
  pub leveled : Leveled s.trail_lim s.vardata s.trail
  pub limits : Limits (length s.trail) s.trail_lim
  pub head : s.qhead ≤ length s.trail
