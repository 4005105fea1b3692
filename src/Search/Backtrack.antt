-- ===== src/Search/Backtrack.antt =====
-- Solver::cancelUntil.
pub mod Cancel
use native.Mathlib.Decide.{ℕ_discrete}
use riss.Base.{
  ℕ, suc, ◌+◌, ◌-◌, ◌≡◌, ◌≢◌, ◌≤◌, ◌<◌, ◌⊎◌, inl, inr, refl, ap, sym, ◌∙◌, subst, Bool, Bool-cases,
  true, false, not, ◌&&◌, ◌||◌, List, [], ◌∷◌, All, All-map, length, get_or, ltb, leb, ltb→lt,
  arith, if◌then◌else◌, map, update, ◌==◌,
}
use riss.Lit.{Lit, Var, IsMem, All-IsMem, neg, var, sign, lit_undef}
use riss.Lifted.{LBool, l_undef, of_bool}
use riss.Clause.{Clause}
use riss.Checker.{CRef}
use riss.Search.{
  Reason, no_reason, VarData, Solver, vec_at, shrink_to, decision_level, level, unassign,
  unassign_down, cancel_until,
}
use riss.Search.Justified.{Justified, Leveled, Limits, level_at, IsValid}
use riss.Search.Levels.{
  level_at-limit, vec_at-le, shrink_to-all, length-shrink_to, level_at-shrink_to, Limits-shrink_to,
}
use riss.Search.Trail.{Justified-same, Leveled-same, update-same, update-other}

-- what the loop of cancelUntil leaves alone
pub record Frame (s t : Solver) : Type 0 where
  pub trail : t.trail ≡ s.trail
  pub trail_lim : t.trail_lim ≡ s.trail_lim
  pub memory : t.memory ≡ s.memory
  pub watches : t.watches ≡ s.watches
  pub clauses : t.clauses ≡ s.clauses
  pub decision : t.decision ≡ s.decision
  pub seen : t.seen ≡ s.seen

unassign-Frame : (p : Lit) (c : ℕ) (s : Solver) → Frame s (unassign p c s)
unfolding unassign
unassign-Frame p c s = record {
  trail = ground arith;
  trail_lim = ground arith;
  memory = ground arith;
  watches = ground arith;
  clauses = ground arith;
  decision = ground arith;
  seen = ground arith;
}

pub unassign-assigns :
    (p : Lit) (c : ℕ) (s : Solver) → (unassign p c s).assigns ≡ update s.assigns (var p) l_undef
unfolding unassign
unassign-assigns p c s = ground arith

unassign-vardata :
    (p : Lit) (c : ℕ) (s : Solver)
    → (unassign p c s).vardata
      ≡ update s.vardata
          (var p)
          (record (s.vardata (var p)) { reason = no_reason; dom = lit_undef })
unfolding unassign
unassign-vardata p c s = ground arith

-- a decision variable that loses its value gets into the order heap, and none leaves it
pub unassign-order_heap :
    (p : Lit) (c : ℕ) (s : Solver) (v : Var)
    → (s.order_heap v ≡ true) ⊎ ((v ≡ var p) × (s.decision v ≡ true))
    → (unassign p c s).order_heap v ≡ true
unfolding unassign
unassign-order_heap p c s v h = ground arith

Frame-refl : (s : Solver) → Frame s s
Frame-refl s = record {
  trail = refl;
  trail_lim = refl;
  memory = refl;
  watches = refl;
  clauses = refl;
  decision = refl;
  seen = refl;
}

Frame-trans : (s t u : Solver) → Frame s t → Frame t u → Frame s u
Frame-trans s t u a b = record {
  trail = b.trail ∙ a.trail;
  trail_lim = b.trail_lim ∙ a.trail_lim;
  memory = b.memory ∙ a.memory;
  watches = b.watches ∙ a.watches;
  clauses = b.clauses ∙ a.clauses;
  decision = b.decision ∙ a.decision;
  seen = b.seen ∙ a.seen;
}

pub unassign_down-Frame : (lim : ℕ) (t : List Lit) (s : Solver) → Frame s (unassign_down lim t s)
unfolding unassign_down
unassign_down-Frame lim [] s = Frame-refl s
unassign_down-Frame lim (p ∷ t) s = elim (Bool-cases (leb lim (length t))) [
  | inl b ↦
      let s' = unassign p (length t) s in
      rw b (
        Frame-trans s s' (unassign_down lim t s') (unassign-Frame p (length t) s)
          (unassign_down-Frame lim t s'))
  | inr b ↦ rw b (Frame-refl s)
]

pub undef-stays :
    (lim : ℕ) (t : List Lit) (s : Solver) (v : Var)
    → s.assigns v ≡ l_undef
    → (unassign_down lim t s).assigns v ≡ l_undef
unfolding unassign_down
undef-stays lim [] s v h = h
undef-stays lim (p ∷ t) s v h = elim (Bool-cases (leb lim (length t))) [
  | inl b ↦
      rw b (undef-stays lim t (unassign p (length t) s) v (rw unassign-assigns (ground arith)))
  | inr b ↦ rw b h
]

-- a variable of the trail has no value afterwards, or belongs to what is left
pub popped-undef :
    (lim : ℕ) (t : List Lit) (s : Solver) (v : Var)
    → IsMem v (map var t)
    → ((unassign_down lim t s).assigns v ≡ l_undef) ⊎ IsMem v (map var (shrink_to lim t))
unfolding unassign_down
popped-undef lim [] s v m = absurd m
popped-undef lim (p ∷ t) s v m = elim (Bool-cases (leb lim (length t))) [
  | inr b ↦ inr (rw b m)
  | inl b ↦ elim m [
    | inr n ↦ rw b (popped-undef lim t (unassign p (length t) s) v n)
    | inl e ↦ inl (
        rw b (
          undef-stays lim t (unassign p (length t) s) v
            (rw (unassign-assigns, e) (update-same s.assigns (var p) l_undef))))
  ]
]

-- the variables of the list are distinct
abbrev pub Distinct : List Lit → Type 0
Distinct [] = Unit
Distinct (l ∷ t) = All (λ k. var k ≢ var l) t × Distinct t

pub All-shrink_to {κ} : (P : Lit → Type κ) (n : ℕ) (t : List Lit) → All P t → All P (shrink_to n t)
All-shrink_to P n [] h = tt
All-shrink_to P n (l ∷ t) h = elim (Bool-cases (leb n (length t))) [
  | inl b ↦ rw b (All-shrink_to P n t h.1)
  | inr b ↦ rw b h
]

-- what is left keeps its values and data
abbrev pub Kept : Solver → Solver → Lit → Type 0
Kept s t k = (t.assigns (var k) ≡ s.assigns (var k)) × (t.vardata (var k) ≡ s.vardata (var k))

pub kept :
    (lim : ℕ) (t : List Lit) (s : Solver)
    → Distinct t
    → All (Kept s (unassign_down lim t s)) (shrink_to lim t)
unfolding unassign_down
kept lim [] s d = tt
kept lim (p ∷ t) s d = elim (Bool-cases (leb lim (length t))) [
  | inr b ↦ rw b (same (p ∷ t))
  | inl b ↦
      let s' = unassign p (length t) s in
      rw b (
        zip (unassign_down lim t s') (shrink_to lim t) (All-shrink_to _ lim t d.0)
          (kept lim t s' d.1))
]
  where
    same : (xs : List Lit) → All (Kept s s) xs
    same [] = tt
    same (x ∷ xs) = ((refl, refl), same xs)

    zip :
        (u : Solver) (xs : List Lit)
        → All (λ k. var k ≢ var p) xs
        → All (Kept (unassign p (length t) s) u) xs
        → All (Kept s u) xs
    zip u [] n h = tt
    zip u (x ∷ xs) n h = (
      (
        h.0.0 ∙ rw unassign-assigns (update-other s.assigns (var p) (var x) l_undef n.0),
        h.0.1 ∙ rw unassign-vardata (update-other s.vardata (var p) (var x) _ n.0),
      ),
      zip u xs n.1 h.1,
    )
