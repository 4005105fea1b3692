-- ===== src/Checker/UnitClauses.antt =====
-- OnlineProofChecker::propagate: the loop over the unit clauses.
use riss.Base.{◌≡◌, ◌⊎◌, inl, inr, refl, Bool, true, List, [], ◌∷◌, arith, Bool-cases}
use riss.Lit.{Lit}
use riss.Lifted.{l_false, l_undef, is_false, is_true}
use riss.Checker.{Checker, value, unchecked_enqueue}
use riss.Checker.Propagate.{units}
use riss.Checker.Forced.{IsMem, Forced, stay, more, Forced-map, Forced-trans}
use riss.Checker.Watched.Visit.{Same}
use riss.Checker.Watched.Whole.{Same-refl}
use riss.Checker.Watched.Scan.{Stored}

-- the clauses of the checker: the stored ones, up to the order of literals, and the units
abbrev pub Known : Checker → List Lit → Type 0
Known s c = Stored s c ⊎ ((l : Lit) × IsMem l s.unit_clauses × (c ≡ l ∷ []))

abbrev pub Units : List Lit → List Lit → Type 0
Units us c = (l : Lit) × IsMem l us × (c ≡ l ∷ [])

-- what the loop over the unit clauses returns
pub record Enqueued (us : List Lit) (s : Checker) (c : Bool) (t : Checker) : Type 0 where
  pub memory : t.memory ≡ s.memory
  pub watches : t.watches ≡ s.watches
  pub same : Same s t
  pub qhead : t.qhead ≡ s.qhead
  pub forced : Forced (Units us) s.assigns s.trail t.assigns t.trail
  pub clash : c ≡ true → (l : Lit) × IsMem l us × (value t l ≡ l_false)

abbrev pub UnitsResult : List Lit → Checker → Bool × Checker → Type 0
UnitsResult us s r = Enqueued us s r.0 r.1

Enqueued-skip :
    {l : Lit} {us : List Lit} {s : Checker} (r : Bool × Checker)
    → UnitsResult us s r
    → UnitsResult (l ∷ us) s r
Enqueued-skip r k = record {
  memory = k.memory;
  watches = k.watches;
  same = k.same;
  qhead = k.qhead;
  forced = Forced-map (λ c (m, i, e). (m, inr i, e)) k.forced;
  clash = λ e. let (m, i, f) = k.clash e in (m, inr i, f);
}

pub units_lem : (us : List Lit) (s : Checker) → UnitsResult us s (units us s)
unfolding units
units_lem [] s = record {
  memory = refl;
  watches = refl;
  same = Same-refl;
  qhead = refl;
  forced = stay;
  clash = λ e. cc;
}
units_lem (l ∷ us) s = elim (Bool-cases (is_true (value s l))) [
  | inl a ↦ rw (a, units) (Enqueued-skip (units us s) (units_lem us s))
  | inr a ↦ elim (Bool-cases (is_false (value s l))) [
    | inl b ↦
        rw (a, b, units)
          (record {
            memory = refl;
            watches = refl;
            same = Same-refl;
            qhead = refl;
            forced = stay;
            clash = λ _. (l, inl refl, ground arith);
          })
    | inr b ↦
        let u : value s l ≡ l_undef = ground arith in
        let k =
          Enqueued-skip {l = l} (units us (unchecked_enqueue l s))
            (units_lem us (unchecked_enqueue l s)) in
        rw (a, b, units)
          (record {
            memory = k.memory;
            watches = k.watches;
            same = record {
              ok = k.same.ok;
              proof = k.same.proof;
              sz = k.same.sz;
              unit_clauses = k.same.unit_clauses;
              n_vars = k.same.n_vars;
              occ = k.same.occ;
            };
            qhead = k.qhead;
            forced =
                Forced-trans
                  (more stay (l ∷ []) l (l, inl refl, refl) (inl refl, (inl refl, tt), u)) k.forced;
            clash = k.clash;
          })
  ]
]
