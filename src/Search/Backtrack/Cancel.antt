-- ===== src/Search/Backtrack/Cancel.antt =====
-- Solver::cancelUntil: which values it leaves, and that the invariant of the search is kept.
use riss.Base.{
  ℕ, ◌≡◌, ◌≤◌, ◌<◌, ◌⊎◌, inl, inr, refl, ap, sym, ◌∙◌, Bool-cases, not, List, [], ◌∷◌, All, All-map,
  length, ltb, leb, ltb→lt, arith, if◌then◌else◌, map,
}
use riss.Lit.{Lit, Var, IsMem, var, sign}
use riss.Lifted.{l_undef, of_bool}
use riss.Clause.{Clause}
use riss.Checker.{CRef}
use riss.Search.{
  VarData, Solver, vec_at, shrink_to, decision_level, level, unassign_down, cancel_until,
}
use riss.Search.Justified.{Justified, Leveled, Limits, IsValid}
use riss.Search.Forced.{All-zip}
use riss.Search.Levels.{
  level_at-le, level_at-limit, vec_at-le, length-shrink_to, level_at-shrink_to, Limits-shrink_to,
}
use riss.Search.Trail.{Justified-same, Leveled-same}
use riss.Search.Backtrack.{
  Frame, unassign_down-Frame, undef-stays, popped-undef, Distinct, All-shrink_to, Kept, kept,
}

Justified-Distinct :
    (f : List (List Lit)) (mem : CRef → Clause) (vd : Var → VarData) (t : List Lit)
    → Justified f mem vd t
    → Distinct t
Justified-Distinct f mem vd [] j = tt
Justified-Distinct f mem vd (l ∷ t) j =
    (All-map t (λ k h. h.0) j.1, Justified-Distinct f mem vd t j.2)

Justified-shrink_to :
    (f : List (List Lit)) (mem : CRef → Clause) (vd : Var → VarData) (n : ℕ) (t : List Lit)
    → Justified f mem vd t
    → Justified f mem vd (shrink_to n t)
Justified-shrink_to f mem vd n [] j = tt
Justified-shrink_to f mem vd n (l ∷ t) j = elim (Bool-cases (leb n (length t))) [
  | inl b ↦ rw b (Justified-shrink_to f mem vd n t j.2)
  | inr b ↦ rw b j
]

-- the literals that are left have their level by the limits that are left
Leveled-shrink_to :
    (lims : List ℕ) (n lev : ℕ) (vd : Var → VarData) (t : List Lit)
    → Limits n lims
    → lev < length lims
    → Leveled lims vd t
    → Leveled (shrink_to lev lims) vd (shrink_to (vec_at lims lev 0) t)
Leveled-shrink_to lims n lev vd [] lm k lv = tt
Leveled-shrink_to lims n lev vd (l ∷ t) lm k lv =
    elim (Bool-cases (leb (vec_at lims lev 0) (length t))) [
      | inl b ↦ rw b (Leveled-shrink_to lims n lev vd t lm k lv.1)
      | inr b ↦ rw b (below (l ∷ t) (ground arith) lv)
    ]
  where
    below :
        (xs : List Lit)
        → length xs ≤ vec_at lims lev 0
        → Leveled lims vd xs
        → Leveled (shrink_to lev lims) vd xs
    below [] h v = tt
    below (x ∷ xs) h v = (
      v.0 ∙ sym (level_at-shrink_to lims (length xs) n lev lm k (omega arith)),
      below xs (omega arith) v.1,
    )

-- the level of a literal that is left, and of one that is not
remains-level :
    (lims : List ℕ) (n lev : ℕ) (vd : Var → VarData) (t : List Lit)
    → Limits n lims
    → lev < length lims
    → Leveled lims vd t
    → (v : Var) → IsMem v (map var (shrink_to (vec_at lims lev 0) t))
    → (vd v).level ≤ lev
remains-level lims n lev vd [] lm k lv v m = absurd m
remains-level lims n lev vd (l ∷ t) lm k lv v m =
    elim (Bool-cases (leb (vec_at lims lev 0) (length t))) [
      | inl b ↦ remains-level lims n lev vd t lm k lv.1 v (rw b at m)
      | inr b ↦ below (l ∷ t) (ground arith) lv (rw b at m)
    ]
  where
    below :
        (xs : List Lit)
        → length xs ≤ vec_at lims lev 0
        → Leveled lims vd xs
        → IsMem v (map var xs)
        → (vd v).level ≤ lev
    below [] h w m = absurd m
    below (x ∷ xs) h w (inr m) = below xs (omega arith) w.1 m
    below (x ∷ xs) h w (inl e) =
        let z = (level_at-limit lims (length xs) n lev lm k).0 (omega arith) in
        let q = ap (λ y. (vd y).level) e in let q' = w.0 in omega arith

popped-level :
    (lims : List ℕ) (n lev : ℕ) (vd : Var → VarData) (t : List Lit)
    → Limits n lims
    → lev < length lims
    → Leveled lims vd t
    → (v : Var) → IsMem v (map var t)
    → (lev < (vd v).level) ⊎ IsMem v (map var (shrink_to (vec_at lims lev 0) t))
popped-level lims n lev vd [] lm k lv v m = absurd m
popped-level lims n lev vd (l ∷ t) lm k lv v m =
    elim (Bool-cases (leb (vec_at lims lev 0) (length t))) [
      | inr b ↦ inr (rw b m)
      | inl b ↦ elim m [
        | inr o ↦ rw b (popped-level lims n lev vd t lm k lv.1 v o)
        | inl e ↦ inl (
            let z = (level_at-limit lims (length t) n lev lm k).1 (ground arith) in
            let q = ap (λ y. (vd y).level) e in let q' = lv.0 in omega arith)
      ]
    ]

Kept-var :
    (s u : Solver) (t : List Lit) (v : Var)
    → All (Kept s u) t
    → IsMem v (map var t)
    → u.assigns v ≡ s.assigns v
Kept-var s u [] v h m = absurd m
Kept-var s u (x ∷ t) v h (inr m) = Kept-var s u t v h.1 m
Kept-var s u (x ∷ t) v h (inl e) = ap u.assigns e ∙ h.0.0 ∙ ap s.assigns (sym e)

-- the state behind the loop, cut at the limit of the level
abbrev cut : ℕ → Solver → Solver → Solver
cut lev s u = record u {
  qhead = vec_at s.trail_lim lev 0;
  real_head = vec_at s.trail_lim lev 0;
  trail = shrink_to (vec_at s.trail_lim lev 0) u.trail;
  trail_lim = shrink_to lev u.trail_lim;
}

module _ (f : List (List Lit)) (lev : ℕ) (s : Solver) (h : IsValid f s)
    (k : lev < decision_level s) where
  abbrev lim : ℕ
  lim = vec_at s.trail_lim lev 0

  abbrev remains : List Lit
  remains = shrink_to lim s.trail

  lim-le : lim ≤ length s.trail
  lim-le = vec_at-le s.trail_lim (length s.trail) lev h.limits

  remains-Kept : All (Kept s (unassign_down lim s.trail s)) remains
  remains-Kept = kept lim s.trail s (Justified-Distinct f s.memory s.vardata s.trail h.justified)

  cut-IsValid : (u : Solver) → u ≡ unassign_down lim s.trail s → IsValid f (cut lev s u)
  cut-IsValid u e =
      let fr : Frame s u = rw e (unassign_down-Frame lim s.trail s) in
      let ks : All (Kept s u) remains = rw e remains-Kept in
      let same : All (λ l. u.vardata (var l) ≡ s.vardata (var l)) remains =
        All-map remains (λ l q. q.1) ks in
      record {
        justified =
            rw (fr.memory, fr.trail)
              (Justified-same f s.memory s.vardata u.vardata remains same
                (Justified-shrink_to f s.memory s.vardata lim s.trail h.justified));
        holding = rw fr.trail (
            All-zip (Kept s u) (λ l. s.assigns (var l) ≡ of_bool (not (sign l)))
              (λ l. u.assigns (var l) ≡ of_bool (not (sign l))) remains (λ l q o. q.0 ∙ o) ks
              (All-shrink_to (λ l. s.assigns (var l) ≡ of_bool (not (sign l))) lim s.trail
                h.holding));
        on_trail = λ v. rw fr.trail (elim (h.on_trail v) [
          | inl o ↦ inl (rw e (undef-stays lim s.trail s v o))
          | inr m ↦ rw e (popped-undef lim s.trail s v m)
        ]);
        leveled =
            rw (fr.trail, fr.trail_lim)
              (Leveled-same (shrink_to lev s.trail_lim) s.vardata u.vardata remains same (
                Leveled-shrink_to s.trail_lim (length s.trail) lev s.vardata s.trail h.limits k
                  h.leveled));
        limits =
            rw (fr.trail, fr.trail_lim, length-shrink_to lim s.trail lim-le)
              (Limits-shrink_to s.trail_lim (length s.trail) lev h.limits k);
        head = rw fr.trail (rw (length-shrink_to lim s.trail lim-le) (omega arith));
      }

  cut-assigns :
      (v : Var)
      → (unassign_down lim s.trail s).assigns v
        ≡ (if leb (level s v) lev then s.assigns v else l_undef)
  cut-assigns v = elim (h.on_trail v) [
    | inl o ↦ undef-stays lim s.trail s v o ∙ ground arith
    | inr m ↦
        elim (popped-level s.trail_lim (length s.trail) lev s.vardata s.trail h.limits k h.leveled v
          m) [
            | inl hi ↦ elim (popped-undef lim s.trail s v m) [
              | inl o ↦ o ∙ ground arith
              | inr n ↦ absurd (
                  let low =
                    remains-level s.trail_lim (length s.trail) lev s.vardata s.trail h.limits k
                      h.leveled v n in
                  omega arith)
            ]
            | inr n ↦
                Kept-var s (unassign_down lim s.trail s) remains v remains-Kept n
                ∙ (let low =
                      remains-level s.trail_lim (length s.trail) lev s.vardata s.trail h.limits k
                        h.leveled v n in
                    ground arith)
          ]
  ]

Leveled-le-var :
    (lims : List ℕ) (vd : Var → VarData) (t : List Lit)
    → Leveled lims vd t
    → (v : Var) → IsMem v (map var t)
    → (vd v).level ≤ length lims
Leveled-le-var lims vd [] h v m = absurd m
Leveled-le-var lims vd (l ∷ t) h v (inr m) = Leveled-le-var lims vd t h.1 v m
Leveled-le-var lims vd (l ∷ t) h v (inl e) =
    let z = level_at-le lims (length t) in
    let q = ap (λ y. (vd y).level) e in let q' = h.0 in omega arith

all_stay :
    {f : List (List Lit)} (s : Solver)
    → IsValid f s
    → (lev : ℕ) → decision_level s ≤ lev
    → (v : Var) → s.assigns v ≡ (if leb (level s v) lev then s.assigns v else l_undef)
all_stay s h lev k v = elim (h.on_trail v) [
  | inl o ↦ ground arith
  | inr m ↦ let z = Leveled-le-var s.trail_lim s.vardata s.trail h.leveled v m in ground arith
]

-- On a valid state cancelUntil keeps the values of the variables of the levels up to the given one
-- and takes the value of all others; the state is valid afterwards, its decision level is the given
-- one, or the old one where that is lower; the queue starts at the end of the trail where levels are
-- taken back, and where it did before otherwise.
pub cancel_until-IsValid :
    {f : List (List Lit)} (lev : ℕ) (s : Solver)
    → IsValid f s
    → IsValid f (cancel_until lev s)
      × ((v : Var)
          → (cancel_until lev s).assigns v ≡ (if leb (level s v) lev then s.assigns v else l_undef))
      × (decision_level (cancel_until lev s)
          ≡ (if ltb lev (decision_level s) then lev else decision_level s))
      × ((cancel_until lev s).qhead
          ≡ (if ltb lev (decision_level s) then length (cancel_until lev s).trail else s.qhead))
unfolding cancel_until
cancel_until-IsValid {f} lev s h = elim (Bool-cases (ltb lev (decision_level s))) [
  | inl b ↦
      let k = ltb→lt lev (decision_level s) b in
      let fr = unassign_down-Frame (vec_at s.trail_lim lev 0) s.trail s in
      rw b (
        cut-IsValid f lev s h k (unassign_down (vec_at s.trail_lim lev 0) s.trail s) refl,
        cut-assigns f lev s h k,
        rw fr.trail_lim (length-shrink_to lev s.trail_lim (omega arith)),
        rw fr.trail (
            sym (
              length-shrink_to (vec_at s.trail_lim lev 0) s.trail
                (vec_at-le s.trail_lim (length s.trail) lev h.limits))),
      )
  | inr b ↦ rw b (h, all_stay s h lev (ground arith), refl, refl)
]
