-- ===== src/Search/Trail.antt =====
-- Solver: new decision levels and enqueued literals keep the invariant of the search.
use native.Mathlib.Decide.{ℕ_discrete}
use riss.Base.{
  ℕ, suc, ◌≡◌, ◌≢◌, ◌≤◌, inl, inr, ap, sym, ◌∙◌, not, List, [], ◌∷◌, All, All-map, length, arith,
  update,
}
use riss.Search.Forced.{All-zip}
use riss.Lit.{lit_undef, Lit, Var, var, sign}
use riss.Lifted.{l_undef, of_bool}
use riss.Clause.{Clause}
use riss.Checker.{CRef}
use riss.Search.{
  Reason, VarData, Solver, decision_level, level, new_decision_level, unchecked_enqueue,
}
use riss.Search.Justified.{ReasonHolds, Justified, Leveled, level_at, IsValid}
use riss.Search.Levels.{level_at-le, level_at-top, Limits-weaken}

-- where the data of the variables on the trail are the same
pub Justified-same :
    (f : List (List Lit)) (mem : CRef → Clause) (vd vd' : Var → VarData) (t : List Lit)
    → All (λ l. vd' (var l) ≡ vd (var l)) t
    → Justified f mem vd t
    → Justified f mem vd' t
Justified-same f mem vd vd' [] a j = tt
Justified-same f mem vd vd' (l ∷ t) a j =
    (rw (a.0) (j.0), zip t a.1 j.1, Justified-same f mem vd vd' t a.1 j.2)
  where
    zip :
        (xs : List Lit)
        → All (λ k. vd' (var k) ≡ vd (var k)) xs
        → All (λ k. (var k ≢ var l) × ((vd (var k)).level ≤ (vd (var l)).level)) xs
        → All (λ k. (var k ≢ var l) × ((vd' (var k)).level ≤ (vd' (var l)).level)) xs
    zip [] p q = tt
    zip (x ∷ xs) p q = ((q.0.0, rw (p.0, a.0) q.0.1), zip xs p.1 q.1)

pub Leveled-same :
    (lims : List ℕ) (vd vd' : Var → VarData) (t : List Lit)
    → All (λ l. vd' (var l) ≡ vd (var l)) t
    → Leveled lims vd t
    → Leveled lims vd' t
Leveled-same lims vd vd' [] a j = tt
Leveled-same lims vd vd' (l ∷ t) a j =
    (ap (λ (d : VarData). d.level) a.0 ∙ j.0, Leveled-same lims vd vd' t a.1 j.1)

-- a variable without a value is not on the trail
pub unassigned-fresh :
    {f : List (List Lit)} (s : Solver) (v : Var)
    → IsValid f s
    → s.assigns v ≡ l_undef
    → All (λ k. var k ≢ v) s.trail
unassigned-fresh s v h u = All-map s.trail (λ k e q. clash k e (ap s.assigns q ∙ u)) h.holding
  where
    clash : (k : Lit) → s.assigns (var k) ≡ of_bool (not (sign k)) → s.assigns (var k) ≢ l_undef
    clash k e w = ground arith

pub update-same {ℓ} : {A : Type ℓ} (g : ℕ → A) (i : ℕ) (x : A) → update g i x i ≡ x
update-same g i x = ground arith

pub update-other {ℓ} : {A : Type ℓ} (g : ℕ → A) (i j : ℕ) (x : A) → j ≢ i → update g i x j ≡ g j
update-other g i j x n = ground arith

pub Leveled-le :
    (lims : List ℕ) (vd : Var → VarData) (t : List Lit)
    → Leveled lims vd t
    → All (λ k. (vd (var k)).level ≤ length lims) t
Leveled-le lims vd [] h = tt
Leveled-le lims vd (l ∷ t) h =
    (let e = level_at-le lims (length t) in let z = h.0 in omega arith, Leveled-le lims vd t h.1)

pub new_decision_level-IsValid :
    {f : List (List Lit)} (s : Solver) → IsValid f s → IsValid f (new_decision_level s)
unfolding new_decision_level level_at
new_decision_level-IsValid s h = record {
  justified = h.justified;
  holding = h.holding;
  on_trail = h.on_trail;
  leveled = below s.trail (omega arith) h.leveled;
  limits = (omega arith, h.limits);
  head = h.head;
}
  where
    below :
        (t : List Lit)
        → length t ≤ length s.trail
        → Leveled s.trail_lim s.vardata t
        → Leveled (length s.trail ∷ s.trail_lim) s.vardata t
    below [] k lv = tt
    below (l ∷ t) k lv = (ground (arith, lv.0), below t (omega arith) lv.1)

pub unchecked_enqueue-IsValid :
    {f : List (List Lit)} (p : Lit) (from : Reason) (s : Solver)
    → IsValid f s
    → s.assigns (var p) ≡ l_undef
    → ReasonHolds f s.memory p (decision_level s) s.trail from
    → IsValid f (unchecked_enqueue p from s)
unfolding unchecked_enqueue
unchecked_enqueue-IsValid {f} p from s h u r =
    let fresh = unassigned-fresh s (var p) h u in
    let s' = unchecked_enqueue p from s in
    let d : VarData = record {
      reason = from;
      level = decision_level s;
      dom = lit_undef;
      position = length s.trail;
    } in
    let same : All (λ l. s'.vardata (var l) ≡ s.vardata (var l)) s.trail =
      All-map s.trail (λ k n. update-other s.vardata (var p) (var k) _ n) fresh in
    record {
      justified = (
        rw (update-same s.vardata (var p) d) r,
        All-zip (λ k. var k ≢ var p) (λ k. level s (var k) ≤ decision_level s)
            (λ k. (var k ≢ var p) × ((s'.vardata (var k)).level ≤ (s'.vardata (var p)).level))
            s.trail
            (λ k n b. (
              n,
              rw (update-same s.vardata (var p) d, update-other s.vardata (var p) (var k) d n) b,
            ))
            fresh (Leveled-le s.trail_lim s.vardata s.trail h.leveled),
        Justified-same f s.memory s.vardata s'.vardata s.trail same h.justified,
      );
      holding = (
        ground arith,
        All-zip (λ k. var k ≢ var p) (λ k. s.assigns (var k) ≡ of_bool (not (sign k)))
            (λ k. s'.assigns (var k) ≡ of_bool (not (sign k))) s.trail
            (λ k n e. update-other s.assigns (var p) (var k) _ n ∙ e) fresh h.holding,
      );
      on_trail = λ v. elim (ℕ_discrete v (var p)) [
        | yes e ↦ inr (inl e)
        | no n ↦ elim (h.on_trail v) [ inl w ↦ inl (ground arith) | inr m ↦ inr (inr m) ]
      ];
      leveled = (
        ap (λ (e : VarData). e.level) (update-same s.vardata (var p) d)
            ∙ sym
                (level_at-top s.trail_lim (length s.trail) (length s.trail) h.limits (omega arith)),
        Leveled-same s.trail_lim s.vardata s'.vardata s.trail same h.leveled,
      );
      limits =
          Limits-weaken (length s.trail) (suc (length s.trail)) s.trail_lim (omega arith) h.limits;
      head = omega (arith, h.head);
    }
