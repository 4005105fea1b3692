-- ===== src/Search/Final/Correct.antt =====
-- Solver::analyzeFinal, both overloads, on a valid state.
use riss.Base.{
  ◌≡◌, ◌<◌, ◌⊎◌, inl, inr, refl, ap, sym, subst, Bool-cases, true, false, List, [], ◌∷◌, All,
  All-map, length, ◌==◌, ltb, update, arith, if◌then◌else◌, map,
}
use riss.Lit.{Lit, Var, IsMem, neg, var}
use riss.Semantics.{Assignment, Models, Entails, holds, sat, holds-neg}
use riss.Search.{Reason, Solver, decision_level, level, vec_at}
use riss.Search.Justified.{Floor, Leveled, IsValid}
use riss.Search.Forced.{All-zip, level_zero_holds}
use riss.Search.Levels.{Leveled-Floor, level_at-le}
use riss.Search.Final.{
  Seen, see, unsee, conflict_lits, final_down, analyze_final, analyze_final_clause,
}
use riss.Search.Final.Sound.{Reached, Reached-neg, see_lem, final_down_lem, final_down-keeps_out}
use riss.Search.Final.Cleared.{
  Decided, Pending, IsMem-neg, see-marks, final_down-Decided, final_down-Pending,
}

valid-Floor :
    {f : List (List Lit)} (s : Solver)
    → IsValid f s
    → 0 < decision_level s
    → Floor (vec_at s.trail_lim 0 0) s.vardata s.trail
valid-Floor s h k =
    Leveled-Floor s.trail_lim s.vardata s.trail (length s.trail) h.leveled h.limits k

-- with no decision all literals have level 0
no_decision :
    (s : Solver) (t : List Lit)
    → Leveled s.trail_lim s.vardata t
    → decision_level s ≡ 0
    → (k : Lit) → IsMem k t
    → level s (var k) ≡ 0
no_decision s [] h z k m = absurd m
no_decision s (l ∷ t) h z k (inr m) = no_decision s t h.1 z k m
no_decision s (l ∷ t) h z k (inl e) =
    let a = level_at-le s.trail_lim (length t) in
    let b = h.0 in let c = ap (λ y. level s (var y)) e in omega arith

-- On a valid state where no variable is marked, the clause that analyzeFinal returns for a literal
-- `p` of the trail follows from the formula; next to `p` it holds only complements of decisions of
-- the trail above level 0; and no variable is marked afterwards.
pub analyze_final_lem :
    {f : List (List Lit)} (p : Lit) (s : Solver)
    → IsValid f s
    → IsMem p s.trail
    → ((v : Var) → s.seen v ≡ false)
    → Entails f (analyze_final p s).0
      × All (λ k. (k ≡ p) ⊎ Decided s s.trail k) (analyze_final p s).0
      × ((v : Var) → (analyze_final p s).1.seen v ≡ false)
unfolding analyze_final
analyze_final_lem {f} p s h m clear = elim (Bool-cases (decision_level s == 0)) [
  | inl b ↦ rw b (
    λ g models.
        (let e =
            level_zero_holds f g models s.memory s.vardata s.trail h.justified p m
              (no_decision s s.trail h.leveled (ground arith) p m) in
          ground arith),
    (inl refl, tt),
    clear,
  )
  | inr b ↦
      let lim = vec_at s.trail_lim 0 0 in
      let a : Seen × List Lit = (update s.seen (var p) true, p ∷ []) in
      let r = final_down s lim s.trail a in
      let fl = valid-Floor s h (ground arith) in
      rw b (
        λ g models. (elim (final_down_lem f g models s lim s.trail a h.justified fl) [
          | inl e ↦ e
          | inr all ↦
              final_down-keeps_out g s lim s.trail a
                (let e : holds g p ≡ true = all p m (inl (ground arith)) in ground arith)
        ]),
        final_down-Decided s (λ k. (k ≡ p) ⊎ Decided s s.trail k) lim s.trail a fl (λ k d. inr d)
            (inl refl, tt),
        λ v. (elim (Bool-cases (r.0 v)) [
          | inr e ↦ ground arith
          | inl e ↦
              let q : v ≡ var p =
                final_down-Pending f (λ x. x ≡ var p) s lim s.trail a h.justified fl
                  (λ w o. inl (let n = clear w in ground arith)) v e in
              ground arith
        ]),
      )
]

-- the variables of two lists of literals are the same
All-var :
    (P : Var → Type 0) (c d : List Lit)
    → map var c ≡ map var d
    → All (λ k. P (var k)) c
    → All (λ k. P (var k)) d
All-var P [] [] e h = tt
All-var P [] (y ∷ d) e h = absurd (ground arith)
All-var P (x ∷ c) [] e h = absurd (ground arith)
All-var P (x ∷ c) (y ∷ d) e h =
    let q : var x ≡ var y = cc in
    let r : map var c ≡ map var d = cc in (subst P q h.0, All-var P c d r h.1)

unsee-false :
    (s : Solver) (c : List Lit) (seen : Seen) (v : Var) → seen v ≡ false → unsee s c seen v ≡ false
unfolding unsee
unsee-false s [] seen v h = h
unsee-false s (k ∷ c) seen v h =
    unsee-false s c (if ltb 0 (level s (var k)) then update seen (var k) false else seen) v
      (ground arith)

all_false : (g : Assignment) (c : List Lit) → All (λ k. holds g (neg k) ≡ true) c → sat g c ≡ false
all_false g [] h = refl
all_false g (k ∷ c) h = ground (arith, holds-neg g k, all_false g c h.1)

refuted :
    (f : List (List Lit)) (g : Assignment)
    → Models g f
    → (d : List Lit) → Entails f d
    → ¬ All (λ k. holds g (neg k) ≡ true) d
refuted f g models d ent a = let e = ent g models in ground (arith, all_false g d a)

-- On a valid state where no variable is marked, if the formula entails a clause `d` over the
-- variables of the conflict, in their order, whose literals are all false on the trail (the
-- conflicting clause itself, where the conflict is a clause), then the clause that analyzeFinal
-- returns for the conflict follows from the formula; it holds only complements of decisions of the
-- trail above level 0; and no variable is marked afterwards.
pub analyze_final_clause_lem :
    {f : List (List Lit)} (conflicting : Reason) (other : Lit) (d : List Lit) (s : Solver)
    → IsValid f s
    → Entails f d
    → map var d ≡ map var (conflict_lits s conflicting other)
    → All (λ k. IsMem (neg k) s.trail) d
    → ((v : Var) → s.seen v ≡ false)
    → Entails f (analyze_final_clause conflicting other s).0
      × All (Decided s s.trail) (analyze_final_clause conflicting other s).0
      × ((v : Var) → (analyze_final_clause conflicting other s).1.seen v ≡ false)
unfolding analyze_final_clause
analyze_final_clause_lem {f} conflicting other d s h ent same falsified clear =
    elim (Bool-cases (decision_level s == 0)) [
      | inl b ↦ rw b (
        λ g models. absurd (
            refuted f g models d ent (
              All-map d
                (λ k m.
                  level_zero_holds f g models s.memory s.vardata s.trail h.justified (neg k) m
                    (no_decision s s.trail h.leveled (ground arith) (neg k) m))
                falsified)),
        tt,
        clear,
      )
      | inr b ↦
          let lim = vec_at s.trail_lim 0 0 in
          let c = conflict_lits s conflicting other in
          let seen' = see s c s.seen in
          let a : Seen × List Lit = (seen', []) in
          let fl = valid-Floor s h (ground arith) in
          let reached : All (Reached s seen') d =
            All-var (λ v. (seen' v ≡ true) ⊎ (level s v ≡ 0)) c d (sym same) (see_lem s c s.seen) in
          let none_left : (v : Var) → (final_down s lim s.trail a).0 v ≡ true → ⊥ =
            final_down-Pending f (λ v. ⊥) s lim s.trail a h.justified fl
              (see-marks s c s.seen (Pending (λ v. ⊥) s s.trail)
                (All-map c (λ k m z. inr (m, z))
                  (All-var (λ v. IsMem v (map var s.trail)) d c same
                    (All-map d (λ k m. IsMem-neg k s.trail m) falsified)))
                (λ w o. absurd (let n = clear w in ground arith))) in
          rw b (
            λ g models. (elim (final_down_lem f g models s lim s.trail a h.justified fl) [
              | inl e ↦ e
              | inr all ↦ absurd (
                  refuted f g models d ent (
                    All-zip (Reached s seen') (λ k. IsMem (neg k) s.trail)
                      (λ k. holds g (neg k) ≡ true) d
                      (λ k q m. all (neg k) m (Reached-neg s seen' k q)) reached falsified))
            ]),
            final_down-Decided s (Decided s s.trail) lim s.trail a fl (λ k q. q) tt,
            λ v.
                unsee-false s c (final_down s lim s.trail a).0 v
                  (elim (Bool-cases ((final_down s lim s.trail a).0 v)) [
                    | inr e ↦ e
                    | inl e ↦ absurd (none_left v e)
                  ]),
          )
    ]
