-- ===== src/Search/Learning/Jump.antt =====
-- Solver::conflictAnalysis: the learned clause implies its first literal after backtracking.
use mathlib.Core.List.{Permᴰ}
use riss.Base.{ℕ, ◌≡◌, ◌≤◌, ◌<◌, refl, Bool, List, [], ◌∷◌, All, All-map, arith, Option, none, some}
use riss.Lit.{Lit, IsMem, neg, var}
use riss.Lifted.{LBool, l_true, l_undef}
use riss.Semantics.{Entails}
use riss.Search.{Solver, decision_level, level, value, cancel_until}
use riss.Search.Justified.{IsValid}
use riss.Search.Backtrack.Cancel.{cancel_until-IsValid}
use riss.Checker.Satisfaction.{sat-perm}
use riss.Checker.Watched.{All-perm}
use riss.Search.Forced.{All-zip}
use riss.Search.Propagate.Reordered.{false_on_trail}
use riss.Search.Analyze.Reasons.{Holding-true, false_of_neg}
use riss.Search.Analyze.Resolvent.{Earlier}
use riss.Search.Analyze.Learned.{Latest}
use riss.Search.Learning.{exchange, backtrack_level, handle_learnt_clause}
use riss.Search.Learning.Second.{exchange-highest, exchange_all}
use riss.Search.Learning.Stored.{NoReason, cancel_until-NoReason, handle_learnt_clause-Implied}

-- The search resumes at a lower level, where a literal of the conflict's level that was false is true.
abbrev pub Resumes : List (List Lit) → Solver → Option (LBool × Solver) → Type 0
Resumes f s none = ⊥
Resumes f s (some (b, u)) =
    (b ≡ l_undef)
    × IsValid f u
    × (decision_level u < decision_level s)
    × (k : Lit) × Latest s k
    × (value u k ≡ l_true)

module _ {f : List (List Lit)} (core : Bool) (s : Solver) (h : IsValid f s)
    (n : NoReason s s.next_ref) where
  -- at a lower level the first literal has no value and the others are false
  jump :
      (k : Lit) (d : List Lit) (lev : ℕ)
      → Entails f (k ∷ d)
      → Latest s k
      → lev < decision_level s
      → All (λ q. IsMem (neg q) s.trail × (level s (var q) ≤ lev)) d
      → Resumes f s (some (handle_learnt_clause core k d (cancel_until lev s)))
  jump k d lev ent latest low al =
      let t = cancel_until lev s in
      let c = cancel_until-IsValid lev s h in
      let undef : t.assigns (var k) ≡ l_undef =
        (let a = c.1 (var k) in let l = latest.1 in ground arith) in
      let kept : All (λ q. IsMem (neg q) t.trail) d =
        All-map d
          (λ q m. false_on_trail t q c.0 (
            let a = c.1 (var q) in
            let v = false_of_neg s q (Holding-true s s.trail (neg q) h.holding m.0) in
            let low = m.1 in ground arith))
          al in
      let i =
        handle_learnt_clause-Implied core k d t c.0 ent undef kept
          (cancel_until-NoReason lev s n) in
      (i.0, i.1, (let e = i.3 in let e' = c.2 in ground arith), k, latest, i.2)

  highest :
      (x : Lit) (r : List Lit)
      → All (Earlier s) (x ∷ r)
      → let (m, moved, r') = exchange s x x r in
        All (λ q. IsMem (neg q) s.trail × (level s (var q) ≤ level s (var m))) (m ∷ r')
  highest x r al =
      let e = exchange-highest s x x r in
      let top = level s (var (exchange s x x r).0) in
      All-perm (λ q. IsMem (neg q) s.trail × (level s (var q) ≤ top)) (exchange_all s x r)
        (All-zip (Earlier s) (λ q. level s (var q) ≤ top)
          (λ q. IsMem (neg q) s.trail × (level s (var q) ≤ top)) (x ∷ r) (λ q a l. (a.0, l)) al
          (e.0, e.1))

  pub backjump :
      (k : Lit) (d : List Lit)
      → Entails f (k ∷ d)
      → Latest s k
      → All (Earlier s) d
      → 0 < decision_level s
      → let (c', lev) = backtrack_level s (k ∷ d) in
        Resumes f s (elim c' [
          | [] ↦ none
          | k ∷ d ↦ some (handle_learnt_clause core k d (cancel_until lev s))
        ])
  unfolding backtrack_level
  backjump k [] ent latest al pos = jump k [] 0 ent latest pos tt
  backjump k (x ∷ r) ent latest al pos =
      let e = exchange s x x r in
      let m = e.0 in
      jump k (m ∷ e.2) (level s (var m))
        (λ g mo. sat-perm g (Permᴰ.cons refl (exchange_all s x r)) (ent g mo)) latest
        (All-perm (Earlier s) (exchange_all s x r) al).0.2 (highest x r al)
