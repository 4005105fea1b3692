-- ===== src/Checker/Outcome.antt =====
-- OnlineProofChecker::propagate as a whole: it ends, its assignments are forced, and a conflict is a
-- clause of the checker whose literals are all false.
use mathlib.Core.List.{Permᴰ}
use mathlib.Core.List.Permᴰ
use riss.Base.{
  ℕ, zero, suc, ◌+◌, ◌≤◌, ◌<◌, ◌≡◌, ◌≢◌, inl, inr, refl, ap, sym, subst, Bool, true, false, List,
  [], ◌∷◌, arith, All, Bool-cases, length, some,
}
use riss.Lit.{Lit, var}
use riss.Lifted.{LBool, l_false}
use riss.Checker.{Checker, CRef, value}
use riss.Checker.Propagate.{units, propagate}
use riss.Checker.Forced.{IsMem, Forced, Forced-map, Forced-trans, Forced-trail}
use riss.Checker.Forced.Meaning.{unassigned, Forced-unassigned}
use riss.Checker.Watched.{live, lits}
use riss.Checker.Watched.Visit.{Same}
use riss.Checker.Watched.Scan.{Stored, Same-trans}
use riss.Checker.Rounds.{Watching, Watching-same}
use riss.Checker.Runs.{TrailTrue}
use riss.Checker.Propagation.{InRange, work, Looped, loop_ends}
use riss.Checker.UnitClauses.{Known, Enqueued, units_lem}

pub record Propagated (s : Checker) (c : Bool) (t : Checker) : Type 0 where
  pub perm : (cr : CRef) → Permᴰ (lits s cr) (lits t cr)
  pub same : Same s t
  pub watching : Watching t
  pub forced : Forced (Known s) s.assigns s.trail t.assigns t.trail
  pub clash : c ≡ true → (d : List Lit) × Known s d × (d ≢ []) × All (λ l. value t l ≡ l_false) d
  pub done : c ≡ false → length t.trail ≤ t.qhead

-- what holds before each propagation
pub record Prepared (s : Checker) : Type 0 where
  pub watching : Watching s
  pub trail_true : TrailTrue s
  pub in_range : InRange s
  pub units_in_range : All (λ l. var l < s.n_vars) s.unit_clauses
  pub qhead : s.qhead ≡ 0

unassigned-le : (n : ℕ) (a : ℕ → LBool) → unassigned n a ≤ n
unassigned-le zero a = omega arith
unassigned-le (suc n) a = ground (arith, unassigned-le n a)

in_units : {n : ℕ} (us : List Lit) (l : Lit) → All (λ m. var m < n) us → IsMem l us → var l < n
in_units [] l h m = absurd m
in_units (u ∷ us) l h (inl e) = rw e h.0
in_units (u ∷ us) l h (inr m) = in_units us l h.1 m

module _ {s t : Checker} {b : Bool} (p : Prepared s) (k : Enqueued s.unit_clauses s b t) where
  lits-after : (cr : CRef) → lits t cr ≡ lits s cr
  lits-after cr = ap (λ m. live (m cr)) k.memory

  InRange-after : InRange t
  InRange-after cr = rw (lits-after cr, k.same.n_vars) (p.in_range cr)

  work-after : work t ≡ work s
  work-after = rw k.same.n_vars (
      Forced-unassigned s.n_vars
        (λ c (l, m, e). rw e (in_units s.unit_clauses l p.units_in_range m, tt)) k.forced)

  perm-after : (cr : CRef) → Permᴰ (lits s cr) (lits t cr)
  perm-after cr = subst (Permᴰ (lits s cr)) (sym (lits-after cr)) (Permᴰ.refl _)

  Forced-after : Forced (Known s) s.assigns s.trail t.assigns t.trail
  Forced-after = Forced-map (λ c u. inr u) k.forced

  -- one of the units is false
  Propagated-units : b ≡ true → Propagated s true t
  Propagated-units e = record {
    perm = perm-after;
    same = k.same;
    watching = Watching-same k.memory k.watches p.watching;
    forced = Forced-after;
    clash = λ _. let (l, m, f) = k.clash e in (l ∷ [], inr (l, m, refl), (λ x. cc), (f, tt));
    done = λ e. cc;
  }

  Known-after : (d : List Lit) → Stored t d → Known s d
  Known-after d (cr, x) = inl (cr, rw (lits-after cr) at x)

  -- the loop goes on from there
  Propagated-loop : {fuel : ℕ} (l : Looped t fuel) → Propagated s l.conflict l.final
  Propagated-loop l = record {
    perm = λ cr. Permᴰ.trans (perm-after cr) (l.run.perm cr);
    same = Same-trans k.same l.run.same;
    watching = l.run.watching;
    forced = Forced-trans Forced-after (Forced-map Known-after l.run.forced);
    clash = λ e.
        let (cr, n, f) = l.run.clash e in
        (lits l.final cr, inl (cr, Permᴰ.trans (perm-after cr) (l.run.perm cr)), n, f);
    done = l.done;
  }

-- Propagation from the start of the trail returns, if the watches are right and the trail is true.
-- It only reorders the literals of clauses, it keeps the watches right, each of its assignments is
-- the one literal of a clause that is not false, a conflict is a non-empty clause of the checker
-- whose literals are all false, and without a conflict the whole trail is propagated.
pub propagate_ends :
    (s : Checker)
    → Prepared s
    → (c : Bool) × (t : Checker) × (propagate s ≡ some (c, t)) × Propagated s c t
unfolding propagate
propagate_ends s p =
    let k = units_lem s.unit_clauses s in
    let t = (units s.unit_clauses s).1 in
    elim (Bool-cases (units s.unit_clauses s).0) [
      | inl b ↦ (true, t, rw (b, propagate), Propagated-units p k b)
      | inr b ↦
          let l : Looped t (s.n_vars + length s.trail + 1) =
            loop_ends (s.n_vars + length s.trail + 1) t
              (Watching-same k.memory k.watches p.watching) (Forced-trail k.forced p.trail_true)
              (InRange-after p k) (omega (arith, k.qhead, p.qhead))
              (omega (arith, work-after p k, unassigned-le s.n_vars s.assigns)) in
          (l.conflict, l.final, rw (b, propagate) l.returns, Propagated-loop p k l)
    ]

pub propagate-Propagated :
    (s : Checker) (c : Bool) (t : Checker)
    → Prepared s
    → propagate s ≡ some (c, t)
    → Propagated s c t
propagate-Propagated s c t p h =
    let (c', t', e, r) = propagate_ends s p in
    let ec : c' ≡ c = cc in let et : t' ≡ t = cc in rw (ec, et) at r
