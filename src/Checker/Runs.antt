-- ===== src/Checker/Runs.antt =====
-- Whole runs of unit propagation.
use mathlib.Core.List.{Permᴰ}
use mathlib.Core.List.Permᴰ
use native.Mathlib.Decide.{ℕ_discrete}
use riss.Base.{
  ℕ, ◌+◌, ◌≡◌, inl, inr, ap, sym, subst, ◌∙◌, Bool, true, false, List, arith, All, update,
  Bool-cases,
}
use riss.Lit.{Lit, neg, var-neg, sign-neg}
use riss.Lifted.{l_true, l_false}
use riss.Checker.{Checker, Watcher, CRef, value}
use riss.Checker.Propagate.{binaries, longs, round}
use riss.Checker.Forced.{Forced, Forced-map, Forced-trans, Forced-false}
use riss.Checker.Watched.{live, lits, Ok, Distinct, NoDup-perm}
use riss.Checker.Watched.Visit.{Same}
use riss.Checker.Watched.Scan.{Stored, Listed, Ready, Scanned, longs-Scanned, Same-trans}
use riss.Checker.Rounds.{Clash, Watching, Watching-same, Binaries, binaries_lem}

-- a run from `s` to `t`; `c` tells a conflict
pub record Run (s : Checker) (c : Bool) (t : Checker) : Type 0 where
  pub perm : (cr : CRef) → Permᴰ (lits s cr) (lits t cr)
  pub same : Same s t
  pub watching : Watching t
  pub forced : Forced (Stored s) s.assigns s.trail t.assigns t.trail
  pub clash : c ≡ true → Clash t

abbrev pub TrailTrue : Checker → Type 0
TrailTrue s = All (λ l. value s l ≡ l_true) s.trail

pub Run-trans : {s t u : Checker} {b c : Bool} → Run s b t → Run t c u → Run s c u
Run-trans r k = record {
  perm = λ cr. Permᴰ.trans (r.perm cr) (k.perm cr);
  same = Same-trans r.same k.same;
  watching = k.watching;
  forced =
      Forced-trans r.forced (Forced-map (λ d (cr, x). (cr, Permᴰ.trans (r.perm cr) x)) k.forced);
  clash = k.clash;
}

-- after the binary clauses the scan can start
module _ {s t : Checker} {b : Bool} (w : Watching s) (p : Lit) (k : Binaries s b t)
    (is_f : value s (neg p) ≡ l_false) where
  lits-after : (cr : CRef) → lits t cr ≡ lits s cr
  lits-after cr = ap (λ m. live (m cr)) k.memory

  Watching-after : Watching t
  Watching-after = Watching-same k.memory k.watches w

  Ready-after : Ready p (t.watches p) t
  Ready-after = record {
    ws_ok = (Watching-after.lists p).0;
    ws_distinct = (Watching-after.lists p).1;
    no_dup = Watching-after.no_dup;
    is_f = Forced-false (neg p) k.forced is_f;
    lists = λ q n. Watching-after.lists q;
  }

  Run-after : Run s b t
  Run-after = record {
    perm = λ cr. subst (Permᴰ (lits s cr)) (sym (lits-after cr)) (Permᴰ.refl _);
    same = k.same;
    watching = Watching-after;
    forced = k.forced;
    clash = k.clash;
  }

-- the scanned list is put back
pub Run-Scanned :
    {p : Lit} {s t : Checker} {c : Bool} {kept : List Watcher}
    → Watching s
    → Scanned p (s.watches p) s c kept t
    → Run s c (record t { watches = update t.watches p kept })
Run-Scanned {p} {s} {t} {c} {kept} w k = record {
  perm = k.perm;
  same = record {
    ok = k.same.ok;
    proof = k.same.proof;
    sz = k.same.sz;
    unit_clauses = k.same.unit_clauses;
    n_vars = k.same.n_vars;
    occ = k.same.occ;
  };
  watching = record { lists = lists; no_dup = λ cr. NoDup-perm (k.perm cr) (w.no_dup cr) };
  forced = k.forced;
  clash = k.clash;
}
  where
    put :
        (q : Lit)
        → (l : List Watcher) → update t.watches p kept q ≡ l
        → All (Ok t q) l × Distinct l
        → Listed (record t { watches = update t.watches p kept }) q
    put q l e h = subst (λ x. All (Ok t q) x × Distinct x) (sym e) h

    lists : (q : Lit) → Listed (record t { watches = update t.watches p kept }) q
    lists q = elim (ℕ_discrete q p) [
      | yes e ↦
          put q kept (ground arith)
            (subst (λ x. All (Ok t x) kept × Distinct kept) (sym e) (k.kept_ok, k.kept_distinct))
      | no n ↦ put q (t.watches q) (ground arith) (k.lists q n)
    ]

abbrev pub RoundResult : Checker → Bool × Checker → Type 0
RoundResult s r = Run s r.0 r.1 × (r.0 ≡ false → r.1.qhead ≡ s.qhead + 1)

true-false : (s : Checker) (p : Lit) → value s p ≡ l_true → value s (neg p) ≡ l_false
true-false s p h = ground (arith, var-neg p, sign-neg p)

-- the head of the queue plays no part
from_s0 :
    (s : Checker) {q : ℕ} {c : Bool} {t : Checker} → Run (record s { qhead = q }) c t → Run s c t
from_s0 s r = record {
  perm = r.perm;
  same = record {
    ok = r.same.ok;
    proof = r.same.proof;
    sz = r.same.sz;
    unit_clauses = r.same.unit_clauses;
    n_vars = r.same.n_vars;
    occ = r.same.occ;
  };
  watching = r.watching;
  forced = r.forced;
  clash = r.clash;
}

pub round_lem :
    (p : Lit) (s : Checker) → Watching s → value s p ≡ l_true → RoundResult s (round p s)
unfolding round
round_lem p s w v =
    let s0 : Checker = record s { qhead = s.qhead + 1 } in
    let f = true-false s p v in
    let w0 : Watching s0 = record { lists = w.lists; no_dup = w.no_dup } in
    let k = binaries_lem p (s.watches p) s0 (w.lists p).0 f in
    let s1 = (binaries (s.watches p) s0).1 in
    let after = Run-after w0 p k f in
    elim (Bool-cases (binaries (s.watches p) s0).0) [
      | inl b ↦
          let here : round p s ≡ (true, s1) = rw (b, round) in
          subst (RoundResult s) (sym here) (from_s0 s (rw b at after), λ e. cc)
      | inr b ↦
          let r = longs-Scanned p (s1.watches p) s1 (Ready-after w0 p k f) in
          let scan = longs p (s1.watches p) s1 in
          let here : round p s
              ≡ (scan.0, record scan.2 { watches = update scan.2.watches p scan.1 }) =
            rw (b, round) in
          subst (RoundResult s) (sym here) (
            from_s0 s (Run-trans after (Run-Scanned (Watching-after w0 p k f) r)),
            λ e. r.qhead e ∙ k.qhead,
          )
    ]
