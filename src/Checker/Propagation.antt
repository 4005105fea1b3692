-- ===== src/Checker/Propagation.antt =====
-- OnlineProofChecker::propagate: the loop over the trail ends.
use mathlib.Core.List.Permᴰ
use riss.Base.{
  ℕ, zero, suc, ◌+◌, ◌≤◌, ◌<◌, ◌≡◌, inl, inr, Bool, true, false, arith, All, All-get_or, Bool-cases,
  length, get_or, some, ltb, ltb→lt,
}
use riss.Lit.{var}
use riss.Checker.{Checker, CRef}
use riss.Checker.Propagate.{round, loop}
use riss.Checker.Forced.{stay, Forced-trail}
use riss.Checker.Forced.Meaning.{unassigned, Forced-unassigned}
use riss.Checker.Watched.{lits, All-perm}
use riss.Checker.Watched.Whole.{Same-refl}
use riss.Checker.Rounds.{Watching}
use riss.Checker.Runs.{Run, Run-trans, TrailTrue, round_lem}

abbrev pub InRange : Checker → Type 0
InRange s = (cr : CRef) → All (λ l. var l < s.n_vars) (lits s cr)

Run-refl : {s : Checker} → Watching s → Run s false s
Run-refl w = record {
  perm = λ cr. Permᴰ.refl _;
  same = Same-refl;
  watching = w;
  forced = stay;
  clash = λ e. cc;
}

Run-TrailTrue : {s t : Checker} {c : Bool} → Run s c t → TrailTrue s → TrailTrue t
Run-TrailTrue r h = Forced-trail r.forced h

Run-InRange : {s t : Checker} {c : Bool} → Run s c t → InRange s → InRange t
Run-InRange r h cr = rw r.same.n_vars (All-perm _ (r.perm cr) (h cr))

-- each round moves the head on, and the trail grows only by variables that had no value
abbrev pub work : Checker → ℕ
work s = unassigned s.n_vars s.assigns + length s.trail

Run-work : {s t : Checker} {c : Bool} → Run s c t → InRange s → work t ≡ work s
Run-work {s} {t} r h =
    rw r.same.n_vars (Forced-unassigned s.n_vars (λ d (cr, p). All-perm _ p (h cr)) r.forced)

-- what the loop returns
pub record Looped (s : Checker) (fuel : ℕ) : Type 0 where
  pub conflict : Bool
  pub final : Checker
  pub returns : loop fuel s ≡ some (conflict, final)
  pub run : Run s conflict final
  pub done : conflict ≡ false → length final.trail ≤ final.qhead

pub loop_ends :
    (fuel : ℕ) (s : Checker)
    → Watching s
    → TrailTrue s
    → InRange s
    → s.qhead ≤ work s
    → work s < fuel + s.qhead
    → Looped s fuel
unfolding loop
loop_ends zero s w tt ir q h = absurd (omega arith)
loop_ends (suc fuel) s w tr ir q h = elim (Bool-cases (ltb s.qhead (length s.trail))) [
  | inr b ↦ record {
    conflict = false;
    final = s;
    returns = rw (b, loop);
    run = Run-refl w;
    done = λ _. ground arith;
  }
  | inl b ↦
      let p = get_or s.trail s.qhead 0 in
      let (run, head) = round_lem p s w (All-get_or _ s.trail s.qhead 0 tr (ltb→lt _ _ b)) in
      let t = (round p s).1 in
      elim (Bool-cases (round p s).0) [
        | inl c ↦ record {
          conflict = true;
          final = t;
          returns = rw (b, c, loop);
          run = rw c at run;
          done = λ e. cc;
        }
        | inr c ↦
            let rest : Looped t fuel =
              loop_ends fuel t run.watching (Run-TrailTrue run tr) (Run-InRange run ir)
                (omega (arith, Run-work run ir, head c, ltb→lt _ _ b))
                (omega (arith, Run-work run ir, head c, ltb→lt _ _ b)) in
            record {
              conflict = rest.conflict;
              final = rest.final;
              returns = rw (b, c, loop) rest.returns;
              run = Run-trans run rest.run;
              done = rest.done;
            }
      ]
]
