-- ===== src/Search/Propagate/Ends.antt =====
-- Solver::propagate ends, and what holds then.
use mathlib.Core.List.{Permᴰ}
use mathlib.Core.List.Permᴰ
use riss.Base.{
  ℕ, zero, suc, ◌+◌, All-get_or, ◌-◌, ◌≡◌, ◌≤◌, ◌<◌, inl, inr, refl, ap, Bool, true, not, List, All,
  length, arith, Option, none, some, Bool-cases, ltb, ltb→lt, update,
}
use riss.Lit.{Lit, Var, neg, var, var-neg, sign-neg, sign}
use riss.Lifted.{LBool, l_true, l_false, of_bool, lxor}
use riss.Checker.{CRef, Watcher}
use riss.Checker.Forced.{Forced, stay, Forced-map, Forced-trans}
use riss.Checker.Forced.Meaning.{unassigned, Forced-unassigned}
use riss.Checker.Watched.{All-perm}
use riss.Checker.Watched.Scan.{Stored, Ready}
use riss.Checker.Rounds.{Watching}
use riss.Checker.Runs.{Run-Scanned}
use riss.Search.{Solver, value, lits, vec_at}
use riss.Search.Justified.{IsValid}
use riss.Search.Propagate.{walk, propagate_lit, propagate_loop, propagate}
use riss.Search.Propagate.Projection.{rev, core}
use riss.Search.Propagate.Good.{Good}
use riss.Search.Propagate.Walked.{has, Conflicts, walk-Walked, length-rev}

-- the variables of the clauses are below `n`
abbrev pub InRange : ℕ → Solver → Type 0
InRange n s = (cr : CRef) → All (λ l. var l < n) (lits s cr)

-- a part of the run
pub record Run (f : List (List Lit)) (s : Solver) (o : Option CRef) (t : Solver) : Type 0 where
  pub good : Good f t
  pub watching : Watching (core t)
  pub perm : (cr : CRef) → Permᴰ (lits s cr) (lits t cr)
  pub forced : Forced (Stored (core s)) s.assigns (rev s.trail) t.assigns (rev t.trail)
  pub conflicts : Conflicts t o

Run-trans :
    {f : List (List Lit)} {s t u : Solver} {o o' : Option CRef}
    → Run f s o t
    → Run f t o' u
    → Run f s o' u
Run-trans a b = record {
  good = b.good;
  watching = b.watching;
  perm = λ cr. Permᴰ.trans (a.perm cr) (b.perm cr);
  forced =
      Forced-trans a.forced (Forced-map (λ d (cr, p). (cr, Permᴰ.trans (a.perm cr) p)) b.forced);
  conflicts = b.conflicts;
}

-- the state, with the head of the queue moved on by one
advanced :
    {f : List (List Lit)} (s : Solver)
    → Good f s
    → s.qhead < length s.trail
    → Good f (record s { qhead = s.qhead + 1; real_head = s.qhead + 1 })
advanced s g h = record {
  valid = record {
    justified = g.valid.justified;
    holding = g.valid.holding;
    on_trail = g.valid.on_trail;
    leveled = g.valid.leveled;
    limits = g.valid.limits;
    head = omega arith;
  };
  store = g.store;
}

Good-watches :
    {f : List (List Lit)} (w : Lit → List Watcher) (s : Solver)
    → Good f s
    → Good f (record s { watches = w })
Good-watches w s g = record {
  valid = record {
    justified = g.valid.justified;
    holding = g.valid.holding;
    on_trail = g.valid.on_trail;
    leveled = g.valid.leveled;
    limits = g.valid.limits;
    head = g.valid.head;
  };
  store = g.store;
}

Conflicts-same :
    (s t : Solver) (o : Option CRef)
    → t.memory ≡ s.memory
    → t.assigns ≡ s.assigns
    → Conflicts s o
    → Conflicts t o
Conflicts-same s t none em ea h = tt
Conflicts-same s t (some cr) em ea h = rw (em, ea) h

module _ (f : List (List Lit)) (stop : Bool) where
  propagate_lit-Run :
      (p : Lit) (o : Option CRef) (s : Solver)
      → Good f s
      → Watching (core s)
      → Conflicts s o
      → s.qhead < length s.trail
      → value s p ≡ l_true
      → Run f s (propagate_lit stop p o s).confl (propagate_lit stop p o s).after
        × (s.qhead < (propagate_lit stop p o s).after.qhead)
        × ((propagate_lit stop p o s).finished ≡ true → has (propagate_lit stop p o s).confl ≡ true)
  unfolding propagate_lit
  propagate_lit-Run p o s g w c q v =
      let s' = record s { qhead = s.qhead + 1; real_head = s.qhead + 1 } in
      let w' : Watching (core s') = record { lists = w.lists; no_dup = w.no_dup } in
      let nv : value s' (neg p) ≡ l_false = ground (arith, var-neg p, sign-neg p) in
      let ready : Ready p (s'.watches p) (core s') = record {
        ws_ok = (w.lists p).0;
        ws_distinct = (w.lists p).1;
        no_dup = w.no_dup;
        is_f = nv;
        lists = λ x n. w.lists x;
      } in
      let k =
        walk-Walked f stop p (s'.watches p) o s' (advanced s g q) ready
          (Conflicts-same s s' o refl refl c) v in
      let run = Run-Scanned w' k.scanned in
      (
        record {
          good =
              Good-watches
                (update (walk stop p (s'.watches p) o s').after.watches p
                  (walk stop p (s'.watches p) o s').kept)
                (walk stop p (s'.watches p) o s').after k.good;
          watching = run.watching;
          perm = k.scanned.perm;
          forced = k.scanned.forced;
          conflicts =
              Conflicts-same (walk stop p (s'.watches p) o s').after
                (propagate_lit stop p o s).after (walk stop p (s'.watches p) o s').confl refl refl
                k.conflicts;
        },
        (let e = k.progress in omega arith),
        k.stopped,
      )

-- the literal at an index of the trail is true
at_trail :
    {f : List (List Lit)} (s : Solver) (i : ℕ)
    → IsValid f s
    → i < length s.trail
    → value s (vec_at s.trail i 0) ≡ l_true
at_trail s i h k =
    let p = vec_at s.trail i 0 in
    let e : s.assigns (var p) ≡ of_bool (not (sign p)) =
      All-get_or (λ l. s.assigns (var l) ≡ of_bool (not (sign l))) s.trail (length s.trail - 1 - i)
        0 h.holding (omega arith) in
    true_value (s.assigns (var p)) (sign p) e
  where
    true_value : (a : LBool) (b : Bool) → a ≡ of_bool (not b) → lxor a b ≡ l_true
    true_value a b e = ground arith

-- What propagate returns: the conflict, if there is one, and the state.
pub record Propagated (f : List (List Lit)) (n : ℕ) (s : Solver) (r : Option (Option CRef × Solver))
    : Type 0 where
  pub conflict : Option CRef
  pub final : Solver
  pub returns : r ≡ some (conflict, final)
  pub run : Run f s conflict final
  pub done : conflict ≡ none → length final.trail ≤ final.qhead

module _ (f : List (List Lit)) (stop : Bool) (n : ℕ) where
  loop_ends :
      (fuel : ℕ) (o : Option CRef) (s : Solver)
      → Good f s
      → Watching (core s)
      → InRange n s
      → Conflicts s o
      → unassigned n s.assigns + length s.trail < fuel + s.qhead
      → Propagated f n s (propagate_loop stop fuel o s)
  unfolding propagate_loop
  loop_ends zero o s g w ir c b = absurd (let h = g.valid.head in omega arith)
  loop_ends (suc fuel) o s g w ir c b = elim (Bool-cases (ltb s.qhead (length s.trail))) [
    | inr e ↦ record {
      conflict = o;
      final = s;
      returns = rw (e, propagate_loop);
      run = record {
        good = g;
        watching = w;
        perm = λ cr. Permᴰ.refl _;
        forced = stay;
        conflicts = c;
      };
      done = λ x. ground arith;
    }
    | inl e ↦
        let q = ltb→lt s.qhead (length s.trail) e in
        let p = vec_at s.trail s.qhead 0 in
        let k = propagate_lit stop p o s in
        let (run, moved, fin) =
          propagate_lit-Run f stop p o s g w c q (at_trail s s.qhead g.valid q) in
        elim (Bool-cases k.finished) [
          | inl z ↦ record {
            conflict = k.confl;
            final = k.after;
            returns = rw (e, z, propagate_loop);
            run = run;
            done = λ x. absurd (let y = fin z in let y' = ap has x in ground arith);
          }
          | inr z ↦
              let work = Forced-unassigned n (λ d (cr, x). All-perm _ x (ir cr)) run.forced in
              let rest =
                loop_ends fuel k.confl k.after run.good run.watching
                  (λ cr. All-perm _ (run.perm cr) (ir cr)) run.conflicts
                  (omega (arith, work, moved, length-rev s.trail, length-rev k.after.trail)) in
              record {
                conflict = rest.conflict;
                final = rest.final;
                returns = rw (e, z, propagate_loop) rest.returns;
                run = Run-trans run rest.run;
                done = rest.done;
              }
        ]
  ]

unassigned-le : (n : ℕ) (a : Var → LBool) → unassigned n a ≤ n
unassigned-le zero a = omega arith
unassigned-le (suc n) a = ground (arith, unassigned-le n a)

-- From a valid state with right watch lists, whose clauses follow from the formula and have variables
-- below `n`, propagate returns within its rounds, whether or not it stops at the first conflict. Then
-- the state is valid and its clauses follow from the formula, the watch lists are right, each clause
-- has the same literals in some order, the trail has grown by forced literals only, a conflict that
-- is returned is a clause with literals that are all false, and without one the queue is empty.
pub propagate_returns :
    {f : List (List Lit)} (stop : Bool) (n : ℕ) (s : Solver)
    → Good f s
    → Watching (core s)
    → InRange n s
    → Propagated f n s (propagate stop n s)
unfolding propagate
propagate_returns {f} stop n s g w ir =
    loop_ends f stop n (n + length s.trail + 1) none s g w ir tt
      (omega (arith, unassigned-le n s.assigns))
