-- ===== src/Search/Propagate/Walked.antt =====
-- Solver::propagate: the walk over the watchers of one literal.
use mathlib.Core.List.{Permᴰ}
use mathlib.Core.List.Permᴰ
use riss.Base.{
  ◌≡◌, ◌≢◌, ◌≤◌, inl, inr, refl, ap, sym, subst, ◌∙◌, Bool, true, false, List, [], ◌∷◌, All,
  All-map, length, length-append, arith, Option, none, some, Bool-cases, if◌then◌else◌,
}
use riss.Lit.{Lit, neg, var-neg, sign-neg}
use riss.Lifted.{LBool, l_true, l_false, l_undef, is_false, is_undef}
use riss.Semantics.{Entails, sat-All}
use riss.Checker.{CRef, Watcher}
use riss.Checker.Forced.{Forced, stay, more, Forced-false}
use riss.Checker.Watched.{Watches, Ok, All-perm}
use riss.Checker.Watched.Visit.{Step, Step-refl, Visited}
use riss.Checker.Watched.Whole.{Same-refl, visit-Visited, long-shape}
use riss.Checker.Watched.Scan.{
  Stored, Ready, Scanned, Step-perm, Assigns-Forced, Ready-rest, lists-same, lists-move,
  Scanned-move, Scanned-keep, Scanned-conflict, Ok-nonempty,
}
use riss.Checker.Rounds.{binary-lits, binary-IsUnit}
use riss.Search.{Solver, value, lits, by_lit, unchecked_enqueue}
use riss.Search.Propagate.{
  Visit, keep, move, conflict, visit_long, Walk, walk, after_long, after_short, keeping,
}
use riss.Search.Propagate.Projection.{rev, core, core_visit, visit_long-core}
use riss.Search.Propagate.Reordered.{length-perm}
use riss.Search.Propagate.Shape.{visit_long-Shape}
use riss.Search.Propagate.Good.{Good, result, visit-Good, enqueue_binary}

abbrev pub has : Option CRef → Bool
has none = false
has (some cr) = true

-- the clause is stored, and all its literals are false
abbrev pub Falsified : Solver → CRef → Type 0
Falsified s cr = (lits s cr ≢ []) × All (λ l. value s l ≡ l_false) (lits s cr)

abbrev pub Conflicts : Solver → Option CRef → Type 0
Conflicts s none = Unit
Conflicts s (some cr) = Falsified s cr

-- what holds after the walk
pub record Walked (f : List (List Lit)) (p : Lit) (ws : List Watcher) (s : Solver) (r : Walk)
    : Type 0 where
  pub good : Good f r.after
  pub scanned : Scanned p ws (core s) (has r.confl) r.kept (core r.after)
  pub conflicts : Conflicts r.after r.confl
  pub stopped : r.finished ≡ true → has r.confl ≡ true
  pub progress : s.qhead ≤ r.after.qhead

Falsified-step :
    (s t : Solver) (cr : CRef)
    → ((c : CRef) → Permᴰ (lits s c) (lits t c))
    → Forced (Stored (core s)) s.assigns (rev s.trail) t.assigns (rev t.trail)
    → Falsified s cr
    → Falsified t cr
Falsified-step s t cr perm fo (n, a) = (
  λ e. n (empty (lits s cr) (let k = length-perm (perm cr) in let z = ap length e in omega arith)),
  All-perm _ (perm cr) (All-map (lits s cr) (λ l h. Forced-false l fo h) a),
)
  where
    empty : (c : List Lit) → length c ≡ 0 → c ≡ []
    empty [] h = refl
    empty (x ∷ c) h = absurd (omega arith)

Conflicts-step :
    (s t : Solver) (o : Option CRef)
    → ((c : CRef) → Permᴰ (lits s c) (lits t c))
    → Forced (Stored (core s)) s.assigns (rev s.trail) t.assigns (rev t.trail)
    → Conflicts s o
    → Conflicts t o
Conflicts-step s t none perm fo h = tt
Conflicts-step s t (some cr) perm fo h = Falsified-step s t cr perm fo h

-- the walk ends: with the whole list, or with what is left of it
Scanned-stay :
    (p : Lit) (ws : List Watcher) (s : Solver) (o : Option CRef)
    → Ready p ws (core s)
    → Conflicts s o
    → Scanned p ws (core s) (has o) ws (core s)
Scanned-stay p ws s o r h = record {
  perm = λ cr. Permᴰ.refl _;
  same = Same-refl;
  qhead = λ e. refl;
  frame = λ q v k n. k;
  kept_ok = r.ws_ok;
  kept_distinct = r.ws_distinct;
  kept_fresh = λ cr k. k;
  lists = r.lists;
  forced = stay;
  clash = clash o h;
}
  where
    clash :
        (o : Option CRef)
        → Conflicts s o
        → has o ≡ true
        → (cr : CRef) × (lits s cr ≢ []) × All (λ l. value s l ≡ l_false) (lits s cr)
    clash none h e = cc
    clash (some cr) (n, a) e = (cr, n, a)

pub Result : Bool → Lit → List Watcher → Option CRef → Solver → List (List Lit) → Type 0
Result stop p ws o s f = Walked f p ws s (walk stop p ws o s)

pub length-rev : (t : List Lit) → length (rev t) ≡ length t
length-rev [] = refl
length-rev (l ∷ t) = omega (arith, length-append (rev t) (l ∷ []), length-rev t)

rescan :
    {p : Lit} {ws kept : List Watcher} (s t : Solver)
    → Scanned p ws (core s) true kept (record (core t) { qhead = length (rev t.trail) })
    → length (rev t.trail) ≡ length t.trail
    → Scanned p ws (core s) true kept (core (record t { qhead = length t.trail }))
rescan {p} {ws} {kept} s t k e =
    subst (λ q. Scanned p ws (core s) true kept (record (core t) { qhead = q })) e k

false-eq : (b : LBool) → is_false b ≡ true → b ≡ l_false
false-eq b h = ground arith

undef-eq : (b : LBool) → is_undef b ≡ true → b ≡ l_undef
undef-eq b h = ground arith

true_of_neg : (s : Solver) (p : Lit) → value s (neg p) ≡ l_false → value s p ≡ l_true
true_of_neg s p h = ground (arith, var-neg p, sign-neg p)

if_true : {A : Type 0} (b : Bool) (x y : A) → b ≡ true → (if b then x else y) ≡ x
if_true b x y e = rw e

if_false : {A : Type 0} (b : Bool) (x y : A) → b ≡ false → (if b then x else y) ≡ y
if_false b x y e = rw e

module _ (stop : Bool) (p : Lit) (w : Watcher) (ws : List Watcher) (o : Option CRef)
    (s : Solver) where
  walk-long :
      (v : Visit)
      → w.long ≡ true
      → visit_long p w s ≡ v
      → walk stop p (w ∷ ws) o s ≡ after_long ws (walk stop p ws o) v
  unfolding walk
  walk-long v l e = if_true w.long _ _ l ∙ ap (after_long ws (walk stop p ws o)) e

  walk-short :
      w.long ≡ false → walk stop p (w ∷ ws) o s ≡ after_short stop p w ws (walk stop p ws) o s
  unfolding walk
  walk-short l = if_false w.long _ _ l

module _ (f : List (List Lit)) (stop : Bool) (p : Lit) (w : Watcher) (ws : List Watcher) where
  abbrev Rest : Type 0
  Rest =
      (o : Option CRef) (t : Solver)
      → Good f t
      → Ready p ws (core t)
      → Conflicts t o
      → Walked f p ws t (walk stop p ws o t)

  module _ (o : Option CRef) (s : Solver) (g : Good f s) (r : Ready p (w ∷ ws) (core s))
      (h : Conflicts s o) (tr : value s p ≡ l_true) (rest : Rest) where
    -- the watcher stays, and the walk goes on in `t`
    keep-Walked :
        (v : Watcher) (t : Solver) (o' : Option CRef)
        → Good f t
        → (st : Step p w (core s) (core t))
        → Forced (Stored (core s)) s.assigns (rev s.trail) t.assigns (rev t.trail)
        → t.watches ≡ s.watches
        → v.cref ≡ w.cref
        → Ok (core t) p v
        → Conflicts t o'
        → Walked f p (w ∷ ws) s (let k = walk stop p ws o' t in record k { kept = v ∷ k.kept })
    keep-Walked v t o' gt st fo we ec ok c =
        let k = rest o' t gt (Ready-rest r st fo (lists-same r st fo we)) c in
        record {
          good = k.good;
          scanned = Scanned-keep r v st fo k.scanned ec ok;
          conflicts = k.conflicts;
          stopped = k.stopped;
          progress = (let e = k.progress in let q = st.qhead in omega arith);
        }

    long-Walked :
        (v : Visit)
        → visit_long p w s ≡ v
        → Visited p w (core s) (core_visit v)
        → Good f (result v)
        → w.long ≡ true
        → Walked f p (w ∷ ws) s (walk stop p (w ∷ ws) o s)
    long-Walked (keep v t) e (st, ec, ok, we, a) gt l =
        let fo = Assigns-Forced st a in
        let k = walk stop p ws o t in
        let here = walk-long stop p w ws o s (keep v t) l e in
        subst (Walked f p (w ∷ ws) s) (sym here)
          (keep-Walked v t o gt st fo we ec ok (Conflicts-step s t o (λ c. Step-perm st c) fo h))
    long-Walked (move v t) e (q, st, ec, n, ok, we, un, (ea, et)) gt l =
        let fo = Assigns-Forced st (inl (ea, et)) in
        let k =
          rest o t gt (Ready-rest r st fo (lists-move r v q st n ec ok we un))
            (Conflicts-step s t o (λ c. Step-perm st c) fo h) in
        let here = walk-long stop p w ws o s (move v t) l e in
        subst (Walked f p (w ∷ ws) s) (sym here) (record {
          good = k.good;
          scanned = Scanned-move r v st fo k.scanned;
          conflicts = k.conflicts;
          stopped = k.stopped;
          progress = (let b = k.progress in let q = st.qhead in omega arith);
        })
    long-Walked (conflict v t) e (st, ec, ok, we, (ea, et), fa) gt l =
        let u = record t { qhead = length t.trail } in
        let here = walk-long stop p w ws o s (conflict v t) l e in
        let z = Scanned-conflict r v (st, ec, ok, we, (ea, et), fa) in
        subst (Walked f p (w ∷ ws) s) (sym here) (record {
          good = record {
            valid = record {
              justified = gt.valid.justified;
              holding = gt.valid.holding;
              on_trail = gt.valid.on_trail;
              leveled = gt.valid.leveled;
              limits = gt.valid.limits;
              head = omega arith;
            };
            store = gt.store;
          };
          scanned = rescan s t z (length-rev t.trail);
          conflicts = (Ok-nonempty (core t) p v ok, rw ec fa);
          stopped = λ x. cc;
          progress = (let b = gt.valid.head in let q = st.qhead in omega arith);
        })

    -- a binary watcher: its literals, and what is left to do
    binary-Step : Step p w (core s) (core s)
    binary-Step = Step-refl p w (core s) (core s) Same-refl refl refl

    binary-Entails : w.long ≡ false → Entails f (w.blocker ∷ neg p ∷ [])
    binary-Entails l m models =
        let ok : Watches false (lits s w.cref) p w.blocker =
          subst (λ b. Watches b (lits s w.cref) p w.blocker) l r.ws_ok.0 in
        elim (binary-lits (lits s w.cref) p w.blocker ok) [
          | inl e ↦
              let known = g.store w.cref (rw e (omega arith)) m models in
              sat-All m (neg p ∷ w.blocker ∷ []) (w.blocker ∷ neg p ∷ [])
                (inr (inl refl), (inl refl, tt)) (rw e at known)
          | inr e ↦ let known = g.store w.cref (rw e (omega arith)) m models in rw e at known
        ]

    binary-Falsified : w.long ≡ false → is_false (value s w.blocker) ≡ true → Falsified s w.cref
    binary-Falsified l b =
        let ok : Watches false (lits s w.cref) p w.blocker =
          subst (λ b. Watches b (lits s w.cref) p w.blocker) l r.ws_ok.0 in
        let here : value s w.blocker ≡ l_false = false-eq (value s w.blocker) b in
        let there : value s (neg p) ≡ l_false = r.is_f in
        elim (binary-lits (lits s w.cref) p w.blocker ok) [
          | inl e ↦ ((λ x. cc), subst (All (λ l. value s l ≡ l_false)) (sym e) (there, (here, tt)))
          | inr e ↦ ((λ x. cc), subst (All (λ l. value s l ≡ l_false)) (sym e) (here, (there, tt)))
        ]

    enqueue-Walked :
        w.long ≡ false
        → is_undef (value s w.blocker) ≡ true
        → Walked f p
            (w ∷ ws)
            s
            (keeping w (walk stop p ws o (unchecked_enqueue w.blocker (by_lit p) s)))
    unfolding unchecked_enqueue
    enqueue-Walked l c =
        let u : value s w.blocker ≡ l_undef = undef-eq (value s w.blocker) c in
        let t = unchecked_enqueue w.blocker (by_lit p) s in
        let fo : Forced (Stored (core s)) s.assigns (rev s.trail) t.assigns (rev t.trail) =
          more stay (lits s w.cref) w.blocker (w.cref, Permᴰ.refl _)
            (binary-IsUnit p w (core s) l r.ws_ok.0 r.is_f u) in
        let st : Step p w (core s) (core t) =
          Step-refl p w (core s) (core t)
            (record {
              ok = refl;
              proof = refl;
              sz = refl;
              unit_clauses = refl;
              n_vars = refl;
              occ = refl;
            })
            refl refl in
        keep-Walked w t o (enqueue_binary w.blocker p s g tr u (binary-Entails l)) st fo refl refl
          r.ws_ok.0 (Conflicts-step s t o (λ c. Permᴰ.refl _) fo h)

    pub short-Walked : w.long ≡ false → Walked f p (w ∷ ws) s (walk stop p (w ∷ ws) o s)
    unfolding after_short
    short-Walked l =
        subst (Walked f p (w ∷ ws) s) (sym (walk-short stop p w ws o s l))
          (elim (Bool-cases (is_false (value s w.blocker))) [
            | inl b ↦
                let fa = binary-Falsified l b in
                elim (Bool-cases stop) [
                  | inl c ↦
                      rw (b, c)
                        (record {
                          good = g;
                          scanned = Scanned-stay p (w ∷ ws) s (some w.cref) r fa;
                          conflicts = fa;
                          stopped = λ x. refl;
                          progress = omega arith;
                        })
                  | inr c ↦ rw b (
                      subst (Walked f p (w ∷ ws) s) (sym (if_false stop _ _ c))
                        (keep-Walked w s (some w.cref) g binary-Step stay refl refl r.ws_ok.0 fa))
                ]
            | inr b ↦ elim (Bool-cases (is_undef (value s w.blocker))) [
              | inl c ↦ rw (b, c) (enqueue-Walked l c)
              | inr c ↦ rw (b, c) (keep-Walked w s o g binary-Step stay refl refl r.ws_ok.0 h)
            ]
          ])

module _ (f : List (List Lit)) (stop : Bool) (p : Lit) where
  pub walk-Walked :
      (ws : List Watcher) (o : Option CRef) (s : Solver)
      → Good f s
      → Ready p ws (core s)
      → Conflicts s o
      → value s p ≡ l_true
      → Walked f p ws s (walk stop p ws o s)
  unfolding walk
  walk-Walked [] o s g r h tv = record {
    good = g;
    scanned = Scanned-stay p [] s o r h;
    conflicts = h;
    stopped = λ x. cc;
    progress = omega arith;
  }
  walk-Walked (w ∷ ws) o s g r h tv =
      let rest : Rest f stop p w ws =
        λ o' t g' r' h'. walk-Walked ws o' t g' r' h' (true_of_neg t p r'.is_f) in
      elim (Bool-cases w.long) [
        | inr l ↦ short-Walked f stop p w ws o s g r h tv rest l
        | inl l ↦
            let vis : Visited p w (core s) (core_visit (visit_long p w s)) =
              subst (Visited p w (core s)) (sym (visit_long-core p w s l))
                (visit-Visited p w (core s) (r.no_dup w.cref) r.is_f r.ws_ok.0) in
            let (a, b, d, c, e) =
              long-shape (lits s w.cref) p w.blocker
                (subst (λ x. Watches x (lits s w.cref) p w.blocker) l r.ws_ok.0) in
            long-Walked f stop p w ws o s g r h tv rest (visit_long p w s) refl vis
              (visit-Good f p w s g tv (visit_long p w s) vis
                (visit_long-Shape p w a b (d ∷ c) s e))
              l
      ]
