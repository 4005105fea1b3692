-- ===== src/Checker/Watched/Scan.antt =====
-- The scan of a whole watch list.
use mathlib.Core.List.{Permᴰ}
use mathlib.Core.List.Permᴰ
use native.Mathlib.Decide.{ℕ_discrete}
use riss.Base.{
  ◌≡◌, ◌≢◌, inl, inr, refl, ap, sym, subst, ◌∙◌, Bool, true, false, List, [], ◌∷◌, ◌++◌, ◌==◌, All,
  All-append, All-map, update, Bool-cases, ==→eq, ==-refl, length,
}
use riss.Lit.{Lit, neg}
use riss.Lifted.{l_false}
use riss.Checker.{Checker, Watcher, CRef, value}
use riss.Checker.Propagate.{Visit, keep, move, conflict, visit, longs}
use riss.Checker.Forced.{Forced, stay, more, Forced-map, Forced-trans, Forced-false}
use riss.Checker.Watched.{Watches, lits, Ok, Fresh, Distinct, NoDup, NoDup-perm}
use riss.Checker.Watched.Visit.{Same, Step, Assigns, Visited}
use riss.Checker.Watched.Whole.{Same-refl, visit-Visited}

-- the clauses of the store, up to the order of their literals
abbrev pub Stored : Checker → List Lit → Type 0
Stored s c = (cr : CRef) × Permᴰ (lits s cr) c

abbrev pub Listed : Checker → Lit → Type 0
Listed s q = All (Ok s q) (s.watches q) × Distinct (s.watches q)

-- before the scan of `ws`, the list of `p`
pub record Ready (p : Lit) (ws : List Watcher) (s : Checker) : Type 0 where
  pub ws_ok : All (Ok s p) ws
  pub ws_distinct : Distinct ws
  pub no_dup : (cr : CRef) → NoDup (lits s cr)
  pub is_f : value s (neg p) ≡ l_false
  pub lists : (q : Lit) → q ≢ p → Listed s q

-- after it: `kept` is left of the list
pub record Scanned (p : Lit) (ws : List Watcher) (s : Checker) (c : Bool) (kept : List Watcher)
    (t : Checker) : Type 0 where
  pub perm : (cr : CRef) → Permᴰ (lits s cr) (lits t cr)
  pub same : Same s t
  pub qhead : c ≡ false → t.qhead ≡ s.qhead
  pub frame : (q : Lit) (v : Watcher) → Ok s q v → (q ≡ p → Fresh v.cref ws) → Ok t q v
  pub kept_ok : All (Ok t p) kept
  pub kept_distinct : Distinct kept
  pub kept_fresh : (cr : CRef) → Fresh cr ws → Fresh cr kept
  pub lists : (q : Lit) → q ≢ p → Listed t q
  pub forced : Forced (Stored s) s.assigns s.trail t.assigns t.trail
  pub clash : c ≡ true → (cr : CRef) × (lits t cr ≢ []) × All (λ l. value t l ≡ l_false) (lits t cr)

pub Step-perm :
    {p : Lit} {w : Watcher} {s t : Checker}
    → Step p w s t
    → (cr : CRef) → Permᴰ (lits s cr) (lits t cr)
Step-perm {w = w} {s = s} {t = t} st cr = elim (ℕ_discrete cr w.cref) [
  | yes e ↦ subst (λ x. Permᴰ (lits s x) (lits t x)) (sym e) st.perm
  | no n ↦ subst (λ x. Permᴰ (lits s cr) x) (sym (st.others cr n)) (Permᴰ.refl _)
]

pub Assigns-Forced :
    {p : Lit} {w : Watcher} {s t : Checker}
    → Step p w s t
    → Assigns (lits t w.cref) s t
    → Forced (Stored s) s.assigns s.trail t.assigns t.trail
Assigns-Forced st (inl (ea, et)) = rw (ea, et) stay
Assigns-Forced {w = w} {t = t} st (inr (l, u, (ea, et))) =
    rw (ea, et) (more stay (lits t w.cref) l (w.cref, st.perm) u)

pub Same-trans : {s t u : Checker} → Same s t → Same t u → Same s u
Same-trans a b = record {
  ok = b.ok ∙ a.ok;
  proof = b.proof ∙ a.proof;
  sz = b.sz ∙ a.sz;
  unit_clauses = b.unit_clauses ∙ a.unit_clauses;
  n_vars = b.n_vars ∙ a.n_vars;
  occ = b.occ ∙ a.occ;
}

pub Distinct-append :
    (xs : List Watcher) (v : Watcher)
    → Distinct xs
    → All (λ (x : Watcher). x.cref ≢ v.cref) xs
    → Distinct (xs ++ v ∷ [])
Distinct-append [] v d f = (tt, tt)
Distinct-append (x ∷ xs) v d f = (
  All-append (λ (y : Watcher). x.cref ≢ y.cref) xs (v ∷ []) d.0 (f.0, tt),
  Distinct-append xs v d.1 f.1,
)

-- the rest of the list after one watcher
module _ {p : Lit} {w : Watcher} {ws : List Watcher} {s t : Checker} (r : Ready p (w ∷ ws) s)
    (st : Step p w s t) (forced : Forced (Stored s) s.assigns s.trail t.assigns t.trail) where
  pub rest-Ok : All (Ok t p) ws
  rest-Ok = go ws r.ws_ok.1 r.ws_distinct.0
    where
      go : (vs : List Watcher) → All (Ok s p) vs → Fresh w.cref vs → All (Ok t p) vs
      go [] o f = tt
      go (v ∷ vs) o f = (st.frame p v o.0 (λ _. f.0), go vs o.1 f.1)

  pub Ready-rest : ((q : Lit) → q ≢ p → Listed t q) → Ready p ws t
  Ready-rest lists = record {
    ws_ok = rest-Ok;
    ws_distinct = r.ws_distinct.1;
    no_dup = λ cr. NoDup-perm (Step-perm st cr) (r.no_dup cr);
    is_f = Forced-false (neg p) forced r.is_f;
    lists = lists;
  }

  -- the other lists, if they did not change
  pub lists-same : t.watches ≡ s.watches → (q : Lit) → q ≢ p → Listed t q
  lists-same e q n =
      let (o, d) = r.lists q n in
      rw e (All-map (s.watches q) (λ v x. st.frame q v x (λ y. absurd (n y))) o, d)

module _ {p : Lit} {w : Watcher} {ws : List Watcher} {s t : Checker} (r : Ready p (w ∷ ws) s)
    (v : Watcher) where
  -- a watcher is added to another list
  module _ (k : Lit) (st : Step p w s t) (n : k ≢ p) (same : v.cref ≡ w.cref) (o : Ok t k v)
      (e : t.watches ≡ update s.watches k (s.watches k ++ v ∷ []))
      (un : (q : Watcher) → Ok s k q → w.cref ≢ q.cref) where
    framed : (q : Lit) → q ≢ p → All (Ok t q) (s.watches q)
    framed q nq =
        All-map (s.watches q) (λ x y. st.frame q x y (λ z. absurd (nq z))) (r.lists q nq).0

    Listed-self : Listed t k
    Listed-self =
        let (os, d) = r.lists k n in
        let here : t.watches k ≡ s.watches k ++ v ∷ [] = ap (λ f. f k) e ∙ rw ==-refl in
        subst (λ l. All (Ok t k) l × Distinct l) (sym here)
          (
            All-append (Ok t k) (s.watches k) (v ∷ []) (framed k n) (o, tt),
            Distinct-append (s.watches k) v d
                (All-map (s.watches k) (λ x y z. un x y (sym same ∙ sym z)) os),
          )

    pub lists-move : (q : Lit) → q ≢ p → Listed t q
    lists-move q nq = elim (Bool-cases (k == q)) [
      | inl b ↦ subst (Listed t) (==→eq k q b) Listed-self
      | inr b ↦
          let here : t.watches q ≡ s.watches q = ap (λ f. f q) e ∙ rw b in
          subst (λ l. All (Ok t q) l × Distinct l) (sym here) (framed q nq, (r.lists q nq).1)
    ]

  module _ {c : Bool} {kept : List Watcher} {u : Checker} (st : Step p w s t)
      (forced : Forced (Stored s) s.assigns s.trail t.assigns t.trail)
      (next : Scanned p ws t c kept u) where
    after_perm : (cr : CRef) → Permᴰ (lits s cr) (lits u cr)
    after_perm cr = Permᴰ.trans (Step-perm st cr) (next.perm cr)

    after-Forced : Forced (Stored s) s.assigns s.trail u.assigns u.trail
    after-Forced =
        Forced-trans forced
          (Forced-map (λ d (cr, x). (cr, Permᴰ.trans (Step-perm st cr) x)) next.forced)

    after_frame : (q : Lit) (x : Watcher) → Ok s q x → (q ≡ p → Fresh x.cref (w ∷ ws)) → Ok u q x
    after_frame q x o f = next.frame q x (st.frame q x o (λ e z. (f e).0 (sym z))) (λ e. (f e).1)

    -- the watcher goes to another list
    pub Scanned-move : Scanned p (w ∷ ws) s c kept u
    Scanned-move = record {
      perm = after_perm;
      same = Same-trans st.same next.same;
      qhead = λ e. next.qhead e ∙ st.qhead;
      frame = after_frame;
      kept_ok = next.kept_ok;
      kept_distinct = next.kept_distinct;
      kept_fresh = λ cr f. next.kept_fresh cr f.1;
      lists = next.lists;
      forced = after-Forced;
      clash = next.clash;
    }

    -- the watcher stays
    pub Scanned-keep : v.cref ≡ w.cref → Ok t p v → Scanned p (w ∷ ws) s c (v ∷ kept) u
    Scanned-keep e o =
        let fresh : Fresh v.cref ws = rw e r.ws_distinct.0 in
        record {
          perm = after_perm;
          same = Same-trans st.same next.same;
          qhead = λ h. next.qhead h ∙ st.qhead;
          frame = after_frame;
          kept_ok = (next.frame p v o (λ _. fresh), next.kept_ok);
          kept_distinct = (next.kept_fresh v.cref fresh, next.kept_distinct);
          kept_fresh = λ cr f. ((λ z. f.0 (z ∙ e)), next.kept_fresh cr f.1);
          lists = next.lists;
          forced = after-Forced;
          clash = next.clash;
        }

-- the end of the list
pub Scanned-nil : {p : Lit} {s : Checker} → Ready p [] s → Scanned p [] s false [] s
Scanned-nil r = record {
  perm = λ cr. Permᴰ.refl _;
  same = Same-refl;
  qhead = λ _. refl;
  frame = λ q v o n. o;
  kept_ok = tt;
  kept_distinct = tt;
  kept_fresh = λ cr f. tt;
  lists = r.lists;
  forced = stay;
  clash = λ e. cc;
}

pub Ok-nonempty : (t : Checker) (q : Lit) (v : Watcher) → Ok t q v → lits t v.cref ≢ []
Ok-nonempty t q v o e = no_watch v.long q v.blocker (rw e at o)
  where
    no_watch : (b : Bool) (q bl : Lit) → Watches b [] q bl → ⊥
    no_watch true q bl h = h
    no_watch false q bl h = h

pub Scanned-conflict :
    {p : Lit} {w : Watcher} {ws : List Watcher} {s t : Checker}
    → Ready p (w ∷ ws) s
    → (v : Watcher) → Visited p w s (conflict v t)
    → Scanned p (w ∷ ws) s true (v ∷ ws) (record t { qhead = length t.trail })
Scanned-conflict {p} {w} {ws} {s} {t} r v (st, e, o, we, (ea, et), f) =
    let forced = Assigns-Forced st (inl (ea, et)) in
    record {
      perm = Step-perm st;
      same = record {
        ok = st.same.ok;
        proof = st.same.proof;
        sz = st.same.sz;
        unit_clauses = st.same.unit_clauses;
        n_vars = st.same.n_vars;
        occ = st.same.occ;
      };
      qhead = λ h. cc;
      frame = λ q x y n. st.frame q x y (λ z a. (n z).0 (sym a));
      kept_ok = (o, rest-Ok r st forced);
      kept_distinct = (rw e r.ws_distinct.0, r.ws_distinct.1);
      kept_fresh = λ cr h. ((λ z. h.0 (z ∙ e)), h.1);
      lists = lists-same r st forced we;
      forced = forced;
      clash = λ _. (w.cref, nonempty, f);
    }
  where
    nonempty : lits t w.cref ≢ []
    nonempty z = Ok-nonempty t p v o (ap (lits t) e ∙ z)

-- what is shown of a scan's result, a tuple
abbrev pub ScannedResult : Lit → List Watcher → Checker → Bool × List Watcher × Checker → Type 0
ScannedResult p ws s o = Scanned p ws s o.0 o.1 o.2

longs-step :
    (p : Lit) (w : Watcher) (ws : List Watcher) (s : Checker)
    → Ready p (w ∷ ws) s
    → ((t : Checker) → Ready p ws t → ScannedResult p ws t (longs p ws t))
    → (v : Visit) → visit p w s ≡ v
    → Visited p w s v
    → ScannedResult p (w ∷ ws) s (longs p (w ∷ ws) s)
unfolding longs
longs-step p w ws s r rest (keep v t) e (st, ec, o, we, a) =
    let forced = Assigns-Forced st a in
    let next = rest t (Ready-rest r st forced (lists-same r st forced we)) in
    rw (e, longs) (Scanned-keep r v st forced next ec o)
longs-step p w ws s r rest (move v t) e (k, st, ec, n, o, we, un, (ea, et)) =
    let forced = Assigns-Forced st (inl (ea, et)) in
    let next = rest t (Ready-rest r st forced (lists-move r v k st n ec o we un)) in
    rw (e, longs) (Scanned-move r v st forced next)
longs-step p w ws s r rest (conflict v t) e h = rw (e, longs) (Scanned-conflict r v h)

pub longs-Scanned :
    (p : Lit) (ws : List Watcher) (s : Checker) → Ready p ws s → ScannedResult p ws s (longs p ws s)
unfolding longs
longs-Scanned p [] s r = Scanned-nil r
longs-Scanned p (w ∷ ws) s r =
    longs-step p w ws s r (longs-Scanned p ws) (visit p w s) refl
      (visit-Visited p w s (r.no_dup w.cref) r.is_f r.ws_ok.0)
