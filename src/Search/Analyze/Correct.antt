-- ===== src/Search/Analyze/Correct.antt =====
-- Solver::analyze returns a clause that asserts a literal.
use riss.Base.{
  ◌≡◌, ◌≤◌, ◌<◌, inl, inr, refl, sym, subst, Bool, true, false, List, [], ◌∷◌, All, All-map, length,
  arith, Bool-cases, Option, none, some,
}
use riss.Lit.{Lit, Var, IsMem, All-IsMem, neg, var, var-neg}
use riss.Semantics.{Entails, sat-IsMem}
use riss.Checker.{CRef}
use riss.Checker.Watched.{NoDup}
use riss.Search.{Solver, decision_level, level, lits}
use riss.Search.Justified.{Leveled, IsValid}
use riss.Search.Levels.{level_at-le}
use riss.Search.Final.{Seen}
use riss.Search.Forced.{level_zero_holds}
use riss.Search.Backtrack.{Distinct}
use riss.Search.Analyze.{Analysis, collect, collect_all, select, learned, analyze}
use riss.Search.Analyze.Counted.{counts, count, count-pos}
use riss.Search.Analyze.Resolvent.{
  Earlier, Looked, Collected, collect_all-Collected, collect_all-limits,
}
use riss.Search.Analyze.Cover.{collect_all-Covers}
use riss.Search.Analyze.Reasons.{Structured}
use riss.Search.Analyze.Selected.{Same, Ready, Justified-Distinct, some_acts}
use riss.Search.Analyze.Chosen.{EndsWell, Going, select-EndsWell}
use riss.Search.Analyze.Learned.{Latest, Asserting, Learns, learned-Learns}

-- the conflict marks its literals
seen-collect :
    (allow : Bool) (s : Solver) (q : Lit) (a : Analysis) (v : Var)
    → a.seen v ≡ true
    → (collect allow s q a).seen v ≡ true
unfolding collect
seen-collect allow s q a v h = ground arith

seen-collect_all :
    (allow : Bool) (s : Solver) (qs : List Lit) (a : Analysis) (v : Var)
    → a.seen v ≡ true
    → (collect_all allow s qs a).seen v ≡ true
unfolding collect_all
seen-collect_all allow s [] a v h = h
seen-collect_all allow s (q ∷ qs) a v h =
    seen-collect_all allow s qs (collect allow s q a) v (seen-collect allow s q a v h)

marks-collect :
    (allow : Bool) (s : Solver) (q : Lit) (a : Analysis)
    → 0 < level s (var q)
    → (collect allow s q a).seen (var q) ≡ true
unfolding collect
marks-collect allow s q a h = ground arith

marks-collect_all :
    (allow : Bool) (s : Solver) (qs : List Lit) (a : Analysis) (k : Lit)
    → IsMem k qs
    → 0 < level s (var k)
    → (collect_all allow s qs a).seen (var k) ≡ true
unfolding collect_all
marks-collect_all allow s [] a k m h = absurd m
marks-collect_all allow s (q ∷ qs) a k (inr m) h =
    marks-collect_all allow s qs (collect allow s q a) k m h
marks-collect_all allow s (q ∷ qs) a k (inl e) h =
    seen-collect_all allow s qs (collect allow s q a) (var k)
      (subst (λ y. (collect allow s y a).seen (var k) ≡ true) e (marks-collect allow s k a h))

count-clear :
    (s : Solver) (t : List Lit) (seen : Seen) → ((v : Var) → seen v ≡ false) → count s t seen ≡ 0
count-clear s [] seen h = refl
count-clear s (k ∷ t) seen h = let z = h (var k) in ground (arith, count-clear s t seen h)

capped :
    (s : Solver) (t : List Lit)
    → Leveled s.trail_lim s.vardata t
    → All (λ k. level s (var k) ≤ decision_level s) t
capped s [] h = tt
capped s (l ∷ t) h =
    (let a = level_at-le s.trail_lim (length t) in let b = h.0 in omega arith, capped s t h.1)

pub Asserting-same :
    (allow : Bool) (s s' : Solver)
    → Same s s'
    → (c : List Lit) → Asserting allow s' c
    → Asserting allow s c
Asserting-same allow s s' (et, ev, el, en) [] h = h
Asserting-same allow s s' (et, ev, el, en) (k ∷ d) (l, o) = (
  latest k l,
  elim o [
    | inl a ↦ inl (All-map d earlier a)
    | inr b ↦
        let (al, e, q, same, a, lq) = b in inr (al, e, q, same, All-map e earlier a, latest q lq)
  ],
)
  where
    latest : (x : Lit) → Latest s' x → Latest s x
    latest x h = rw (sym et, sym ev, sym el) h

    earlier : (x : Lit) → Earlier s' x → Earlier s x
    earlier x h = rw (sym et, sym ev, sym el) h

abbrev pub LearnsFrom : List (List Lit) → Bool → Solver → Option (List Lit × Solver) → Type 0
LearnsFrom f allow s none = ⊥
LearnsFrom f allow s (some (c, s')) = Entails f c × Asserting allow s c × IsValid f s' × Same s s'

module _ {f : List (List Lit)} (allow : Bool) (confl : CRef) (k : Lit) (s : Solver)
    (valid : IsValid f s) (no_dup : (cr : CRef) → NoDup (lits s cr))
    (structured : Structured s.vardata s.trail) (deciding : 0 < decision_level s)
    (ent : Entails f (lits s confl)) (falsified : All (λ q. IsMem (neg q) s.trail) (lits s confl))
    (m : IsMem k (lits s confl)) (at : level s (var k) ≡ decision_level s)
    (clear : (v : Var) → s.seen v ≡ false) where
  abbrev start : Analysis
  start = record { seen = s.seen; path_c = 0; out = []; path_limit = 0; not_reset = true }

  abbrev first : Analysis
  first = collect_all allow s (lits s confl) start

  ready : Ready f s s.trail
  ready = record {
    valid = valid;
    no_dup = no_dup;
    justified = valid.justified;
    structured = structured;
    holding = valid.holding;
    within = λ q n. n;
    capped = capped s s.trail valid.leveled;
    deciding = deciding;
  }

  distinct : Distinct s.trail
  distinct = Justified-Distinct f s.memory s.vardata s.trail valid.justified

  looked : All (Looked s s.trail) (lits s confl)
  looked = All-map (lits s confl) (λ q n. inl n) falsified

  start-Collected : Collected s s.trail start
  start-Collected = record {
    counted = sym (count-clear s s.trail s.seen clear);
    kept = λ q n see low. absurd (let z = clear (var q) in ground arith);
    outs = tt;
  }

  first-Collected : Collected s s.trail first
  first-Collected =
      collect_all-Collected allow s s.trail (lits s confl) start distinct (λ q n. n) looked
        start-Collected

  first-counts : counts s first.seen (neg k) ≡ true
  first-counts =
      let z = marks-collect_all allow s (lits s confl) start k m (omega arith) in
      rw (var-neg k) (ground arith)

  first-Going : Going f allow s s.trail first
  first-Going = record {
    ready = ready;
    collected = first-Collected;
    covers = λ g mo.
        (let (q, n, h) = sat-IsMem g (lits s confl) (ent g mo) in
          collect_all-Covers g allow s s.trail (lits s confl) start distinct (λ x y. y)
            (λ x y z. level_zero_holds f g mo s.memory s.vardata s.trail valid.justified x y z)
            deciding looked start-Collected
            (inr (some_acts g s s.trail q (lits s confl) falsified n h)));
    some_left =
        (let c = first-Collected.counted in
          let n = All-IsMem (λ q. IsMem (neg q) s.trail) (lits s confl) k falsified m in
          let p = count-pos s s.trail first.seen (neg k) n first-counts in omega arith);
    limit =
        (let l = collect_all-limits allow s (lits s confl) start in
          elim (Bool-cases allow) [
            | inl e ↦ let w = l.2 (omega arith) in ground arith
            | inr e ↦ let w = l.1 e in ground arith
          ]);
  }

  LearnsFrom-learned :
      (p : Lit) (t : List Lit) (a : Analysis) (s' : Solver)
      → Same s s'
      → IsValid f s'
      → (o : Option (List Lit)) → Learns f allow s' o
      → LearnsFrom f allow s
          (elim o [ none ↦ none | some c ↦ some (c, record s' { seen = a.seen }) ])
  LearnsFrom-learned p t a s' e v none h = h
  LearnsFrom-learned p t a s' e v (some c) h = (
    h.0,
    Asserting-same allow s s' e c h.1,
    record {
      justified = v.justified;
      holding = v.holding;
      on_trail = v.on_trail;
      leveled = v.leveled;
      limits = v.limits;
      head = v.head;
    },
    e,
  )

  finished :
      (o : Option (Lit × List Lit × Analysis × Solver))
      → EndsWell f allow s o
      → LearnsFrom f allow s (elim o [
        | none ↦ none
        | some (p, t, a, s') ↦ elim (learned p t a) [
          | none ↦ none
          | some c ↦ some (c, record s' { seen = a.seen })
        ]
      ])
  finished none h = h
  finished (some (p, t, a, s')) h =
      LearnsFrom-learned p t a s' h.same h.ready.valid (learned p t a)
        (learned-Learns f allow s p t a s' h)

  -- If a clause that follows from the formula is false on a valid trail and one of its literals has
  -- the current level, above 0, analyze returns a clause, before its minimisation, that follows from
  -- the formula. Its literals are false, the first has the current level and the others have earlier
  -- levels above 0; only with allowBiAsserting the last one may have the current level too. The state
  -- is valid afterwards, with the same trail, levels and next free reference. This is for states
  -- where no clause has a literal twice, no variable is marked, every decision above level 0 is the
  -- first literal of its level, and a binary reason has the level of what it implies.
  pub analyze_lem : LearnsFrom f allow s (analyze allow confl s)
  unfolding analyze
  analyze_lem =
      finished (select allow s.trail first s) (select-EndsWell f allow s s.trail first first-Going)
