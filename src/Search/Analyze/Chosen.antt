-- ===== src/Search/Analyze/Chosen.antt =====
-- Solver::analyze: the literal that the loop ends with.
use riss.Base.{
  ◌-◌, ◌≡◌, ◌≢◌, ◌≤◌, ◌<◌, inl, inr, refl, ap, sym, subst, ◌∙◌, Bool, true, false, List, [], ◌∷◌,
  All, All-map, arith, if◌then◌else◌, ltb, update, Bool-cases, Option, none, some,
}
use riss.Lit.{Lit, IsMem, All-IsMem, neg, var}
use riss.Semantics.{Assignment, Models, holds}
use riss.Search.{Solver, decision_level, level, reason}
use riss.Search.Analyze.{Analysis, resolve, select}
use riss.Search.Analyze.Counted.{count-other, count-none}
use riss.Search.Analyze.Resolvent.{Collected, Covers}
use riss.Search.Analyze.Reasons.{Holding-true}
use riss.Search.Analyze.Selected.{
  Same, Ready, Justified-Distinct, CoversNext, Stepped, resolve-Stepped,
}

-- `p` has the current level, `t` is what is left of the trail, and the marks left on it and the
-- collected literals cover, with the complement of `p`, the conflict
pub record Ended (f : List (List Lit)) (allow : Bool) (s : Solver) (p : Lit) (t : List Lit)
    (a : Analysis) (s' : Solver) : Type 0 where
  pub ready : Ready f s' t
  pub same : Same s s'
  pub on_trail : IsMem p s'.trail
  pub at_level : level s' (var p) ≡ decision_level s'
  pub collected : Collected s' t a
  pub covers : (g : Assignment) → Models g f → CoversNext g s' t p a
  pub few : a.path_c ≤ (if allow then 1 else 0)

abbrev pub EndsWell :
    List (List Lit) → Bool → Solver → Option (Lit × List Lit × Analysis × Solver) → Type 0
EndsWell f allow s none = ⊥
EndsWell f allow s (some (p, t, a, s')) = Ended f allow s p t a s'

EndsWell-same :
    (f : List (List Lit)) (allow : Bool) (s s' : Solver)
    → Same s s'
    → (o : Option (Lit × List Lit × Analysis × Solver)) → EndsWell f allow s' o
    → EndsWell f allow s o
EndsWell-same f allow s s' e none h = h
EndsWell-same f allow s s' e (some (p, t, a, s'')) h = record {
  ready = h.ready;
  same = (h.same.0 ∙ e.0, h.same.1 ∙ e.1, h.same.2 ∙ e.2, h.same.3 ∙ e.3);
  on_trail = h.on_trail;
  at_level = h.at_level;
  collected = h.collected;
  covers = h.covers;
  few = h.few;
}

-- what the loop keeps up
pub record Going (f : List (List Lit)) (allow : Bool) (s : Solver) (t : List Lit) (a : Analysis)
    : Type 0 where
  pub ready : Ready f s t
  pub collected : Collected s t a
  pub covers : (g : Assignment) → Models g f → Covers g s t a
  pub some_left : 0 < a.path_c
  pub limit : a.path_limit ≤ (if allow then 1 else 0)

Ready-tail :
    (f : List (List Lit)) (s : Solver) (p : Lit) (t : List Lit) → Ready f s (p ∷ t) → Ready f s t
Ready-tail f s p t r = record {
  valid = r.valid;
  no_dup = r.no_dup;
  justified = r.justified.2;
  structured = r.structured.1;
  holding = r.holding.1;
  within = λ k m. r.within k (inr m);
  capped = r.capped.1;
  deciding = r.deciding;
}

module _ (f : List (List Lit)) (allow : Bool) (s : Solver) (p : Lit) (t : List Lit) (a : Analysis)
    (h : Going f allow s (p ∷ t) a) where
  r : Ready f s (p ∷ t)
  r = h.ready

  others : All (λ k. var k ≢ var p) t
  others = (Justified-Distinct f s.memory s.vardata (p ∷ t) r.justified).0

  -- `p` is not marked
  unmarked : a.seen (var p) ≡ false → Going f allow s t a
  unmarked un = record {
    ready = Ready-tail f s p t r;
    collected = record {
      counted = (let e = h.collected.counted in ground arith);
      kept = λ k m. h.collected.kept k (inr m);
      outs = h.collected.outs;
    };
    covers = λ g mo. elim (h.covers g mo) [
      | inl x ↦ inl x
      | inr x ↦
          let (k, m, c, y) = x in
          elim m [
            | inl e ↦ absurd (let z = ap (λ q. a.seen (var q)) e in ground arith)
            | inr n ↦ inr (k, n, c, y)
          ]
    ];
    some_left = h.some_left;
    limit = h.limit;
  }

  -- a marked literal has the current level, since some such literal is left and none stands above it
  at_top : level s (var p) ≡ decision_level s
  at_top = elim (Bool-cases (ltb (level s (var p)) (decision_level s))) [
    | inr b ↦ let c = r.capped.0 in ground arith
    | inl b ↦
        let low : All (λ k. level s (var k) < decision_level s) (p ∷ t) =
          (ground arith, All-map t (λ k q. let x = q.1 in ground arith) r.justified.1) in
        let z = count-none s (p ∷ t) a.seen low in
        absurd (let e = h.collected.counted in let l = h.some_left in omega arith)
  ]

  abbrev without : Analysis
  without = record a { seen = update a.seen (var p) false; path_c = a.path_c - 1 }

  without-Collected : a.seen (var p) ≡ true → Collected s t without
  without-Collected see = record {
    counted =
        (let e = h.collected.counted in
          let o = count-other s t a.seen (var p) false others in let c = at_top in ground arith);
    kept = λ k m see low.
        h.collected.kept k (inr m)
          (let n = All-IsMem (λ k. var k ≢ var p) t k others m in ground arith) low;
    outs = h.collected.outs;
  }

  without-covers : (g : Assignment) → Models g f → CoversNext g s t p without
  without-covers g mo = elim (h.covers g mo) [
    | inl x ↦ inr (inl x)
    | inr x ↦
        let (k, m, c, y) = x in
        elim m [
          | inl e ↦ inl (ap (λ q. holds g (neg q)) (sym e) ∙ y)
          | inr n ↦
              let ne = All-IsMem (λ k. var k ≢ var p) t k others n in
              inr (inr (k, n, ground arith, y))
        ]
  ]

  stopped :
      a.seen (var p) ≡ true
      → ltb a.path_limit (a.path_c - 1) ≡ false
      → Ended f allow s p t without s
  stopped see b = record {
    ready = Ready-tail f s p t r;
    same = (refl, refl, refl, refl);
    on_trail = r.within p (inl refl);
    at_level = at_top;
    collected = without-Collected see;
    covers = without-covers;
    few = (let l = h.limit in ground arith);
  }

  abbrev after : Analysis × Solver
  after = resolve allow (reason s (var p)) without s

  resolved :
      a.seen (var p) ≡ true
      → ltb a.path_limit (a.path_c - 1) ≡ true
      → Stepped f allow s t without after.0 after.1
  resolved see b =
      resolve-Stepped f allow s p t without (Ready-tail f s p t r) at_top
        (Holding-true s (p ∷ t) p r.holding (inl refl)) (without-Collected see) (ground arith)
        without-covers (reason s (var p)) r.justified.0 r.structured.0

  going :
      a.seen (var p) ≡ true
      → ltb a.path_limit (a.path_c - 1) ≡ true
      → Going f allow after.1 t after.0
  going see b =
      let st = resolved see b in
      record {
        ready = st.ready;
        collected = st.collected;
        covers = st.covers;
        some_left = (let g = st.grows in ground arith);
        limit =
            (let l = h.limit in
              elim (Bool-cases allow) [
                | inl e ↦ (let c = st.limit (ground arith) in ground arith)
                | inr e ↦ (let c = st.strict e in ground arith)
              ]);
      }

-- the steps of the loop
select-skip :
    (allow : Bool) (s : Solver) (p : Lit) (t : List Lit) (a : Analysis)
    → a.seen (var p) ≡ false
    → select allow (p ∷ t) a s ≡ select allow t a s
unfolding select
select-skip allow s p t a u = rw (u, select) refl

select-stop :
    (allow : Bool) (s : Solver) (p : Lit) (t : List Lit) (a : Analysis)
    → a.seen (var p) ≡ true
    → ltb a.path_limit (a.path_c - 1) ≡ false
    → select allow (p ∷ t) a s
      ≡ some (p, t, record a { seen = update a.seen (var p) false; path_c = a.path_c - 1 }, s)
unfolding select
select-stop allow s p t a u b = rw (u, b, select) refl

select-on :
    (allow : Bool) (s : Solver) (p : Lit) (t : List Lit) (a : Analysis)
    → a.seen (var p) ≡ true
    → ltb a.path_limit (a.path_c - 1) ≡ true
    → (b : Analysis × Solver)
    → resolve allow
        (reason s (var p))
        (record a { seen = update a.seen (var p) false; path_c = a.path_c - 1 })
        s
      ≡ b
    → select allow (p ∷ t) a s ≡ select allow t b.0 b.1
unfolding select
select-on allow s p t a u b z e = rw (u, b, e, select) refl

pub select-EndsWell :
    (f : List (List Lit)) (allow : Bool) (s : Solver) (t : List Lit) (a : Analysis)
    → Going f allow s t a
    → EndsWell f allow s (select allow t a s)
unfolding select
select-EndsWell f allow s [] a h =
    absurd (let e = h.collected.counted in let l = h.some_left in omega arith)
select-EndsWell f allow s (p ∷ t) a h = elim (Bool-cases (a.seen (var p))) [
  | inr u ↦
      subst (EndsWell f allow s) (sym (select-skip allow s p t a u))
        (select-EndsWell f allow s t a (unmarked f allow s p t a h u))
  | inl u ↦ elim (Bool-cases (ltb a.path_limit (a.path_c - 1))) [
    | inr b ↦
        subst (EndsWell f allow s) (sym (select-stop allow s p t a u b))
          (stopped f allow s p t a h u b)
    | inl b ↦
        let r = after f allow s p t a h in
        let st = resolved f allow s p t a h u b in
        subst (EndsWell f allow s) (sym (select-on allow s p t a u b r refl)) (
          EndsWell-same f allow s r.1 st.same (select allow t r.0 r.1)
            (select-EndsWell f allow r.1 t r.0 (going f allow s p t a h u b)))
  ]
]
