-- ===== src/Search/Analyze/Resolvent.antt =====
-- Solver::analyze: what the collected literals and the marks stand for.
use native.Mathlib.Decide.{ℕ_discrete}
use riss.Base.{
  ℕ, ◌+◌, ◌≡◌, ◌≤◌, ◌<◌, ◌⊎◌, inl, inr, refl, ap, sym, subst, ◌∙◌, Bool, true, false, not, ◌&&◌,
  List, [], ◌∷◌, ◌++◌, All, All-append, arith, ltb, leb, update, map, Bool-cases, ◌==◌,
}
use riss.Lit.{Lit, IsMem, neg, neg-neg, var, var-neg}
use riss.Semantics.{Assignment, holds, sat}
use riss.Search.{Solver, decision_level, level}
use riss.Search.Final.{Seen}
use riss.Search.Final.Cleared.{IsMem-map, IsMem-neg}
use riss.Search.Backtrack.{Distinct}
use riss.Search.Analyze.{Analysis, collect, collect_all}
use riss.Search.Analyze.Counted.{counts, count, count-mark, fresh-var}

-- a false literal of an earlier level
abbrev pub Earlier : Solver → Lit → Type 0
Earlier s q = IsMem (neg q) s.trail × (0 < level s (var q)) × (level s (var q) < decision_level s)

-- `t` is what is left of the trail
pub record Collected (s : Solver) (t : List Lit) (a : Analysis) : Type 0 where
  pub counted : a.path_c ≡ count s t a.seen
  pub kept :
      (k : Lit)
      → IsMem k t
      → a.seen (var k) ≡ true
      → level s (var k) < decision_level s
      → IsMem (neg k) a.out
  pub outs : All (Earlier s) a.out

-- an assignment makes a collected literal true, or the complement of a counted one
abbrev pub Covers : Assignment → Solver → List Lit → Analysis → Type 0
Covers g s t a =
    (sat g a.out ≡ true)
    ⊎ ((k : Lit) × IsMem k t × (counts s a.seen k ≡ true) × (holds g (neg k) ≡ true))

-- a literal that is looked at: it is false, or true and of the current level
abbrev pub Looked : Solver → List Lit → Lit → Type 0
Looked s t q = IsMem (neg q) t ⊎ (IsMem q t × (decision_level s ≤ level s (var q)))

abbrev pub Acts : Assignment → Solver → List Lit → Lit → Type 0
Acts g s t q =
    (IsMem (neg q) t × (holds g q ≡ true))
    ⊎ (IsMem q t × (decision_level s ≤ level s (var q)) × (holds g (neg q) ≡ true))

pub same-lit :
    (t : List Lit) (k l : Lit) → Distinct t → IsMem k t → IsMem l t → var k ≡ var l → k ≡ l
same-lit [] k l d m n e = absurd m
same-lit (x ∷ t) k l d (inl p) (inl q) e = p ∙ sym q
same-lit (x ∷ t) k l d (inl p) (inr n) e = absurd (
    fresh-var t (var x) d.0
      (subst (λ v. IsMem v (map var t)) (sym e ∙ ap (λ y. var y) p) (IsMem-map l t n)))
same-lit (x ∷ t) k l d (inr m) (inl q) e = absurd (
    fresh-var t (var x) d.0
      (subst (λ v. IsMem v (map var t)) (e ∙ ap (λ y. var y) q) (IsMem-map k t m)))
same-lit (x ∷ t) k l d (inr m) (inr n) e = same-lit t k l d.1 m n e

Looked-var : (s : Solver) (t : List Lit) (q : Lit) → Looked s t q → IsMem (var q) (map var t)
Looked-var s t q (inl m) = IsMem-neg q t m
Looked-var s t q (inr m) = IsMem-map q t m.0

IsMem-left : (k : Lit) (c d : List Lit) → IsMem k c → IsMem k (c ++ d)
IsMem-left k [] d m = absurd m
IsMem-left k (x ∷ c) d (inl e) = inl e
IsMem-left k (x ∷ c) d (inr m) = inr (IsMem-left k c d m)

pub IsMem-last : (c : List Lit) (k : Lit) → IsMem k (c ++ k ∷ [])
IsMem-last [] k = inl refl
IsMem-last (x ∷ c) k = inr (IsMem-last c k)

-- the other settings play no part
Collected-same :
    (s : Solver) (t : List Lit) (a : Analysis) (n : ℕ) (b : Bool)
    → Collected s t a
    → Collected s t (record a { path_limit = n; not_reset = b })
Collected-same s t a n b h = record { counted = h.counted; kept = h.kept; outs = h.outs }

module _ (allow : Bool) (s : Solver) (t : List Lit) (q : Lit) (a : Analysis) (d : Distinct t)
    (looked : Looked s t q) where
  abbrev fresh : Bool
  fresh = not (a.seen (var q)) && ltb 0 (level s (var q))

  abbrev marked : Seen
  marked = update a.seen (var q) true

  here-Collected :
      Collected s t a
      → a.seen (var q) ≡ false
      → decision_level s ≤ level s (var q)
      → Collected s t (record a { seen = marked; path_c = a.path_c + 1 })
  here-Collected h un cur = record {
    counted =
        (let e = count-mark s t a.seen (var q) d (Looked-var s t q looked) un in
          let e' = h.counted in ground arith);
    kept = λ k m see low. elim (ℕ_discrete (var q) (var k)) [
      | yes e ↦ absurd (let z = ap (level s) e in omega arith)
      | no n ↦ h.kept k m (ground arith) low
    ];
    outs = h.outs;
  }

  earlier-Collected :
      Collected s t a
      → ((k : Lit) → IsMem k t → IsMem k s.trail)
      → a.seen (var q) ≡ false
      → 0 < level s (var q)
      → level s (var q) < decision_level s
      → Collected s t (record a { seen = marked; out = a.out ++ q ∷ [] })
  earlier-Collected h within un pos low = record {
    counted =
        (let e = count-mark s t a.seen (var q) d (Looked-var s t q looked) un in
          let e' = h.counted in ground arith);
    kept = λ k m see lw. elim (ℕ_discrete (var q) (var k)) [
      | yes e ↦ elim looked [
        | inr r ↦ absurd (let z = r.1 in omega arith)
        | inl r ↦
            let same : k ≡ neg q = same-lit t k (neg q) d m r (sym e ∙ sym (var-neg q)) in
            let back : neg k ≡ q = ap neg same ∙ neg-neg q in
            subst (λ x. IsMem x (a.out ++ q ∷ [])) (sym back) (IsMem-last a.out q)
      ]
      | no n ↦ IsMem-left (neg k) a.out (q ∷ []) (h.kept k m (ground arith) lw)
    ];
    outs = All-append (Earlier s) a.out (q ∷ []) h.outs (
      (
        elim looked [ inl r ↦ within (neg q) r | inr r ↦ absurd (let z = r.1 in omega arith) ],
        pos,
        low,
      ),
      tt,
    );
  }

  pub collect-Collected :
      ((k : Lit) → IsMem k t → IsMem k s.trail)
      → Collected s t a
      → Collected s t (collect allow s q a)
  unfolding collect
  collect-Collected within h = elim (Bool-cases fresh) [
    | inl b ↦ elim (Bool-cases (leb (decision_level s) (level s (var q)))) [
      | inl c ↦ rw (b, c) (here-Collected h (ground arith) (ground arith))
      | inr c ↦ rw (b, c) (earlier-Collected h within (ground arith) (ground arith) (ground arith))
    ]
    | inr b ↦ elim (Bool-cases (a.seen (var q) && allow)) [
      | inr c ↦ rw (b, c) h
      | inl c ↦ elim (Bool-cases (a.path_limit == 0 && a.not_reset)) [
        | inl e ↦ rw (b, c, e) (Collected-same s t a 1 a.not_reset h)
        | inr e ↦ rw (b, c, e) (Collected-same s t a 0 false h)
      ]
    ]
  ]

-- some literal of the list acts
abbrev pub SomeActs : Assignment → Solver → List Lit → List Lit → Type 0
SomeActs g s t [] = ⊥
SomeActs g s t (q ∷ qs) = Acts g s t q ⊎ SomeActs g s t qs

pub collect_all-Collected :
    (allow : Bool) (s : Solver) (t qs : List Lit) (a : Analysis)
    → Distinct t
    → ((k : Lit) → IsMem k t → IsMem k s.trail)
    → All (Looked s t) qs
    → Collected s t a
    → Collected s t (collect_all allow s qs a)
unfolding collect_all
collect_all-Collected allow s t [] a d w l h = h
collect_all-Collected allow s t (q ∷ qs) a d w l h =
    collect_all-Collected allow s t qs (collect allow s q a) d w l.1
      (collect-Collected allow s t q a d l.0 w h)

collect-limits :
    (allow : Bool) (s : Solver) (q : Lit) (a : Analysis)
    → (a.path_c ≤ (collect allow s q a).path_c)
      × (allow ≡ false → (collect allow s q a).path_limit ≡ a.path_limit)
      × (a.path_limit ≤ 1 → (collect allow s q a).path_limit ≤ 1)
unfolding collect
collect-limits allow s q a = (ground arith, (λ e. ground arith), λ h. ground arith)

-- what is collected without bi-asserting clauses leaves pathLimit at 0, and pathC does not fall
pub collect_all-limits :
    (allow : Bool) (s : Solver) (qs : List Lit) (a : Analysis)
    → (a.path_c ≤ (collect_all allow s qs a).path_c)
      × (allow ≡ false → (collect_all allow s qs a).path_limit ≡ a.path_limit)
      × (a.path_limit ≤ 1 → (collect_all allow s qs a).path_limit ≤ 1)
unfolding collect_all
collect_all-limits allow s [] a = (omega arith, (λ e. refl), λ h. h)
collect_all-limits allow s (q ∷ qs) a =
    let ih = collect_all-limits allow s qs (collect allow s q a) in
    let one = collect-limits allow s q a in
    (omega (arith, ih.0, one.0), (λ e. ih.1 e ∙ one.1 e), λ h. ih.2 (one.2 h))
