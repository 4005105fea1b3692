-- ===== src/Search/Analyze/Learned.antt =====
-- Solver::analyze: the learned clause.
use riss.Base.{
  ◌≡◌, ◌≤◌, ◌<◌, ◌⊎◌, inl, inr, refl, ap, sym, subst, ◌∙◌, Bool, true, false, List, [], ◌∷◌, ◌++◌,
  All, All-map, arith, ltb, Bool-cases, Option, none, some,
}
use riss.Lit.{Lit, IsMem, neg, neg-neg, var, var-neg}
use riss.Semantics.{Assignment, Entails, holds, sat}
use riss.Search.{Solver, decision_level, level}
use riss.Search.Justified.{Justified}
use riss.Search.Final.{Seen}
use riss.Search.Analyze.{Analysis, next_seen, learned}
use riss.Search.Analyze.Counted.{counts, count, count-none, count-pos}
use riss.Search.Analyze.Resolvent.{Earlier}
use riss.Search.Analyze.Cover.{sat-left}
use riss.Search.Analyze.Chosen.{Ended}

-- a false literal of the current level
abbrev pub Latest : Solver → Lit → Type 0
Latest s k = IsMem (neg k) s.trail × (level s (var k) ≡ decision_level s)

-- the first literal is false and of the current level, the others are false and of earlier levels,
-- except for the last one of a bi-asserting clause
abbrev pub Asserting : Bool → Solver → List Lit → Type 0
Asserting allow s [] = ⊥
Asserting allow s (k ∷ d) =
    Latest s k
    × (All (Earlier s) d
        ⊎ ((allow ≡ true)
            × (e : List Lit) × (q : Lit) × (d ≡ e ++ q ∷ [])
            × All (Earlier s) e
            × Latest s q))

abbrev pub Learns : List (List Lit) → Bool → Solver → Option (List Lit) → Type 0
Learns f allow s none = ⊥
Learns f allow s (some c) = Entails f c × Asserting allow s c

-- the newest marked literal is the counted one, if one is counted
next_seen-counted :
    (f : List (List Lit)) (s : Solver) (t : List Lit) (seen : Seen)
    → Justified f s.memory s.vardata t
    → All (λ k. level s (var k) ≤ decision_level s) t
    → count s t seen ≡ 1
    → (q : Lit) × (next_seen t seen ≡ some q)
      × IsMem q t
      × (level s (var q) ≡ decision_level s)
      × ((k : Lit) → IsMem k t → counts s seen k ≡ true → k ≡ q)
unfolding next_seen
next_seen-counted f s [] seen j cap one = absurd (omega arith)
next_seen-counted f s (x ∷ t) seen j cap one = elim (Bool-cases (seen (var x))) [
  | inr u ↦
      let (q, e, m, l, only) = next_seen-counted f s t seen j.2 cap.1 (ground arith) in
      (
        q,
        rw u e,
        inr m,
        l,
        λ k n c. elim n [
          | inl z ↦ absurd (let w = ap (λ y. seen (var y)) z in ground arith)
          | inr n' ↦ only k n' c
        ],
      )
  | inl u ↦
      let top : level s (var x) ≡ decision_level s =
        elim (Bool-cases (ltb (level s (var x)) (decision_level s))) [
          | inr b ↦ let c = cap.0 in ground arith
          | inl b ↦
              let low : All (λ k. level s (var k) < decision_level s) (x ∷ t) =
                (ground arith, All-map t (λ k q. let y = q.1 in ground arith) j.1) in
              absurd (let z = count-none s (x ∷ t) seen low in omega arith)
        ] in
      (
        x,
        rw u refl,
        inl refl,
        top,
        λ k n c. elim n [
          | inl z ↦ z
          | inr n' ↦ absurd (let p = count-pos s t seen k n' c in ground arith)
        ],
      )
]

sat-right : (g : Assignment) (c d : List Lit) → sat g d ≡ true → sat g (c ++ d) ≡ true
sat-right g [] d h = h
sat-right g (x ∷ c) d h = ground (arith, sat-right g c d)

-- the two shapes of the clause
learned-one :
    (p : Lit) (t : List Lit) (a : Analysis)
    → ltb 0 a.path_c ≡ false
    → learned p t a ≡ some (neg p ∷ a.out)
unfolding learned
learned-one p t a b = rw (b, learned) refl

learned-two :
    (p q : Lit) (t : List Lit) (a : Analysis)
    → ltb 0 a.path_c ≡ true
    → next_seen t a.seen ≡ some q
    → learned p t a ≡ some (neg p ∷ a.out ++ neg q ∷ [])
unfolding learned
learned-two p q t a b e = rw (b, e, learned) refl

module _ (f : List (List Lit)) (allow : Bool) (s : Solver) (p : Lit) (t : List Lit) (a : Analysis)
    (s' : Solver) (h : Ended f allow s p t a s') where
  head : Latest s' (neg p)
  head = (
    subst (λ y. IsMem y s'.trail) (sym (neg-neg p)) h.on_trail,
    ap (level s') (var-neg p) ∙ h.at_level,
  )

  one-Learns : ltb 0 a.path_c ≡ false → Learns f allow s' (some (neg p ∷ a.out))
  one-Learns b = (
    λ g mo. (elim (h.covers g mo) [
      | inl x ↦ ground arith
      | inr x ↦ elim x [
        | inl y ↦ ground arith
        | inr y ↦
            let (k, m, c, z) = y in
            absurd
              (let w = count-pos s' t a.seen k m c in let n = h.collected.counted in ground arith)
      ]
    ]),
    (head, inl h.collected.outs),
  )

  two-Learns :
      ltb 0 a.path_c ≡ true
      → (q : Lit) → IsMem q t
      → level s' (var q) ≡ decision_level s'
      → ((k : Lit) → IsMem k t → counts s' a.seen k ≡ true → k ≡ q)
      → Learns f allow s' (some (neg p ∷ a.out ++ neg q ∷ []))
  two-Learns b q m l only = (
    λ g mo. (elim (h.covers g mo) [
      | inl x ↦ ground arith
      | inr x ↦
          let rest : sat g (a.out ++ neg q ∷ []) ≡ true = elim x [
            | inl y ↦ sat-left g a.out (neg q ∷ []) y
            | inr y ↦
                let (k, n, c, z) = y in
                sat-right g a.out (neg q ∷ [])
                  (let w = ap (λ v. holds g (neg v)) (only k n c) in ground arith)
          ] in
          ground arith
    ]),
    (
      head,
      inr (
        elim (Bool-cases allow) [ inl e ↦ e | inr e ↦ absurd (let few = h.few in ground arith) ],
        a.out,
        neg q,
        refl,
        h.collected.outs,
        (
          subst (λ y. IsMem y s'.trail) (sym (neg-neg q)) (h.ready.within q m),
          ap (level s') (var-neg q) ∙ l,
        ),
      ),
    ),
  )

  -- one or two literals of the current level are left
  pub learned-Learns : Learns f allow s' (learned p t a)
  learned-Learns = elim (Bool-cases (ltb 0 a.path_c)) [
    | inr b ↦ subst (Learns f allow s') (sym (learned-one p t a b)) (one-Learns b)
    | inl b ↦
        let one : count s' t a.seen ≡ 1 =
          let c = h.collected.counted in let few = h.few in ground arith in
        let (q, e, m, l, only) =
          next_seen-counted f s' t a.seen h.ready.justified h.ready.capped one in
        subst (Learns f allow s') (sym (learned-two p q t a b e)) (two-Learns b q m l only)
  ]
