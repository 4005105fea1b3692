-- ===== src/Search/Final/Sound.antt =====
-- Solver::analyzeFinal: the clause that it returns follows from the formula.
use riss.Base.{
  ℕ, ◌≡◌, ◌≢◌, ◌≤◌, ◌⊎◌, inl, inr, refl, ap, ◌∙◌, Bool-cases, true, ◌||◌, List, [], ◌∷◌, ◌++◌, All,
  All-map, length, get_or, ◌==◌, ltb, leb, update, arith, if◌then◌else◌,
}
use riss.Lit.{Lit, Var, IsMem, All-IsMem, neg, var, var-neg}
use riss.Semantics.{Assignment, Models, holds, sat, holds-neg}
use riss.Search.{Reason, no_reason, by_clause, by_lit, Solver, level, reason, lits}
use riss.Search.Justified.{ReasonHolds, Justified, Floor}
use riss.Search.Forced.{All-zip, clause_forces, lit_forces, level_zero_holds}
use riss.Search.Final.{Seen, see, reason_lits, explain, clear_seen, final_down}

pub see-keeps :
    (s : Solver) (c : List Lit) (seen : Seen) (x : Var) → seen x ≡ true → see s c seen x ≡ true
unfolding see
see-keeps s [] seen x h = h
see-keeps s (k ∷ c) seen x h =
    see-keeps s c (if ltb 0 (level s (var k)) then update seen (var k) true else seen) x
      (ground arith)

-- of each literal the variable is seen, or its level is 0
abbrev pub Reached : Solver → Seen → Lit → Type 0
Reached s seen k = (seen (var k) ≡ true) ⊎ (level s (var k) ≡ 0)

pub see_lem : (s : Solver) (c : List Lit) (seen : Seen) → All (Reached s (see s c seen)) c
unfolding see
see_lem s [] seen = tt
see_lem s (k ∷ c) seen =
    let seen' = if ltb 0 (level s (var k)) then update seen (var k) true else seen in
    (
      elim (Bool-cases (ltb 0 (level s (var k)))) [
        | inl b ↦ inl (see-keeps s c seen' (var k) (ground arith))
        | inr b ↦ inr (ground arith)
      ],
      see_lem s c seen',
    )

-- every literal but the forced one is among those that the loop looks at
pub reason_lits-spread {κ} :
    (P : Lit → Type κ) (l : Lit) (c : List Lit)
    → ((length c ≡ 2) × IsMem l c) ⊎ (get_or c 0 l ≡ l)
    → All P (reason_lits c)
    → All (λ k. (k ≡ l) ⊎ P k) c
reason_lits-spread P l [] h a = tt
reason_lits-spread P l (x ∷ c) h a = elim (Bool-cases (length (x ∷ c) == 2)) [
  | inl b ↦ All-map (x ∷ c) (λ k p. inr p) (rw b at a)
  | inr b ↦ (
    inl (elim h [ inl e ↦ absurd (let e' = e.0 in ground arith) | inr e ↦ e ]),
    All-map c (λ k p. inr p) (rw b at a),
  )
]

sat-append : (g : Assignment) (c d : List Lit) → sat g (c ++ d) ≡ (sat g c || sat g d)
sat-append g [] d = refl
sat-append g (x ∷ c) d = ground (arith, sat-append g c d)

module _ (g : Assignment) (s : Solver) where
  explain-keeps_out :
      (p : Lit) (r : Reason) (a : Seen × List Lit)
      → sat g a.1 ≡ true
      → sat g (explain s p r a).1 ≡ true
  unfolding explain
  explain-keeps_out p no_reason (seen, out) h = ground (arith, sat-append g out (neg p ∷ []))
  explain-keeps_out p (by_lit q) (seen, out) h = h
  explain-keeps_out p (by_clause cr) (seen, out) h = h

  pub final_down-keeps_out :
      (lim : ℕ) (t : List Lit) (a : Seen × List Lit)
      → sat g a.1 ≡ true
      → sat g (final_down s lim t a).1 ≡ true
  unfolding final_down clear_seen
  final_down-keeps_out lim [] a h = h
  final_down-keeps_out lim (p ∷ t) a h = elim (Bool-cases (leb lim (length t))) [
    | inr b ↦ rw b h
    | inl b ↦ elim (Bool-cases (a.0 (var p))) [
      | inr c ↦ rw (b, c) (final_down-keeps_out lim t a h)
      | inl c ↦
          rw (b, c)
            (final_down-keeps_out lim t (clear_seen (var p) (explain s p (reason s (var p)) a))
              (explain-keeps_out p (reason s (var p)) a h))
    ]
  ]

explain-keeps_seen :
    (s : Solver) (p : Lit) (r : Reason) (a : Seen × List Lit) (x : Var)
    → a.0 x ≡ true
    → (explain s p r a).0 x ≡ true
unfolding explain
explain-keeps_seen s p no_reason (seen, out) x h = h
explain-keeps_seen s p (by_lit q) (seen, out) x h = see-keeps s (q ∷ []) seen x h
explain-keeps_seen s p (by_clause cr) (seen, out) x h =
    see-keeps s (reason_lits (lits s cr)) seen x h

pub Floor-zero :
    (lim : ℕ) (s : Solver) (t : List Lit)
    → Floor lim s.vardata t
    → length t ≤ lim
    → (k : Lit) → IsMem k t
    → level s (var k) ≡ 0
Floor-zero lim s [] fl h k m = absurd m
Floor-zero lim s (x ∷ t) fl h k (inl e) = ap (λ y. level s (var y)) e ∙ fl.0 (omega arith)
Floor-zero lim s (x ∷ t) fl h k (inr m) = Floor-zero lim s t fl.2 (omega arith) k m

pub Reached-neg : (s : Solver) (seen : Seen) (k : Lit) → Reached s seen k → Reached s seen (neg k)
Reached-neg s seen k r = rw (var-neg k) r

module _ (f : List (List Lit)) (g : Assignment) (models : Models g f) (s : Solver) where
  -- what the loop looks at suffices for the literal, or the literal is a decision that is put out
  explain-forces :
      (p : Lit) (t : List Lit) (r : Reason) (a : Seen × List Lit)
      → ReasonHolds f s.memory p (level s (var p)) t r
      → ((k : Lit) → IsMem k t → Reached s (explain s p r a).0 k → holds g k ≡ true)
      → (holds g p ≡ true) ⊎ (sat g (explain s p r a).1 ≡ true)
  unfolding explain
  explain-forces p t no_reason (seen, out) h all = elim (Bool-cases (holds g p)) [
    | inl e ↦ inl e
    | inr e ↦ inr (ground (arith, sat-append g out (neg p ∷ []), holds-neg g p))
  ]
  explain-forces p t (by_lit q) (seen, out) h all =
      inl (lit_forces f g models p q h.1 (all q h.0 (see_lem s (q ∷ []) seen).0))
  explain-forces p t (by_clause cr) (seen, out) h all =
      let c = lits s cr in
      let seen' = see s (reason_lits c) seen in
      let looked : All (λ k. (k ≡ p) ⊎ Reached s seen' k) c =
        reason_lits-spread (Reached s seen') p c h.1.1 (see_lem s (reason_lits c) seen) in
      inl (
        clause_forces f g models p c h.0 (
          All-zip (λ k. (k ≡ p) ⊎ IsMem (neg k) t) (λ k. (k ≡ p) ⊎ Reached s seen' k)
            (λ k. (k ≡ p) ⊎ (holds g (neg k) ≡ true)) c
            (λ k u v. elim u [
              | inl e ↦ inl e
              | inr m ↦ elim v [
                | inl e ↦ inl e
                | inr w ↦ inr (all (neg k) m (Reached-neg s seen' k w))
              ]
            ])
            h.1.0 looked))

  -- where the clause put out is false, every literal that is seen in the course of the loop holds
  pub final_down_lem :
      (lim : ℕ) (t : List Lit) (a : Seen × List Lit)
      → Justified f s.memory s.vardata t
      → Floor lim s.vardata t
      → (sat g (final_down s lim t a).1 ≡ true)
        ⊎ ((k : Lit) → IsMem k t → Reached s a.0 k → holds g k ≡ true)
  unfolding final_down clear_seen
  final_down_lem lim [] a j fl = inr (λ k m. absurd m)
  final_down_lem lim (p ∷ t) a j fl = elim (Bool-cases (leb lim (length t))) [
    | inr b ↦ inr (λ k m r.
        level_zero_holds f g models s.memory s.vardata (p ∷ t) j k m
          (Floor-zero lim s (p ∷ t) fl (ground arith) k m))
    | inl b ↦ elim (Bool-cases (a.0 (var p))) [
      | inr c ↦ elim (final_down_lem lim t a j.2 fl.2) [
        | inl e ↦ inl (rw (b, c) e)
        | inr all ↦ inr (λ k m r. elim m [
          | inr n ↦ all k n r
          | inl e ↦ elim r [
            | inr z ↦ level_zero_holds f g models s.memory s.vardata (p ∷ t) j k (inl e) z
            | inl u ↦
                absurd (let v : a.0 (var k) ≡ a.0 (var p) = ap (λ y. a.0 (var y)) e in ground arith)
          ]
        ])
      ]
      | inl c ↦
          let explained = explain s p (reason s (var p)) a in
          let a' = clear_seen (var p) explained in
          elim (final_down_lem lim t a' j.2 fl.2) [
            | inl e ↦ inl (rw (b, c) e)
            | inr all ↦
                let kept : (k : Lit) → IsMem k t → Reached s explained.0 k → holds g k ≡ true =
                  λ k m r. all k m (
                    ground (
                      arith,
                      (All-IsMem (λ y. (var y ≢ var p) × (level s (var y) ≤ level s (var p))) t k
                          j.1 m).0,
                    )) in
                elim (explain-forces p t (reason s (var p)) a j.0 kept) [
                  | inr o ↦ inl (rw (b, c) (final_down-keeps_out g s lim t a' o))
                  | inl h ↦ inr (λ k m r. elim m [
                    | inl e ↦ ap (holds g) e ∙ h
                    | inr n ↦ kept k n (elim r [
                      | inl u ↦ inl (explain-keeps_seen s p (reason s (var p)) a (var k) u)
                      | inr z ↦ inr z
                    ])
                  ])
                ]
          ]
    ]
  ]
