-- ===== src/Checker/Addition.antt =====
-- OnlineProofChecker::addClause: it returns, it keeps the invariant, and a DRUP clause that it
-- accepts follows from the clauses of the checker.
use mathlib.Core.List.Permᴰ
use riss.Base.{
  ℕ, ◌<◌, ◌≡◌, ◌≢◌, ◌⊎◌, inl, inr, refl, sym, ◌∙◌, Bool, true, false, List, [], ◌∷◌, ◌++◌, arith,
  All, All-map, Bool-cases, Option, Option-cases, some, leb, if◌then◌else◌,
}
use riss.Lit.{Lit, neg, var}
use riss.MarkArray
use riss.MarkArray.{MarkArray}
use riss.Semantics.{Assignment, sat}
use riss.Checker.{Checker, CRef, ProofStyle, drup_proof, drat_proof, unknown_proof}
use riss.Checker.Operations.{
  cover, refutes, resolve_rest, check_resolvents, mark_rest, check_rat, accepts, add_clause,
  insert_clause,
}
use riss.Checker.Watched.{NoDup}
use riss.Checker.Valid.{Valid, cover-Valid, cover-Quiet, cover-covers, Quiet-refl}
use riss.Checker.Satisfaction.{Satisfies, Satisfies-Shuffled, Shuffled-trans, Quiet-Shuffled}
use riss.Checker.Refutation.{Checked, refutes_ends, refutes_sound}
use riss.Checker.Insertion.{insert_clause-Valid}

Checked-trans : {s t u : Checker} → Checked s t → Checked t u → Checked s u
Checked-trans a b = record { valid = b.valid; shuffled = Shuffled-trans a.shuffled b.shuffled }

-- the marks play no part
Checked-ma : {s : Checker} (m : MarkArray) → Valid s → Checked s (record s { ma = m })
Checked-ma {s} m v = record {
  valid = record {
    watching = record { lists = v.watching.lists; no_dup = v.watching.no_dup };
    in_range = v.in_range;
    units_in_range = v.units_in_range;
    on_trail = v.on_trail;
    fresh = v.fresh;
  };
  shuffled = record {
    perm = λ cr. Permᴰ.refl _;
    unit_clauses = refl;
    ok = refl;
    proof = refl;
    sz = refl;
    n_vars = omega arith;
  };
}

-- a check returns
abbrev Ends : Checker → Option (Bool × Checker) → Type 0
Ends s o = (b : Bool) × (t : Checker) × (o ≡ some (b, t)) × Checked s t

Ends-trans : {s t : Checker} (o : Option (Bool × Checker)) → Checked s t → Ends t o → Ends s o
Ends-trans o k (b, u, e, h) = (b, u, e, Checked-trans k h)

check_resolvents-Ends :
    (c : List Lit) (pivot : Lit) (crs : List CRef) (s : Checker)
    → Valid s
    → Ends s (check_resolvents c pivot crs s)
unfolding check_resolvents
check_resolvents-Ends c pivot [] s v =
    (true, s, refl, record { valid = v; shuffled = Quiet-Shuffled (Quiet-refl) })
check_resolvents-Ends c pivot (cr ∷ crs) s v =
    elim (Option-cases (resolve_rest s.ma pivot (s.memory cr).lits)) [
      | inl e ↦ rw (e, check_resolvents) (check_resolvents-Ends c pivot crs s v)
      | inr (r, e) ↦
          let (b, t, here, k) = refutes_ends (c ++ r) s v in
          elim (Bool-cases b) [
            | inl x ↦
                rw (e, here, x, check_resolvents)
                  (Ends-trans _ k (check_resolvents-Ends c pivot crs t k.valid))
            | inr x ↦ (false, t, rw (e, here, x, check_resolvents), k)
          ]
    ]

check_rat-Ends :
    (x : Bool) (n : ℕ) (c : List Lit) (s : Checker)
    → (c ≢ []) ⊎ (x ≡ true)
    → Valid s
    → Ends s (check_rat x n c s)
unfolding check_rat
check_rat-Ends x n [] s a v = (
  false,
  s,
  elim a [ inl e ↦ absurd (e refl) | inr e ↦ rw e refl ],
  record { valid = v; shuffled = Quiet-Shuffled Quiet-refl },
)
check_rat-Ends x n (l ∷ c) s f v =
    let m = (mark_rest c (MarkArray.next_step s.ma)).1 in
    let k = Checked-ma m v in
    let here : Checked s s = record { valid = v; shuffled = Quiet-Shuffled Quiet-refl } in
    elim (Bool-cases (leb (var l) n)) [
      | inr a ↦ (true, s, rw (a, check_rat), here)
      | inl a ↦ elim (Bool-cases (mark_rest c (MarkArray.next_step s.ma)).0) [
        | inl b ↦ (true, record s { ma = m }, rw (a, b, check_rat), k)
        | inr b ↦
            rw (a, b, check_rat)
              (Ends-trans _ k
                (check_resolvents-Ends c (neg l) (s.occ (neg l)) (record s { ma = m }) k.valid))
      ]
    ]

-- The source's assertion on the empty clause holds: the clause is not empty, or it is only checked, or
-- the check is not for DRAT, or the empty clause was there before, or propagation refutes.
abbrev pub Answers : List Lit → Bool → Checker → Type 0
Answers c k s =
    (c ≢ [])
    ⊎ ((k ≡ true)
        ⊎ ((s.proof ≢ drat_proof)
            ⊎ ((s.ok ≡ false) ⊎ ((t : Checker) × (refutes c (cover c s) ≡ some (true, t))))))

-- an accepted DRUP clause follows
abbrev Follows : List Lit → Checker → Bool → Type 0
Follows c s b = b ≡ true → s.proof ≡ drup_proof → (g : Assignment) → Satisfies g s → sat g c ≡ true

-- the same, for the whole of the check
record Accepts (c : List Lit) (x : Bool) (s : Checker) : Type 0 where
  answer : Bool
  final : Checker
  returns : accepts c x s ≡ some (answer, final)
  checked : Checked s final
  follows : Follows c s answer
  covered : All (λ l. var l < final.n_vars) c

pub drup_not_drat : ◌≢◌ {A = ProofStyle} drup_proof drat_proof
drup_not_drat e = cc

-- every literal of the clause has its variable
covered_after :
    (c : List Lit) (s t : Checker) → Checked (cover c s) t → All (λ l. var l < t.n_vars) c
covered_after c s t k = All-map c (λ l h. omega (arith, k.shuffled.n_vars)) (cover-covers c s)

-- propagation met no conflict
no_conflict :
    (c : List Lit) (x : Bool) (s t : Checker) (style : ProofStyle)
    → Answers c x s
    → s.ok ≡ true
    → refutes c (cover c s) ≡ some (false, t)
    → Checked (cover c s) t
    → Checked s t
    → t.proof ≡ style
    → Accepts c x s
unfolding accepts
no_conflict c x s t drat_proof a ok here c0 k e =
    let open_case : (c ≢ []) ⊎ (x ≡ true) = elim a [
      | inl n ↦ inl n
      | inr a ↦ elim a [
        | inl n ↦ inr n
        | inr a ↦ elim a [
          | inl n ↦ absurd (n (sym k.shuffled.proof ∙ e))
          | inr a ↦ elim a [
            | inl n ↦ absurd (let z : ◌≡◌ {A = Bool} false true = sym n ∙ ok in cc)
            | inr n ↦ absurd (let (u, n') = n in let z = sym here ∙ n' in cc)
          ]
        ]
      ]
    ] in
    let (b, u, r, k') = check_rat-Ends x s.n_vars c t open_case k.valid in
    record {
      answer = b;
      final = u;
      returns = rw (here, accepts) (ground (arith, r));
      checked = Checked-trans k k';
      covered = covered_after c s u (Checked-trans c0 k');
      follows = λ _ drup. absurd (drup_not_drat (sym drup ∙ (sym k.shuffled.proof ∙ e)));
    }
no_conflict c x s t drup_proof a ok here c0 k e = record {
  answer = false;
  final = t;
  returns = rw (here, accepts) (ground arith);
  checked = k;
  follows = λ no. cc;
  covered = covered_after c s t c0;
}
no_conflict c x s t unknown_proof a ok here c0 k e = record {
  answer = false;
  final = t;
  returns = rw (here, accepts) (ground arith);
  checked = k;
  follows = λ no. cc;
  covered = covered_after c s t c0;
}

Accepts-ends :
    (c : List Lit) (k : Bool) (s : Checker) → Answers c k s → s.ok ≡ true → Valid s → Accepts c k s
unfolding accepts
Accepts-ends c only s a ok v =
    let u = cover c s in
    let vu : Valid u = cover-Valid c v in
    let start : Checked s u = record { valid = vu; shuffled = Quiet-Shuffled (cover-Quiet c s) } in
    let (b, t, here, k) = refutes_ends c u vu in
    let whole = Checked-trans start k in
    elim (Bool-cases b) [
      | inl x ↦ record {
        answer = true;
        final = t;
        returns = rw (here, x, accepts);
        checked = whole;
        covered = covered_after c s t k;
        follows = λ _ _ g h.
            refutes_sound c u vu g t (Satisfies-Shuffled start.shuffled h) (rw x at here);
      }
      | inr x ↦ no_conflict c only s t t.proof a ok (rw x at here) k whole refl
    ]

-- What addClause returns and leaves behind.
pub data Added (c : List Lit) (s : Checker) : Bool → Bool → Checker → Type 0 where
  -- the empty clause was there before
  ended : {k : Bool} → s.ok ≡ false → Added c s k true s
  refused : {k : Bool} {t : Checker} → s.ok ≡ true → Checked s t → Added c s k false t
  only_checked :
      {t : Checker} → s.ok ≡ true → Checked s t → Follows c s true → Added c s true true t
  inserted :
      {t : Checker}
      → s.ok ≡ true
      → Checked s t
      → Follows c s true
      → All (λ l. var l < t.n_vars) c
      → Valid (insert_clause c t)
      → Added c s false true (insert_clause c t)

-- addClause returns for a clause without duplicate literals, where no assertion fails
pub add_clause_ends :
    (c : List Lit) (k : Bool) (s : Checker)
    → Valid s
    → NoDup c
    → Answers c k s
    → (b : Bool) × (t : Checker) × (add_clause c k s ≡ some (b, t)) × Added c s k b t
unfolding add_clause
add_clause_ends c k s v d defined = elim (Bool-cases s.ok) [
  | inr x ↦ (true, s, rw (x, add_clause), ended x)
  | inl x ↦ go (Accepts-ends c k s defined x v) x
]
  where
    go :
        Accepts c k s
        → s.ok ≡ true
        → (b : Bool) × (t : Checker) × (add_clause c k s ≡ some (b, t)) × Added c s k b t
    go a x = elim (Bool-cases a.answer) [
      | inr y ↦ (false, a.final, simp (x, a.returns, y), refused x a.checked)
      | inl y ↦
          let f : Follows c s true = rw y at a.follows in
          let e : add_clause c k s
              ≡ (if k then some (true, a.final) else some (true, insert_clause c a.final)) =
            simp (x, a.returns, y) in
          let valid = insert_clause-Valid c a.final a.checked.valid d a.covered in
          elim (Bool-cases k) [
            | inl z ↦ (true, a.final, e ∙ rw z refl, rw z (only_checked x a.checked f))
            | inr z ↦ (
              true,
              insert_clause c a.final,
              e ∙ rw z refl,
              rw z (inserted x a.checked f a.covered valid),
            )
          ]
    ]
