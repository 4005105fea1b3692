-- ===== src/Checker/Removed/Exact.antt =====
-- OnlineProofChecker::removeClause, what it takes out and what it answers.
use riss.Base.{
  ℕ, ◌<◌, ◌≡◌, ◌≢◌, ◌⊎◌, inl, inr, refl, sym, ap, ◌∙◌, Bool, true, false, not, List, [], ◌∷◌, arith,
  ◌==◌, ==→eq, ==-refl, if◌then◌else◌, All, All-get_or, Bool-cases, length, update, ltb, get_or,
}
use riss.Lit.{Lit, IsMem, var}
use riss.Alg.{index_of, swap_last}
use riss.MarkArray
use riss.MarkArray.{MarkArray}
use riss.MarkArray.Steps.{Marks, next_step-clears}
use riss.Checker.{Checker, CRef}
use riss.Checker.Removal.{
  mark_all, all_marked, is_same, find_clause, drop_occ, remove_long, remove_clause,
}
use riss.Checker.Watched.{Fresh, lits}
use riss.Checker.Valid.{Valid}
use riss.Checker.Removed.Found.{Present, find_clause-found}
use riss.Checker.Removed.{
  Fewer, Fewer-marks, Fewer-trans, lits-without, Fresh-without, without-Fewer, without-units,
}

-- the test holds at the index that is found
index_of-holds :
    (p : ℕ → Bool) (xs : List ℕ) (d : ℕ)
    → index_of p xs < length xs
    → p (get_or xs (index_of p xs) d) ≡ true
unfolding index_of
index_of-holds p [] d h = absurd (omega arith)
index_of-holds p (x ∷ xs) d h = elim (Bool-cases (p x)) [
  | inl b ↦ rw (b, index_of) b
  | inr b ↦ rw (b, index_of) (index_of-holds p xs d (let h' = h in ground arith))
]

-- what is marked was marked before or is a literal of the clause
marked_by :
    (c : List Lit) (m : MarkArray) (l : Lit)
    → MarkArray.is_current_step (mark_all c m) l ≡ true
    → IsMem l c ⊎ (MarkArray.is_current_step m l ≡ true)
unfolding mark_all MarkArray.is_current_step MarkArray.set_current_step
marked_by [] m l h = inr h
marked_by (x ∷ c) m l h = elim (marked_by c (MarkArray.set_current_step m x) l h) [
  | inl k ↦ inl (inr k)
  | inr k ↦ elim (Bool-cases (x == l)) [
    | inl b ↦ inl (inl (sym (==→eq x l b)))
    | inr b ↦ inr (ground arith)
  ]
]

all_marked-IsMem :
    (c : List Lit) (m : MarkArray) (d : List Lit)
    → ((l : Lit) → MarkArray.is_current_step m l ≡ false)
    → all_marked (mark_all c m) d ≡ true
    → All (λ l. IsMem l c) d
unfolding all_marked
all_marked-IsMem c m [] n h = tt
all_marked-IsMem c m (l ∷ d) n h = (
  elim (marked_by c m l (ground arith)) [ inl k ↦ k | inr k ↦ absurd (let z = n l in cc) ],
  all_marked-IsMem c m d n (ground arith),
)

-- The clause `cr` has as many literals as `c`, all of them from `c`. Afterwards it has none, no watcher
-- refers to it, and the other clauses and the units are as before.
pub record Taken (c : List Lit) (s : Checker) (t : Checker) : Type 0 where
  pub cr : CRef
  pub size : length (lits s cr) ≡ length c
  pub same_lits : All (λ l. IsMem l c) (lits s cr)
  pub freed : lits t cr ≡ []
  pub detached : (q : Lit) → Fresh cr (t.watches q)
  pub others : (j : CRef) → j ≢ cr → lits t j ≡ lits s j
  pub units : t.unit_clauses ≡ s.unit_clauses

-- no clause was there to be taken out, and all are as before
pub record Untouched (c : List Lit) (s : Checker) (t : Checker) : Type 0 where
  pub missing : (cr : CRef) → ¬ Present c s cr
  pub same : (j : CRef) → lits t j ≡ lits s j
  pub units : t.unit_clauses ≡ s.unit_clauses

abbrev pub Removes : List Lit → Checker → Bool × Checker → Type 0
Removes c s r = Fewer s r.1 × (((r.0 ≡ true) × Taken c s r.1) ⊎ ((r.0 ≡ false) × Untouched c s r.1))

if-Removes :
    (c : List Lit) (s : Checker) (b : Bool) (x y : Bool × Checker)
    → (b ≡ true → Removes c s x)
    → (b ≡ false → Removes c s y)
    → Removes c s (if b then x else y)
if-Removes c s true x y f g = f refl
if-Removes c s false x y f g = g refl

-- no occurrence list holds a freed clause
abbrev pub Listed : Checker → Type 0
Listed s = (q : Lit) → All (λ cr. (s.memory cr).mark ≡ false) (s.occ q)

-- the test of find_clause
is_same_lem :
    (c : List Lit) (s : Checker) (cr : CRef)
    → Marks s.ma
    → (s.memory cr).mark ≡ false
    → is_same (record s { ma = mark_all c (MarkArray.next_step s.ma) }) (length c) cr ≡ true
    → (length (lits s cr) ≡ length c) × All (λ l. IsMem l c) (lits s cr)
unfolding is_same
is_same_lem c s cr marks live h = rw live (
  ground arith,
  all_marked-IsMem c (MarkArray.next_step s.ma) (s.memory cr).lits
      (λ l. (next_step-clears s.ma marks l).1) (ground arith),
)

remove_long-Removes :
    (x : Lit) (d : List Lit) (s : Checker)
    → Valid s
    → Marks s.ma
    → Listed s
    → Removes (x ∷ d) s (remove_long (x ∷ d) s)
unfolding remove_long find_clause
remove_long-Removes x d s v marks listed =
    let c = x ∷ d in
    let s' = (find_clause c s).0 in
    let k = (find_clause c s).1 in
    let smallest = get_or c k 0 in
    let i = (find_clause c s).2 in
    let cr = get_or (s'.occ smallest) i 0 in
    let occ' = drop_occ k cr 0 c (update s'.occ smallest (swap_last (s'.occ smallest) i)) in
    let u : Checker = record s' { occ = occ' } in
    let dropped = Fewer-marks s s'.ma occ' v in
    let found = Fewer-marks s s'.ma s.occ v in
    if-Removes c s (ltb i (length (s'.occ smallest))) _ _
      (λ b.
        (let same =
            is_same_lem c s cr marks
              (All-get_or (λ x. (s.memory x).mark ≡ false) (s'.occ smallest) i 0 (listed smallest)
                (ground arith))
              (index_of-holds (is_same s' (length c)) (s'.occ smallest) 0 (ground arith)) in
          (
            Fewer-trans dropped (without-Fewer cr u dropped.valid),
            inl (
              refl,
              record {
                cr = cr;
                size = same.0;
                same_lits = same.1;
                freed = lits-without cr u dropped.valid cr ∙ rw (==-refl cr) refl;
                detached = Fresh-without cr u dropped.valid;
                others = λ j n.
                    lits-without cr u dropped.valid j
                    ∙ (let e : (cr == j) ≡ false = ground arith in rw e refl);
                units = without-units cr u dropped.valid;
              },
            ),
          )))
      (λ b. (
        found,
        inr (
          refl,
          record {
            missing = λ r p. (let below = find_clause-found x d s r p in ground arith);
            same = λ j. refl;
            units = refl;
          },
        ),
      ))

-- removeClause of a clause with two literals or more, whose variables the checker knows, before the
-- empty clause was reached, with the marks of no later step and no freed clause in the occurrence
-- lists: it keeps the invariant, and what satisfies the clauses satisfies those that are left. Where it
-- answers `true`, exactly one clause is taken out, which was not freed, of as many literals and all of
-- them from the given clause; no watcher refers to it any more, and the other clauses and the units are
-- as before. Where it answers `false`, no clause that is not freed, has as many literals, all of them
-- from the given clause, and stands in the occurrence lists of all of these was there, and all clauses
-- are as before.
pub remove_clause-Removes :
    (l m : Lit) (c : List Lit) (s : Checker)
    → Valid s
    → Marks s.ma
    → Listed s
    → All (λ x. var x < s.n_vars) (l ∷ m ∷ c)
    → s.ok ≡ true
    → Removes (l ∷ m ∷ c) s (remove_clause (l ∷ m ∷ c) s)
unfolding remove_clause
remove_clause-Removes l m c s v marks listed range ok =
    if-Removes (l ∷ m ∷ c) s (not s.ok) (true, s) (remove_long (l ∷ m ∷ c) s)
      (λ b. absurd (let z = ap not ok in cc)) (λ b. remove_long-Removes l (m ∷ c) s v marks listed)
