-- ===== src/Checker/Removed.antt =====
-- OnlineProofChecker::removeClause, the watchers and the clauses that are left: lemmas on
-- detachClause and on removeUnSort.
pub mod Exact
pub mod Found
use riss.Base.{
  ◌<◌, ◌≡◌, ◌≢◌, ◌⊎◌, ap, ==-refl, inl, inr, refl, sym, subst, ◌∙◌, Bool, true, false, not, List,
  [], ◌∷◌, arith, ◌==◌, ==→eq, if◌then◌else◌, All, All-map, Bool-cases, length, update, ltb, get_or,
}
use riss.Lit.{Lit, neg, neg-neg, var}
use riss.Alg.{index_of, swap_last, remove_unsort}
use riss.Alg.Kept.{
  AtMostOne, remove_unsort-clear, All-swap_last, All-remove_unsort, Pairs, Pairs-swap_last,
}
use riss.MarkArray.{MarkArray}
use riss.Semantics.{Assignment, holds, sat}
use riss.Checker.{Checker, Watcher, CRef}
use riss.Checker.Removal.{
  find_clause, drop_occ, unwatch, detach_lits, detach_clause, free_clause, remove_unit, remove_long,
  remove_clause,
}
use riss.Checker.Watched.{Watches, Fresh, lits, Ok, Distinct, NoDup}
use riss.Checker.Watched.Visit.{not_freed, live-open}
use riss.Checker.Watched.Scan.{Ok-nonempty}
use riss.Checker.Valid.{Valid}
use riss.Checker.Satisfaction.{Satisfies}
use riss.Checker.Insertion.{MapListed}

abbrev Apart : Watcher → Watcher → Type 0
Apart v w = v.cref ≢ w.cref

Distinct-Pairs : (ws : List Watcher) → Distinct ws → Pairs Apart ws
Distinct-Pairs [] d = tt
Distinct-Pairs (w ∷ ws) d = (d.0, Distinct-Pairs ws d.1)

Pairs-Distinct : (ws : List Watcher) → Pairs Apart ws → Distinct ws
Pairs-Distinct [] d = tt
Pairs-Distinct (w ∷ ws) d = (d.0, Pairs-Distinct ws d.1)

Distinct-remove_unsort :
    (p : Watcher → Bool) (ws : List Watcher) → Distinct ws → Distinct (remove_unsort p ws)
unfolding remove_unsort
Distinct-remove_unsort p ws d =
    Pairs-Distinct (swap_last ws (index_of p ws))
      (Pairs-swap_last Apart (λ v w n e. n (sym e)) ws (index_of p ws) (Distinct-Pairs ws d))

unwatch-MapListed :
    (t : Checker) (cr : CRef) (l : Lit) (ws : Lit → List Watcher)
    → MapListed t ws
    → MapListed t (unwatch cr l ws)
unwatch-MapListed t cr l ws h q = elim (Bool-cases (neg l == q)) [
  | inr b ↦ rw b (h q)
  | inl b ↦
      let e : neg l ≡ q = ==→eq (neg l) q b in
      rw b (
        subst (λ x. All (Ok t q) (remove_unsort (λ w. w.cref == cr) (ws x))) (sym e)
            (All-remove_unsort (Ok t q) (λ w. w.cref == cr) (ws q) (h q).0),
        Distinct-remove_unsort (λ w. w.cref == cr) (ws (neg l)) (h (neg l)).1,
      )
]

detach-MapListed :
    (t : Checker) (cr : CRef) (c : List Lit) (ws : Lit → List Watcher)
    → MapListed t ws
    → MapListed t (detach_lits cr c ws)
unfolding detach_lits
detach-MapListed t cr [] ws h = h
detach-MapListed t cr (a ∷ []) ws h = h
detach-MapListed t cr (a ∷ b ∷ r) ws h =
    unwatch-MapListed t cr b (unwatch cr a ws) (unwatch-MapListed t cr a ws h)

-- the clauses and the units of `t` are among those of `s`
pub record Fewer (s t : Checker) : Type 0 where
  pub valid : Valid t
  pub satisfies : (g : Assignment) → Satisfies g s → Satisfies g t
  pub ok : t.ok ≡ s.ok
  pub proof : t.proof ≡ s.proof

abbrev pub FewerResult : Checker → Bool × Checker → Type 0
FewerResult s r = Fewer s r.1

-- the marks and the occurrence lists play no part
pub Fewer-marks :
    (s : Checker) (m : MarkArray) (o : Lit → List CRef)
    → Valid s
    → Fewer s (record s { ma = m; occ = o })
Fewer-marks s m o v = record {
  valid = record {
    watching = record { lists = v.watching.lists; no_dup = v.watching.no_dup };
    in_range = v.in_range;
    units_in_range = v.units_in_range;
    on_trail = v.on_trail;
    fresh = v.fresh;
  };
  satisfies = λ g h. record { stored = h.stored; units = h.units };
  ok = refl;
  proof = refl;
}

pub Fewer-trans : {s t u : Checker} → Fewer s t → Fewer t u → Fewer s u
Fewer-trans a b = record {
  valid = b.valid;
  satisfies = λ g h. b.satisfies g (a.satisfies g h);
  ok = b.ok ∙ a.ok;
  proof = b.proof ∙ a.proof;
}

Distinct-AtMostOne :
    (cr : CRef) (ws : List Watcher) → Distinct ws → AtMostOne (λ w. w.cref == cr) ws
Distinct-AtMostOne cr [] d = tt
Distinct-AtMostOne cr (w ∷ ws) d = (
  elim (Bool-cases (w.cref == cr)) [
    | inr b ↦ inl b
    | inl b ↦
        let e = ==→eq w.cref cr b in
        inr (All-map ws (λ v n. (let n' : cr ≢ v.cref = λ x. n (e ∙ x) in ground arith)) d.0)
  ],
  Distinct-AtMostOne cr ws d.1,
)

remove_unsort-Fresh :
    (cr : CRef) (ws : List Watcher) → Distinct ws → Fresh cr (remove_unsort (λ w. w.cref == cr) ws)
remove_unsort-Fresh cr ws d =
    All-map (remove_unsort (λ w. w.cref == cr) ws)
      (λ w b e. let same : (cr == cr) ≡ false = ap (λ x. x == cr) e ∙ b in let r = ==-refl cr in cc)
      (remove_unsort-clear (λ w. w.cref == cr) ws (Distinct-AtMostOne cr ws d))

-- the list of the literal has no such watcher left, and a list that has none stays so
unwatch-Fresh :
    (cr : CRef) (l : Lit) (ws : Lit → List Watcher) (q : Lit)
    → Distinct (ws q)
    → (neg l ≡ q) ⊎ Fresh cr (ws q)
    → Fresh cr (unwatch cr l ws q)
unwatch-Fresh cr l ws q d h = elim (Bool-cases (neg l == q)) [
  | inl b ↦
      let e = ==→eq (neg l) q b in
      rw b (
        subst (λ x. Fresh cr (remove_unsort (λ w. w.cref == cr) (ws x))) (sym e)
          (remove_unsort-Fresh cr (ws q) d))
  | inr b ↦ rw b (elim h [ inl e ↦ absurd (let r = ==-refl q in ground arith) | inr f ↦ f ])
]

-- a watcher of the clause stands in the lists of its first two literals
Watches-list :
    (long : Bool) (a b : Lit) (r : List Lit) (q bl : Lit)
    → Watches long (a ∷ b ∷ r) q bl
    → (neg a ≡ q) ⊎ (neg b ≡ q)
Watches-list true a b [] q bl h = absurd h
Watches-list true a b (d ∷ r) q bl (inl e) = inl (ap neg e ∙ neg-neg q)
Watches-list true a b (d ∷ r) q bl (inr e) = inr (ap neg e ∙ neg-neg q)
Watches-list false a b [] q bl (inl e) = inl (ap neg e.0 ∙ neg-neg q)
Watches-list false a b [] q bl (inr e) = inr (ap neg e.0 ∙ neg-neg q)
Watches-list false a b (d ∷ r) q bl h = absurd h

-- a watched clause has two literals
watched_two :
    (long : Bool) (c : List Lit) (q bl : Lit)
    → Watches long c q bl
    → (a : Lit) × (b : Lit) × (r : List Lit) × (c ≡ a ∷ b ∷ r)
watched_two true [] q bl h = absurd h
watched_two true (a ∷ []) q bl h = absurd h
watched_two true (a ∷ b ∷ r) q bl h = (a, b, r, refl)
watched_two false [] q bl h = absurd h
watched_two false (a ∷ []) q bl h = absurd h
watched_two false (a ∷ b ∷ r) q bl h = (a, b, r, refl)

-- a watcher of the clause `cr` watches its literals
Ok-clause :
    (s : Checker) (cr : CRef) (q : Lit) (w : Watcher)
    → Ok s q w
    → cr ≡ w.cref
    → Watches w.long (s.memory cr).lits q w.blocker
Ok-clause s cr q w o e =
    let full = live-open (s.memory w.cref) (Ok-nonempty s q w o) in
    subst (λ k. Watches w.long (s.memory k).lits q w.blocker) (sym e)
      (subst (λ c. Watches w.long c q w.blocker) (sym full) o)

-- detaching the clause leaves no watcher of it
detach-Fresh :
    (s : Checker) (cr : CRef) (c : List Lit)
    → (s.memory cr).lits ≡ c
    → Valid s
    → (q : Lit) → Fresh cr (detach_lits cr c s.watches q)
unfolding detach_lits
detach-Fresh s cr [] e v q =
    All-map (s.watches q)
      (λ w o x.
        (let (a, b, r, f) =
            watched_two w.long (s.memory cr).lits q w.blocker (Ok-clause s cr q w o x) in
          let z = sym e ∙ f in cc))
      (v.watching.lists q).0
detach-Fresh s cr (a ∷ []) e v q =
    All-map (s.watches q)
      (λ w o x.
        (let (a, b, r, f) =
            watched_two w.long (s.memory cr).lits q w.blocker (Ok-clause s cr q w o x) in
          let z = sym e ∙ f in cc))
      (v.watching.lists q).0
detach-Fresh s cr (a ∷ b ∷ r) e v q =
    let d = (v.watching.lists q).1 in
    let d' = (unwatch-MapListed s cr a s.watches v.watching.lists q).1 in
    unwatch-Fresh cr b (unwatch cr a s.watches) q d' (elim (Bool-cases (neg a == q)) [
      | inl x ↦ inr (unwatch-Fresh cr a s.watches q d (inl (==→eq (neg a) q x)))
      | inr x ↦ elim (Bool-cases (neg b == q)) [
        | inl y ↦ inl (==→eq (neg b) q y)
        | inr y ↦ inr (
            unwatch-Fresh cr a s.watches q d (
              inr (
                All-map (s.watches q)
                  (λ w o k.
                    elim (Watches-list w.long a b r q w.blocker
                      (subst (λ c. Watches w.long c q w.blocker) e (Ok-clause s cr q w o k))) [
                        | inl z ↦ (let u = ==-refl q in ground arith)
                        | inr z ↦ (let u = ==-refl q in ground arith)
                      ])
                  (v.watching.lists q).0)))
      ]
    ])

module _ (cr : CRef) (s : Checker) (v : Valid s) where
  abbrev pub without : Checker
  without = free_clause cr (detach_clause cr s)

  -- the clause has no literals any more, the others stay
  pub lits-without : (j : CRef) → lits without j ≡ (if cr == j then [] else lits s j)
  unfolding free_clause detach_clause
  lits-without j = elim (Bool-cases (cr == j)) [ inl b ↦ rw b refl | inr b ↦ rw b refl ]

  each :
      (P : List Lit → Type 0) → P [] → ((j : CRef) → P (lits s j)) → (j : CRef) → P (lits without j)
  each P p old j = elim (Bool-cases (cr == j)) [
    | inl b ↦ rw (lits-without j, b) p
    | inr b ↦ rw (lits-without j, b) (old j)
  ]

  pub Fresh-without : (q : Lit) → Fresh cr (without.watches q)
  unfolding free_clause detach_clause
  Fresh-without q = detach-Fresh s cr (s.memory cr).lits refl v q

  pub without-units : without.unit_clauses ≡ s.unit_clauses
  unfolding free_clause detach_clause
  without-units = refl

  still_listed :
      (q : Lit) (ws : List Watcher) → All (Ok s q) ws → Fresh cr ws → All (Ok without q) ws
  still_listed q [] o f = tt
  still_listed q (w ∷ ws) o f = (
    (let e : lits without w.cref ≡ lits s w.cref =
          lits-without w.cref
          ∙ (let n = f.0 in let b : (cr == w.cref) ≡ false = ground arith in rw b refl) in
        subst (λ c. Watches w.long c q w.blocker) (sym e) o.0),
    still_listed q ws o.1 f.1,
  )

  pub without-Fewer : Fewer s without
  unfolding free_clause detach_clause
  without-Fewer =
      let lists = detach-MapListed s cr (s.memory cr).lits s.watches v.watching.lists in
      record {
        valid = record {
          watching = record {
            lists = λ q.
                (still_listed q (without.watches q) (lists q).0 (Fresh-without q), (lists q).1);
            no_dup = each NoDup tt v.watching.no_dup;
          };
          in_range = each (All (λ l. var l < s.n_vars)) tt v.in_range;
          units_in_range = v.units_in_range;
          on_trail = v.on_trail;
          fresh = λ j h. (let e = v.fresh j h in let f = lits-without j in ground arith);
        };
        satisfies = λ g h. record {
          stored = each (λ c. (c ≡ []) ⊎ (sat g c ≡ true)) (inl refl) h.stored;
          units = h.units;
        };
        ok = refl;
        proof = refl;
      }

remove_unit-Fewer : (l : Lit) (s : Checker) → Valid s → FewerResult s (remove_unit l s)
unfolding remove_unit
remove_unit-Fewer l s v =
    elim (Bool-cases (ltb (index_of (λ u. u == l) s.unit_clauses) (length s.unit_clauses))) [
      | inr b ↦ rw (b, remove_unit) (Fewer-marks s s.ma s.occ v)
      | inl b ↦
          rw (b, remove_unit)
            (record {
              valid = record {
                watching = record { lists = v.watching.lists; no_dup = v.watching.no_dup };
                in_range = v.in_range;
                units_in_range =
                    All-swap_last (λ m. var m < s.n_vars) s.unit_clauses _ v.units_in_range;
                on_trail = v.on_trail;
                fresh = v.fresh;
              };
              satisfies = λ g h. record {
                stored = h.stored;
                units = All-swap_last (λ m. holds g m ≡ true) s.unit_clauses _ h.units;
              };
              ok = refl;
              proof = refl;
            })
    ]

if-Fewer :
    {s : Checker} (b : Bool) (x y : Bool × Checker)
    → FewerResult s x
    → FewerResult s y
    → FewerResult s (if b then x else y)
if-Fewer true x y f g = f
if-Fewer false x y f g = g

remove_long-Fewer : (c : List Lit) (s : Checker) → Valid s → FewerResult s (remove_long c s)
unfolding remove_long find_clause
remove_long-Fewer c s v =
    let s' = (find_clause c s).0 in
    let k = (find_clause c s).1 in
    let smallest = get_or c k 0 in
    let i = (find_clause c s).2 in
    let cr = get_or (s'.occ smallest) i 0 in
    let occ' = drop_occ k cr 0 c (update s'.occ smallest (swap_last (s'.occ smallest) i)) in
    let found = Fewer-marks s s'.ma s.occ v in
    let dropped = Fewer-marks s s'.ma occ' v in
    let freed = without-Fewer cr (record s' { occ = occ' }) dropped.valid in
    if-Fewer (ltb i (length (s'.occ smallest))) _ _ (Fewer-trans dropped freed) found

-- removeClause keeps the invariant, and what satisfies the clauses satisfies those that are left
pub remove_clause-Fewer : (c : List Lit) (s : Checker) → Valid s → FewerResult s (remove_clause c s)
unfolding remove_clause
remove_clause-Fewer [] s v = Fewer-marks s s.ma s.occ v
remove_clause-Fewer (l ∷ []) s v =
    if-Fewer (not s.ok) (true, s) (remove_unit l s) (Fewer-marks s s.ma s.occ v)
      (remove_unit-Fewer l s v)
remove_clause-Fewer (l ∷ m ∷ c) s v =
    if-Fewer (not s.ok) (true, s) (remove_long (l ∷ m ∷ c) s) (Fewer-marks s s.ma s.occ v)
      (remove_long-Fewer (l ∷ m ∷ c) s v)
