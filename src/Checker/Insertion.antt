-- ===== src/Checker/Insertion.antt =====
-- Storing a clause keeps the invariant.
use riss.Base.{
  ◌<◌, ◌≡◌, ◌≢◌, ◌⊎◌, inl, inr, refl, sym, subst, Bool, true, false, List, [], ◌∷◌, ◌++◌, arith,
  ◌==◌, ==→eq, ==-refl, if◌then◌else◌, All, All-map, All-append, Bool-cases,
}
use riss.Lit.{Lit, neg, var, neg-inj, neg-neg}
use riss.Semantics.{Assignment, holds, sat}
use riss.Checker.{Checker, Watcher, CRef}
use riss.Checker.Operations.{attach_lits, store_clause, insert_clause, watch}
use riss.Checker.Watched.{Watches, lits, NoDup, Ok, Distinct, Fresh}
use riss.Checker.Watched.Scan.{Distinct-append, Ok-nonempty}
use riss.Checker.Valid.{Valid}
use riss.Checker.Satisfaction.{Satisfies}

-- every list of the map is right for the clauses of `t`
abbrev pub MapListed : Checker → (Lit → List Watcher) → Type 0
MapListed t ws = (q : Lit) → All (Ok t q) (ws q) × Distinct (ws q)

watch-MapListed :
    (t : Checker) (ws : Lit → List Watcher) (cr : CRef) (l other : Lit) (long : Bool)
    → MapListed t ws
    → Watches long (lits t cr) (neg l) other
    → Fresh cr (ws (neg l))
    → MapListed t (watch cr l other long ws)
watch-MapListed t ws cr l other long h o f q = elim (Bool-cases (neg l == q)) [
  | inr b ↦ rw b (h q)
  | inl b ↦
      let w : Watcher = record { cref = cr; blocker = other; long = long } in
      let ok : All (Ok t (neg l)) (ws (neg l) ++ w ∷ []) =
        All-append (Ok t (neg l)) (ws (neg l)) (w ∷ []) (h (neg l)).0 (o, tt) in
      let Apart : All (λ (x : Watcher). x.cref ≢ cr) (ws (neg l)) =
        All-map (ws (neg l)) (λ x n e. n (sym e)) f in
      let distinct = Distinct-append (ws (neg l)) w (h (neg l)).1 Apart in
      rw b (subst (λ x. All (Ok t x) (ws (neg l) ++ w ∷ [])) (==→eq (neg l) q b) ok, distinct)
]

module _ (t : Checker) (ws : Lit → List Watcher) (cr : CRef) (a b : Lit) (n : a ≢ b)
    (h : MapListed t ws) (fresh : (q : Lit) → Fresh cr (ws q)) where
  Fresh-second : (long : Bool) → Fresh cr (watch cr a b long ws (neg b))
  Fresh-second long =
      let Apart : (neg a == neg b) ≡ false = ground (arith, neg-inj a b) in rw Apart (fresh (neg b))

  twice-MapListed :
      (long : Bool)
      → Watches long (lits t cr) (neg a) b
      → Watches long (lits t cr) (neg b) a
      → MapListed t (watch cr b a long (watch cr a b long ws))
  twice-MapListed long oa ob =
      watch-MapListed t (watch cr a b long ws) cr b a long
        (watch-MapListed t ws cr a b long h oa (fresh (neg a))) ob (Fresh-second long)

attach-MapListed :
    (t : Checker) (ws : Lit → List Watcher) (cr : CRef) (c : List Lit)
    → lits t cr ≡ c
    → NoDup c
    → MapListed t ws
    → ((q : Lit) → Fresh cr (ws q))
    → MapListed t (attach_lits cr c ws)
unfolding attach_lits
attach-MapListed t ws cr [] e d h f = h
attach-MapListed t ws cr (a ∷ []) e d h f = h
attach-MapListed t ws cr (a ∷ b ∷ []) e d h f =
    twice-MapListed t ws cr a b d.0.0 h f false (rw e (inl (sym (neg-neg a), refl)))
      (rw e (inr (sym (neg-neg b), refl)))
attach-MapListed t ws cr (a ∷ b ∷ x ∷ r) e d h f =
    twice-MapListed t ws cr a b d.0.0 h f true (rw e (inl (sym (neg-neg a))))
      (rw e (inr (sym (neg-neg b))))

module _ (c : List Lit) (s : Checker) (v : Valid s) where
  abbrev stored : Checker
  stored = store_clause c s

  lits-stored : (cr : CRef) → lits stored cr ≡ (if s.sz == cr then c else lits s cr)
  unfolding store_clause
  lits-stored cr = ground arith

  lits-stored_self : lits stored s.sz ≡ c
  lits-stored_self = rw (lits-stored s.sz, ==-refl s.sz)

  lits-stored_old : (cr : CRef) → lits s cr ≢ [] → lits stored cr ≡ lits s cr
  lits-stored_old cr n = ground (arith, lits-stored cr, v.fresh cr)

  -- what was right stays right
  frame-stored : (q : Lit) (w : Watcher) → Ok s q w → Ok stored q w
  frame-stored q w o =
      subst (λ x. Watches w.long x q w.blocker) (sym (lits-stored_old w.cref (Ok-nonempty s q w o)))
        o

  watches-stored : stored.watches ≡ attach_lits s.sz c s.watches
  unfolding store_clause
  watches-stored = rw (==-refl s.sz)

  unused : (q : Lit) → Fresh s.sz (s.watches q)
  unused q =
      All-map (s.watches q)
        (λ w o e. Ok-nonempty s q w o (subst (λ x. lits s x ≡ []) e (v.fresh s.sz (omega arith))))
        (v.watching.lists q).0

  module _ (d : NoDup c) (range : All (λ l. var l < s.n_vars) c) where
    each :
        (P : List Lit → Type 0)
        → P c
        → ((cr : CRef) → P (lits s cr))
        → (cr : CRef) → P (lits stored cr)
    each P p old cr = elim (Bool-cases (s.sz == cr)) [
      | inl b ↦ rw (lits-stored cr, b) p
      | inr b ↦ rw (lits-stored cr, b) (old cr)
    ]

    pub store_clause-Valid : Valid stored
    unfolding store_clause
    store_clause-Valid = record {
      watching = record {
        lists = λ q. rw watches-stored (
            attach-MapListed stored s.watches s.sz c lits-stored_self d
              (λ x. (
                All-map (s.watches x) (frame-stored x) (v.watching.lists x).0,
                (v.watching.lists x).1,
              ))
              unused q);
        no_dup = each NoDup d v.watching.no_dup;
      };
      in_range = each (All (λ l. var l < s.n_vars)) range v.in_range;
      units_in_range = v.units_in_range;
      on_trail = v.on_trail;
      fresh = λ cr h. ground (arith, lits-stored cr, v.fresh cr);
    }

    pub Satisfies-stored : (g : Assignment) → Satisfies g s → sat g c ≡ true → Satisfies g stored
    unfolding store_clause
    Satisfies-stored g h e = record {
      stored = each (λ x. (x ≡ []) ⊎ (sat g x ≡ true)) (inr e) h.stored;
      units = h.units;
    }

-- addition at the end of addClause and of addParsedclause
pub insert_clause-Valid :
    (c : List Lit) (s : Checker)
    → Valid s
    → NoDup c
    → All (λ l. var l < s.n_vars) c
    → Valid (insert_clause c s)
unfolding insert_clause
insert_clause-Valid [] s v d r = record {
  watching = record { lists = v.watching.lists; no_dup = v.watching.no_dup };
  in_range = v.in_range;
  units_in_range = v.units_in_range;
  on_trail = v.on_trail;
  fresh = v.fresh;
}
insert_clause-Valid (l ∷ []) s v d r = record {
  watching = record { lists = v.watching.lists; no_dup = v.watching.no_dup };
  in_range = v.in_range;
  units_in_range = All-append (λ m. var m < s.n_vars) s.unit_clauses (l ∷ []) v.units_in_range r;
  on_trail = v.on_trail;
  fresh = v.fresh;
}
insert_clause-Valid (l ∷ m ∷ c) s v d r = store_clause-Valid (l ∷ m ∷ c) s v d r

pub Satisfies-insert_clause :
    (g : Assignment) (c : List Lit) (s : Checker)
    → Valid s
    → NoDup c
    → All (λ l. var l < s.n_vars) c
    → Satisfies g s
    → sat g c ≡ true
    → Satisfies g (insert_clause c s)
unfolding insert_clause
Satisfies-insert_clause g [] s v d r h e = cc
Satisfies-insert_clause g (l ∷ []) s v d r h e = record {
  stored = h.stored;
  units = All-append (λ m. holds g m ≡ true) s.unit_clauses (l ∷ []) h.units (ground arith, tt);
}
Satisfies-insert_clause g (l ∷ m ∷ c) s v d r h e = Satisfies-stored (l ∷ m ∷ c) s v d r g h e

-- only an empty clause ends the proof
pub ok-insert_clause :
    (c : List Lit) (s : Checker) → (insert_clause c s).ok ≡ false → (s.ok ≡ false) ⊎ (c ≡ [])
unfolding insert_clause store_clause
ok-insert_clause [] s h = inr refl
ok-insert_clause (l ∷ []) s h = inl h
ok-insert_clause (l ∷ m ∷ c) s h = inl h

pub proof-insert_clause : (c : List Lit) (s : Checker) → (insert_clause c s).proof ≡ s.proof
unfolding insert_clause store_clause
proof-insert_clause [] s = refl
proof-insert_clause (l ∷ []) s = refl
proof-insert_clause (l ∷ m ∷ c) s = refl
