-- ===== src/Checker/Watched/Visit.antt =====
-- What a visit of one watcher does to the clauses, the lists and the assignment.
use mathlib.Core.List.{Permᴰ}
use mathlib.Core.List.Permᴰ
use native.Mathlib.Decide.{ℕ_discrete}
use riss.Base.{
  ==-refl, ◌≡◌, ◌≢◌, ◌⊎◌, inl, inr, refl, ap, Bool, true, false, List, [], ◌∷◌, ◌++◌, arith,
  Bool-cases, Option-cases, ◌==◌, ==→eq, if◌then◌else◌, update, All, All-map, some, none, sym,
  subst, ◌∙◌,
}
use riss.Lit.{Lit, neg, neg-neg, neg-inj}
use riss.Lifted.{LBool, l_false, l_undef, is_true, is_false}
use riss.Clause.{Clause}
use riss.Checker.{Checker, Watcher, CRef, value, unchecked_enqueue}
use riss.Checker.Propagate.{new_watch, write_lits, Visit, keep, move, conflict, rewatch}
use riss.Checker.Forced.{IsUnit}
use riss.Checker.Watched.{
  live, lits, Watches, Ok, NoDup, new_watch-perm, new_watch-test, new_watch-none, new_watch-shape,
  All-perm,
}

-- the fields that propagation leaves alone
pub record Same (s t : Checker) : Type 0 where
  pub ok : t.ok ≡ s.ok
  pub proof : t.proof ≡ s.proof
  pub sz : t.sz ≡ s.sz
  pub unit_clauses : t.unit_clauses ≡ s.unit_clauses
  pub n_vars : t.n_vars ≡ s.n_vars
  pub occ : t.occ ≡ s.occ

-- the literals of one clause are permuted, and the watchers of other places stay right
pub record Step (p : Lit) (w : Watcher) (s t : Checker) : Type 0 where
  pub others : (c : CRef) → c ≢ w.cref → lits t c ≡ lits s c
  pub perm : Permᴰ (lits s w.cref) (lits t w.cref)
  pub frame : (q : Lit) (v : Watcher) → Ok s q v → (q ≡ p → w.cref ≢ v.cref) → Ok t q v
  pub same : Same s t
  pub qhead : t.qhead ≡ s.qhead

abbrev pub SameTrail : Checker → Checker → Type 0
SameTrail s t = (t.assigns ≡ s.assigns) × (t.trail ≡ s.trail)

-- the assignment gains at most the one literal of a unit clause
abbrev pub Assigns : List Lit → Checker → Checker → Type 0
Assigns c s t =
    SameTrail s t ⊎ ((l : Lit) × IsUnit s.assigns c l × SameTrail (unchecked_enqueue l s) t)

abbrev pub Visited : Lit → Watcher → Checker → Visit → Type 0
Visited p w s (keep v t) =
    Step p w s t
    × (v.cref ≡ w.cref)
    × Ok t p v
    × (t.watches ≡ s.watches)
    × Assigns (lits t w.cref) s t
Visited p w s (move v t) =
    (k : Lit) × Step p w s t
    × (v.cref ≡ w.cref)
    × (k ≢ p)
    × Ok t k v
    × (t.watches ≡ update s.watches k (s.watches k ++ v ∷ []))
    × ((q : Watcher) → Ok s k q → w.cref ≢ q.cref)
    × SameTrail s t
Visited p w s (conflict v t) =
    Step p w s t
    × (v.cref ≡ w.cref)
    × Ok t p v
    × (t.watches ≡ s.watches)
    × SameTrail s t
    × All (λ l. value t l ≡ l_false) (lits t w.cref)

false-eq : (b : LBool) → is_false b ≡ true → b ≡ l_false
false-eq b h = ground arith

pub Step-refl :
    (p : Lit) (w : Watcher) (s t : Checker)
    → Same s t
    → t.memory ≡ s.memory
    → t.qhead ≡ s.qhead
    → Step p w s t
Step-refl p w s t same e h = record {
  others = λ c n. rw e;
  perm = rw e (Permᴰ.refl _);
  frame = λ q v o n. rw e o;
  same = same;
  qhead = h;
}

-- a clause with literals is not freed
pub not_freed : (c : Clause) → live c ≢ [] → c.mark ≡ false
not_freed c n = elim (Bool-cases c.mark) [ inl b ↦ absurd (n (rw b refl)) | inr b ↦ b ]

pub live-open : (c : Clause) → live c ≢ [] → c.lits ≡ live c
live-open c n = rw (not_freed c n) refl

pub lits-write :
    (cr : CRef) (c : List Lit) (s : Checker) (j : CRef)
    → lits s cr ≢ []
    → lits (write_lits cr c s) j ≡ (if cr == j then c else lits s j)
lits-write cr c s j n = elim (Bool-cases (cr == j)) [
  | inl b ↦ let unmarked = not_freed (s.memory cr) n in let e = ==→eq cr j b in rw b (ground arith)
  | inr b ↦ rw b refl
]

-- a clause whose second literal changes still has the watches of the first
frame_second :
    (b : Bool) (q bl first f k d d' : Lit) (r r' : List Lit)
    → f ≢ neg q
    → Watches b (first ∷ f ∷ d ∷ r) q bl
    → Watches b (first ∷ k ∷ d' ∷ r') q bl
frame_second true q bl first f k d d' r r' n (inl e) = inl e
frame_second true q bl first f k d d' r r' n (inr e) = absurd (n e)
frame_second false q bl first f k d d' r r' n h = absurd h

Watches-head :
    (b : Bool) (q bl first f d : Lit) (r : List Lit)
    → Watches b (first ∷ f ∷ d ∷ r) q bl
    → (first ≡ neg q) ⊎ (f ≡ neg q)
Watches-head true q bl first f d r h = h
Watches-head false q bl first f d r h = absurd h

module _ (p : Lit) (w : Watcher) (s : Checker) (first d : Lit) (r : List Lit)
    (e : lits s w.cref ≡ first ∷ neg p ∷ d ∷ r) (no_dup : NoDup (first ∷ neg p ∷ d ∷ r))
    (is_f : value s (neg p) ≡ l_false) (open_first : is_true (value s first) ≡ false) where
  abbrev test : Lit → Bool
  test l = is_false (value s l)

  rest_false : All (λ l. test l ≡ true) (d ∷ r) → All (λ l. value s l ≡ l_false) (d ∷ r)
  rest_false h = All-map (d ∷ r) (λ l t. false-eq (value s l) t) h

  abbrev found : Visit
  found = rewatch (neg p) w.cref (first ∷ neg p ∷ d ∷ r) s

  abbrev watcher : Watcher
  watcher = record { cref = w.cref; blocker = first; long = true }

  Same-refl : Same s s
  Same-refl = record {
    ok = refl;
    proof = refl;
    sz = refl;
    unit_clauses = refl;
    n_vars = refl;
    occ = refl;
  }

  still : Ok s p watcher
  still = rw e (inr refl)

  rewatch-none : new_watch test (neg p) (d ∷ r) ≡ none → Visited p w s found
  unfolding rewatch
  rewatch-none h =
      let falses = rest_false (new_watch-none test (neg p) (d ∷ r) h) in
      elim (Bool-cases (is_false (value s first))) [
        | inl f ↦
            let here : found ≡ conflict watcher s = rw (h, f, rewatch) in
            subst (Visited p w s) (sym here) (
              Step-refl p w s s Same-refl refl refl,
              refl,
              still,
              refl,
              (refl, refl),
              rw e (false-eq _ f, (is_f, falses)),
            )
        | inr f ↦
            let here : found ≡ keep watcher (unchecked_enqueue first s) = rw (h, f, rewatch) in
            let undef : value s first ≡ l_undef = ground arith in
            let others = All-map (d ∷ r) (λ m t. inr t) falses in
            subst (Visited p w s) (sym here) (
              Step-refl p w s _
                  (record {
                    ok = refl;
                    proof = refl;
                    sz = refl;
                    unit_clauses = refl;
                    n_vars = refl;
                    occ = refl;
                  })
                  refl refl,
              refl,
              still,
              refl,
              inr (first, rw e (inl refl, (inl refl, (inr is_f, others)), undef), (refl, refl)),
            )
      ]

  -- with the new watch `k` in the second place
  module _ (k : Lit) (d' : Lit) (r' : List Lit)
      (h : new_watch test (neg p) (d ∷ r) ≡ some (k, d' ∷ r')) where
    abbrev after : Checker
    after =
        let s' = write_lits w.cref (first ∷ k ∷ d' ∷ r') s in
        record s' { watches = update s'.watches (neg k) (s'.watches (neg k) ++ watcher ∷ []) }

    k-ne_second : k ≢ neg p
    k-ne_second e' = let t = new_watch-test test (neg p) (d ∷ r) k (d' ∷ r') h in ground arith

    first-ne : first ≢ k
    first-ne =
        (All-perm (λ m. first ≢ m) (new_watch-perm test (neg p) (d ∷ r) k (d' ∷ r') h) no_dup.0).0

    lits-after : (j : CRef) → lits after j ≡ (if w.cref == j then first ∷ k ∷ d' ∷ r' else lits s j)
    lits-after j = lits-write w.cref (first ∷ k ∷ d' ∷ r') s j (λ x. let y = sym e ∙ x in cc)

    lits-after_self : lits after w.cref ≡ first ∷ k ∷ d' ∷ r'
    lits-after_self = rw (lits-after w.cref, ==-refl w.cref)

    lits-after_ne : (j : CRef) → j ≢ w.cref → lits after j ≡ lits s j
    lits-after_ne j n = ground (arith, lits-after j)

    frame-after : (q : Lit) (v : Watcher) → Ok s q v → (q ≡ p → w.cref ≢ v.cref) → Ok after q v
    frame-after q v o n = elim (ℕ_discrete v.cref w.cref) [
      | yes same ↦
          let o' : Watches v.long (first ∷ neg p ∷ d ∷ r) q v.blocker = rw (same, e) at o in
          let at_v : lits after v.cref ≡ first ∷ k ∷ d' ∷ r' =
            ap (lits after) same ∙ lits-after_self in
          subst (λ c. Watches v.long c q v.blocker) (sym at_v)
            (frame_second v.long q v.blocker first (neg p) k d d' r r'
              (λ x. n (sym (neg-inj p q x)) (sym same)) o')
      | no other ↦ subst (λ c. Watches v.long c q v.blocker) (sym (lits-after_ne v.cref other)) o
    ]

    unwatched : (v : Watcher) → Ok s (neg k) v → w.cref ≢ v.cref
    unwatched v o same =
        let o' : Watches v.long (first ∷ neg p ∷ d ∷ r) (neg k) v.blocker = rw (← same, e) at o in
        elim (Watches-head v.long (neg k) v.blocker first (neg p) d r o') [
          | inl x ↦ first-ne (x ∙ neg-neg k)
          | inr x ↦ k-ne_second (sym (x ∙ neg-neg k))
        ]

    rewatch-some : Visited p w s found
    unfolding rewatch
    rewatch-some =
        let here : found ≡ move watcher after = rw (h, rewatch) in
        subst (Visited p w s) (sym here) (
          neg k,
          record {
            others = lits-after_ne;
            perm =
                rw (lits-after_self, e)
                  (Permᴰ.cons refl (new_watch-perm test (neg p) (d ∷ r) k (d' ∷ r') h));
            frame = frame-after;
            same = record {
              ok = refl;
              proof = refl;
              sz = refl;
              unit_clauses = refl;
              n_vars = refl;
              occ = refl;
            };
            qhead = refl;
          },
          refl,
          λ x. k-ne_second (sym (neg-neg k) ∙ ap neg x),
          rw lits-after_self (inr (sym (neg-neg k))),
          refl,
          unwatched,
          (refl, refl),
        )

  pub rewatch-Visited : Visited p w s (rewatch (neg p) w.cref (first ∷ neg p ∷ d ∷ r) s)
  rewatch-Visited = elim (Option-cases (new_watch test (neg p) (d ∷ r))) [
    | inl h ↦ rewatch-none h
    | inr ((k, r'), h) ↦
        let (d', r2, e') = new_watch-shape test (neg p) d r k r' h in
        rewatch-some k d' r2 (rw e' at h)
  ]
