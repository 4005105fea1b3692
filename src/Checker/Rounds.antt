-- ===== src/Checker/Rounds.antt =====
-- The rounds of unit propagation: they make forced assignments only, they keep the watches right,
-- and a conflict is a clause whose literals are all false.
use mathlib.Core.List.Permᴰ
use riss.Base.{
  ◌≡◌, ◌≢◌, ◌⊎◌, inl, inr, refl, ap, sym, subst, Bool, true, false, List, [], ◌∷◌, arith, All,
  All-map, Bool-cases,
}
use riss.Lit.{Lit, neg}
use riss.Lifted.{l_false, l_undef, is_false, is_undef}
use riss.Checker.{Checker, Watcher, CRef, value, unchecked_enqueue}
use riss.Checker.Propagate.{binaries}
use riss.Checker.Forced.{IsUnit, Forced, stay, more, Forced-trans, Forced-false}
use riss.Checker.Watched.{Watches, live, lits, Ok, Distinct, NoDup}
use riss.Checker.Watched.Visit.{Same}
use riss.Checker.Watched.Whole.{Same-refl}
use riss.Checker.Watched.Scan.{Stored, Listed}

-- some stored clause is false
abbrev pub Clash : Checker → Type 0
Clash t = (cr : CRef) × (lits t cr ≢ []) × All (λ l. value t l ≡ l_false) (lits t cr)

pub record Watching (s : Checker) : Type 0 where
  pub lists : (q : Lit) → Listed s q
  pub no_dup : (cr : CRef) → NoDup (lits s cr)

pub Watching-same :
    {s t : Checker} → t.memory ≡ s.memory → t.watches ≡ s.watches → Watching s → Watching t
Watching-same {s} {t} em ew w = record {
  lists = lists;
  no_dup = λ cr. rw (lits-same cr) (w.no_dup cr);
}
  where
    lits-same : (cr : CRef) → lits t cr ≡ lits s cr
    lits-same cr = ap (λ m. live (m cr)) em

    lists : (q : Lit) → Listed t q
    lists q =
        let e : t.watches q ≡ s.watches q = ap (λ f. f q) ew in
        subst (λ l. All (Ok t q) l × Distinct l) (sym e)
          (
            All-map (s.watches q)
                (λ v o. subst (λ c. Watches v.long c q v.blocker) (sym (lits-same v.cref)) o)
                (w.lists q).0,
            (w.lists q).1,
          )

pub record Binaries (s : Checker) (c : Bool) (t : Checker) : Type 0 where
  pub memory : t.memory ≡ s.memory
  pub watches : t.watches ≡ s.watches
  pub same : Same s t
  pub qhead : t.qhead ≡ s.qhead
  pub forced : Forced (Stored s) s.assigns s.trail t.assigns t.trail
  pub clash : c ≡ true → Clash t

-- what a binary watcher says of its clause
pub binary-lits :
    (c : List Lit) (p bl : Lit)
    → Watches false c p bl
    → (c ≡ neg p ∷ bl ∷ []) ⊎ (c ≡ bl ∷ neg p ∷ [])
binary-lits [] p bl h = absurd h
binary-lits (a ∷ []) p bl h = absurd h
binary-lits (a ∷ b ∷ []) p bl (inl (e, f)) = inl (rw (e, f))
binary-lits (a ∷ b ∷ []) p bl (inr (e, f)) = inr (rw (e, f))
binary-lits (a ∷ b ∷ d ∷ r) p bl h = absurd h

module _ (p : Lit) (w : Watcher) (s : Checker) (short : w.long ≡ false) (o : Ok s p w)
    (is_f : value s (neg p) ≡ l_false) where
  pub binary-IsUnit : value s w.blocker ≡ l_undef → IsUnit s.assigns (lits s w.cref) w.blocker
  binary-IsUnit u = elim (binary-lits (lits s w.cref) p w.blocker (rw short at o)) [
    | inl e ↦ rw e (inr (inl refl), (inr is_f, (inl refl, tt)), u)
    | inr e ↦ rw e (inl refl, (inl refl, (inr is_f, tt)), u)
  ]

  pub binary-Clash : value s w.blocker ≡ l_false → Clash s
  binary-Clash f = elim (binary-lits (lits s w.cref) p w.blocker (rw short at o)) [
    | inl e ↦ (w.cref, (λ x. cc), rw e (is_f, (f, tt)))
    | inr e ↦ (w.cref, (λ x. cc), rw e (f, (is_f, tt)))
  ]

Binaries-refl : (s : Checker) → Binaries s false s
Binaries-refl s = record {
  memory = refl;
  watches = refl;
  same = Same-refl;
  qhead = refl;
  forced = stay;
  clash = λ e. cc;
}

abbrev pub BinariesResult : Checker → Bool × Checker → Type 0
BinariesResult s r = Binaries s r.0 r.1

pub binaries_lem :
    (p : Lit) (ws : List Watcher) (s : Checker)
    → All (Ok s p) ws
    → value s (neg p) ≡ l_false
    → BinariesResult s (binaries ws s)
unfolding binaries
binaries_lem p [] s o f = Binaries-refl s
binaries_lem p (w ∷ ws) s o f = elim (Bool-cases w.long) [
  | inl long ↦ rw (long, binaries) (binaries_lem p ws s o.1 f)
  | inr short ↦ elim (Bool-cases (is_false (value s w.blocker))) [
    | inl b ↦
        rw (short, b, binaries)
          (record {
            memory = refl;
            watches = refl;
            same = Same-refl;
            qhead = refl;
            forced = stay;
            clash = λ _. binary-Clash p w s short o.0 f (ground arith);
          })
    | inr b ↦ elim (Bool-cases (is_undef (value s w.blocker))) [
      | inr c ↦ rw (short, b, c, binaries) (binaries_lem p ws s o.1 f)
      | inl c ↦
          let u = binary-IsUnit p w s short o.0 f (ground arith) in
          let forced : Forced (Stored s) s.assigns s.trail (unchecked_enqueue w.blocker s).assigns
              (unchecked_enqueue w.blocker s).trail =
            more stay (lits s w.cref) w.blocker (w.cref, Permᴰ.refl _) u in
          let rest =
            binaries_lem p ws (unchecked_enqueue w.blocker s) o.1 (Forced-false (neg p) forced f) in
          rw (short, b, c, binaries)
            (record {
              memory = rest.memory;
              watches = rest.watches;
              same = record {
                ok = rest.same.ok;
                proof = rest.same.proof;
                sz = rest.same.sz;
                unit_clauses = rest.same.unit_clauses;
                n_vars = rest.same.n_vars;
                occ = rest.same.occ;
              };
              qhead = rest.qhead;
              forced = Forced-trans forced rest.forced;
              clash = rest.clash;
            })
    ]
  ]
]
