-- ===== src/Checker/Session/Drup.antt =====
-- The soundness of DRUP runs.
use riss.Base.{
  ◌≡◌, inl, inr, refl, sym, ◌∙◌, Bool, true, false, not, List, [], ◌∷◌, All, Bool-cases,
  Option-cases, some,
}
use riss.Lit.{Lit}
use riss.Semantics.{Assignment, sat, Models, Unsatisfiable}
use riss.Checker.{Checker, drup_proof}
use riss.Checker.Operations.{new_checker, cover, add_parsed_clause, add_clause, insert_clause}
use riss.Checker.Removal.{remove_clause}
use riss.Checker.Watched.{NoDup}
use riss.Checker.Valid.{Valid, cover-Valid, cover-Quiet, cover-covers}
use riss.Checker.Satisfaction.{Satisfies, Satisfies-Shuffled, Quiet-Shuffled}
use riss.Checker.Refutation.{Checked}
use riss.Checker.Insertion.{Satisfies-insert_clause, ok-insert_clause, proof-insert_clause}
use riss.Checker.Addition.{
  Added, ended, refused, only_checked, inserted, Answers, drup_not_drat, add_clause_ends,
}
use riss.Checker.Removed.{remove_clause-Fewer}
use riss.Checker.Session.{
  Op, parse, add, remove, perform, session, formula, IsProper, new_checker-Valid,
  new_checker-Satisfies, parse-Valid, reaches_empty, answer,
}

-- what an assignment that satisfies the formula knows of the checker
pub record Knows (g : Assignment) (s : Checker) : Type 0 where
  pub valid : Valid s
  pub ok : s.ok ≡ true
  pub drup : s.proof ≡ drup_proof
  pub satisfies : Satisfies g s

drup-Answers : (c : List Lit) (k : Bool) (s : Checker) → s.proof ≡ drup_proof → Answers c k s
drup-Answers c k s drup = inr (inr (inl (λ e. drup_not_drat (sym drup ∙ e))))

module _ (g : Assignment) where
  Checked-Knows : {s t : Checker} → Knows g s → Checked s t → Knows g t
  Checked-Knows k c = record {
    valid = c.valid;
    ok = c.shuffled.ok ∙ k.ok;
    drup = c.shuffled.proof ∙ k.drup;
    satisfies = Satisfies-Shuffled c.shuffled k.satisfies;
  }

  insert-Knows :
      (c : List Lit) (s : Checker)
      → Knows g s
      → Valid (insert_clause c s)
      → sat g c ≡ true
      → Satisfies g (insert_clause c s)
      → Knows g (insert_clause c s)
  insert-Knows c s k v e h = record {
    valid = v;
    ok = elim (Bool-cases (insert_clause c s).ok) [
      | inl b ↦ b
      | inr b ↦ elim (ok-insert_clause c s b) [
        | inl x ↦ absurd (let y : ◌≡◌ {A = Bool} false true = sym x ∙ k.ok in cc)
        | inr x ↦ absurd (let y : sat g [] ≡ true = rw (x, reaches_empty) at e in cc)
      ]
    ];
    drup = proof-insert_clause c s ∙ k.drup;
    satisfies = h;
  }

  pub parse-Knows :
      (c : List Lit) (s : Checker)
      → NoDup c
      → sat g c ≡ true
      → Knows g s
      → Knows g (add_parsed_clause c s)
  unfolding add_parsed_clause
  parse-Knows [] s d e k = cc
  parse-Knows (l ∷ c) s d e k =
      let u = cover (l ∷ c) s in
      let vu = cover-Valid (l ∷ c) k.valid in
      let ku =
        Checked-Knows k
          (record { valid = vu; shuffled = Quiet-Shuffled (cover-Quiet (l ∷ c) s) }) in
      insert-Knows (l ∷ c) u ku (parse-Valid (l ∷ c) s d k.valid) e
        (Satisfies-insert_clause g (l ∷ c) u vu d (cover-covers (l ∷ c) s) ku.satisfies e)

  add-Knows :
      {c : List Lit} {s t : Checker} {k b : Bool}
      → NoDup c
      → Knows g s
      → Added c s k b t
      → Knows g t
  add-Knows d n (ended e) = n
  add-Knows d n (refused e k) = Checked-Knows n k
  add-Knows d n (only_checked e k f) = Checked-Knows n k
  add-Knows {c = c} d n (inserted {t = t} e k f r v) =
      let e = f refl n.drup g n.satisfies in
      let n' = Checked-Knows n k in
      insert-Knows c t n' v e (Satisfies-insert_clause g c t k.valid d r n'.satisfies e)

  perform-Knows :
      (o : Op) (s : Checker)
      → IsProper o
      → Models g (formula (o ∷ []))
      → Knows g s
      → (t : Checker) × (perform o s ≡ some t) × Knows g t
  unfolding perform
  perform-Knows (parse c) s d m k = (add_parsed_clause c s, refl, parse-Knows c s d m.0 k)
  perform-Knows (add c x) s d m k =
      let (b, t, e, a) = add_clause_ends c x s k.valid d (drup-Answers c x s k.drup) in
      (t, rw (e, perform), add-Knows d k a)
  perform-Knows (remove c) s d m k =
      let f = remove_clause-Fewer c s k.valid in
      (
        (remove_clause c s).1,
        refl,
        record {
          valid = f.valid;
          ok = f.ok ∙ k.ok;
          drup = f.proof ∙ k.drup;
          satisfies = f.satisfies g k.satisfies;
        },
      )

  Models-split :
      (o : Op) (ops : List Op)
      → Models g (formula (o ∷ ops))
      → Models g (formula (o ∷ [])) × Models g (formula ops)
  Models-split (parse c) ops m = ((m.0, tt), m.1)
  Models-split (add c k) ops m = (tt, m)
  Models-split (remove c) ops m = (tt, m)

  session-Knows :
      (ops : List Op) (s t : Checker)
      → All IsProper ops
      → Models g (formula ops)
      → Knows g s
      → session ops s ≡ some t
      → Knows g t
  unfolding session
  session-Knows [] s t p m k e = let here : s ≡ t = cc in rw here at k
  session-Knows (o ∷ ops) s t p m k e =
      let (now, later) = Models-split o ops m in
      let (u, r, n) = perform-Knows o s p.0 now k in
      session-Knows ops u t p.1 later n (rw (r, session) at e)

Added-follows :
    {c : List Lit} {s t : Checker} {k b : Bool}
    → Added c s k b t
    → s.ok ≡ true
    → s.proof ≡ drup_proof
    → b ≡ true
    → (g : Assignment) → Satisfies g s
    → sat g c ≡ true
Added-follows (ended e) ok drup accepted g h =
    let wrong : ◌≡◌ {A = Bool} false true = sym e ∙ ok in absurd cc
Added-follows (refused e k) ok drup accepted g h = absurd cc
Added-follows (only_checked e k f) ok drup accepted g h = f refl drup g h
Added-follows (inserted e k f r w) ok drup accepted g h = f refl drup g h

pub start-Knows : (g : Assignment) → Knows g (new_checker drup_proof)
unfolding new_checker
start-Knows g = record {
  valid = new_checker-Valid drup_proof;
  ok = refl;
  drup = refl;
  satisfies = new_checker-Satisfies drup_proof g;
}

-- In DRUP mode: if a run of parsed, added and removed clauses, the parsed and the added ones without
-- duplicate literals, reaches the empty clause, then the parsed formula has no model.
pub drup_sound :
    (ops : List Op)
    → All IsProper ops
    → reaches_empty drup_proof ops ≡ true
    → Unsatisfiable (formula ops)
drup_sound ops p e g m = elim (Option-cases (session ops (new_checker drup_proof))) [
  | inl x ↦ absurd (let y : ◌≡◌ {A = Bool} false true = rw (x, reaches_empty) at e in cc)
  | inr (t, x) ↦
      let k = session-Knows g ops (new_checker drup_proof) t p m (start-Knows g) x in
      let y : not t.ok ≡ true = rw (x, reaches_empty) at e in
      let wrong : ◌≡◌ {A = Bool} false true = rw k.ok at y in absurd cc
]

-- In DRUP mode: an answer `true` of addClause, on a checker that keeps the invariant and has not
-- reached the empty clause, means that every assignment that satisfies the units and the stored
-- clauses that are not freed satisfies the added one, which has no literal twice.
pub add_clause_entails :
    (c : List Lit) (k : Bool) (s : Checker)
    → Valid s
    → NoDup c
    → s.ok ≡ true
    → s.proof ≡ drup_proof
    → answer (add_clause c k s) ≡ true
    → (g : Assignment) → Satisfies g s
    → sat g c ≡ true
add_clause_entails c k s v d ok drup e g h =
    let (b, t, here, a) = add_clause_ends c k s v d (drup-Answers c k s drup) in
    let accepted : b ≡ true = rw here at e in Added-follows a ok drup accepted g h
