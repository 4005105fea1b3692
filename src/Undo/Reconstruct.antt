-- ===== src/Undo/Reconstruct.antt =====
-- extendModel as a function on assignments: from the last clause on the stack to the first, a clause
-- that is not satisfied gets its first literal satisfied.
use riss.Base.{
  ◌<◌, ◌≡◌, inl, inr, refl, ap, ◌∙◌, fun_ext, true, false, not, ◌||◌, List, [], ◌∷◌, ◌++◌, map, leb,
  ltb, if◌then◌else◌, update, Bool-cases, arith,
}
use riss.Lit.{Lit, Var, LitCode, lit, lit_undef, var, sign}
use riss.Lifted.{is_true, is_undef}
use riss.Semantics.{Assignment, holds, sat}
use riss.Undo.{Model, fill, grow, set_true, is_satisfied, extend_from, extend_model}

-- what a model says of a variable that it may not hold yet
abbrev pub assignment : Model → Assignment
assignment m v = if ltb v m.size then is_true (m.vals v) else true

-- all values are set
pub record Total (m : Model) : Type 0 where
  pub defined : (v : Var) → v < m.size → is_undef (m.vals v) ≡ false

-- the assignment with a literal made true
abbrev pub with_lit : Assignment → Lit → Assignment
with_lit g l = update g (var l) (not (sign l))

-- a clause with the literal that is satisfied if need be; the others from the end
pub record Entry : Type 0 where
  pub first : Lit
  pub others : List Lit

abbrev pub entries : List Entry → List LitCode
entries [] = []
entries (e ∷ es) = map lit e.others ++ lit e.first ∷ lit_undef ∷ entries es

abbrev pub clause : Entry → List Lit
clause e = e.first ∷ e.others

abbrev pub repaired : Entry → Assignment → Assignment
repaired e g = if sat g (clause e) then g else with_lit g e.first

abbrev pub reconstruct : List Entry → Assignment → Assignment
reconstruct [] g = g
reconstruct (e ∷ es) g = reconstruct es (repaired e g)

fill-Total : (m : Model) → Total (fill m)
unfolding fill
fill-Total m = record { defined = λ v h. ground arith }

module _ (c : Lit) (m : Model) where
  grow-Total : Total m → Total (grow c m)
  unfolding grow
  grow-Total t = elim (Bool-cases (leb m.size (var c))) [
    | inl b ↦ rw b (record { defined = λ v h. ground (arith, t.defined v) })
    | inr b ↦ rw b t
  ]

  assignment-grow : assignment (grow c m) ≡ assignment m
  unfolding grow
  assignment-grow = fun_ext λ v. elim (Bool-cases (leb m.size (var c))) [
    | inl b ↦ rw b (ground arith)
    | inr b ↦ rw b refl
  ]

  grow-size : var c < (grow c m).size
  unfolding grow
  grow-size = elim (Bool-cases (leb m.size (var c))) [
    | inl b ↦ rw b (omega arith)
    | inr b ↦ rw b (ground arith)
  ]

-- a literal of the model is satisfied if the assignment satisfies it
is_satisfied-holds :
    (c : Lit) (m : Model) → Total m → var c < m.size → is_satisfied c m ≡ holds (assignment m) c
is_satisfied-holds c m t h = ground (arith, t.defined (var c) h)

set_true-Total : (c : Lit) (m : Model) → Total m → Total (set_true (lit c) m)
unfolding set_true
set_true-Total c m t = record { defined = λ v h. ground (arith, t.defined v h) }

assignment-set_true :
    (c : Lit) (m : Model)
    → var c < m.size
    → assignment (set_true (lit c) m) ≡ with_lit (assignment m) c
unfolding set_true
assignment-set_true c m h = fun_ext λ v. ground arith

-- a satisfied clause is skipped
skipped :
    (xs : List Lit) (next : LitCode) (l : Lit) (older : List LitCode) (m : Model)
    → extend_from true next (map lit xs ++ lit l ∷ lit_undef ∷ older) m
      ≡ extend_from false lit_undef older m
unfolding extend_from
skipped [] next l older m = refl
skipped (x ∷ xs) next l older m = skipped xs (lit x) l older m

-- the test in the order of the loop
abbrev repair_by : List Lit → Lit → Assignment → Assignment
repair_by xs l g = if sat g xs || holds g l then g else with_lit g l

repair_by-cons :
    (xs : List Lit) (l x : Lit) (g : Assignment)
    → holds g x ≡ false
    → repair_by xs l g ≡ repair_by (x ∷ xs) l g
repair_by-cons xs l x g h = rw h refl

repair_by-repaired : (e : Entry) (g : Assignment) → repair_by e.others e.first g ≡ repaired e g
repair_by-repaired e g = elim (Bool-cases (holds g e.first)) [
  | inl a ↦ elim (Bool-cases (sat g e.others)) [ inl b ↦ rw (a, b) refl | inr b ↦ rw (a, b) refl ]
  | inr a ↦ elim (Bool-cases (sat g e.others)) [ inl b ↦ rw (a, b) refl | inr b ↦ rw (a, b) refl ]
]

-- what the loop does with one clause
record Visited (xs : List Lit) (l : Lit) (older : List LitCode) (m : Model) (result : Model)
    : Type 0 where
  after : Model
  total : Total after
  rest : result ≡ extend_from false lit_undef older after
  repaired_to : assignment after ≡ repair_by xs l (assignment m)

visited :
    (xs : List Lit) (next : LitCode) (l : Lit) (older : List LitCode) (m : Model)
    → Total m
    → Visited xs l older m (extend_from false next (map lit xs ++ lit l ∷ lit_undef ∷ older) m)
unfolding extend_from
visited [] next l older m t =
    let m' = grow l m in
    let t' = grow-Total l m t in
    let same = assignment-grow l m in
    let test : is_satisfied l m' ≡ holds (assignment m) l =
      is_satisfied-holds l m' t' (grow-size l m) ∙ ap (λ g. holds g l) same in
    elim (Bool-cases (holds (assignment m) l)) [
      | inl b ↦ record {
        after = m';
        total = t';
        rest = ap (λ y. extend_from y (lit l) (lit_undef ∷ older) m') (test ∙ b);
        repaired_to = rw b same;
      }
      | inr b ↦ record {
        after = set_true (lit l) m';
        total = set_true-Total l m' t';
        rest = ap (λ y. extend_from y (lit l) (lit_undef ∷ older) m') (test ∙ b);
        repaired_to = rw b (assignment-set_true l m' (grow-size l m) ∙ ap (λ g. with_lit g l) same);
      }
    ]
visited (x ∷ xs) next l older m t =
    let m' = grow x m in
    let t' = grow-Total x m t in
    let same = assignment-grow x m in
    let test : is_satisfied x m' ≡ holds (assignment m) x =
      is_satisfied-holds x m' t' (grow-size x m) ∙ ap (λ g. holds g x) same in
    elim (Bool-cases (holds (assignment m) x)) [
      | inl b ↦ record {
        after = m';
        total = t';
        rest =
            ap (λ y. extend_from y (lit x) (map lit xs ++ lit l ∷ lit_undef ∷ older) m') (test ∙ b)
            ∙ skipped xs (lit x) l older m';
        repaired_to = rw b same;
      }
      | inr b ↦
          let v = visited xs (lit x) l older m' t' in
          record {
            after = v.after;
            total = v.total;
            rest =
                ap (λ y. extend_from y (lit x) (map lit xs ++ lit l ∷ lit_undef ∷ older) m')
                  (test ∙ b)
                ∙ v.rest;
            repaired_to =
                v.repaired_to ∙ (ap (repair_by xs l) same ∙ repair_by-cons xs l x (assignment m) b);
          }
    ]

extend_from-reconstruct :
    (es : List Entry) (m : Model)
    → Total m
    → assignment (extend_from false lit_undef (entries es) m) ≡ reconstruct es (assignment m)
unfolding extend_from
extend_from-reconstruct [] m t = refl
extend_from-reconstruct (e ∷ es) m t =
    let v = visited e.others lit_undef e.first (entries es) m t in
    let here : assignment v.after ≡ repaired e (assignment m) =
      v.repaired_to ∙ repair_by-repaired e (assignment m) in
    ap assignment v.rest ∙ (extend_from-reconstruct es v.after v.total ∙ ap (reconstruct es) here)

-- extendModel on a stack of clauses repairs the filled model clause by clause, from the last one on
-- the stack: a clause that the model does not satisfy gets its first literal satisfied.
pub extend_model-reconstruct :
    (es : List Entry) (m : Model)
    → assignment (extend_model (entries es) m) ≡ reconstruct es (assignment (fill m))
unfolding extend_model
extend_model-reconstruct es m = extend_from-reconstruct es (fill m) (fill-Total m)
