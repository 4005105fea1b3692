-- ===== src/Search/Learning/Stored.antt =====
-- Solver::handleLearntClause: the learned clause is stored and implies its first literal.
use riss.Base.{
  ℕ, ◌≡◌, ◌≢◌, inl, inr, refl, ap, sym, subst, ◌∙◌, Bool, not, List, [], ◌∷◌, ◌++◌, All, All-map,
  arith, if◌then◌else◌, ltb, leb, Bool-cases, ◌==◌, length,
}
use riss.Lit.{Lit, Var, IsMem, neg, var}
use riss.Lifted.{LBool, l_true, l_undef}
use riss.Semantics.{Entails}
use riss.Clause.{Clause}
use riss.Checker.{CRef}
use riss.Search.{
  Reason, no_reason, by_clause, by_lit, VarData, Solver, decision_level, reason, value,
  unchecked_enqueue, insert_var_order, unassign, unassign_down, cancel_until, vec_at,
}
use riss.Search.Justified.{Forces, ReasonHolds, Justified, IsValid}
use riss.Search.Trail.{unchecked_enqueue-IsValid, update-same, update-other}
use riss.Search.Learning.{alloc_clause, attach, handle_learnt_clause}

-- no variable has the reference as its reason
abbrev pub NoReason : Solver → CRef → Type 0
NoReason s cr = (v : Var) → reason s v ≢ by_clause cr

unassign-NoReason :
    (p : Lit) (c : ℕ) (s : Solver) (cr : CRef) → NoReason s cr → NoReason (unassign p c s) cr
unfolding unassign insert_var_order
unassign-NoReason p c s cr h v e =
    let z = h v in elim (Bool-cases (var p == v)) [ inl b ↦ ground arith | inr b ↦ ground arith ]

unassign_down-NoReason :
    (lim : ℕ) (t : List Lit) (s : Solver) (cr : CRef)
    → NoReason s cr
    → NoReason (unassign_down lim t s) cr
unfolding unassign_down
unassign_down-NoReason lim [] s cr h = h
unassign_down-NoReason lim (p ∷ t) s cr h = elim (Bool-cases (leb lim (length t))) [
  | inl b ↦ rw b (
      unassign_down-NoReason lim t (unassign p (length t) s) cr
        (unassign-NoReason p (length t) s cr h))
  | inr b ↦ rw b h
]

unassign_down-next_ref :
    (lim : ℕ) (t : List Lit) (s : Solver) → (unassign_down lim t s).next_ref ≡ s.next_ref
unfolding unassign_down unassign insert_var_order
unassign_down-next_ref lim [] s = refl
unassign_down-next_ref lim (p ∷ t) s = elim (Bool-cases (leb lim (length t))) [
  | inl b ↦ rw b (unassign_down-next_ref lim t (unassign p (length t) s) ∙ ground arith)
  | inr b ↦ rw b refl
]

pub cancel_until-NoReason :
    (lev : ℕ) (s : Solver)
    → NoReason s s.next_ref
    → NoReason (cancel_until lev s) (cancel_until lev s).next_ref
unfolding cancel_until
cancel_until-NoReason lev s h = elim (Bool-cases (ltb lev (decision_level s))) [
  | inl b ↦
      let lim = vec_at s.trail_lim lev 0 in
      let e = unassign_down-next_ref lim s.trail s in
      rw b (
        subst (NoReason (unassign_down lim s.trail s)) (sym e)
          (unassign_down-NoReason lim s.trail s s.next_ref h))
  | inr b ↦ rw b h
]

-- a clause that is no reason may change
Justified-memory :
    (f : List (List Lit)) (mem mem' : CRef → Clause) (vd : Var → VarData) (cr : CRef) (t : List Lit)
    → ((j : CRef) → cr ≢ j → mem' j ≡ mem j)
    → ((v : Var) → (vd v).reason ≢ by_clause cr)
    → Justified f mem vd t
    → Justified f mem' vd t
Justified-memory f mem mem' vd cr [] same n h = tt
Justified-memory f mem mem' vd cr (l ∷ t) same n h = (
  holds_still (vd (var l)).reason (n (var l)) h.0,
  h.1,
  Justified-memory f mem mem' vd cr t same n h.2,
)
  where
    holds_still :
        (r : Reason)
        → r ≢ by_clause cr
        → ReasonHolds f mem l (vd (var l)).level t r
        → ReasonHolds f mem' l (vd (var l)).level t r
    holds_still no_reason m h = h
    holds_still (by_lit q) m h = h
    holds_still (by_clause j) m h = rw (same j (λ e. m (ap by_clause (sym e)))) h

enqueued-true :
    (k : Lit) (from : Reason) (s : Solver)
    → (value (unchecked_enqueue k from s) k ≡ l_true)
      × (decision_level (unchecked_enqueue k from s) ≡ decision_level s)
unfolding unchecked_enqueue
enqueued-true k from s = (ground arith, refl)

stored-IsValid :
    {f : List (List Lit)} (learnt : Bool) (c : List Lit) (s : Solver)
    → IsValid f s
    → NoReason s s.next_ref
    → IsValid f (alloc_clause learnt c s)
unfolding alloc_clause
stored-IsValid {f} learnt c s h n = record {
  justified =
      Justified-memory f s.memory (alloc_clause learnt c s).memory s.vardata s.next_ref s.trail
        (λ j ne. update-other s.memory s.next_ref j _ (λ e. ne (sym e))) n h.justified;
  holding = h.holding;
  on_trail = h.on_trail;
  leveled = h.leveled;
  limits = h.limits;
  head = h.head;
}

attached-IsValid :
    {f : List (List Lit)} (core : Bool) (cr : CRef) (s : Solver)
    → IsValid f s
    → IsValid f
        (attach cr (record s { clauses = if core then s.clauses ++ cr ∷ [] else s.clauses }))
unfolding attach
attached-IsValid core cr s h = record {
  justified = h.justified;
  holding = h.holding;
  on_trail = h.on_trail;
  leveled = h.leveled;
  limits = h.limits;
  head = h.head;
}

-- The learned clause is stored, and its first literal is implied.
abbrev pub Implied : List (List Lit) → Lit → Solver → LBool × Solver → Type 0
Implied f k s (b, u) =
    (b ≡ l_undef) × IsValid f u × (value u k ≡ l_true) × (decision_level u ≡ decision_level s)

handle_unit :
    (core : Bool) (k : Lit) (s : Solver)
    → value s k ≡ l_undef
    → handle_learnt_clause core k [] s ≡ (l_undef, unchecked_enqueue k no_reason s)
unfolding handle_learnt_clause
handle_unit core k s v = rw (v, handle_learnt_clause) refl

pub handle_learnt_clause-Implied :
    {f : List (List Lit)} (core : Bool) (k : Lit) (d : List Lit) (s : Solver)
    → IsValid f s
    → Entails f (k ∷ d)
    → s.assigns (var k) ≡ l_undef
    → All (λ q. IsMem (neg q) s.trail) d
    → NoReason s s.next_ref
    → Implied f k s (handle_learnt_clause core k d s)
unfolding handle_learnt_clause
handle_learnt_clause-Implied {f} core k [] s h ent u al n =
    let v : value s k ≡ l_undef = rw u refl in
    let t = unchecked_enqueue k no_reason s in
    let e = enqueued-true k no_reason s in
    subst (Implied f k s) (sym (handle_unit core k s v))
      (refl, unchecked_enqueue-IsValid k no_reason s h u (λ z. ent), e.0, e.1)
handle_learnt_clause-Implied {f} core k (x ∷ r) s h ent u al n =
    let w = stored-IsValid (not core) (k ∷ x ∷ r) s h n in
    let cr = s.next_ref in
    let s' = alloc_clause (not core) (k ∷ x ∷ r) s in
    let s'' =
      attach cr (record s' { clauses = if core then s'.clauses ++ cr ∷ [] else s'.clauses }) in
    let w' : IsValid f s'' = attached-IsValid core cr s' w in
    let e = enqueued-true k (by_clause cr) s'' in
    let same : (s''.memory cr).lits ≡ k ∷ x ∷ r = ap (λ c. c.lits) (update-same s.memory cr _) in
    let forced : Entails f (s''.memory cr).lits × Forces k s.trail (s''.memory cr).lits =
      subst (λ c. Entails f c × Forces k s.trail c) (sym same)
        (ent, ((inl refl, All-map (x ∷ r) (λ q m. inr m) al), inr refl)) in
    (refl, unchecked_enqueue-IsValid k (by_clause cr) s'' w' u forced, e.0, e.1)
