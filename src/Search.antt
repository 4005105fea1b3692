-- ===== src/Search.antt =====
-- riss/core/Solver.h and riss/core/Solver.cc: the state of the search, the trail and the decision
-- levels. The vectors `trail` and `trail_lim` are kept newest element first, `vec_at` reads them by
-- the source's index. The order heap is the set of its variables (Heap.antt models the heap).
pub mod Final
pub mod Forced
pub mod Justified
pub mod Levels
pub mod Trail
pub mod Backtrack
pub mod Propagate
pub mod Analyze
pub mod Learning
mod Tests
use riss.Base.{
  ℕ, ◌+◌, ◌-◌, Bool, true, not, ◌&&◌, ◌||◌, List, [], ◌∷◌, ltb, leb, ◌==◌, if◌then◌else◌, update,
  length, get_or,
}
use riss.Lit.{Lit, LitCode, Var, sign, var, lit_undef}
use riss.Lifted.{LBool, l_undef, of_bool, lxor}
use riss.Clause.{Clause}
use riss.Checker.{CRef, Watcher}

-- ReasonStruct: no reason (CRef_Undef), a clause, or the true literal of a binary clause
pub data Reason : Type 0 where
  no_reason : Reason
  by_clause : CRef → Reason
  by_lit : Lit → Reason

-- VarData; `level` is read at variables with a value only
pub record VarData : Type 0 where
  pub reason : Reason
  pub level : ℕ
  pub dom : LitCode
  pub position : ℕ

pub record Solver : Type 0 where
  pub ok : Bool
  pub assigns : Var → LBool
  pub polarity : Var → Bool
  pub decision : Var → Bool
  pub seen : Var → Bool
  pub vardata : Var → VarData
  pub order_heap : Var → Bool
  pub trail : List Lit
  pub trail_lim : List ℕ
  pub qhead : ℕ
  pub real_head : ℕ
  pub memory : CRef → Clause
  pub clauses : List CRef
  pub next_ref : CRef
  pub watches : Lit → List Watcher
  pub phase_saving : ℕ

-- the element at an index of a vector that is kept newest first
abbrev pub vec_at {ℓ} : {A : Type ℓ} → List A → ℕ → A → A
vec_at xs i d = get_or xs (length xs - 1 - i) d

-- shrink_(size - n): the oldest n elements
abbrev pub shrink_to {ℓ} : {A : Type ℓ} → ℕ → List A → List A
shrink_to n [] = []
shrink_to n (x ∷ xs) = if leb n (length xs) then shrink_to n xs else x ∷ xs

abbrev pub decision_level : Solver → ℕ
decision_level s = length s.trail_lim

abbrev pub level : Solver → Var → ℕ
level s x = (s.vardata x).level

abbrev pub reason : Solver → Var → Reason
reason s x = (s.vardata x).reason

abbrev pub value : Solver → Lit → LBool
value s p = lxor (s.assigns (var p)) (sign p)

abbrev pub lits : Solver → CRef → List Lit
lits s cr = (s.memory cr).lits

unfoldable pub new_decision_level : Solver → Solver
new_decision_level s = record s { trail_lim = length s.trail ∷ s.trail_lim }

-- both overloads, told apart by the reason; the addition to the proof is left out
unfoldable pub unchecked_enqueue : Lit → Reason → Solver → Solver
unchecked_enqueue p from s = record s {
  assigns = update s.assigns (var p) (of_bool (not (sign p)));
  vardata = update s.vardata (var p) (record {
    reason = from;
    level = decision_level s;
    dom = lit_undef;
    position = length s.trail;
  });
  trail = p ∷ s.trail;
}

unfoldable pub insert_var_order : Var → Solver → Solver
insert_var_order x s =
    if not (s.order_heap x) && s.decision x
    then record s { order_heap = update s.order_heap x true }
    else s

-- the body of the loop of cancelUntil, for the literal at index `c`
unfoldable pub unassign : Lit → ℕ → Solver → Solver
unfolding insert_var_order
unassign p c s =
    let saves = ltb 1 s.phase_saving || s.phase_saving == 1 && ltb (get_or s.trail_lim 0 0) c in
    insert_var_order (var p) (record s {
      assigns = update s.assigns (var p) l_undef;
      vardata =
          update s.vardata (var p)
            (record (s.vardata (var p)) { reason = no_reason; dom = lit_undef });
      polarity = if saves then update s.polarity (var p) (sign p) else s.polarity;
    })

-- for (c = trail.size() - 1; c >= lim; c--)
unfoldable pub unassign_down : ℕ → List Lit → Solver → Solver
unassign_down lim [] s = s
unassign_down lim (p ∷ ps) s =
    if leb lim (length ps) then unassign_down lim ps (unassign p (length ps) s) else s

unfoldable pub cancel_until : ℕ → Solver → Solver
unfolding unassign_down unassign
cancel_until lev s =
    if ltb lev (decision_level s)
    then (let lim = vec_at s.trail_lim lev 0 in
        let s' = unassign_down lim s.trail s in
        record s' {
          qhead = lim;
          real_head = lim;
          trail = shrink_to lim s'.trail;
          trail_lim = shrink_to lev s'.trail_lim;
        })
    else s
