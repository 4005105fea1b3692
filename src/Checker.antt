-- ===== src/Checker.antt =====
-- proofcheck/OnlineProofChecker.h: the state of the proof checker.
pub mod Propagate
pub mod Operations
pub mod Removal
pub mod Valid
pub mod Satisfaction
pub mod Loading
pub mod Refutation
pub mod Insertion
pub mod Addition
pub mod Removed
pub mod Session
pub mod Forced
pub mod Watched
pub mod Rounds
pub mod Runs
pub mod Propagation
pub mod UnitClauses
pub mod Outcome
mod Tests
use riss.Base.{ℕ, ◌+◌, ◌*◌, ◌≡◌, Bool, true, false, not, List, [], ◌∷◌, ◌++◌, update, length}
use riss.Lit.{Lit, Var, neg, sign, var}
use riss.Lifted.{LBool, l_undef, of_bool, lxor}
use riss.MarkArray.{MarkArray}
use riss.Clause.{Clause}

pub data ProofStyle : Type 0 where
  unknown_proof drup_proof drat_proof : ProofStyle

abbrev pub CRef : Type 0
CRef = ℕ

-- `long` is the watch type, 0 for binary clauses and 1 for longer ones
pub record Watcher : Type 0 where
  pub cref : CRef
  pub blocker : Lit
  pub long : Bool

-- `memory`, `sz` and `wasted` are the clause allocator, in 32-bit words; `n_vars` is assigns.size().
pub record Checker : Type 0 where
  pub ok : Bool
  pub proof : ProofStyle
  pub memory : CRef → Clause
  pub sz : ℕ
  pub wasted : ℕ
  pub clauses : List CRef
  pub unit_clauses : List Lit
  pub occ : Lit → List CRef
  pub watches : Lit → List Watcher
  pub ma : MarkArray
  pub qhead : ℕ
  pub trail : List Lit
  pub assigns : Var → LBool
  pub n_vars : ℕ

abbrev pub value : Checker → Lit → LBool
value s p = lxor (s.assigns (var p)) (sign p)

abbrev pub unchecked_enqueue : Lit → Checker → Checker
unchecked_enqueue p s = record s {
  assigns = update s.assigns (var p) (of_bool (not (sign p)));
  trail = s.trail ++ p ∷ [];
}
