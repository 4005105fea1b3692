-- ===== src/Undo.antt =====
-- coprocessor/CoprocessorTypes.h: the undo stack of CoprocessorData, and the extension of a model of
-- the simplified formula by the eliminated clauses.
-- Assertions and debug output are left out.
pub mod Reconstruct
pub mod Sound
pub mod Blocked
mod Tests
use riss.Base.{
  ℕ, zero, suc, ◌+◌, Bool, true, false, not, ◌&&◌, List, [], ◌∷◌, ◌==◌, leb, ltb, if◌then◌else◌,
  update,
}
use riss.Lit.{Lit, Var, LitCode, lit, lit_undef, lit_error, var, sign}
use riss.Lifted.{LBool, l_true, l_false, l_undef, is_true, is_false, is_undef}
use riss.Compression.{Compression, export_lit}

-- a vec<lbool>; nothing is read at or behind `size`
pub record Model : Type 0 where
  pub vals : Var → LBool
  pub size : ℕ

abbrev pub same_lit : LitCode → LitCode → Bool
same_lit lit_undef lit_undef = true
same_lit lit_error lit_error = true
same_lit (lit p) (lit q) = p == q
same_lit _ _ = false

-- The stack is listed from its end, so push_back puts an element in front.
unfoldable pub push_others : Compression → LitCode → List Lit → List LitCode → List LitCode
push_others k l [] undo = undo
push_others k l (x ∷ c) undo =
    push_others k l c (if same_lit (lit x) l then undo else export_lit k (lit x) ∷ undo)

-- push_back(exportLit(l)), unless it is lit_Error
abbrev pub push_first : Compression → LitCode → List LitCode → List LitCode
push_first k lit_error undo = undo
push_first k l undo = export_lit k l ∷ undo

-- addToExtension(lits, l)
unfoldable pub add_to_extension : Compression → List Lit → LitCode → List LitCode → List LitCode
add_to_extension k c l undo = push_others k l c (push_first k l (lit_undef ∷ undo))

-- addToExtension(dontTouch, l)
unfoldable pub add_pair_to_extension : Compression → Lit → LitCode → List LitCode → List LitCode
add_pair_to_extension k d l undo = export_lit k (lit d) ∷ push_first k l (lit_undef ∷ undo)

unfoldable pub add_extension_to_extension : Compression → List LitCode → List LitCode → List LitCode
add_extension_to_extension k [] undo = undo
add_extension_to_extension k (x ∷ c) undo = add_extension_to_extension k c (export_lit k x ∷ undo)

-- set free variables to some value
unfoldable pub fill : Model → Model
fill m = record m { vals = λ v. if ltb v m.size && is_undef (m.vals v) then l_true else m.vals v }

-- model.growTo(var(c) + 1, l_True), if the model is too small
unfoldable pub grow : Lit → Model → Model
grow c m =
    if leb m.size (var c)
    then record { vals = λ v. if leb m.size v then l_true else m.vals v; size = var c + 1 }
    else m

-- model[var(satLit)] = sign(satLit) ? l_False : l_True
unfoldable pub set_true : LitCode → Model → Model
set_true (lit p) m = record m { vals = update m.vals (var p) (if sign p then l_false else l_true) }
set_true _ m = m

abbrev pub is_satisfied : Lit → Model → Bool
is_satisfied c m = if sign c then is_false (m.vals (var c)) else is_true (m.vals (var c))

-- The loop over the stack from its end. `next` is undo[i + 1]. `skip` says that the clause is
-- satisfied, and its literals are skipped up to the delimiter. lit_Error is never on the stack.
unfoldable pub extend_from : Bool → LitCode → List LitCode → Model → Model
extend_from skip next [] m = m
extend_from true next (lit_undef ∷ r) m = extend_from false lit_undef r m
extend_from false next (lit_undef ∷ r) m = extend_from false lit_undef r (set_true next m)
extend_from true next (lit c ∷ r) m = extend_from true (lit c) r m
extend_from false next (lit c ∷ r) m =
    let m' = grow c m in extend_from (is_satisfied c m') (lit c) r m'
extend_from skip next (lit_error ∷ r) m = extend_from skip lit_error r m

unfoldable pub extend_model : List LitCode → Model → Model
extend_model undo m = extend_from false lit_undef undo (fill m)
