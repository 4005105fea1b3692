-- ===== src/Lifted.antt =====
-- riss/core/SolverTypes.h: class lbool, as the three truth values that its byte stands for.
pub mod Byte
use riss.Base.{Bool, true, false, not, ◌≡◌, refl}

pub data LBool : Type 0 where
  l_true l_false l_undef : LBool

-- explicit lbool(bool x)
abbrev pub of_bool : Bool → LBool
of_bool true = l_true
of_bool false = l_false

-- operator ^
abbrev pub lxor : LBool → Bool → LBool
lxor l_true b = of_bool (not b)
lxor l_false b = of_bool b
lxor l_undef b = l_undef

abbrev pub is_true : LBool → Bool
is_true l_true = true
is_true _ = false

abbrev pub is_false : LBool → Bool
is_false l_false = true
is_false _ = false

abbrev pub is_undef : LBool → Bool
is_undef l_undef = true
is_undef _ = false
