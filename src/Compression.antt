-- ===== src/Compression.antt =====
-- riss/utils/Compression.h and Compression.cc: the renaming of variables after a formula was
-- compressed. A vector is a function with its size. UNIT is `none`, var_Undef as a result as well.
-- Reading and writing the map file is not modelled.
pub mod Aligned
mod Tests
use riss.Base.{
  ℕ, zero, suc, ◌+◌, ◌-◌, ◌≡◌, Bool, true, false, not, ◌||◌, ◌&&◌, Option, none, some, ltb, leb,
  ◌==◌, if◌then◌else◌, update,
}
use riss.Lit.{Lit, Var, LitCode, lit, lit_undef, lit_error, mk_lit, sign, var}
use riss.Lifted.{LBool, l_undef}

-- `nvars` is mapping.size(), `postvars` is forward.size(), `trail_size` is trail.size()
pub record Compression : Type 0 where
  pub mapping : Var → Option Var
  pub nvars : ℕ
  pub forward : Var → Var
  pub postvars : ℕ
  pub trail : Var → LBool
  pub trail_size : ℕ
  pub decompressing : Bool

abbrev pub new_compression : Compression
new_compression = record {
  mapping = λ _. none;
  nvars = 0;
  forward = λ _. 0;
  postvars = 0;
  trail = λ _. l_undef;
  trail_size = 0;
  decompressing = false;
}

abbrev pub is_available : Compression → Bool
is_available s = ltb 0 s.nvars

abbrev pub diff : Compression → ℕ
diff s = s.nvars - s.postvars

abbrev pub value : Compression → Var → LBool
value s v = s.trail v

unfoldable pub set_decompressing : Compression → Bool → Compression
set_decompressing s b = record s { decompressing = b }

-- newVar: the trail is left alone
unfoldable pub new_var : Compression → Var × Compression
new_var s = if not (is_available s) || s.decompressing then (0, s) else (
  s.postvars,
  record s {
    mapping = update s.mapping s.nvars (some s.postvars);
    nvars = s.nvars + 1;
    forward = update s.forward s.postvars s.nvars;
    postvars = s.postvars + 1;
  },
)

unfoldable pub reset : Compression → Compression
reset s = record s {
  mapping = λ _. none;
  nvars = 0;
  forward = λ _. 0;
  postvars = 0;
  trail = λ _. l_undef;
  trail_size = 0;
}

unfoldable pub import_lit : Compression → LitCode → LitCode
import_lit s lit_undef = lit_undef
import_lit s lit_error = lit_error
import_lit s (lit p) =
    if is_available s
    then (if leb s.nvars (var p)
        then lit_error
        else elim (s.mapping (var p)) [ none ↦ lit_undef | some v ↦ lit (mk_lit v (sign p)) ])
    else lit p

unfoldable pub import_var : Compression → Var → Option Var
import_var s v = if is_available s then s.mapping v else some v

unfoldable pub export_lit : Compression → LitCode → LitCode
export_lit s lit_undef = lit_undef
export_lit s lit_error = lit_error
export_lit s (lit p) = if is_available s then lit (mk_lit (s.forward (var p)) (sign p)) else lit p

unfoldable pub export_var : Compression → Var → Var
export_var s v = if is_available s then s.forward v else v

-- the scan from the end of a new mapping for the highest variable
unfoldable pub last_var : (Var → Option Var) → ℕ → Var
last_var m zero = 0
last_var m (suc n) = elim (m n) [ none ↦ last_var m n | some v ↦ v ]

-- Write the first `n` entries of the new mapping and trail through the forward table, with the
-- highest new variable.
unfoldable pub write_through :
    (Var → Var)
    → (Var → Option Var)
    → (Var → LBool)
    → ℕ
    → (Var → Option Var) × (Var → LBool) × Var
    → (Var → Option Var) × (Var → LBool) × Var
write_through forward m t zero s = s
write_through forward m t (suc n) s =
    let (mapping, trail, highest) = write_through forward m t n s in
    let from = forward n in
    elim (m n) [
      | none ↦ (update mapping from none, update trail from (t n), highest)
      | some to ↦ (update mapping from (some to), trail, if ltb highest to then to else highest)
    ]

-- the loop that fills the forward table, with `to`
unfoldable pub fill_forward : (Var → Option Var) → ℕ → (Var → Var) → (Var → Var) × ℕ
fill_forward mapping zero f = (f, 0)
fill_forward mapping (suc n) f =
    let (f', to) = fill_forward mapping n f in
    elim (mapping n) [ none ↦ (f', to) | some v ↦ (update f' to n, to + 1) ]

-- forward.resize(highestVar + 1): new entries are 0
abbrev pub resized : (Var → Var) → ℕ → ℕ → Var → Var
resized f old n v = if ltb v old then (if ltb v n then f v else 0) else 0

-- update(_mapping, _trail), with the sizes of the arguments
unfoldable pub update_map : (Var → Option Var) → ℕ → (Var → LBool) → ℕ → Compression → Compression
update_map m size t t_size s =
    let (mapping, trail, highest) = write_through s.forward m t size (s.mapping, s.trail, 0) in
    let first = last_var m size in
    if is_available s
    then record s {
      mapping = mapping;
      trail = trail;
      forward = (fill_forward mapping s.nvars (resized s.forward s.postvars (highest + 1))).0;
      postvars = highest + 1;
    }
    else record s {
      mapping = m;
      nvars = size;
      trail = t;
      trail_size = t_size;
      forward = (fill_forward m size (resized s.forward s.postvars (first + 1))).0;
      postvars = first + 1;
    }
