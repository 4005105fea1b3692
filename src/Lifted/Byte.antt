-- ===== src/Lifted/Byte.antt =====
-- riss/core/SolverTypes.h: class lbool on its byte. The values 0, 1 and 2 stand for true, false and
-- undefined; 3 arises as the result of operations and stands for undefined as well. A value stays
-- below 4, so the bits that `sel` joins do not overlap, and the join is a sum.
mod Tests
use riss.Base.{
  ℕ, zero, suc, ◌+◌, ◌-◌, ◌*◌, ◌/◌, ◌%◌, ◌^◌, ◌<◌, ◌≡◌, inl, inr, refl, ap, Bool, true, false, not,
  ◌&&◌, ◌||◌, ◌==◌, if◌then◌else◌, arith, Bool-cases,
}
use riss.Lifted.{LBool, l_true, l_false, l_undef, lxor}

-- value & 2
abbrev pub is_set : ℕ → Bool
is_set v = (v / 2) % 2 == 1

unfoldable pub equal : ℕ → ℕ → Bool
equal a b = (is_set b && is_set a) || (not (is_set b) && (a == b))

unfoldable pub differs : ℕ → ℕ → Bool
unfolding equal
differs a b = not (equal a b)

unfoldable pub flip : ℕ → Bool → ℕ
flip a b = if b then (if a % 2 == 0 then a + 1 else a - 1) else a

abbrev pub sel : ℕ → ℕ → ℕ
sel a b = (a * 2) % 256 + (b * 8) % 256

-- (0xF7F755F4 >> sel) & 3
unfoldable pub both : ℕ → ℕ → ℕ
both a b = (4160181748 / 2 ^ sel a b) % 4

-- (0xFCFCF400 >> sel) & 3
unfoldable pub either : ℕ → ℕ → ℕ
either a b = (4244435968 / 2 ^ sel a b) % 4

-- the truth value that a byte stands for
abbrev pub of_byte : ℕ → LBool
of_byte v = if is_set v then l_undef else if v == 0 then l_true else l_false

-- the connectives of Kleene's logic
abbrev pub and : LBool → LBool → LBool
and l_false y = l_false
and l_true y = y
and l_undef l_false = l_false
and l_undef y = l_undef

abbrev pub or : LBool → LBool → LBool
or l_true y = l_true
or l_false y = y
or l_undef l_true = l_true
or l_undef y = l_undef

abbrev pub same : LBool → LBool → Bool
same l_true l_true = true
same l_false l_false = true
same l_undef l_undef = true
same _ _ = false

same-eq : (x y : LBool) → same x y ≡ true → x ≡ y
same-eq l_true l_true h = refl
same-eq l_false l_false h = refl
same-eq l_undef l_undef h = refl
same-eq l_true l_false h = cc
same-eq l_true l_undef h = cc
same-eq l_false l_true h = cc
same-eq l_false l_undef h = cc
same-eq l_undef l_true h = cc
same-eq l_undef l_false h = cc

abbrev same_bool : Bool → Bool → Bool
same_bool true b = b
same_bool false b = not b

same_bool-eq : (a b : Bool) → same_bool a b ≡ true → a ≡ b
same_bool-eq true b h = ground arith
same_bool-eq false b h = ground arith

-- a test of all values
abbrev every : ℕ → (ℕ → Bool) → Bool
every zero p = true
every (suc n) p = p n && every n p

every-lt : (n : ℕ) (p : ℕ → Bool) (a : ℕ) → every n p ≡ true → a < n → p a ≡ true
every-lt zero p a h lt = absurd (omega arith)
every-lt (suc n) p a h lt = elim (Bool-cases (a == n)) [
  | inl b ↦ let here : a ≡ n = ground arith in rw here (ground arith)
  | inr b ↦ every-lt n p a (ground arith) (ground arith)
]

every_pair :
    (p : ℕ → ℕ → Bool) (a b : ℕ)
    → every 4 (λ x. every 4 (λ y. p x y)) ≡ true
    → a < 4
    → b < 4
    → p a b ≡ true
every_pair p a b h la lb = every-lt 4 (p a) b (every-lt 4 (λ x. every 4 (p x)) a h la) lb

-- The operators on bytes below 4 are those of the three truth values that the bytes stand for: ==,
-- the shifted constants of && and || (Kleene's connectives), and ^ with either Boolean.
pub byte_lem :
    (a b : ℕ)
    → a < 4
    → b < 4
    → (equal a b ≡ same (of_byte a) (of_byte b))
      × (of_byte (both a b) ≡ and (of_byte a) (of_byte b))
      × (of_byte (either a b) ≡ or (of_byte a) (of_byte b))
      × (of_byte (flip a true) ≡ lxor (of_byte a) true)
      × (of_byte (flip a false) ≡ lxor (of_byte a) false)
unfolding equal both either flip
byte_lem a b la lb = (
  same_bool-eq _ _
      (every_pair (λ x y. same_bool (equal x y) (same (of_byte x) (of_byte y))) a b refl la lb),
  same-eq _ _
      (every_pair (λ x y. same (of_byte (both x y)) (and (of_byte x) (of_byte y))) a b refl la lb),
  same-eq _ _
      (every_pair (λ x y. same (of_byte (either x y)) (or (of_byte x) (of_byte y))) a b refl la lb),
  same-eq _ _ (every-lt 4 (λ x. same (of_byte (flip x true)) (lxor (of_byte x) true)) a refl la),
  same-eq _ _ (every-lt 4 (λ x. same (of_byte (flip x false)) (lxor (of_byte x) false)) a refl la),
)
