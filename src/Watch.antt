-- ===== src/Watch.antt =====
-- riss/core/SolverTypes.h: struct Watcher, one word with the blocking literal in its lower 30 bits
-- and the watch type in the upper two.
mod Tests
use riss.Base.{ℕ, ◌+◌, ◌*◌, ◌/◌, ◌%◌, ◌^◌, ◌<◌, ◌≡◌, ◌≢◌, refl, Bool, true, false, ◌==◌, arith}
use riss.Lit.{Lit}

pub record WatcherWord : Type 0 where
  pub clause_reference : ℕ
  pub blocking_lit_data : ℕ

-- the upper two bits of a 32-bit word
abbrev pub type_bits : ℕ → ℕ
type_bits w = (w / 2 ^ 30) % 4

-- Watcher(cr, p, type)
unfoldable pub mk_watcher : ℕ → Lit → ℕ → WatcherWord
mk_watcher cr p type = record {
  clause_reference = cr;
  blocking_lit_data = (p % 2 ^ 30 + (type % 4) * 2 ^ 30) % 2 ^ 32;
}

unfoldable pub blocker : WatcherWord → Lit
blocker w = w.blocking_lit_data % 2 ^ 30

unfoldable pub set_cref : WatcherWord → ℕ → WatcherWord
set_cref w cr = record w { clause_reference = cr }

unfoldable pub set_blocker : WatcherWord → Lit → WatcherWord
set_blocker w p = record w { blocking_lit_data = p % 2 ^ 30 }

unfoldable pub is_binary : WatcherWord → Bool
is_binary w = type_bits w.blocking_lit_data == 0

unfoldable pub is_long : WatcherWord → Bool
is_long w = type_bits w.blocking_lit_data == 1

unfoldable pub match_watch_type : WatcherWord → ℕ → Bool
match_watch_type w type = type_bits w.blocking_lit_data == type % 4

-- A watcher that is built from a literal below 2 ^ 30 and a type below 4 gives back the literal and
-- the type: isBinary and isLong answer for the types 0 and 1, and matchWatchType for any type.
pub mk_watcher_round_trip :
    (cr : ℕ) (p : Lit) (type other : ℕ)
    → p < 2 ^ 30
    → type < 4
    → other < 4
    → (blocker (mk_watcher cr p type) ≡ p)
      × (is_binary (mk_watcher cr p type) ≡ (type == 0))
      × (is_long (mk_watcher cr p type) ≡ (type == 1))
      × (match_watch_type (mk_watcher cr p type) other ≡ (type == other))
unfolding mk_watcher blocker is_binary is_long match_watch_type
mk_watcher_round_trip cr p type other lp lt lo =
    let word : (p % 2 ^ 30 + (type % 4) * 2 ^ 30) % 2 ^ 32 ≡ p + type * 2 ^ 30 = omega arith in
    let bits : type_bits (p + type * 2 ^ 30) ≡ type = omega arith in
    let low : (p + type * 2 ^ 30) % 2 ^ 30 ≡ p = omega arith in
    let same : other % 4 ≡ other = omega arith in
    rw word (low, rw bits refl, rw bits refl, rw (bits, same) refl)

-- The setter of the blocking literal drops the watch type: whatever the watcher was, it is one of a
-- binary clause afterwards.
pub set_blocker_drops_type :
    (w : WatcherWord) (p : Lit)
    → p < 2 ^ 30
    → (blocker (set_blocker w p) ≡ p)
      × (is_binary (set_blocker w p) ≡ true)
      × (is_long (set_blocker w p) ≡ false)
unfolding blocker set_blocker is_binary is_long
set_blocker_drops_type w p lp =
    let low : (p % 2 ^ 30) % 2 ^ 30 ≡ p = omega arith in
    let bits : type_bits (p % 2 ^ 30) ≡ 0 = omega arith in (low, rw bits refl, rw bits refl)
