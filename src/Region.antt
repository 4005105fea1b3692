-- ===== src/Region.antt =====
-- riss/mtl/Alloc.h: class RegionAllocator, the sizes of the region in 32-bit words. The memory itself
-- is not modelled, and realloc is taken to succeed; `none` stands for OutOfMemoryException.
pub mod Growth
mod Tests
use riss.Base.{
  ℕ, zero, suc, ◌+◌, ◌*◌, ◌/◌, ◌%◌, ◌^◌, Bool, true, false, Option, none, some, leb, ltb,
  if◌then◌else◌,
}

pub record Region : Type 0 where
  pub sz : ℕ
  pub cap : ℕ
  pub wasted : ℕ

abbrev pub empty_region : Region
empty_region = record { sz = 0; cap = 0; wasted = 0 }

-- ((cap >> 1) + (cap >> 3) + 2) & ~1, which stays below 2 ^ 32
abbrev pub delta : ℕ → ℕ
delta cap = (cap / 2 + cap / 8 + 2) / 2 * 2

-- What the loop of capacity comes to: out of fuel, out of memory, or a capacity.
pub data Outcome : Type 0 where
  no_fuel out_of_memory : Outcome
  capacity : ℕ → Outcome

-- The check for an overflow compares with the capacity before the loop.
unfoldable pub grow : ℕ → ℕ → ℕ → ℕ → Outcome
grow zero prev_cap min_cap cap = no_fuel
grow (suc fuel) prev_cap min_cap cap =
    let next = (cap + delta cap) % 2 ^ 32 in
    let rest = grow fuel prev_cap min_cap next in
    if ltb cap min_cap then (if leb next prev_cap then out_of_memory else rest) else capacity cap

unfoldable pub reserve : ℕ → ℕ → Region → Option Region
reserve fuel min_cap r =
    let grown : Option Region = elim (grow fuel r.cap min_cap r.cap) [
      | capacity c ↦ some (record r { cap = c })
      | _ ↦ none
    ] in
    if leb min_cap r.cap then some r else grown

-- alloc(size): the reference of the new element and the region
unfoldable pub alloc : ℕ → ℕ → Region → Option (ℕ × Region)
alloc fuel size r = elim (reserve fuel ((r.sz + size) % 2 ^ 32) r) [
  | none ↦ none
  | some t ↦
      let next = (t.sz + size) % 2 ^ 32 in
      if ltb next t.sz then none else some (t.sz, record t { sz = next })
]

unfoldable pub free : ℕ → Region → Region
free size r = record r { wasted = (r.wasted + size) % 2 ^ 32 }

unfoldable pub fit_size : Region → Region
fit_size r = record r { cap = r.sz }

-- moveTo: what the other region is afterwards, and what this one is
unfoldable pub move_to : Region → Region × Region
move_to r = (r, empty_region)

unfoldable pub clear : Bool → Region → Region
clear clean r = record r { sz = 0; wasted = 0; cap = if clean then 0 else r.cap }
