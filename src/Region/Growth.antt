-- ===== src/Region/Growth.antt =====
-- The region grows to what is asked of it, up to half of the 32-bit range.
use riss.Base.{
  ℕ, zero, suc, ◌+◌, ◌%◌, ◌^◌, ◌≤◌, ◌<◌, ◌≡◌, inl, inr, refl, ap, false, some, leb, ltb, Bool-cases,
  arith,
}
use riss.Region.{Region, delta, Outcome, capacity, grow, reserve, alloc}

pub record Grown (min_cap prev : ℕ) (o : Outcome) : Type 0 where
  pub cap : ℕ
  pub returns : o ≡ capacity cap
  pub enough : min_cap ≤ cap
  pub larger : prev ≤ cap
  pub fits : cap < 2 ^ 32

grow-Grown :
    (fuel prev min_cap cap : ℕ)
    → min_cap ≤ 2 ^ 31
    → prev ≤ cap
    → cap < 2 ^ 32
    → min_cap < cap + fuel
    → 0 < fuel
    → Grown min_cap prev (grow fuel prev min_cap cap)
unfolding grow
grow-Grown zero prev min_cap cap m p c f g = absurd (omega arith)
grow-Grown (suc fuel) prev min_cap cap m p c f g = elim (Bool-cases (ltb cap min_cap)) [
  | inr b ↦
      rw (b, grow)
        (record { cap = cap; returns = refl; enough = ground arith; larger = p; fits = c })
  | inl b ↦
      let low : cap < min_cap = ground arith in
      let next = (cap + delta cap) % 2 ^ 32 in
      let more : cap + 1 ≤ next = omega (arith, low, m) in
      let fits : next < 2 ^ 32 = omega (arith, low, m) in
      let no_overflow : leb next prev ≡ false = ground (arith, more, p) in
      rw (b, no_overflow, grow)
        (grow-Grown fuel prev min_cap next m (omega (arith, more, p)) fits (omega (arith, more, f))
          (omega (arith, low, f)))
]

-- Asked for at most 2 ^ 31 words, with fuel for more than the request, capacity returns, and the region
-- has at least that capacity, no less than before, in 32 bits.
pub reserve-Grown :
    (fuel min_cap : ℕ) (r : Region)
    → min_cap ≤ 2 ^ 31
    → r.cap < 2 ^ 32
    → min_cap < fuel
    → (t : Region) × (reserve fuel min_cap r ≡ some t)
      × (min_cap ≤ t.cap)
      × (r.cap ≤ t.cap)
      × (t.cap < 2 ^ 32)
      × (t.sz ≡ r.sz)
unfolding reserve
reserve-Grown fuel min_cap r m c f = elim (Bool-cases (leb min_cap r.cap)) [
  | inl b ↦ (r, rw (b, reserve) refl, ground arith, omega arith, c, refl)
  | inr b ↦
      let g =
        grow-Grown fuel r.cap min_cap r.cap m (omega arith) c (omega (arith, f))
          (omega (arith, f)) in
      (record r { cap = g.cap }, rw (b, g.returns, reserve) refl, g.enough, g.larger, g.fits, refl)
]

-- alloc returns the old size as the reference, and the new element lies within the capacity, as long as
-- the region stays within 2 ^ 31 words.
pub alloc-within :
    (fuel size : ℕ) (r : Region)
    → r.sz + size ≤ 2 ^ 31
    → r.cap < 2 ^ 32
    → r.sz + size < fuel
    → (t : Region) × (alloc fuel size r ≡ some (r.sz, t)) × (t.sz ≡ r.sz + size) × (t.sz ≤ t.cap)
unfolding alloc
alloc-within fuel size r m c f =
    let exact : (r.sz + size) % 2 ^ 32 ≡ r.sz + size = omega (arith, m) in
    let (t, e, enough, larger, fits, same) = reserve-Grown fuel (r.sz + size) r m c f in
    let next : (t.sz + size) % 2 ^ 32 ≡ r.sz + size = omega (arith, same, m) in
    let no_overflow : ltb (r.sz + size) t.sz ≡ false = ground (arith, same) in
    (
      record t { sz = r.sz + size },
      rw (exact, e, alloc, next, no_overflow)
          (ap (λ y. some (y, record t { sz = r.sz + size })) same),
      refl,
      enough,
    )
