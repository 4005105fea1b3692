-- ===== src/Search/Levels.antt =====
-- Solver: the decision levels of the trail under new levels, new literals and backtracking.
use riss.Base.{
  ℕ, suc, ◌-◌, ◌≡◌, ◌≤◌, ◌<◌, inl, inr, refl, ap, Bool-cases, true, List, [], ◌∷◌, length, get_or,
  ltb, leb, arith, if◌then◌else◌,
}
use riss.Lit.{Lit, Var}
use riss.Search.{VarData, vec_at, shrink_to}
use riss.Search.Justified.{Floor, Leveled, Limits, level_at}

pub Limits-weaken : (m n : ℕ) (lims : List ℕ) → m ≤ n → Limits m lims → Limits n lims
Limits-weaken m n [] h l = tt
Limits-weaken m n (k ∷ lims) h l = (omega arith, l.1)

-- a literal behind all limits has the current level
pub level_at-top : (lims : List ℕ) (n i : ℕ) → Limits n lims → n ≤ i → level_at lims i ≡ length lims
unfolding level_at
level_at-top [] n i l h = refl
level_at-top (m ∷ lims) n i l h = ground arith

pub level_at-le : (lims : List ℕ) (i : ℕ) → level_at lims i ≤ length lims
unfolding level_at
level_at-le [] i = omega arith
level_at-le (m ∷ lims) i = ground (arith, level_at-le lims i)

-- the levels do not fall towards the newer literals
pub level_at_mono : (lims : List ℕ) (i j : ℕ) → i ≤ j → level_at lims i ≤ level_at lims j
unfolding level_at
level_at_mono [] i j h = omega arith
level_at_mono (m ∷ lims) i j h = ground (arith, level_at-le lims i, level_at_mono lims i j)

pub vec_at-cons :
    (n : ℕ) (lims : List ℕ) (lev : ℕ)
    → vec_at (n ∷ lims) lev 0 ≡ (if ltb lev (length lims) then vec_at lims lev 0 else n)
vec_at-cons n lims lev = elim (Bool-cases (ltb lev (length lims))) [
  | inl b ↦ rw b (
      ap (λ i. get_or (n ∷ lims) i 0)
        (let e : suc (length lims) - 1 - lev ≡ suc (length lims - 1 - lev) = ground arith in e))
  | inr b ↦ rw b (
      ap (λ i. get_or (n ∷ lims) i 0) (let e : suc (length lims) - 1 - lev ≡ 0 = ground arith in e))
]

pub vec_at-le : (lims : List ℕ) (n lev : ℕ) → Limits n lims → vec_at lims lev 0 ≤ n
vec_at-le [] n lev h = omega arith
vec_at-le (m ∷ lims) n lev h =
    rw (vec_at-cons m lims lev) (ground (arith, vec_at-le lims m lev h.1))

-- the literals below the limit of a level have at most that level, the others a higher one
pub level_at-limit :
    (lims : List ℕ) (i n lev : ℕ)
    → Limits n lims
    → lev < length lims
    → (i < vec_at lims lev 0 → level_at lims i ≤ lev)
      × (vec_at lims lev 0 ≤ i → lev < level_at lims i)
unfolding level_at
level_at-limit [] i n lev h k = absurd (omega arith)
level_at-limit (m ∷ lims) i n lev h k = elim (Bool-cases (ltb lev (length lims))) [
  | inl b ↦
      let ih = level_at-limit lims i m lev h.1 (ground arith) in
      let e = vec_at-cons m lims lev in
      let v = vec_at-le lims m lev h.1 in
      (λ x. ground (arith, ih.0, e, v), λ x. ground (arith, ih.1, e, v))
  | inr b ↦
      let e = vec_at-cons m lims lev in
      let v = level_at-le lims i in (λ x. ground (arith, e, v), λ x. ground (arith, e))
]

-- index 0 of the limits is where level 0 ends
pub Leveled-Floor :
    (lims : List ℕ) (vd : Var → VarData) (t : List Lit) (n : ℕ)
    → Leveled lims vd t
    → Limits n lims
    → 0 < length lims
    → Floor (vec_at lims 0 0) vd t
Leveled-Floor lims vd [] n lv lm h = tt
Leveled-Floor lims vd (l ∷ t) n lv lm h =
    let e = level_at-limit lims (length t) n 0 lm h in
    (
      λ x. (let z = e.0 x in omega arith),
      λ x. (let z = e.1 x in omega arith),
      Leveled-Floor lims vd t n lv.1 lm h,
    )

pub shrink_to-all {ℓ} : {A : Type ℓ} (n : ℕ) (xs : List A) → length xs ≤ n → shrink_to n xs ≡ xs
shrink_to-all n [] h = refl
shrink_to-all n (x ∷ xs) h = ground arith

pub length-shrink_to {ℓ} :
    {A : Type ℓ} (n : ℕ) (xs : List A) → n ≤ length xs → length (shrink_to n xs) ≡ n
length-shrink_to n [] h = omega arith
length-shrink_to n (x ∷ xs) h = elim (Bool-cases (leb n (length xs))) [
  | inl b ↦ rw b (length-shrink_to n xs (ground arith))
  | inr b ↦ rw b (ground arith)
]

-- below the limit of a level only the limits of the levels up to it count
pub level_at-shrink_to :
    (lims : List ℕ) (i n lev : ℕ)
    → Limits n lims
    → lev < length lims
    → i < vec_at lims lev 0
    → level_at (shrink_to lev lims) i ≡ level_at lims i
unfolding level_at
level_at-shrink_to [] i n lev h k x = absurd (omega arith)
level_at-shrink_to (m ∷ lims) i n lev h k x = elim (Bool-cases (ltb lev (length lims))) [
  | inl b ↦
      let e = vec_at-cons m lims lev in
      let v = vec_at-le lims m lev h.1 in
      ground (arith, level_at-shrink_to lims i m lev h.1 (ground arith) (ground (arith, e)))
  | inr b ↦ let e = vec_at-cons m lims lev in ground (arith, shrink_to-all lev lims (ground arith))
]

-- the limits that are left are bounded by the limit of the level
pub Limits-shrink_to :
    (lims : List ℕ) (n lev : ℕ)
    → Limits n lims
    → lev < length lims
    → Limits (vec_at lims lev 0) (shrink_to lev lims)
Limits-shrink_to [] n lev h k = tt
Limits-shrink_to (m ∷ lims) n lev h k = elim (Bool-cases (ltb lev (length lims))) [
  | inl b ↦
      let c : leb lev (length lims) ≡ true = ground arith in
      rw (vec_at-cons m lims lev, b, c) (Limits-shrink_to lims m lev h.1 (ground arith))
  | inr b ↦
      let c : leb lev (length lims) ≡ true = ground arith in
      rw (vec_at-cons m lims lev, b, c, shrink_to-all lev lims (ground arith)) h.1
]
