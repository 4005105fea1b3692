-- ===== src/Occurrences/Clean.antt =====
-- Cleaning: smudged lists lose their deleted elements, the others are left alone.
use riss.Base.{
  ℕ, ◌≡◌, inl, inr, refl, Bool, true, false, List, [], ◌∷◌, ◌++◌, All, ◌==◌, ==→eq, if◌then◌else◌,
  Bool-cases, arith,
}
use riss.Lit.{IsMem}
use riss.Occurrences.{OccLists, remaining, smudge}

IsMem-snoc : (i j : ℕ) (is : List ℕ) → IsMem i is → IsMem i (is ++ j ∷ [])
IsMem-snoc i j [] m = absurd m
IsMem-snoc i j (x ∷ is) (inl e) = inl e
IsMem-snoc i j (x ∷ is) (inr m) = inr (IsMem-snoc i j is m)

IsMem-end : (i : ℕ) (is : List ℕ) → IsMem i (is ++ i ∷ [])
IsMem-end i [] = inl refl
IsMem-end i (x ∷ is) = inr (IsMem-end i is)

module _ {ℓ} {A : Type ℓ} where
  -- the flag of a list says that it is among the dirties
  pub record Marked (s : OccLists A) : Type 0 where
    pub listed : (i : ℕ) → s.dirty i ≡ true → IsMem i s.dirties

  -- smudge keeps the flags and the list of dirties in step, and sets the flag.
  pub smudge-Marked :
      (i : ℕ) (s : OccLists A) → Marked s → Marked (smudge i s) × ((smudge i s).dirty i ≡ true)
  unfolding smudge
  smudge-Marked i s m = elim (Bool-cases (s.dirty i)) [
    | inl b ↦ rw b (m, b)
    | inr b ↦ rw b (
      record {
        listed = λ j e. elim (Bool-cases (i == j)) [
          | inl c ↦ rw (==→eq i j c) (IsMem-end j s.dirties)
          | inr c ↦ IsMem-snoc j i s.dirties (m.listed j (ground arith))
        ];
      },
      ground arith,
    )
  ]

  module _ (deleted : A → Bool) where
    -- a list as it should be read: a dirty one without its deleted elements
    abbrev pub view : OccLists A → ℕ → List A
    view s i = if s.dirty i then remaining deleted (s.occs i) else s.occs i

    remaining_none : (xs : List A) → All (λ x. deleted x ≡ false) (remaining deleted xs)
    unfolding remaining
    remaining_none [] = tt
    remaining_none (x ∷ xs) = elim (Bool-cases (deleted x)) [
      | inl b ↦ rw b (remaining_none xs)
      | inr b ↦ rw b (b, remaining_none xs)
    ]
