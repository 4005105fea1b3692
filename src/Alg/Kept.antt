-- ===== src/Alg/Kept.antt =====
-- What removals keep of a vector.
use riss.Base.{
  ℕ, zero, suc, ◌≡◌, ◌⊎◌, inl, inr, refl, sym, subst, ◌∙◌, Bool, false, Bool-cases, List, [], ◌∷◌,
  Option-cases, none, some, set, All, arith,
}
use riss.Alg.{index_of, last?, pop, swap_last, remove_unsort}

module _ {ℓ κ} {A : Type ℓ} (P : A → Type κ) where
  All-pop : (xs : List A) → All P xs → All P (pop xs)
  All-pop [] h = tt
  All-pop (x ∷ []) h = tt
  All-pop (x ∷ y ∷ xs) h = (h.0, All-pop (y ∷ xs) h.1)

  All-set : (xs : List A) (j : ℕ) (v : A) → P v → All P xs → All P (set xs j v)
  All-set [] j v p h = tt
  All-set (x ∷ xs) zero v p h = (p, h.1)
  All-set (x ∷ xs) (suc j) v p h = (h.0, All-set xs j v p h.1)

  pub All-last : (xs : List A) (z : A) → last? xs ≡ some z → All P xs → P z
  All-last [] z e h = cc
  All-last (x ∷ xs) z e h = elim (Option-cases (last? xs)) [
    | inl n ↦ let here : x ≡ z = ground arith in rw here at h.0
    | inr (y, n) ↦ let here : y ≡ z = ground arith in All-last xs z (rw here at n) h.1
  ]

  pub All-swap_last : (xs : List A) (j : ℕ) → All P xs → All P (swap_last xs j)
  unfolding swap_last
  All-swap_last xs j h = elim (Option-cases (last? xs)) [
    | inl n ↦ rw (n, swap_last) tt
    | inr (z, n) ↦ rw (n, swap_last) (All-pop (set xs j z) (All-set xs j z (All-last xs z n h) h))
  ]

  pub All-remove_unsort : (p : A → Bool) (xs : List A) → All P xs → All P (remove_unsort p xs)
  unfolding remove_unsort
  All-remove_unsort p xs h = All-swap_last xs (index_of p xs) h

module _ {ℓ} {A : Type ℓ} where
  last-cons : (y : A) (xs : List A) → last? (y ∷ xs) ≡ none → ⊥
  last-cons y xs h = elim (Option-cases (last? xs)) [
    | inl n ↦ ground arith
    | inr (w, n) ↦ ground arith
  ]

  last-tail :
      (x y : A) (xs : List A) (z : A) → last? (x ∷ y ∷ xs) ≡ some z → last? (y ∷ xs) ≡ some z
  last-tail x y xs z e = elim (Option-cases (last? (y ∷ xs))) [
    | inl n ↦ absurd (last-cons y xs n)
    | inr (w, n) ↦ ground arith
  ]

-- A relation between every element and the later ones.
module _ {ℓ κ} {A : Type ℓ} (R : A → A → Type κ) where
  abbrev pub Pairs : List A → Type κ
  Pairs [] = Unit
  Pairs (x ∷ xs) = All (R x) xs × Pairs xs

  module _ (symmetric : (x y : A) → R x y → R y x) where
    Pairs-pop : (xs : List A) → Pairs xs → Pairs (pop xs)
    Pairs-pop [] h = tt
    Pairs-pop (x ∷ []) h = tt
    Pairs-pop (x ∷ y ∷ xs) h = (All-pop (R x) (y ∷ xs) h.0, Pairs-pop (y ∷ xs) h.1)

    -- the last element is related to those before it
    last-related : (xs : List A) (z : A) → last? xs ≡ some z → Pairs xs → All (R z) (pop xs)
    last-related [] z e h = tt
    last-related (x ∷ []) z e h = tt
    last-related (x ∷ y ∷ xs) z e h = elim (Option-cases (last? (y ∷ xs))) [
      | inl n ↦ absurd (last-cons y xs n)
      | inr (w, n) ↦
          let here : w ≡ z = ground arith in
          (
            symmetric x z (rw here at (All-last (R x) (y ∷ xs) w n h.0)),
            last-related (y ∷ xs) z (rw here at n) h.1,
          )
    ]

    Pairs-put :
        (xs : List A) (j : ℕ) (z : A) → last? xs ≡ some z → Pairs xs → Pairs (pop (set xs j z))
    Pairs-put [] j z e h = tt
    Pairs-put (x ∷ []) zero z e h = tt
    Pairs-put (x ∷ []) (suc j) z e h = tt
    Pairs-put (x ∷ y ∷ xs) zero z e h =
        (last-related (y ∷ xs) z (last-tail x y xs z e) h.1, Pairs-pop (y ∷ xs) h.1)
    Pairs-put (x ∷ y ∷ xs) (suc zero) z e h =
        let e' = last-tail x y xs z e in
        (
          All-pop (R x) (z ∷ xs) (All-last (R x) (y ∷ xs) z e' h.0, h.0.1),
          Pairs-put (y ∷ xs) zero z e' h.1,
        )
    Pairs-put (x ∷ y ∷ xs) (suc (suc j)) z e h =
        let e' = last-tail x y xs z e in
        (
          All-pop (R x) (set (y ∷ xs) (suc j) z)
              (All-set (R x) (y ∷ xs) (suc j) z (All-last (R x) (y ∷ xs) z e' h.0) h.0),
          Pairs-put (y ∷ xs) (suc j) z e' h.1,
        )

    pub Pairs-swap_last : (xs : List A) (j : ℕ) → Pairs xs → Pairs (swap_last xs j)
    unfolding swap_last
    Pairs-swap_last xs j h = elim (Option-cases (last? xs)) [
      | inl n ↦ rw (n, swap_last) tt
      | inr (z, n) ↦ rw (n, swap_last) (Pairs-put xs j z n h)
    ]

-- where the test holds at most once, it holds of nothing that is left
module _ {ℓ} {A : Type ℓ} (p : A → Bool) where
  abbrev pub AtMostOne : List A → Type ℓ
  AtMostOne [] = Unit
  AtMostOne (x ∷ xs) = ((p x ≡ false) ⊎ All (λ y. p y ≡ false) xs) × AtMostOne xs

  pop-set :
      (x y z : A) (xs : List A) (j : ℕ) → pop (x ∷ set (y ∷ xs) j z) ≡ x ∷ pop (set (y ∷ xs) j z)
  pop-set x y z xs zero = refl
  pop-set x y z xs (suc j) = refl

  put-clear :
      (xs : List A) (z : A)
      → last? xs ≡ some z
      → AtMostOne xs
      → All (λ x. p x ≡ false) (pop (set xs (index_of p xs) z))
  unfolding index_of
  put-clear [] z e h = tt
  put-clear (x ∷ []) z e h = elim (Bool-cases (p x)) [ inl b ↦ rw b tt | inr b ↦ rw b tt ]
  put-clear (x ∷ y ∷ xs) z e h = elim (Bool-cases (p x)) [
    | inl b ↦
        let others : All (λ x. p x ≡ false) (y ∷ xs) = elim h.0 [
          | inl n ↦ absurd (let w = sym b ∙ n in cc)
          | inr a ↦ a
        ] in
        rw b (
          All-last (λ x. p x ≡ false) (y ∷ xs) z (last-tail x y xs z e) others,
          All-pop (λ x. p x ≡ false) (y ∷ xs) others,
        )
    | inr b ↦ rw b (
        subst (All (λ x. p x ≡ false)) (sym (pop-set x y z xs (index_of p (y ∷ xs))))
          (b, put-clear (y ∷ xs) z (last-tail x y xs z e) h.1))
  ]

  pub remove_unsort-clear :
      (xs : List A) → AtMostOne xs → All (λ x. p x ≡ false) (remove_unsort p xs)
  unfolding remove_unsort swap_last
  remove_unsort-clear xs h = elim (Option-cases (last? xs)) [
    | inl n ↦ rw (n, swap_last) tt
    | inr (z, n) ↦ rw (n, swap_last) (put-clear xs z n h)
  ]
