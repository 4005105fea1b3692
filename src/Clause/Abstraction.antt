-- ===== src/Clause/Abstraction.antt =====
-- The abstraction of a clause holds a bit for each of its variables, so a clause whose literals are
-- all in another one passes the test of Clause::subsumes.
use riss.Base.{
  ℕ, zero, suc, ◌%◌, ◌≡◌, ◌⊎◌, inl, inr, refl, ap, Bool, true, false, List, [], ◌∷◌, All, update,
  ◌==◌, ==→eq, arith, Bool-cases,
}
use riss.Lit.{Lit, var, IsMem, All-IsMem}
use riss.Clause.{Clause, abstraction_from, no_bits}
use riss.Clause.Subsume.{any_beyond}

abbrev pub IsAbstracted : Clause → Type 0
IsAbstracted c = c.extra ≡ abstraction_from no_bits c.lits

-- a bit stays
abstraction_from-keeps :
    (c : List Lit) (w : ℕ → Bool) (i : ℕ) → w i ≡ true → abstraction_from w c i ≡ true
abstraction_from-keeps [] w i h = h
abstraction_from-keeps (l ∷ c) w i h =
    abstraction_from-keeps c (update w (var l % 32) true) i (ground arith)

abstraction_from-IsMem :
    (c : List Lit) (w : ℕ → Bool) (l : Lit) → IsMem l c → abstraction_from w c (var l % 32) ≡ true
abstraction_from-IsMem [] w l m = absurd m
abstraction_from-IsMem (x ∷ c) w l (inl e) =
    let here : var l % 32 ≡ var x % 32 = ap (λ y. var y % 32) e in
    abstraction_from-keeps c (update w (var x % 32) true) (var l % 32) (ground arith)
abstraction_from-IsMem (x ∷ c) w l (inr m) =
    abstraction_from-IsMem c (update w (var x % 32) true) l m

-- where a bit comes from
abstraction_from-bit :
    (c : List Lit) (w : ℕ → Bool) (i : ℕ)
    → abstraction_from w c i ≡ true
    → (w i ≡ true) ⊎ ((l : Lit) × IsMem l c × (var l % 32 ≡ i))
abstraction_from-bit [] w i h = inl h
abstraction_from-bit (x ∷ c) w i h =
    elim (abstraction_from-bit c (update w (var x % 32) true) i h) [
      | inr (l, m, e) ↦ inr (l, inr m, e)
      | inl k ↦ elim (Bool-cases (var x % 32 == i)) [
        | inl b ↦ inr (x, inl refl, ==→eq (var x % 32) i b)
        | inr b ↦ inl (ground arith)
      ]
    ]

any_beyond-none :
    (n : ℕ) (a b : ℕ → Bool) → ((i : ℕ) → a i ≡ true → b i ≡ true) → any_beyond n a b ≡ false
any_beyond-none zero a b h = refl
any_beyond-none (suc n) a b h = ground (arith, any_beyond-none n a b h, h n)

pub any_beyond-subset :
    (n : ℕ) (c d : List Lit)
    → All (λ l. IsMem l d) c
    → any_beyond n (abstraction_from no_bits c) (abstraction_from no_bits d) ≡ false
any_beyond-subset n c d h =
    any_beyond-none n (abstraction_from no_bits c) (abstraction_from no_bits d) λ i a.
      elim (abstraction_from-bit c no_bits i a) [
        | inl k ↦ absurd (let x : ◌≡◌ {A = Bool} false true = k in cc)
        | inr (l, m, e) ↦
            let k = abstraction_from-IsMem d no_bits l (All-IsMem (λ x. IsMem x d) c l h m) in
            rw e at k
      ]
