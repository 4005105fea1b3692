-- ===== src/Resolution/Counted.antt =====
-- tryResolve counts the literals of the resolvent that resolve builds.
use riss.Base.{
  ℕ, suc, ◌+◌, ◌≡◌, inl, inr, refl, ap, sym, ◌∙◌, Bool, true, false, List, [], ◌∷◌, Option, none,
  some, ◌==◌, ltb, if◌then◌else◌, length, Bool-cases, arith,
}
use riss.Lit.{Lit, Var, LitCode, lit, lit_undef, mk_lit, neg}
use riss.Resolution.{check_push, resolve, check_update_prev, try_resolve}

abbrev pub last_of : List Lit → LitCode
last_of [] = lit_undef
last_of (x ∷ ps) = lit x

-- -1 for a tautology
abbrev pub size_of : Bool × List Lit → Option ℕ
size_of r = if r.0 then none else some (length r.1)

module _ (v : Var) where
  -- one literal, pushed or counted
  step :
      (l : Lit) (ps : List Lit) (next : List Lit → Bool × List Lit) (count : LitCode → ℕ → Option ℕ)
      → ((qs : List Lit) → size_of (next qs) ≡ count (last_of qs) (length qs))
      → size_of (elim (check_push ps l) [ none ↦ (true, ps) | some qs ↦ next qs ])
        ≡ (elim (check_update_prev (last_of ps) l) [
          | none ↦ none
          | some (status, prev) ↦ count prev (length ps + status)
        ])
  unfolding check_push check_update_prev
  step l [] next count h = let size : 1 ≡ 0 + 1 = omega arith in h (l ∷ [])
  step l (x ∷ ps) next count h =
      let same_size : suc (length ps) ≡ suc (length ps) + 0 = omega arith in
      let more : suc (suc (length ps)) ≡ suc (length ps) + 1 = omega arith in
      elim (Bool-cases (x == l)) [
        | inl e ↦ rw (e, check_push, check_update_prev) (h (x ∷ ps) ∙ ap (count (lit x)) same_size)
        | inr e ↦ elim (Bool-cases (x == neg l)) [
          | inl f ↦ rw (e, f, check_push, check_update_prev) refl
          | inr f ↦
              rw (e, f, check_push, check_update_prev) (h (l ∷ x ∷ ps) ∙ ap (count (lit l)) more)
        ]
      ]

  try_resolve-resolve :
      (c d ps : List Lit) → size_of (resolve v c d ps) ≡ try_resolve v c d (last_of ps) (length ps)
  unfolding resolve try_resolve
  try_resolve-resolve [] [] ps = refl
  try_resolve-resolve (a ∷ c) [] ps = elim (Bool-cases (a == mk_lit v false)) [
    | inl e ↦ rw (e, resolve, try_resolve) (try_resolve-resolve c [] ps)
    | inr e ↦
        rw (e, resolve, try_resolve)
          (step a ps (λ qs. resolve v c [] qs) (try_resolve v c [])
            (λ qs. try_resolve-resolve c [] qs))
  ]
  try_resolve-resolve [] (b ∷ d) ps = elim (Bool-cases (b == mk_lit v true)) [
    | inl e ↦ rw (e, resolve, try_resolve) (try_resolve-resolve [] d ps)
    | inr e ↦
        rw (e, resolve, try_resolve)
          (step b ps (λ qs. resolve v [] d qs) (try_resolve v [] d)
            (λ qs. try_resolve-resolve [] d qs))
  ]
  try_resolve-resolve (a ∷ c) (b ∷ d) ps = elim (Bool-cases (a == mk_lit v false)) [
    | inl e ↦ rw (e, resolve, try_resolve) (try_resolve-resolve c (b ∷ d) ps)
    | inr e ↦ elim (Bool-cases (b == mk_lit v true)) [
      | inl f ↦ rw (e, f, resolve, try_resolve) (try_resolve-resolve (a ∷ c) d ps)
      | inr f ↦ elim (Bool-cases (ltb a b)) [
        | inl g ↦
            rw (e, f, g, resolve, try_resolve)
              (step a ps (λ qs. resolve v c (b ∷ d) qs) (try_resolve v c (b ∷ d))
                (λ qs. try_resolve-resolve c (b ∷ d) qs))
        | inr g ↦
            rw (e, f, g, resolve, try_resolve)
              (step b ps (λ qs. resolve v (a ∷ c) d qs) (try_resolve v (a ∷ c) d)
                (λ qs. try_resolve-resolve (a ∷ c) d qs))
      ]
    ]
  ]

-- tryResolve answers -1 exactly if resolve reports a tautology, and otherwise the size of the
-- resolvent that resolve builds.
pub try_resolve_lem :
    (v : Var) (c d : List Lit) → try_resolve v c d lit_undef 0 ≡ size_of (resolve v c d [])
try_resolve_lem v c d = sym (try_resolve-resolve v c d [])
