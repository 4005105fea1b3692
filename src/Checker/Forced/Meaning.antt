-- ===== src/Checker/Forced/Meaning.antt =====
-- What forced assignments mean, and how many there can be.
use riss.Base.{
  ℕ, zero, suc, ◌+◌, ◌≤◌, ◌<◌, ◌≡◌, ◌⊎◌, inl, inr, refl, sym, subst, true, false, List, [], ◌∷◌,
  arith, All, length, if◌then◌else◌, length-append,
}
use riss.Lit.{Lit, Var, var}
use riss.Lifted.{LBool, l_false, l_undef, of_bool, is_undef}
use riss.Semantics.{Assignment, holds, sat}
use riss.Checker.Forced.{value_of, enqueue, IsMem, Forced, stay, more}

-- the total assignment `s` extends the partial one
abbrev pub Agrees : Assignment → (Var → LBool) → Type 0
Agrees s a = (v : Var) → (a v ≡ of_bool (s v)) ⊎ (a v ≡ l_undef)

pub Agrees-false :
    (s : Assignment) (a : Var → LBool) (l : Lit)
    → Agrees s a
    → value_of a l ≡ l_false
    → holds s l ≡ false
Agrees-false s a l h e = ground (arith, h (var l))

pub Agrees-enqueue :
    (s : Assignment) (a : Var → LBool) (l : Lit)
    → Agrees s a
    → holds s l ≡ true
    → Agrees s (enqueue l a)
Agrees-enqueue s a l h e v = ground (arith, h v)

pub all_false :
    (s : Assignment) (a : Var → LBool) (c : List Lit)
    → Agrees s a
    → All (λ m. value_of a m ≡ l_false) c
    → sat s c ≡ false
all_false s a [] g h = refl
all_false s a (m ∷ c) g h = ground (arith, Agrees-false s a m g h.0, all_false s a c g h.1)

-- the last literal of a satisfied clause is true
pub unit_holds :
    (s : Assignment) (a : Var → LBool) (c : List Lit) (l : Lit)
    → Agrees s a
    → All (λ m. (m ≡ l) ⊎ (value_of a m ≡ l_false)) c
    → sat s c ≡ true
    → holds s l ≡ true
unit_holds s a [] l g h e = cc
unit_holds s a (m ∷ c) l g h e = ground (arith, Agrees-false s a m g, unit_holds s a c l g h.1)

pub Forced-Agrees :
    {Q : List Lit → Type 0} {a : Var → LBool} {t : List Lit} {a' : Var → LBool} {t' : List Lit}
    (s : Assignment)
    → ((c : List Lit) → Q c → (c ≡ []) ⊎ (sat s c ≡ true))
    → Agrees s a
    → Forced Q a t a' t'
    → Agrees s a'
Forced-Agrees s db g stay = g
Forced-Agrees s db g (more {a' = a'} d c l q u) =
    let before = Forced-Agrees s db g d in
    Agrees-enqueue s a' l before (elim (db c q) [
      | inl e ↦ absurd (subst (IsMem l) e u.0)
      | inr e ↦ unit_holds s a' c l before u.1 e
    ])

-- the variables below `n` that have no value
abbrev pub unassigned : ℕ → (Var → LBool) → ℕ
unassigned zero a = 0
unassigned (suc n) a = unassigned n a + (if is_undef (a n) then 1 else 0)

unassigned-enqueue_above :
    (n : ℕ) (a : Var → LBool) (l : Lit) → n ≤ var l → unassigned n (enqueue l a) ≡ unassigned n a
unassigned-enqueue_above zero a l h = refl
unassigned-enqueue_above (suc n) a l h = ground (arith, unassigned-enqueue_above n a l)

All-mem : (P : Lit → Type 0) (c : List Lit) (l : Lit) → All P c → IsMem l c → P l
All-mem P [] l h m = absurd m
All-mem P (x ∷ c) l h (inl e) = subst P (sym e) h.0
All-mem P (x ∷ c) l h (inr m) = All-mem P c l h.1 m

pub unassigned-enqueue :
    (n : ℕ) (a : Var → LBool) (l : Lit)
    → var l < n
    → value_of a l ≡ l_undef
    → suc (unassigned n (enqueue l a)) ≡ unassigned n a
unassigned-enqueue zero a l h e = absurd (omega arith)
unassigned-enqueue (suc n) a l h e =
    ground (arith, unassigned-enqueue n a l, unassigned-enqueue_above n a l)

pub Forced-unassigned :
    {Q : List Lit → Type 0} {a : Var → LBool} {t : List Lit} {a' : Var → LBool} {t' : List Lit}
    (n : ℕ)
    → ((c : List Lit) → Q c → All (λ l. var l < n) c)
    → Forced Q a t a' t'
    → unassigned n a' + length t' ≡ unassigned n a + length t
Forced-unassigned n db stay = refl
Forced-unassigned n db (more {a' = a'} {t' = t'} d c l q u) =
    let before = Forced-unassigned n db d in
    omega (
      arith,
      before,
      unassigned-enqueue n a' l (All-mem _ c l (db c q) u.0) u.2,
      length-append t' (l ∷ []),
    )
