-- ===== src/Checker/Watched.antt =====
-- What the checker relies on when it propagates: every watcher stands in the list of the complement
-- of one of the first two literals of its clause, once.
pub mod Visit
pub mod Whole
pub mod Scan
use mathlib.Core.List.{Permᴰ}
use riss.Base.{
  ℕ, ◌+◌, ◌*◌, ◌-◌, ◌<◌, ◌≡◌, ◌≢◌, ◌⊎◌, inl, inr, refl, ap, sym, subst, Bool, true, false, List, [],
  ◌∷◌, ◌++◌, arith, Bool-cases, Option-cases, ◌==◌, if◌then◌else◌, update, All, Option, some, none,
}
use riss.Lit.{Lit, neg}
use riss.Lifted.{LBool, l_false, l_undef}
use riss.Clause.{Clause}
use riss.Checker.{Checker, Watcher, CRef, value, unchecked_enqueue}
use riss.Checker.Propagate.{order_false, new_watch, write_lits}

-- the literals of a clause that is not freed
abbrev pub live : Clause → List Lit
live c = if c.mark then [] else c.lits

abbrev pub lits : Checker → CRef → List Lit
lits s cr = live (s.memory cr)

-- a long watcher watches one of the first two literals, a binary one also knows the other literal
abbrev pub Watches : Bool → List Lit → Lit → Lit → Type 0
Watches true (a ∷ b ∷ _ ∷ _) q blocker = (a ≡ neg q) ⊎ (b ≡ neg q)
Watches false (a ∷ b ∷ []) q blocker = ((a ≡ neg q) × (b ≡ blocker)) ⊎ ((b ≡ neg q) × (a ≡ blocker))
Watches _ _ q blocker = ⊥

abbrev pub Ok : Checker → Lit → Watcher → Type 0
Ok s q w = Watches w.long (lits s w.cref) q w.blocker

abbrev pub Fresh : CRef → List Watcher → Type 0
Fresh cr = All (λ (w : Watcher). cr ≢ w.cref)

abbrev pub Distinct : List Watcher → Type 0
Distinct [] = Unit
Distinct (w ∷ ws) = Fresh w.cref ws × Distinct ws

-- no literal twice
abbrev pub NoDup : List Lit → Type 0
NoDup [] = Unit
NoDup (l ∷ c) = All (λ m. l ≢ m) c × NoDup c

module _ (g : Lit → Bool) (f : Lit) where
  pub new_watch-perm :
      (r : List Lit) (k : Lit) (r' : List Lit)
      → new_watch g f r ≡ some (k, r')
      → Permᴰ (f ∷ r) (k ∷ r')
  new_watch-perm [] k r' h = cc
  new_watch-perm (l ∷ r) k r' h = elim (Bool-cases (g l)) [
    | inl e ↦ elim (Option-cases (new_watch g f r)) [
      | inl none_left ↦ ground arith
      | inr ((k1, r1), e1) ↦
          let ek : k1 ≡ k = ground arith in
          let er : l ∷ r1 ≡ r' = ground arith in
          rw (← ek, ← er)
            (Permᴰ.trans (Permᴰ.swap refl refl)
              (Permᴰ.trans (Permᴰ.cons refl (new_watch-perm r k1 r1 e1)) (Permᴰ.swap refl refl)))
    ]
    | inr e ↦
        let ek : l ≡ k = ground arith in
        let er : f ∷ r ≡ r' = ground arith in rw (← ek, ← er) (Permᴰ.swap refl refl)
  ]

  -- the new watch was not false
  pub new_watch-test :
      (r : List Lit) (k : Lit) (r' : List Lit) → new_watch g f r ≡ some (k, r') → g k ≡ false
  new_watch-test [] k r' h = cc
  new_watch-test (l ∷ r) k r' h = elim (Option-cases (new_watch g f r)) [
    | inl none_left ↦ ground arith
    | inr ((k1, r1), e1) ↦ ground (arith, new_watch-test r k1 r1 e1)
  ]

  -- no new watch: all are false
  pub new_watch-none : (r : List Lit) → new_watch g f r ≡ none → All (λ l. g l ≡ true) r
  new_watch-none [] h = tt
  new_watch-none (l ∷ r) h = elim (Option-cases (new_watch g f r)) [
    | inl none_left ↦ ground (arith, new_watch-none r none_left)
    | inr ((k1, r1), e1) ↦ ground arith
  ]

  -- what the clause keeps of its third place
  pub new_watch-shape :
      (d : Lit) (r : List Lit) (k : Lit) (r' : List Lit)
      → new_watch g f (d ∷ r) ≡ some (k, r')
      → (d' : Lit) × (r2 : List Lit) × (r' ≡ d' ∷ r2)
  new_watch-shape d r k r' h = elim (Option-cases (new_watch g f r)) [
    | inl none_left ↦ (f, r, ground arith)
    | inr ((k1, r1), e1) ↦ elim (Bool-cases (g d)) [
      | inl e ↦ (d, r1, ground arith)
      | inr e ↦ (f, r, ground arith)
    ]
  ]

-- what holds of all literals holds after a permutation
pub All-perm {κ} : (P : Lit → Type κ) {c d : List Lit} → Permᴰ c d → All P c → All P d
All-perm P Permᴰ.nil h = tt
All-perm P (Permᴰ.cons e p) h = (subst P e h.0, All-perm P p h.1)
All-perm P (Permᴰ.swap e f) h = (subst P f h.1.0, (subst P e h.0, h.1.1))
All-perm P (Permᴰ.trans p q) h = All-perm P q (All-perm P p h)

pub NoDup-perm : {c d : List Lit} → Permᴰ c d → NoDup c → NoDup d
NoDup-perm Permᴰ.nil h = tt
NoDup-perm (Permᴰ.cons {l₂ = l} e p) h =
    subst (λ x. NoDup (x ∷ l)) e (All-perm _ p h.0, NoDup-perm p h.1)
NoDup-perm (Permᴰ.swap {a = a} {b = b} {b' = b'} {l = l} e f) h =
    subst (λ x. NoDup (x ∷ b' ∷ l)) f
      (subst (λ y. NoDup (b ∷ y ∷ l)) e ((λ x. h.0.0 (sym x), h.1.0), (h.0.1, h.1.1)))
NoDup-perm (Permᴰ.trans p q) h = NoDup-perm q (NoDup-perm p h)
