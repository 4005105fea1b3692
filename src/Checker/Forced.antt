-- ===== src/Checker/Forced.antt =====
-- The assignments that unit propagation can make: one literal at a time, each the one literal of a
-- clause that is not false yet.
pub mod Meaning
use riss.Base.{
  ℕ, ◌≡◌, ◌≢◌, ◌⊎◌, inl, inr, refl, Bool, not, List, [], ◌∷◌, ◌++◌, arith, update, All, All-append,
  All-map,
}
pub use riss.Lit.{IsMem}
use riss.Lit.{Lit, Var, neg, sign, var}
use riss.Lifted.{LBool, l_true, l_false, l_undef, of_bool, lxor}

abbrev pub value_of : (Var → LBool) → Lit → LBool
value_of a p = lxor (a (var p)) (sign p)

abbrev pub enqueue : Lit → (Var → LBool) → Var → LBool
enqueue p a = update a (var p) (of_bool (not (sign p)))

-- `l` is the one literal of `c` that is not false
abbrev pub IsUnit : (Var → LBool) → List Lit → Lit → Type 0
IsUnit a c l =
    IsMem l c × All (λ m. (m ≡ l) ⊎ (value_of a m ≡ l_false)) c × (value_of a l ≡ l_undef)

-- `Q` says which clauses may be used
pub data Forced (Q : List Lit → Type 0) (a : Var → LBool) (t : List Lit)
    : (Var → LBool) → List Lit → Type 0 where
  stay : Forced Q a t a t
  more :
      {a' : Var → LBool} {t' : List Lit}
      → Forced Q a t a' t'
      → (c : List Lit) (l : Lit) → Q c
      → IsUnit a' c l
      → Forced Q a t (enqueue l a') (t' ++ l ∷ [])

pub Forced-map :
    {Q R : List Lit → Type 0} {a : Var → LBool} {t : List Lit} {a' : Var → LBool} {t' : List Lit}
    → ((c : List Lit) → Q c → R c)
    → Forced Q a t a' t'
    → Forced R a t a' t'
Forced-map f stay = stay
Forced-map f (more d c l q u) = more (Forced-map f d) c l (f c q) u

pub Forced-trans :
    {Q : List Lit → Type 0} {a : Var → LBool} {t : List Lit} {a' : Var → LBool} {t' : List Lit}
    {a'' : Var → LBool} {t'' : List Lit}
    → Forced Q a t a' t'
    → Forced Q a' t' a'' t''
    → Forced Q a t a'' t''
Forced-trans d stay = d
Forced-trans d (more e c l q u) = more (Forced-trans d e) c l q u

-- a value that is known stays
pub enqueue-known :
    (a : Var → LBool) (l m : Lit)
    → value_of a l ≡ l_undef
    → value_of a m ≢ l_undef
    → value_of (enqueue l a) m ≡ value_of a m
enqueue-known a l m u k = ground arith

pub Forced-false :
    {Q : List Lit → Type 0} {a : Var → LBool} {t : List Lit} {a' : Var → LBool} {t' : List Lit}
    (m : Lit)
    → Forced Q a t a' t'
    → value_of a m ≡ l_false
    → value_of a' m ≡ l_false
Forced-false m stay h = h
Forced-false m (more {a' = a'} d c l q u) h =
    let before = Forced-false m d h in ground (arith, enqueue-known a' l m)

pub enqueue_self :
    (a : Var → LBool) (l : Lit) → value_of a l ≡ l_undef → value_of (enqueue l a) l ≡ l_true
enqueue_self a l u = ground arith

-- the literals of the trail are true
pub Forced-trail :
    {Q : List Lit → Type 0} {a : Var → LBool} {t : List Lit} {a' : Var → LBool} {t' : List Lit}
    → Forced Q a t a' t'
    → All (λ l. value_of a l ≡ l_true) t
    → All (λ l. value_of a' l ≡ l_true) t'
Forced-trail stay h = h
Forced-trail (more {a' = a'} {t' = t'} d c l q u) h =
    All-append (λ m. value_of (enqueue l a') m ≡ l_true) t' (l ∷ [])
      (All-map t' (λ m k. ground (arith, enqueue-known a' l m)) (Forced-trail d h))
      (enqueue_self a' l u.2, tt)
