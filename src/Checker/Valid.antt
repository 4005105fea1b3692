-- ===== src/Checker/Valid.antt =====
-- The invariant between the operations of the checker, and the steps before a propagation.
use native.Mathlib.Decide.{ℕ_discrete}
use riss.Base.{
  ℕ, zero, suc, ◌+◌, ◌-◌, ◌≤◌, ◌<◌, ◌≡◌, ◌⊎◌, inl, inr, refl, ◌∙◌, List, [], ◌∷◌, ◌++◌, arith, ◌==◌,
  All, All-map, Bool-cases, map,
}
use riss.Lit.{Lit, var}
use riss.Lifted.{LBool, l_undef}
use riss.Checker.{Checker, CRef}
use riss.Checker.Operations.{new_var, new_vars, cover, clear_trail, cancel_until, init_slots}
use riss.Checker.Forced.{IsMem, Forced, stay, more, enqueue}
use riss.Checker.Watched.{lits}
use riss.Checker.Watched.Scan.{Listed}
use riss.Checker.Rounds.{Watching, Watching-same}
use riss.Checker.Propagation.{InRange}

-- a variable with a value is on the trail
abbrev pub OnTrail : (ℕ → LBool) → List Lit → Type 0
OnTrail a t = (v : ℕ) → (a v ≡ l_undef) ⊎ IsMem v (map var t)

pub record Valid (s : Checker) : Type 0 where
  pub watching : Watching s
  pub in_range : InRange s
  pub units_in_range : All (λ l. var l < s.n_vars) s.unit_clauses
  pub on_trail : OnTrail s.assigns s.trail
  pub fresh : (cr : CRef) → s.sz ≤ cr → lits s cr ≡ []

IsMem-append :
    (v : ℕ) (xs : List Lit) (l : Lit) → IsMem v (map var xs) → IsMem v (map var (xs ++ l ∷ []))
IsMem-append v [] l m = absurd m
IsMem-append v (x ∷ xs) l (inl e) = inl e
IsMem-append v (x ∷ xs) l (inr m) = inr (IsMem-append v xs l m)

IsMem-last : (xs : List Lit) (l : Lit) → IsMem (var l) (map var (xs ++ l ∷ []))
IsMem-last [] l = inl refl
IsMem-last (x ∷ xs) l = inr (IsMem-last xs l)

pub OnTrail-enqueue :
    (a : ℕ → LBool) (t : List Lit) (l : Lit) → OnTrail a t → OnTrail (enqueue l a) (t ++ l ∷ [])
OnTrail-enqueue a t l h v = elim (ℕ_discrete v (var l)) [
  | yes e ↦ inr (rw e (IsMem-last t l))
  | no n ↦ elim (h v) [ inl u ↦ inl (ground arith) | inr m ↦ inr (IsMem-append v t l m) ]
]

pub Forced-OnTrail :
    {Q : List Lit → Type 0} {a : ℕ → LBool} {t : List Lit} {a' : ℕ → LBool} {t' : List Lit}
    → Forced Q a t a' t'
    → OnTrail a t
    → OnTrail a' t'
Forced-OnTrail stay h = h
Forced-OnTrail (more {a' = a'} {t' = t'} d c l q u) h = OnTrail-enqueue a' t' l (Forced-OnTrail d h)

-- after cancelUntil no variable has a value
pub clear_trail-undef :
    (a : ℕ → LBool) (t : List Lit) → OnTrail a t → (v : ℕ) → clear_trail t a v ≡ l_undef
clear_trail-undef a t h v = elim (h v) [ inl u ↦ keep t u | inr m ↦ go t m ]
  where
    keep : (xs : List Lit) → a v ≡ l_undef → clear_trail xs a v ≡ l_undef
    keep [] u = u
    keep (x ∷ xs) u = ground (arith, keep xs u)

    go : (xs : List Lit) → IsMem v (map var xs) → clear_trail xs a v ≡ l_undef
    go [] m = absurd m
    go (x ∷ xs) (inl e) = ground arith
    go (x ∷ xs) (inr m) = ground (arith, go xs m)

pub new_var-Valid : {s : Checker} → Valid s → Valid (new_var s)
unfolding new_var
new_var-Valid {s} v = record {
  watching = record { lists = lists; no_dup = v.watching.no_dup };
  in_range = λ cr. All-map (lits s cr) (λ l h. omega arith) (v.in_range cr);
  units_in_range = All-map s.unit_clauses (λ l h. omega arith) v.units_in_range;
  on_trail = λ x. elim (v.on_trail x) [ inl u ↦ inl (ground arith) | inr m ↦ inr m ];
  fresh = v.fresh;
}
  where
    slots :
        (q : Lit)
        → (init_slots s.n_vars s.watches q ≡ []) ⊎ (init_slots s.n_vars s.watches q ≡ s.watches q)
    slots q = elim (Bool-cases (s.n_vars + s.n_vars + 1 == q)) [
      | inl a ↦ inl (rw a)
      | inr a ↦ elim (Bool-cases (s.n_vars + s.n_vars == q)) [
        | inl b ↦ inl (rw (a, b))
        | inr b ↦ inr (rw (a, b))
      ]
    ]

    lists : (q : Lit) → Listed (new_var s) q
    lists q = elim (slots q) [ inl e ↦ rw e (tt, tt) | inr e ↦ rw e (v.watching.lists q) ]

pub new_vars-Valid : (n : ℕ) {s : Checker} → Valid s → Valid (new_vars n s)
unfolding new_vars
new_vars-Valid zero v = v
new_vars-Valid (suc n) v = new_vars-Valid n (new_var-Valid v)

pub cover-Valid : (c : List Lit) {s : Checker} → Valid s → Valid (cover c s)
unfolding cover
cover-Valid [] v = v
cover-Valid (l ∷ c) {s} v = cover-Valid c (new_vars-Valid (var l + 1 - s.n_vars) v)

pub cancel_until-Valid : {s : Checker} → Valid s → Valid (cancel_until s)
unfolding cancel_until
cancel_until-Valid {s} v = record {
  watching = Watching-same refl refl v.watching;
  in_range = v.in_range;
  units_in_range = v.units_in_range;
  on_trail = λ x. inl (clear_trail-undef s.assigns s.trail v.on_trail x);
  fresh = v.fresh;
}

-- the clauses, and what they are judged by, stay as they are
pub record Quiet (s t : Checker) : Type 0 where
  pub memory : t.memory ≡ s.memory
  pub unit_clauses : t.unit_clauses ≡ s.unit_clauses
  pub ok : t.ok ≡ s.ok
  pub proof : t.proof ≡ s.proof
  pub sz : t.sz ≡ s.sz
  pub n_vars : s.n_vars ≤ t.n_vars

pub Quiet-refl : {s : Checker} → Quiet s s
Quiet-refl = record {
  memory = refl;
  unit_clauses = refl;
  ok = refl;
  proof = refl;
  sz = refl;
  n_vars = omega arith;
}

pub Quiet-trans : {s t u : Checker} → Quiet s t → Quiet t u → Quiet s u
Quiet-trans a b = record {
  memory = b.memory ∙ a.memory;
  unit_clauses = b.unit_clauses ∙ a.unit_clauses;
  ok = b.ok ∙ a.ok;
  proof = b.proof ∙ a.proof;
  sz = b.sz ∙ a.sz;
  n_vars = omega (arith, a.n_vars, b.n_vars);
}

new_var-Quiet : (s : Checker) → Quiet s (new_var s)
unfolding new_var
new_var-Quiet s = record {
  memory = refl;
  unit_clauses = refl;
  ok = refl;
  proof = refl;
  sz = refl;
  n_vars = omega arith;
}

new_vars-Quiet : (n : ℕ) (s : Checker) → Quiet s (new_vars n s)
unfolding new_vars
new_vars-Quiet zero s = Quiet-refl
new_vars-Quiet (suc n) s = Quiet-trans (new_var-Quiet s) (new_vars-Quiet n (new_var s))

n_vars-new_vars : (n : ℕ) (s : Checker) → (new_vars n s).n_vars ≡ s.n_vars + n
unfolding new_vars new_var
n_vars-new_vars zero s = omega arith
n_vars-new_vars (suc n) s = omega (arith, n_vars-new_vars n (new_var s))

pub cover-Quiet : (c : List Lit) (s : Checker) → Quiet s (cover c s)
unfolding cover
cover-Quiet [] s = Quiet-refl
cover-Quiet (l ∷ c) s =
    Quiet-trans (new_vars-Quiet (var l + 1 - s.n_vars) s)
      (cover-Quiet c (new_vars (var l + 1 - s.n_vars) s))

-- the literals have their slots
pub cover-covers : (c : List Lit) (s : Checker) → All (λ l. var l < (cover c s).n_vars) c
unfolding cover
cover-covers [] s = tt
cover-covers (l ∷ c) s =
    let t = new_vars (var l + 1 - s.n_vars) s in
    (
      omega (arith, n_vars-new_vars (var l + 1 - s.n_vars) s, (cover-Quiet c t).n_vars),
      cover-covers c t,
    )

pub cancel_until-Quiet : (s : Checker) → Quiet s (cancel_until s)
unfolding cancel_until
cancel_until-Quiet s = record {
  memory = refl;
  unit_clauses = refl;
  ok = refl;
  proof = refl;
  sz = refl;
  n_vars = omega arith;
}
