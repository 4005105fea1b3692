-- ===== src/Compression/Aligned.antt =====
-- The invariant of the compression tables, and that each operation keeps it.
pub mod Update
pub mod Trips
use riss.Base.{
  ℕ, zero, suc, ◌+◌, ◌-◌, ◌≤◌, ◌<◌, ◌≡◌, ◌⊎◌, inl, inr, refl, ap, sym, ◌∙◌, Bool, true, false, not,
  ◌||◌, Option, none, some, Option-cases, Bool-cases, ltb, leb, ◌==◌, if◌then◌else◌, update, arith,
}
use riss.Lit.{Var}
use riss.Lifted.{LBool}
use riss.Compression.{
  Compression, is_available, new_var, last_var, write_through, fill_forward, resized, update_map,
}

-- how many of the first `n` variables are kept
abbrev pub count : (Var → Option Var) → ℕ → ℕ
count m zero = 0
count m (suc n) = elim (m n) [ none ↦ count m n | some v ↦ suc (count m n) ]

-- the kept variables are numbered in their order
abbrev pub Numbered : (Var → Option Var) → ℕ → Type 0
Numbered m n = (x v : Var) → x < n → m x ≡ some v → v ≡ count m x

-- the forward table is the inverse of the mapping
pub record Aligned (s : Compression) : Type 0 where
  pub numbered : Numbered s.mapping s.nvars
  pub inverse : (x v : Var) → x < s.nvars → s.mapping x ≡ some v → s.forward v ≡ x
  pub size : s.postvars ≡ count s.mapping s.nvars

pub count_step :
    (m : Var → Option Var) (n : ℕ) (v : Var) → m n ≡ some v → count m (suc n) ≡ suc (count m n)
count_step m n v e = rw (e, count) refl

pub count-none : (m : Var → Option Var) (n : ℕ) → m n ≡ none → count m (suc n) ≡ count m n
count-none m n e = rw (e, count) refl

pub count_mono : (m : Var → Option Var) (x n : ℕ) → x ≤ n → count m x ≤ count m n
count_mono m x zero h = let here : x ≡ 0 = omega arith in rw here (omega arith)
count_mono m x (suc n) h = elim (Bool-cases (x == suc n)) [
  | inl b ↦ let here : x ≡ suc n = ground arith in rw here (omega arith)
  | inr b ↦
      let below = count_mono m x n (ground arith) in
      elim (Option-cases (m n)) [
        | inl e ↦ omega (arith, count-none m n e, below)
        | inr (v, e) ↦ omega (arith, count_step m n v e, below)
      ]
]

-- a kept variable counts
pub count_below : (m : Var → Option Var) (x n v : ℕ) → x < n → m x ≡ some v → count m x < count m n
count_below m x n v h e = omega (arith, count_step m x v e, count_mono m (suc x) n (omega arith))

-- the counts of two kept variables differ
pub count_inj :
    (m : Var → Option Var) (x y v w : ℕ)
    → m x ≡ some v
    → m y ≡ some w
    → count m x ≡ count m y
    → x ≡ y
count_inj m x y v w e f same = elim (Bool-cases (ltb x y)) [
  | inl b ↦ absurd (omega (arith, same, count_below m x y v (ground arith) e))
  | inr b ↦ elim (Bool-cases (ltb y x)) [
    | inl c ↦ absurd (omega (arith, same, count_below m y x w (ground arith) f))
    | inr c ↦ ground arith
  ]
]

fill_forward-to :
    (m : Var → Option Var) (n : ℕ) (f : Var → Var) → (fill_forward m n f).1 ≡ count m n
unfolding fill_forward
fill_forward-to m zero f = refl
fill_forward-to m (suc n) f = elim (Option-cases (m n)) [
  | inl e ↦ rw (e, fill_forward, count) (fill_forward-to m n f)
  | inr (v, e) ↦ rw (e, fill_forward, count, fill_forward-to m n f) (omega arith)
]

-- the table holds each kept variable at its count
fill_forward-count :
    (m : Var → Option Var) (n : ℕ) (f : Var → Var) (x v : Var)
    → x < n
    → m x ≡ some v
    → (fill_forward m n f).0 (count m x) ≡ x
unfolding fill_forward
fill_forward-count m zero f x v h e = absurd (omega arith)
fill_forward-count m (suc n) f x v h e = elim (Bool-cases (x == n)) [
  | inl b ↦
      let here : x ≡ n = ground arith in
      let kept : m n ≡ some v = rw here at e in
      rw (here, kept, fill_forward, fill_forward-to m n f) (ground arith)
  | inr b ↦
      let rest = fill_forward-count m n f x v (ground arith) e in
      elim (Option-cases (m n)) [
        | inl k ↦ rw (k, fill_forward) rest
        | inr (w, k) ↦
            let other = count_below m x n v (ground arith) e in
            rw (k, fill_forward, fill_forward-to m n f) (ground (arith, other, rest))
      ]
]

-- the tables that update leaves
pub filled-Aligned :
    (s : Compression) (f : Var → Var)
    → Numbered s.mapping s.nvars
    → s.postvars ≡ count s.mapping s.nvars
    → s.forward ≡ (fill_forward s.mapping s.nvars f).0
    → Aligned s
filled-Aligned s f num size e = record {
  numbered = num;
  inverse = λ x v h k. rw (e, num x v h k) (fill_forward-count s.mapping s.nvars f x v h k);
  size = size;
}

pub last_var-count :
    (m : Var → Option Var) (n : ℕ) → Numbered m n → 0 < count m n → last_var m n + 1 ≡ count m n
unfolding last_var
last_var-count m zero num h = absurd (omega arith)
last_var-count m (suc n) num h = elim (Option-cases (m n)) [
  | inl e ↦
      let num' : Numbered m n = λ x v k. num x v (omega arith) in
      let h' : 0 < count m n = omega (arith, count-none m n e, h) in
      rw (e, last_var, count) (last_var-count m n num' h')
  | inr (v, e) ↦ let here = num n v (omega arith) e in rw (e, last_var, count) (omega (arith, here))
]

pub count_agree :
    (m m' : Var → Option Var) (n : ℕ) → ((x : ℕ) → x < n → m x ≡ m' x) → count m n ≡ count m' n
count_agree m m' zero h = refl
count_agree m m' (suc n) h =
    let rest = count_agree m m' n (λ x k. h x (omega arith)) in
    let here = h n (omega arith) in
    elim (Option-cases (m n)) [
      | inl e ↦ omega (arith, count-none m n e, count-none m' n (sym here ∙ e), rest)
      | inr (v, e) ↦ omega (arith, count_step m n v e, count_step m' n v (sym here ∙ e), rest)
    ]

appended-Aligned :
    (s t : Compression)
    → Aligned s
    → t.mapping ≡ update s.mapping s.nvars (some s.postvars)
    → t.nvars ≡ s.nvars + 1
    → t.forward ≡ update s.forward s.postvars s.nvars
    → t.postvars ≡ s.postvars + 1
    → Aligned t
appended-Aligned s t a em en ef ep =
    let m' = update s.mapping s.nvars (some s.postvars) in
    let agree : (x : ℕ) → x ≤ s.nvars → count m' x ≡ count s.mapping x =
      λ x h. count_agree m' s.mapping x (λ y k. ground arith) in
    let old : (x : ℕ) → x < s.nvars → m' x ≡ s.mapping x = λ x h. ground arith in
    let last : m' s.nvars ≡ some s.postvars = ground arith in
    record {
      numbered = λ x v h e.
          let e' : m' x ≡ some v = rw em at e in
          let low : x ≤ s.nvars = omega (arith, en) in
          let goal : v ≡ count s.mapping x = elim (Bool-cases (x == s.nvars)) [
            | inl b ↦
                let here : x ≡ s.nvars = ground arith in
                let same : s.postvars ≡ v = ground (arith, last) in rw here (sym same ∙ a.size)
            | inr b ↦ a.numbered x v (ground arith) (ground arith)
          ] in
          rw em (goal ∙ sym (agree x low));
      inverse = λ x v h e.
          let e' : m' x ≡ some v = rw em at e in
          elim (Bool-cases (x == s.nvars)) [
            | inl b ↦ let same : s.postvars ≡ v = ground arith in rw ef (ground arith)
            | inr b ↦
                let old_x : s.mapping x ≡ some v = ground arith in
                let low : x < s.nvars = ground (arith, en) in
                let below = count_below s.mapping x s.nvars v low old_x in
                let v_low : v < s.postvars =
                  omega (arith, below, a.size, a.numbered x v low old_x) in
                rw ef (ground (arith, a.inverse x v low old_x))
          ];
      size =
          let next : s.nvars + 1 ≡ suc s.nvars = omega arith in
          rw (ep, em, en, next)
            (omega
              (arith, a.size, agree s.nvars (omega arith), count_step m' s.nvars s.postvars last));
    }

-- newVar keeps the tables aligned.
pub new_var-Aligned : (s : Compression) → Aligned s → Aligned (new_var s).1
unfolding new_var
new_var-Aligned s a = elim (Bool-cases (not (is_available s) || s.decompressing)) [
  | inl b ↦ rw b a
  | inr b ↦ rw b (appended-Aligned s _ a refl refl refl refl)
]
