-- ===== src/Compression/Aligned/Update.antt =====
-- Compression::update keeps the tables aligned.
use riss.Base.{
  ℕ, zero, suc, ◌+◌, ◌-◌, ◌≤◌, ◌<◌, ◌≡◌, ◌≢◌, inl, inr, refl, ap, sym, ◌∙◌, true, Option, none,
  some, Option-cases, Bool-cases, ◌==◌, update, arith,
}
use riss.Lit.{Var}
use riss.Lifted.{LBool}
use riss.Compression.{Compression, is_available, last_var, write_through, resized, update_map}
use riss.Compression.Aligned.{
  count, Numbered, Aligned, count_step, count-none, count_below, filled-Aligned, last_var-count,
}

-- each number below the count belongs to a kept variable
pub kept_at :
    (m : Var → Option Var) (n c : ℕ)
    → c < count m n
    → (x : Var) × (v : Var) × (x < n) × (m x ≡ some v) × (count m x ≡ c)
kept_at m zero c h = absurd (omega arith)
kept_at m (suc n) c h = elim (Option-cases (m n)) [
  | inl e ↦
      let (x, v, k, f, g) = kept_at m n c (omega (arith, count-none m n e, h)) in
      (x, v, omega arith, f, g)
  | inr (v, e) ↦ elim (Bool-cases (count m n == c)) [
    | inl b ↦ (n, v, omega arith, e, ground arith)
    | inr b ↦
        let low : c < count m n = ground (arith, count_step m n v e) in
        let (x, w, k, f, g) = kept_at m n c low in (x, w, omega arith, f, g)
  ]
]

-- the forward table at a number below the size
pub forward-kept :
    (s : Compression)
    → Aligned s
    → (c : ℕ) → c < s.postvars
    → (s.forward c < s.nvars) × (s.mapping (s.forward c) ≡ some c)
forward-kept s a c h =
    let (x, v, low, e, at) = kept_at s.mapping s.nvars c (omega (arith, a.size)) in
    let same : v ≡ c = a.numbered x v low e ∙ at in
    let e' : s.mapping x ≡ some c = rw same at e in
    let here : s.forward c ≡ x = a.inverse x c low e' in rw here (low, e')

module _ (forward : Var → Var) (m : Var → Option Var) (t : Var → LBool) (old : Var → Option Var)
    (trail : Var → LBool) where
  abbrev written : ℕ → Var → Option Var
  written n = (write_through forward m t n (old, trail, 0)).0

  abbrev highest : ℕ → ℕ
  highest n = (write_through forward m t n (old, trail, 0)).2

  written-none :
      (n : ℕ) → m n ≡ none → (x : Var) → written (suc n) x ≡ update (written n) (forward n) none x
  unfolding write_through
  written-none n e x = rw (e, written, write_through) refl

  written-some :
      (n v : ℕ)
      → m n ≡ some v
      → (x : Var) → written (suc n) x ≡ update (written n) (forward n) (some v) x
  unfolding write_through
  written-some n v e x = rw (e, written, write_through) refl

  written-suc : (n : ℕ) (x : Var) → written (suc n) x ≡ update (written n) (forward n) (m n) x
  written-suc n x = elim (Option-cases (m n)) [
    | inl e ↦ rw (written-none n e x, e) refl
    | inr (v, e) ↦ rw (written-some n v e x, e) refl
  ]

  -- what is not in the table stays
  written-other : (n : ℕ) (x : Var) → ((c : ℕ) → c < n → forward c ≢ x) → written n x ≡ old x
  unfolding write_through
  written-other zero x h = refl
  written-other (suc n) x h =
      let rest = written-other n x (λ c k. h c (omega arith)) in
      let apart = h n (omega arith) in written-suc n x ∙ ground (arith, rest, apart)

  written-at :
      (n c : ℕ)
      → c < n
      → ((a b : ℕ) → a < n → b < n → forward a ≡ forward b → a ≡ b)
      → written n (forward c) ≡ m c
  unfolding write_through
  written-at zero c h inj = absurd (omega arith)
  written-at (suc n) c h inj = written-suc n (forward c) ∙ elim (Bool-cases (c == n)) [
    | inl b ↦ let here : c ≡ n = ground arith in rw here (ground arith)
    | inr b ↦
        let rest = written-at n c (ground arith) (λ a b k l. inj a b (omega arith) (omega arith)) in
        let apart : forward n ≢ forward c = λ e. ground (arith, inj n c (omega arith) h e) in
        ground (arith, rest, apart)
  ]

  highest-count : (n : ℕ) → Numbered m n → highest n ≡ count m n - 1
  unfolding write_through
  highest-count zero num = omega arith
  highest-count (suc n) num =
      let rest = highest-count n (λ x v h. num x v (omega arith)) in
      elim (Option-cases (m n)) [
        | inl e ↦ rw (e, highest, write_through, count) rest
        | inr (v, e) ↦
            let here = num n v (omega arith) e in
            rw (e, highest, write_through, count) (ground (arith, rest, here))
      ]

-- the tables after an update of tables that are aligned
module _ (s : Compression) (a : Aligned s) (m : Var → Option Var) (t : Var → LBool)
    (num : Numbered m s.postvars) where
  abbrev now : Var → Option Var
  now = written s.forward m t s.mapping s.trail s.postvars

  forward-inj : (c d : ℕ) → c < s.postvars → d < s.postvars → s.forward c ≡ s.forward d → c ≡ d
  forward-inj c d h k e =
      let (low, f) = forward-kept s a c h in
      let (low', g) = forward-kept s a d k in
      let same : some c ≡ some d = sym f ∙ (ap s.mapping e ∙ g) in cc

  now-none : (x : Var) → s.mapping x ≡ none → now x ≡ none
  now-none x e =
      written-other s.forward m t s.mapping s.trail s.postvars x (λ c h k.
        let (low, f) = forward-kept s a c h in
        let wrong : none ≡ some c = sym e ∙ (sym (ap s.mapping k) ∙ f) in cc)
      ∙ e

  now-some : (x v : Var) → x < s.nvars → s.mapping x ≡ some v → (v < s.postvars) × (now x ≡ m v)
  now-some x v h e =
      let low : v < s.postvars =
        omega (arith, a.numbered x v h e, count_below s.mapping x s.nvars v h e, a.size) in
      let here : s.forward v ≡ x = a.inverse x v h e in
      (low, rw (← here) (written-at s.forward m t s.mapping s.trail s.postvars v low forward-inj))

  now-count : (x : ℕ) → x ≤ s.nvars → count now x ≡ count m (count s.mapping x)
  now-count zero h = refl
  now-count (suc x) h =
      let rest = now-count x (omega arith) in
      elim (Option-cases (s.mapping x)) [
        | inl e ↦
            count-none now x (now-none x e) ∙ (rest ∙ ap (count m) (sym (count-none s.mapping x e)))
        | inr (v, e) ↦
            let (low, f) = now-some x v (omega arith) e in
            let here : v ≡ count s.mapping x = a.numbered x v (omega arith) e in
            let next = count_step s.mapping x v e in
            elim (Option-cases (m v)) [
              | inl g ↦
                  count-none now x (f ∙ g)
                  ∙ (rest
                      ∙ (ap (count m) (sym here)
                          ∙ (sym (count-none m v g)
                              ∙ ap (λ y. count m (suc y)) here
                              ∙ ap (count m) (sym next))))
              | inr (w, g) ↦
                  count_step now x w (f ∙ g)
                  ∙ (ap suc (rest ∙ ap (count m) (sym here))
                      ∙ (sym (count_step m v w g)
                          ∙ ap (λ y. count m (suc y)) here
                          ∙ ap (count m) (sym next)))
            ]
      ]

  now-Numbered : Numbered now s.nvars
  now-Numbered x w h e = elim (Option-cases (s.mapping x)) [
    | inl k ↦ absurd (let wrong : none ≡ some w = sym (now-none x k) ∙ e in cc)
    | inr (v, k) ↦
        let (low, f) = now-some x v h k in
        let here : w ≡ count m v = num v w low (sym f ∙ e) in
        here ∙ (ap (count m) (a.numbered x v h k) ∙ sym (now-count x (omega arith)))
  ]

-- update keeps the tables aligned, or aligns them at the first compression, if the new mapping numbers
-- the kept variables in their order and keeps one, and has the size of the compressed formula.
pub update_map-Aligned :
    (m : Var → Option Var) (size : ℕ) (t : Var → LBool) (t_size : ℕ) (s : Compression)
    → Aligned s
    → Numbered m size
    → 0 < count m size
    → (is_available s ≡ true → size ≡ s.postvars)
    → Aligned (update_map m size t t_size s)
unfolding update_map
update_map-Aligned m size t t_size s a num some_kept fits = elim (Bool-cases (is_available s)) [
  | inr b ↦ rw b (
      filled-Aligned _ (resized s.forward s.postvars (last_var m size + 1)) num
        (last_var-count m size num some_kept) refl)
  | inl b ↦
      let same : size ≡ s.postvars = fits b in
      let num' : Numbered m s.postvars = rw same at num in
      let high = highest-count s.forward m t s.mapping s.trail s.postvars num' in
      let kept : 0 < count m s.postvars = rw same at some_kept in
      let total : count m (count s.mapping s.nvars) ≡ count m s.postvars =
        ap (count m) (sym a.size) in
      let count_now = now-count s a m t num' s.nvars (omega arith) in
      rw (b, same)
        (filled-Aligned _
          (resized s.forward s.postvars (highest s.forward m t s.mapping s.trail s.postvars + 1))
          (now-Numbered s a m t num') (omega (arith, high, kept, total, count_now)) refl)
]
