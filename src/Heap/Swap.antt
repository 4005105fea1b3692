-- ===== src/Heap/Swap.antt =====
-- The places of a heap are kept when two elements change places.
use native.Mathlib.Decide.{ℕ_discrete}
use riss.Base.{ℕ, ◌<◌, ◌≡◌, ◌≢◌, ap, sym, ◌∙◌, Option, some, arith}
use riss.Heap.{Heap, place, in_heap, is_index}

-- each element knows its place
pub record Placed (h : Heap) : Type 0 where
  pub known : (i : ℕ) → i < h.size → h.indices (h.heap i) ≡ some i
  pub held : (n i : ℕ) → h.indices n ≡ some i → (i < h.size) × (h.heap i ≡ n)

some-inj : {i j : ℕ} → ◌≡◌ {A = Option ℕ} (some i) (some j) → i ≡ j
some-inj e = cc

-- two places hold different elements
pub apart :
    (h : Heap) → Placed h → (i j : ℕ) → i < h.size → j < h.size → h.heap i ≡ h.heap j → i ≡ j
apart h p i j a b e = some-inj (sym (p.known i a) ∙ (ap h.indices e ∙ p.known j b))

module _ (x i p : ℕ) (h : Heap) (good : Placed (place x i h)) (i_low : i < h.size)
    (p_low : p < h.size) (ne : i ≢ p) where
  abbrev before : Heap
  before = place x i h

  abbrev after : Heap
  after = place x p (place (h.heap p) i h)

  not_x : h.heap p ≢ x
  not_x e =
      let here : before.heap p ≡ h.heap p = ground arith in
      let there : before.heap i ≡ x = ground arith in
      ne (sym (apart before good p i p_low i_low (here ∙ (e ∙ sym there))))

  before_p : before.heap p ≡ h.heap p
  before_p = ground arith

  before_i : before.heap i ≡ x
  before_i = ground arith

  after_p : after.heap p ≡ x
  after_p = ground arith

  after_i : after.heap i ≡ h.heap p
  after_i = ground arith

  after_other : (j : ℕ) → j ≢ p → j ≢ i → after.heap j ≡ before.heap j
  after_other j np ni = ground arith

  index_x : after.indices x ≡ some p
  index_x = ground arith

  index_p : after.indices (h.heap p) ≡ some i
  index_p = ground (arith, not_x)

  index_other : (n : ℕ) → n ≢ x → n ≢ h.heap p → after.indices n ≡ before.indices n
  index_other n nx np = ground arith

  swap-known : (j : ℕ) → j < h.size → after.indices (after.heap j) ≡ some j
  swap-known j low = elim (ℕ_discrete j p) [
    | yes e ↦ rw e (ap after.indices after_p ∙ index_x)
    | no np ↦ elim (ℕ_discrete j i) [
      | yes e ↦ rw e (ap after.indices after_i ∙ index_p)
      | no ni ↦
          let nx : before.heap j ≢ x =
            λ e. ni (apart before good j i low i_low (e ∙ sym before_i)) in
          let ny : before.heap j ≢ h.heap p =
            λ e. np (apart before good j p low p_low (e ∙ sym before_p)) in
          ap after.indices (after_other j np ni)
          ∙ (index_other (before.heap j) nx ny ∙ good.known j low)
    ]
  ]

  swap-held : (n k : ℕ) → after.indices n ≡ some k → (k < h.size) × (after.heap k ≡ n)
  swap-held n k e = elim (ℕ_discrete n x) [
    | yes f ↦
        let here : p ≡ k = some-inj (sym index_x ∙ (ap after.indices (sym f) ∙ e)) in
        rw (← here) (p_low, after_p ∙ sym f)
    | no nx ↦ elim (ℕ_discrete n (h.heap p)) [
      | yes f ↦
          let here : i ≡ k = some-inj (sym index_p ∙ (ap after.indices (sym f) ∙ e)) in
          rw (← here) (i_low, after_i ∙ sym f)
      | no ny ↦
          let (low, at) = good.held n k (sym (index_other n nx ny) ∙ e) in
          let np : k ≢ p = λ f. ny (sym at ∙ (ap before.heap f ∙ before_p)) in
          let ni : k ≢ i = λ f. nx (sym at ∙ (ap before.heap f ∙ before_i)) in
          (low, after_other k np ni ∙ at)
    ]
  ]

  pub swap-Placed : Placed after
  swap-Placed = record { known = swap-known; held = swap-held }

  pub swap-in_heap : (n : ℕ) → in_heap after n ≡ in_heap before n
  swap-in_heap n = elim (ℕ_discrete n x) [
    | yes f ↦
        let here : before.indices x ≡ some i = ground arith in
        rw f (ap is_index index_x ∙ sym (ap is_index here))
    | no nx ↦ elim (ℕ_discrete n (h.heap p)) [
      | yes f ↦
          let here : before.indices (h.heap p) ≡ some p =
            ap before.indices (sym before_p) ∙ good.known p p_low in
          rw f (ap is_index index_p ∙ sym (ap is_index here))
      | no ny ↦ ap is_index (index_other n nx ny)
    ]
  ]
