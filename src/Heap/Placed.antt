-- ===== src/Heap/Placed.antt =====
-- Each operation of the heap keeps the places right, and holds the elements that it should.
use native.Mathlib.Decide.{ℕ_discrete}
use riss.Base.{
  ℕ, zero, suc, ◌-◌, ◌<◌, ◌≡◌, ◌≢◌, inl, inr, refl, ap, sym, ◌∙◌, subst, Bool, true, false, not,
  ◌&&◌, Option, none, some, fun_ext, ◌==◌, ltb, if◌then◌else◌, update, Bool-cases, arith,
}
use riss.Heap.{
  Heap, left, parent, place, in_heap, is_index, child_of, up, percolate_up, down, percolate_down,
  append, insert, drop_first, remove_min,
}
use riss.Heap.Swap.{Placed, apart, swap-Placed, swap-in_heap}

-- the places are right, and the elements are the same
pub record Kept (h t : Heap) : Type 0 where
  pub placed : Placed t
  pub size : t.size ≡ h.size
  pub same : (n : ℕ) → in_heap t n ≡ in_heap h n

Kept-trans : {h t u : Heap} → Kept h t → Kept t u → Kept h u
Kept-trans a b = record {
  placed = b.placed;
  size = b.size ∙ a.size;
  same = λ n. b.same n ∙ a.same n;
}

Kept-refl : {h : Heap} → Placed h → Kept h h
Kept-refl p = record { placed = p; size = refl; same = λ n. refl }

module _ (lt : ℕ → ℕ → Bool) where
  up-Kept :
      (fuel x i : ℕ) (h : Heap)
      → Placed (place x i h)
      → i < h.size
      → Kept (place x i h) (up lt fuel x i h)
  unfolding up
  up-Kept zero x i h p low = Kept-refl p
  up-Kept (suc fuel) x i h p low = elim (Bool-cases (not (i == 0) && lt x (h.heap (parent i)))) [
    | inr b ↦ rw (b, up) (Kept-refl p)
    | inl b ↦
        let positive : (i == 0) ≡ false = ground arith in
        let ne : i ≢ parent i = λ e. ground arith in
        let p_low : parent i < h.size = omega (arith, low) in
        let now : Kept (place x i h) (place x (parent i) (place (h.heap (parent i)) i h)) = record {
          placed = swap-Placed x i (parent i) h p low p_low ne;
          size = refl;
          same = swap-in_heap x i (parent i) h p low p_low ne;
        } in
        rw (b, up)
          (Kept-trans now
            (up-Kept fuel x (parent i) (place (h.heap (parent i)) i h) now.placed p_low))
  ]

  down-Kept :
      (fuel x i : ℕ) (h : Heap)
      → Placed (place x i h)
      → i < h.size
      → Kept (place x i h) (down lt fuel x i h)
  unfolding down
  down-Kept zero x i h p low = Kept-refl p
  down-Kept (suc fuel) x i h p low =
      let c = child_of lt i h in
      elim (Bool-cases (ltb (left i) h.size && lt (h.heap c) x)) [
        | inr b ↦ rw (b, down) (Kept-refl p)
        | inl b ↦
            let c_low : c < h.size = ground arith in
            let ne : i ≢ c = λ e. ground arith in
            let now : Kept (place x i h) (place x c (place (h.heap c) i h)) = record {
              placed = swap-Placed x i c h p low c_low ne;
              size = refl;
              same = swap-in_heap x i c h p low c_low ne;
            } in
            rw (b, down)
              (Kept-trans now (down-Kept fuel x c (place (h.heap c) i h) now.placed c_low))
      ]

-- to put an element where it is changes nothing
place_self : (i : ℕ) (h : Heap) → Placed h → i < h.size → place (h.heap i) i h ≡ h
place_self i h p low = λ d. record h { heap = same_heap d; indices = same_indices d }
  where
    same_heap : update h.heap i (h.heap i) ≡ h.heap
    same_heap =
        fun_ext λ j. elim (ℕ_discrete i j) [ yes e ↦ rw e (ground arith) | no n ↦ ground arith ]

    same_indices : update h.indices (h.heap i) (some i) ≡ h.indices
    same_indices = fun_ext λ n. elim (ℕ_discrete (h.heap i) n) [
      | yes e ↦ rw (← e) (ground (arith, p.known i low))
      | no k ↦ ground arith
    ]

module _ (lt : ℕ → ℕ → Bool) (i : ℕ) (h : Heap) (p : Placed h) (low : i < h.size) where
  percolate_up-Kept : Kept h (percolate_up lt i h)
  unfolding percolate_up
  percolate_up-Kept =
      let e = place_self i h p low in
      subst (λ y. Kept y (up lt i (h.heap i) i h)) e
        (up-Kept lt i (h.heap i) i h (subst Placed (sym e) p) low)

  percolate_down-Kept : Kept h (percolate_down lt i h)
  unfolding percolate_down
  percolate_down-Kept =
      let e = place_self i h p low in
      subst (λ y. Kept y (down lt h.size (h.heap i) i h)) e
        (down-Kept lt h.size (h.heap i) i h (subst Placed (sym e) p) low)

none-index : (o : Option ℕ) (i : ℕ) → is_index o ≡ false → o ≢ some i
none-index none i h e = cc
none-index (some j) i h e = cc

append-Placed : (n : ℕ) (h : Heap) → Placed h → in_heap h n ≡ false → Placed (append n h)
append-Placed n h p new = record {
  known = λ i low. elim (ℕ_discrete h.size i) [
    | yes e ↦ rw (← e) (ground arith)
    | no k ↦
        let low' : i < h.size = omega (arith, low, k) in
        let here : (append n h).heap i ≡ h.heap i = ground arith in
        let other : h.heap i ≢ n =
          λ e. none-index (h.indices n) i new (ap h.indices (sym e) ∙ p.known i low') in
        let there : (append n h).indices (h.heap i) ≡ h.indices (h.heap i) = ground arith in
        ap (append n h).indices here ∙ (there ∙ p.known i low')
  ];
  held = λ m i e. elim (ℕ_discrete n m) [
    | yes f ↦
        let at : (append n h).indices m ≡ some h.size = ground arith in
        let here : h.size ≡ i = let x : some h.size ≡ some i = sym at ∙ e in cc in
        rw (← here) (omega arith, ground arith)
    | no k ↦
        let at : (append n h).indices m ≡ h.indices m = ground arith in
        let (low, held) = p.held m i (sym at ∙ e) in (omega (arith, low), ground (arith, low, held))
  ];
}

-- insert of an element that is not in the heap keeps the places right, and adds the element and no
-- other.
pub insert-Placed :
    (lt : ℕ → ℕ → Bool) (n : ℕ) (h : Heap)
    → Placed h
    → in_heap h n ≡ false
    → Placed (insert lt n h)
      × ((insert lt n h).size ≡ suc h.size)
      × ((m : ℕ) → in_heap (insert lt n h) m ≡ (if n == m then true else in_heap h m))
unfolding insert
insert-Placed lt n h p new =
    let k = percolate_up-Kept lt h.size (append n h) (append-Placed n h p new) (omega arith) in
    (
      k.placed,
      k.size,
      λ m. k.same m ∙ elim (ℕ_discrete n m) [ yes e ↦ ground arith | no f ↦ ground arith ],
    )

module _ (h : Heap) (p : Placed h) (positive : 0 < h.size) where
  abbrev last : ℕ
  last = h.heap (h.size - 1)

  -- the last element is another one, unless it is the only one
  last-first : last ≡ h.heap 0 → h.size ≡ 1
  last-first e =
      let same = apart h p (h.size - 1) 0 (omega arith) positive e in omega (arith, same, positive)

  drop_first-index : (m : ℕ) → m ≢ h.heap 0 → m ≢ last → (drop_first h).indices m ≡ h.indices m
  drop_first-index m a b = ground arith

  drop_first-first : (drop_first h).indices (h.heap 0) ≡ none
  drop_first-first = ground arith

  drop_first-last : last ≢ h.heap 0 → (drop_first h).indices last ≡ some 0
  drop_first-last n = ground arith

  drop_first-Placed : Placed (drop_first h)
  drop_first-Placed = record {
    known = λ i low. elim (ℕ_discrete 0 i) [
      | yes e ↦
          let two : last ≢ h.heap 0 = λ f. omega (arith, last-first f, low) in
          let here : (drop_first h).heap i ≡ last = rw (← e) (ground arith) in
          ap (drop_first h).indices here ∙ (drop_first-last two ∙ ap some e)
      | no k ↦
          let low' : i < h.size = omega (arith, low) in
          let here : (drop_first h).heap i ≡ h.heap i = ground arith in
          let other : h.heap i ≢ h.heap 0 = λ f. k (sym (apart h p i 0 low' positive f)) in
          let not_last : h.heap i ≢ last = λ f.
            let same = apart h p i (h.size - 1) low' (omega arith) f in omega (arith, same, low) in
          ap (drop_first h).indices here
          ∙ (drop_first-index (h.heap i) other not_last ∙ p.known i low')
    ];
    held = λ m i e. elim (ℕ_discrete m (h.heap 0)) [
      | yes f ↦ absurd (
          let wrong : none ≡ some i =
            sym drop_first-first ∙ (ap (drop_first h).indices (sym f) ∙ e) in
          cc)
      | no k ↦ elim (ℕ_discrete m last) [
        | yes f ↦
            let two : last ≢ h.heap 0 = λ g. k (f ∙ g) in
            let at : some 0 ≡ some i =
              sym (drop_first-last two) ∙ (ap (drop_first h).indices (sym f) ∙ e) in
            let here : 0 ≡ i = cc in
            let more : h.size ≢ 1 = λ s. two (ap h.heap (omega (arith, s))) in
            rw (← here) (omega (arith, more, positive), ground (arith, f))
        | no l ↦
            let (low, held) = p.held m i (sym (drop_first-index m k l) ∙ e) in
            let not_zero : i ≢ 0 = λ z. k (sym held ∙ ap h.heap z) in
            let not_end : i ≢ h.size - 1 = λ z. l (sym held ∙ ap h.heap z) in
            (omega (arith, low, not_end), ground (arith, held, not_zero))
      ]
    ];
  }

  drop_first-in_heap :
      (m : ℕ) → in_heap (drop_first h) m ≡ (if h.heap 0 == m then false else in_heap h m)
  drop_first-in_heap m = elim (ℕ_discrete m (h.heap 0)) [
    | yes f ↦ rw f (ap is_index drop_first-first ∙ ground arith)
    | no k ↦ elim (ℕ_discrete m last) [
      | yes f ↦
          let two : last ≢ h.heap 0 = λ g. k (f ∙ g) in
          let known : in_heap h last ≡ true = ap is_index (p.known (h.size - 1) (omega arith)) in
          let other : (h.heap 0 == last) ≡ false = ground (arith, two) in
          rw f (ap is_index (drop_first-last two) ∙ ground (arith, known, other))
      | no l ↦
          let other : (h.heap 0 == m) ≡ false = ground (arith, k) in
          ap is_index (drop_first-index m k l) ∙ ground (arith, other)
    ]
  ]

-- removeMin of a heap that is not empty returns its first element, keeps the places right, and takes
-- out that element and no other.
pub remove_min-Placed :
    (lt : ℕ → ℕ → Bool) (h : Heap)
    → Placed h
    → 0 < h.size
    → ((remove_min lt h).0 ≡ h.heap 0)
      × Placed (remove_min lt h).1
      × ((remove_min lt h).1.size ≡ h.size - 1)
      × ((m : ℕ) → in_heap (remove_min lt h).1 m ≡ (if h.heap 0 == m then false else in_heap h m))
unfolding remove_min
remove_min-Placed lt h p positive =
    let d = drop_first h in
    let placed = drop_first-Placed h p positive in
    let same = drop_first-in_heap h p positive in
    elim (Bool-cases (ltb 1 d.size)) [
      | inl b ↦
          let k = percolate_down-Kept lt 0 d placed (ground arith) in
          rw b (refl, k.placed, k.size, λ m. k.same m ∙ same m)
      | inr b ↦ rw b (refl, placed, refl, same)
    ]
