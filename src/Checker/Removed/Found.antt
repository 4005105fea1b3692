-- ===== src/Checker/Removed/Found.antt =====
-- OnlineProofChecker::removeClause, the search in the shortest occurrence list.
use riss.Base.{
  ℕ, ◌+◌, ◌<◌, ◌≡◌, inl, inr, refl, Bool, true, false, List, [], ◌∷◌, arith, ==-refl, if◌then◌else◌,
  All, All-get_or, length, ltb, get_or,
}
use riss.Lit.{Lit, IsMem}
use riss.Alg.{index_of}
use riss.MarkArray
use riss.MarkArray.{MarkArray}
use riss.Checker.{Checker, CRef}
use riss.Checker.Removal.{mark_all, smallest_from, smallest_index, all_marked, is_same, find_clause}

-- a clause that is not freed, with as many literals and all of them from `c`, in the occurrence list
-- of every literal of `c`
pub record Present (c : List Lit) (s : Checker) (cr : CRef) : Type 0 where
  pub kept : (s.memory cr).mark ≡ false
  pub size : length (s.memory cr).lits ≡ length c
  pub same_lits : All (λ l. IsMem l c) (s.memory cr).lits
  pub listed : All (λ l. IsMem cr (s.occ l)) c

index_of-found :
    (p : ℕ → Bool) (x : ℕ) (xs : List ℕ) → IsMem x xs → p x ≡ true → index_of p xs < length xs
unfolding index_of
index_of-found p x [] h e = absurd h
index_of-found p x (y ∷ xs) (inl h) e = rw (← h, e) (omega arith)
index_of-found p x (y ∷ xs) (inr h) e = let below = index_of-found p x xs h e in ground arith

smallest_from-below :
    (occ : Lit → List CRef) (i : ℕ) (c : List Lit) (k n : ℕ)
    → k < n
    → i + length c ≡ n
    → smallest_from occ i c k < n
unfolding smallest_from
smallest_from-below occ i [] k n h e = h
smallest_from-below occ i (l ∷ c) k n h e =
    smallest_from-below occ (i + 1) c (if ltb (length (occ l)) (length (occ k)) then i else k) n
      (ground arith) (omega (arith, e))

mark_all-keeps :
    (c : List Lit) (m : MarkArray) (l : Lit)
    → MarkArray.is_current_step m l ≡ true
    → MarkArray.is_current_step (mark_all c m) l ≡ true
unfolding mark_all MarkArray.is_current_step MarkArray.set_current_step
mark_all-keeps [] m l h = h
mark_all-keeps (x ∷ c) m l h = mark_all-keeps c (MarkArray.set_current_step m x) l (ground arith)

mark_all-marks :
    (c : List Lit) (m : MarkArray) (l : Lit)
    → IsMem l c
    → MarkArray.is_current_step (mark_all c m) l ≡ true
unfolding mark_all MarkArray.is_current_step MarkArray.set_current_step
mark_all-marks [] m l h = absurd h
mark_all-marks (x ∷ c) m l (inl h) =
    mark_all-keeps c (MarkArray.set_current_step m x) l
      (let r = ==-refl m.step in let r' = ==-refl x in rw (h, r') r)
mark_all-marks (x ∷ c) m l (inr h) = mark_all-marks c (MarkArray.set_current_step m x) l h

all_marked-of :
    (c : List Lit) (m : MarkArray) (d : List Lit)
    → All (λ l. IsMem l c) d
    → all_marked (mark_all c m) d ≡ true
unfolding all_marked
all_marked-of c m [] h = refl
all_marked-of c m (l ∷ d) h = rw (mark_all-marks c m l h.0) (all_marked-of c m d h.1)

pub find_clause-found :
    (l : Lit) (c : List Lit) (s : Checker) (cr : CRef)
    → Present (l ∷ c) s cr
    → (find_clause (l ∷ c) s).2
      < length ((find_clause (l ∷ c) s).0.occ (get_or (l ∷ c) (find_clause (l ∷ c) s).1 0))
unfolding find_clause smallest_index is_same
find_clause-found l c s cr h =
    let s' = (find_clause (l ∷ c) s).0 in
    let k = (find_clause (l ∷ c) s).1 in
    let below : k < length (l ∷ c) =
      smallest_from-below s.occ 1 c 0 (length (l ∷ c)) (omega arith) (omega arith) in
    let size = h.size in
    let marked = all_marked-of (l ∷ c) (MarkArray.next_step s.ma) (s.memory cr).lits h.same_lits in
    index_of-found (is_same s' (length (l ∷ c))) cr (s.occ (get_or (l ∷ c) k 0))
      (All-get_or (λ x. IsMem cr (s.occ x)) (l ∷ c) k 0 h.listed below) (ground arith)
