-- ===== src/Checker/Removal.antt =====
-- proofcheck/OnlineProofChecker.h: finding and removing clauses. The source reads the occurrence
-- lists and the marks of the literals, so the clause has known variables; for others the functions
-- say nothing of it.
use riss.Base.{
  ℕ, ◌+◌, Bool, true, false, not, ◌&&◌, List, [], ◌∷◌, ◌==◌, ltb, if◌then◌else◌, update, length,
  get_or,
}
use riss.Lit.{Lit, neg}
use riss.Alg.{index_of, swap_last, remove_unsort}
use riss.MarkArray
use riss.MarkArray.{MarkArray}
use riss.Checker.{Checker, Watcher, CRef}
use riss.Checker.Operations.{clause_words}

unfoldable pub mark_all : List Lit → MarkArray → MarkArray
mark_all [] m = m
mark_all (l ∷ c) m = mark_all c (MarkArray.set_current_step m l)

-- The index of the literal whose list is searched. The lists of the literals are compared with the
-- list at the index itself, `occ[smallestIndex]`.
unfoldable pub smallest_from : (Lit → List CRef) → ℕ → List Lit → ℕ → ℕ
smallest_from occ i [] smallest = smallest
smallest_from occ i (l ∷ c) smallest =
    smallest_from occ (i + 1) c
      (if ltb (length (occ l)) (length (occ smallest)) then i else smallest)

unfoldable pub smallest_index : (Lit → List CRef) → List Lit → ℕ
unfolding smallest_from
smallest_index occ [] = 0
smallest_index occ (l ∷ c) = smallest_from occ 1 c 0

unfoldable pub all_marked : MarkArray → List Lit → Bool
all_marked m [] = true
all_marked m (l ∷ c) = MarkArray.is_current_step m l && all_marked m c

unfoldable pub is_same : Checker → ℕ → CRef → Bool
unfolding all_marked
is_same s size cr = let d = (s.memory cr).lits in (length d == size) && all_marked s.ma d

-- the marks of the clause, the index of the literal, and the position in its list
unfoldable pub find_clause : List Lit → Checker → Checker × ℕ × ℕ
unfolding mark_all smallest_index is_same
find_clause c s =
    let s' = record s { ma = mark_all c (MarkArray.next_step s.ma) } in
    let k = smallest_index s'.occ c in
    (s', k, index_of (is_same s' (length c)) (s'.occ (get_or c k 0)))

unfoldable pub has_clause : List Lit → Checker → Bool × Checker
unfolding find_clause
has_clause [] s = (not s.ok, s)
has_clause (l ∷ []) s = (ltb (index_of (λ u. u == l) s.unit_clauses) (length s.unit_clauses), s)
has_clause (l ∷ m ∷ c) s =
    let (s', k, i) = find_clause (l ∷ m ∷ c) s in
    (ltb i (length (s'.occ (get_or (l ∷ m ∷ c) k 0))), s')

-- take the clause out of the other occurrence lists
unfoldable pub drop_occ : ℕ → CRef → ℕ → List Lit → (Lit → List CRef) → Lit → List CRef
drop_occ k cr i [] o = o
drop_occ k cr i (l ∷ c) o =
    let list = o l in
    let j = index_of (λ x. x == cr) list in
    drop_occ k cr (i + 1) c
      (if i == k then o else if ltb j (length list) then update o l (swap_last list j) else o)

-- removeUnSort on a list of watchers
abbrev pub unwatch : CRef → Lit → (Lit → List Watcher) → Lit → List Watcher
unwatch cr l ws = update ws (neg l) (remove_unsort (λ w. w.cref == cr) (ws (neg l)))

unfoldable pub detach_lits : CRef → List Lit → (Lit → List Watcher) → Lit → List Watcher
detach_lits cr (a ∷ b ∷ r) ws = unwatch cr b (unwatch cr a ws)
detach_lits cr c ws = ws

unfoldable pub detach_clause : CRef → Checker → Checker
unfolding detach_lits
detach_clause cr s = record s { watches = detach_lits cr (s.memory cr).lits s.watches }

-- ca[ref].mark(1) and ca.free(ref)
unfoldable pub free_clause : CRef → Checker → Checker
free_clause cr s = record s {
  memory = update s.memory cr (record (s.memory cr) { mark = true });
  wasted = s.wasted + clause_words (length (s.memory cr).lits);
}

unfoldable pub remove_unit : Lit → Checker → Bool × Checker
remove_unit l s =
    let i = index_of (λ u. u == l) s.unit_clauses in
    if ltb i (length s.unit_clauses)
    then (true, record s { unit_clauses = swap_last s.unit_clauses i })
    else (false, s)

unfoldable pub remove_long : List Lit → Checker → Bool × Checker
remove_long c s =
    let (s', k, i) = find_clause c s in
    let smallest = get_or c k 0 in
    let list = s'.occ smallest in
    let cr = get_or list i 0 in
    let occ' = drop_occ k cr 0 c (update s'.occ smallest (swap_last list i)) in
    if ltb i (length list)
    then (true, free_clause cr (detach_clause cr (record s' { occ = occ' })))
    else (false, s')

unfoldable pub remove_clause : List Lit → Checker → Bool × Checker
remove_clause [] s = (true, s)
remove_clause (l ∷ []) s = if not s.ok then (true, s) else remove_unit l s
remove_clause (l ∷ m ∷ c) s = if not s.ok then (true, s) else remove_long (l ∷ m ∷ c) s
