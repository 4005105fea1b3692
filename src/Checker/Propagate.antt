-- ===== src/Checker/Propagate.antt =====
-- proofcheck/OnlineProofChecker.h: OnlineProofChecker::propagate.
use riss.Base.{
  ℕ, zero, suc, ◌+◌, Bool, true, false, not, ◌&&◌, List, [], ◌∷◌, ◌++◌, Option, none, some, ◌==◌,
  ltb, if◌then◌else◌, update, length, get_or,
}
use riss.Lit.{Lit, neg}
use riss.Lifted.{is_true, is_false, is_undef}
use riss.Checker.{Checker, Watcher, CRef, value, unchecked_enqueue}

-- for all known units; the first result tells a conflict
unfoldable pub units : List Lit → Checker → Bool × Checker
units [] s = (false, s)
units (l ∷ ls) s =
    let next = units ls s in
    let enqueued = units ls (unchecked_enqueue l s) in
    if is_true (value s l) then next else if is_false (value s l) then (true, s) else enqueued

-- the watchers of binary clauses in the list of the propagated literal
unfoldable pub binaries : List Watcher → Checker → Bool × Checker
binaries [] s = (false, s)
binaries (w ∷ ws) s =
    let next = binaries ws s in
    let enqueued = binaries ws (unchecked_enqueue w.blocker s) in
    if w.long
    then next
    else if is_false (value s w.blocker)
    then (true, s)
    else if is_undef (value s w.blocker)
    then enqueued
    else next

-- make sure that the false literal is data[1]
abbrev pub order_false : Lit → List Lit → List Lit
order_false f (a ∷ b ∷ r) = if a == f then b ∷ f ∷ r else a ∷ b ∷ r
order_false f c = c

-- look for a literal from data[2] on that is not false, and put the false literal in its place
abbrev pub new_watch : (Lit → Bool) → Lit → List Lit → Option (Lit × List Lit)
new_watch is_false f [] = none
new_watch is_false f (l ∷ r) =
    if is_false l
    then elim (new_watch is_false f r) [ none ↦ none | some (k, r') ↦ some (k, l ∷ r') ]
    else some (l, f ∷ r)

abbrev pub write_lits : CRef → List Lit → Checker → Checker
write_lits cr c s = record s { memory = update s.memory cr (record (s.memory cr) { lits = c }) }

-- What becomes of a watcher: it stays in the list, it goes to another list, or its clause is false.
pub data Visit : Type 0 where
  keep move conflict : Watcher → Checker → Visit

-- the clause with the false literal `f` at data[1] has no true literal at data[0]
unfoldable pub rewatch : Lit → CRef → List Lit → Checker → Visit
rewatch f cr (first ∷ second ∷ r) s =
    let w : Watcher = record { cref = cr; blocker = first; long = true } in
    elim (new_watch (λ l. is_false (value s l)) f r) [
      | some (k, r') ↦
          let s' = write_lits cr (first ∷ k ∷ r') s in
          move w (record s' { watches = update s'.watches (neg k) (s'.watches (neg k) ++ w ∷ []) })
      | none ↦ if is_false (value s first) then conflict w s else keep w (unchecked_enqueue first s)
    ]
rewatch f cr c s = keep (record { cref = cr; blocker = 0; long = true }) s

-- the clause of a watcher whose blocker is not true, with its literals ordered
unfoldable pub examine : Lit → Watcher → List Lit → Checker → Visit
unfolding rewatch
examine f w c s =
    let s' = write_lits w.cref c s in
    let first = get_or c 0 0 in
    if not (first == w.blocker) && is_true (value s' first)
    then keep (record { cref = w.cref; blocker = first; long = true }) s'
    else rewatch f w.cref c s'

unfoldable pub visit : Lit → Watcher → Checker → Visit
unfolding examine
visit p w s =
    if not w.long
    then keep w s
    else if is_true (value s w.blocker)
    then keep w s
    else examine (neg p) w (order_false (neg p) (s.memory w.cref).lits) s

-- the list of the propagated literal, with what is left of it
unfoldable pub longs : Lit → List Watcher → Checker → Bool × List Watcher × Checker
longs p [] s = (false, [], s)
longs p (w ∷ ws) s = elim (visit p w s) [
  | keep w' s' ↦ let (c, kept, s'') = longs p ws s' in (c, w' ∷ kept, s'')
  | move w' s' ↦ longs p ws s'
  | conflict w' s' ↦ (true, w' ∷ ws, record s' { qhead = length s'.trail })
]

-- one round of the loop, for the literal `p`
unfoldable pub round : Lit → Checker → Bool × Checker
round p s =
    let (c, s1) = binaries (s.watches p) (record s { qhead = s.qhead + 1 }) in
    let (c', kept, s2) = longs p (s1.watches p) s1 in
    if c then (true, s1) else (c', record s2 { watches = update s2.watches p kept })

-- while (qhead < trail.size()); `none` means that the fuel ran out
unfoldable pub loop : ℕ → Checker → Option (Bool × Checker)
loop zero s = none
loop (suc fuel) s =
    if ltb s.qhead (length s.trail)
    then (let (c, s') = round (get_or s.trail s.qhead 0) s in
        let rest = loop fuel s' in if c then some (true, s') else rest)
    else some (false, s)

unfoldable pub propagate : Checker → Option (Bool × Checker)
propagate s =
    let (c, s') = units s.unit_clauses s in
    if c then some (true, s') else loop (s.n_vars + length s.trail + 1) s'
