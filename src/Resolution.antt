-- ===== src/Resolution.antt =====
-- coprocessor/techniques/BVE.h: the resolvent of two sorted clauses on a variable, and its size.
-- The resolvent is listed from its end, so push puts a literal in front and last is the first one.
pub mod Kept
pub mod Counted
mod Tests
use riss.Base.{
  ℕ, ◌+◌, Bool, true, false, List, [], ◌∷◌, Option, none, some, ◌==◌, ltb, if◌then◌else◌,
}
use riss.Lit.{Lit, Var, LitCode, lit, lit_undef, mk_lit, neg}

-- checkPush: `none` for a complementary literal
unfoldable pub check_push : List Lit → Lit → Option (List Lit)
check_push [] l = some (l ∷ [])
check_push (x ∷ ps) l =
    if x == l then some (x ∷ ps) else if x == neg l then none else some (l ∷ x ∷ ps)

-- resolve(c, d, v, resolvent): whether the resolvent is satisfied, and its literals so far
unfoldable pub resolve : Var → List Lit → List Lit → List Lit → Bool × List Lit
resolve v [] [] ps = (false, ps)
resolve v (a ∷ c) [] ps =
    let skip = resolve v c [] ps in
    let take : Bool × List Lit = elim (check_push ps a) [
      | none ↦ (true, ps)
      | some ps' ↦ resolve v c [] ps'
    ] in
    if a == mk_lit v false then skip else take
resolve v [] (b ∷ d) ps =
    let skip = resolve v [] d ps in
    let take : Bool × List Lit = elim (check_push ps b) [
      | none ↦ (true, ps)
      | some ps' ↦ resolve v [] d ps'
    ] in
    if b == mk_lit v true then skip else take
resolve v (a ∷ c) (b ∷ d) ps =
    let skip_a = resolve v c (b ∷ d) ps in
    let skip_b = resolve v (a ∷ c) d ps in
    let take_a : Bool × List Lit = elim (check_push ps a) [
      | none ↦ (true, ps)
      | some ps' ↦ resolve v c (b ∷ d) ps'
    ] in
    let take_b : Bool × List Lit = elim (check_push ps b) [
      | none ↦ (true, ps)
      | some ps' ↦ resolve v (a ∷ c) d ps'
    ] in
    if a == mk_lit v false
    then skip_a
    else if b == mk_lit v true
    then skip_b
    else if ltb a b
    then take_a
    else take_b

-- checkUpdatePrev: `none` for -1, otherwise the status and the new previous literal
unfoldable pub check_update_prev : LitCode → Lit → Option (ℕ × LitCode)
check_update_prev (lit x) l =
    if x == l then some (0, lit x) else if x == neg l then none else some (1, lit l)
check_update_prev prev l = some (1, lit l)

-- tryResolve(c, d, v): `none` for -1
unfoldable pub try_resolve : Var → List Lit → List Lit → LitCode → ℕ → Option ℕ
try_resolve v [] [] prev r = some r
try_resolve v (a ∷ c) [] prev r =
    let skip = try_resolve v c [] prev r in
    let take : Option ℕ = elim (check_update_prev prev a) [
      | none ↦ none
      | some (status, prev') ↦ try_resolve v c [] prev' (r + status)
    ] in
    if a == mk_lit v false then skip else take
try_resolve v [] (b ∷ d) prev r =
    let skip = try_resolve v [] d prev r in
    let take : Option ℕ = elim (check_update_prev prev b) [
      | none ↦ none
      | some (status, prev') ↦ try_resolve v [] d prev' (r + status)
    ] in
    if b == mk_lit v true then skip else take
try_resolve v (a ∷ c) (b ∷ d) prev r =
    let skip_a = try_resolve v c (b ∷ d) prev r in
    let skip_b = try_resolve v (a ∷ c) d prev r in
    let take_a : Option ℕ = elim (check_update_prev prev a) [
      | none ↦ none
      | some (status, prev') ↦ try_resolve v c (b ∷ d) prev' (r + status)
    ] in
    let take_b : Option ℕ = elim (check_update_prev prev b) [
      | none ↦ none
      | some (status, prev') ↦ try_resolve v (a ∷ c) d prev' (r + status)
    ] in
    if a == mk_lit v false
    then skip_a
    else if b == mk_lit v true
    then skip_b
    else if ltb a b
    then take_a
    else take_b
