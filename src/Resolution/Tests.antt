-- ===== src/Resolution/Tests.antt =====
-- Resolvents of two clauses on the variable 1.
use riss.Base.{◌≡◌, refl, true, false, [], ◌∷◌, none}
use riss.Lit.{lit_undef, neg}
use riss.Semantics.{Assignment, sat}
use riss.Resolution.{check_push, resolve, try_resolve}
use riss.Resolution.Kept.{resolve_entails}
use riss.Resolution.Counted.{size_of, try_resolve_lem}

merged : resolve 1 (0 ∷ 2 ∷ 6 ∷ []) (0 ∷ 3 ∷ 4 ∷ []) [] ≡ (false, 6 ∷ 4 ∷ 0 ∷ [])
unfolding resolve check_push neg
merged = refl

abbrev all_true : Assignment
all_true v = true

resolve_entails_example : sat all_true (6 ∷ 4 ∷ 0 ∷ []) ≡ true
resolve_entails_example =
    resolve_entails 1 (0 ∷ 2 ∷ 6 ∷ []) (0 ∷ 3 ∷ 4 ∷ []) (6 ∷ 4 ∷ 0 ∷ []) merged all_true refl refl

try_resolve_lem_example :
    try_resolve 1 (0 ∷ 2 ∷ []) (1 ∷ 3 ∷ []) lit_undef 0
    ≡ size_of (resolve 1 (0 ∷ 2 ∷ []) (1 ∷ 3 ∷ []) [])
try_resolve_lem_example = try_resolve_lem 1 (0 ∷ 2 ∷ []) (1 ∷ 3 ∷ [])

tautology_test : size_of (resolve 1 (0 ∷ 2 ∷ []) (1 ∷ 3 ∷ []) []) ≡ none
unfolding resolve check_push neg
tautology_test = refl
