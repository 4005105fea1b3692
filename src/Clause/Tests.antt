-- ===== src/Clause/Tests.antt =====
-- The clause operations at concrete clauses.
use mathlib.Core.List.{Permᴰ}
use riss.Base.{◌≡◌, ◌↔◌, inl, inr, refl, true, false, List, [], ◌∷◌, All, arith}
use riss.Lit.{Lit, neg, lit, lit_undef, IsMem}
use riss.Semantics.{Assignment, sat}
use riss.Clause.{Clause, abstraction_from, no_bits, shift_out}
use riss.Clause.Subsume.{search_lit, subsumes_from, subsumes, ordered_subsumes}
use riss.Clause.Sorting.{insert_key, sort_from, sort}
use riss.Clause.Sorting.Correct.{Sorted, sort-Sorted}
use riss.Clause.Order.{less_by, less}
use riss.Clause.Subsumption.{subsumes_entails}
use riss.Clause.Subsumption.Strengthen.{subsumes_strengthens}
use riss.Clause.Subsumption.Complete.{subsumes_complete}
use riss.Clause.Subsumption.Ordered.{ordered_subsumes_lem}

abbrev clause : List Lit → Clause
clause c = record {
  mark = false;
  learnt = false;
  has_extra = true;
  lits = c;
  extra = abstraction_from no_bits c;
}

abbrev all_true : Assignment
all_true v = true

small_subsumes : subsumes (clause (0 ∷ 4 ∷ [])) (clause (4 ∷ 2 ∷ 0 ∷ [])) ≡ lit_undef
unfolding subsumes subsumes_from search_lit neg
small_subsumes = refl

subsumes_entails_example : sat all_true (4 ∷ 2 ∷ 0 ∷ []) ≡ true
subsumes_entails_example =
    subsumes_entails (clause (0 ∷ 4 ∷ [])) (clause (4 ∷ 2 ∷ 0 ∷ [])) small_subsumes all_true refl

small_resolves : subsumes (clause (0 ∷ 4 ∷ [])) (clause (4 ∷ 2 ∷ 1 ∷ [])) ≡ lit 0
unfolding subsumes subsumes_from search_lit neg
small_resolves = refl

no_complement : IsMem (neg 0) (0 ∷ 4 ∷ []) → ⊥
unfolding neg
no_complement (inl e) = omega (arith, e)
no_complement (inr (inl e)) = omega (arith, e)
no_complement (inr (inr e)) = e

subsumes_strengthens_example : sat all_true (shift_out (neg 0) (4 ∷ 2 ∷ 1 ∷ [])) ≡ true
subsumes_strengthens_example =
    subsumes_strengthens (clause (0 ∷ 4 ∷ [])) (clause (4 ∷ 2 ∷ 1 ∷ [])) 0 small_resolves
      no_complement all_true refl refl

subset : All (λ l. IsMem l (4 ∷ 2 ∷ 0 ∷ []) × (IsMem (neg l) (4 ∷ 2 ∷ 0 ∷ []) → ⊥)) (0 ∷ 4 ∷ [])
unfolding neg
subset = ((inr (inr (inl refl)), first), ((inl refl, second), tt))
  where
    first : IsMem (neg 0) (4 ∷ 2 ∷ 0 ∷ []) → ⊥
    first (inl e) = omega (arith, e)
    first (inr (inl e)) = omega (arith, e)
    first (inr (inr (inl e))) = omega (arith, e)
    first (inr (inr (inr e))) = e

    second : IsMem (neg 4) (4 ∷ 2 ∷ 0 ∷ []) → ⊥
    second (inl e) = omega (arith, e)
    second (inr (inl e)) = omega (arith, e)
    second (inr (inr (inl e))) = omega (arith, e)
    second (inr (inr (inr e))) = e

subsumes_complete_example : subsumes (clause (0 ∷ 4 ∷ [])) (clause (4 ∷ 2 ∷ 0 ∷ [])) ≡ lit_undef
subsumes_complete_example =
    subsumes_complete (clause (0 ∷ 4 ∷ [])) (clause (4 ∷ 2 ∷ 0 ∷ [])) (omega arith) refl refl subset

ordered_subsumes_lem_example :
    ordered_subsumes (clause (1 ∷ 4 ∷ [])) (clause (1 ∷ 2 ∷ 4 ∷ [])) ≡ true
    ↔ All (λ l. IsMem l (1 ∷ 2 ∷ 4 ∷ [])) (1 ∷ 4 ∷ [])
ordered_subsumes_lem_example =
    ordered_subsumes_lem (clause (1 ∷ 4 ∷ [])) (clause (1 ∷ 2 ∷ 4 ∷ []))
      ((omega arith, tt), (tt, tt))
      ((omega arith, (omega arith, tt)), ((omega arith, tt), (tt, tt)))

sort-Sorted_example :
    Sorted (sort (clause (5 ∷ 2 ∷ 4 ∷ []))).lits
    × Permᴰ (5 ∷ 2 ∷ 4 ∷ []) (sort (clause (5 ∷ 2 ∷ 4 ∷ []))).lits
sort-Sorted_example = sort-Sorted (clause (5 ∷ 2 ∷ 4 ∷ []))

smaller : less (clause (5 ∷ 2 ∷ [])) (clause (4 ∷ 3 ∷ [])) ≡ false
unfolding less less_by
smaller = refl

larger : less (clause (4 ∷ 3 ∷ [])) (clause (5 ∷ 2 ∷ [])) ≡ true
unfolding less less_by
larger = refl

not_less : less (clause (5 ∷ 2 ∷ [])) (clause (5 ∷ 2 ∷ [])) ≡ false
unfolding less less_by
not_less = refl

-- an insertion
insert_key_test : insert_key 4 (5 ∷ 2 ∷ []) ≡ 5 ∷ 4 ∷ 2 ∷ []
unfolding insert_key
insert_key_test = refl

sort_from_test : sort_from [] (5 ∷ 2 ∷ 4 ∷ []) ≡ 2 ∷ 4 ∷ 5 ∷ []
unfolding sort_from insert_key
sort_from_test = refl
