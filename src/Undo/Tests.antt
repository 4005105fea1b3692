-- ===== src/Undo/Tests.antt =====
-- A blocked clause over two variables is eliminated, and a model is extended by it.
use riss.Base.{◌≡◌, inl, inr, refl, false, List, [], ◌∷◌, All, ltb, if◌then◌else◌}
use riss.Lit.{Lit, neg, IsMem}
use riss.Lifted.{l_false, l_undef}
use riss.Semantics.{Assignment, Models}
use riss.Undo.{Model, fill, extend_model}
use riss.Undo.Reconstruct.{
  assignment, Entry, entries, clause, repaired, reconstruct, extend_model-reconstruct,
}
use riss.Undo.Sound.{Safe, nothing, eliminated, extend_model_sound}
use riss.Undo.Blocked.{tautologic_resolvent, IsBlocked, blocked-safe}

-- the clause of the literals 0 and 2, blocked on 0 by the clause of 1 and 3
abbrev entry : Entry
entry = record { first = 0; others = 2 ∷ [] }

abbrev rest : List (List Lit)
rest = (1 ∷ 3 ∷ []) ∷ []

entry-literals : All (λ l. IsMem l (clause entry)) (0 ∷ 2 ∷ [])
entry-literals = (inl refl, (inr (inl refl), tt))

rest-IsBlocked : IsBlocked (0 ∷ 2 ∷ []) 0 rest
unfolding tautologic_resolvent neg
rest-IsBlocked = (λ m. (2, refl), tt)

abbrev all_false : Assignment
all_false v = false

blocked-safe_example : Models (repaired entry all_false) (clause entry ∷ rest)
blocked-safe_example =
    blocked-safe entry (0 ∷ 2 ∷ []) rest entry-literals rest-IsBlocked all_false (refl, tt)

abbrev found : Model
found = record { vals = λ v. if ltb v 1 then l_undef else l_false; size = 2 }

extend_model-reconstruct_example :
    assignment (extend_model (entries (entry ∷ [])) found)
    ≡ reconstruct (entry ∷ []) (assignment (fill found))
extend_model-reconstruct_example = extend_model-reconstruct (entry ∷ []) found

found-Models : Models (assignment (fill found)) rest
unfolding fill
found-Models = (refl, tt)

entry-Safe : Safe (clause entry ∷ rest) (entry ∷ []) rest
entry-Safe =
    eliminated nothing entry rest
      (blocked-safe entry (0 ∷ 2 ∷ []) rest entry-literals rest-IsBlocked)

extend_model_sound_example :
    Models (assignment (extend_model (entries (entry ∷ [])) found)) (clause entry ∷ rest)
extend_model_sound_example =
    extend_model_sound (clause entry ∷ rest) rest (entry ∷ []) found entry-Safe found-Models
