-- ===== src/Occurrences/Tests.antt =====
-- Lists of numbers, of which the even ones are deleted.
use riss.Base.{ℕ, ◌%◌, ◌≡◌, refl, Bool, false, [], ◌∷◌, ◌==◌}
use riss.Occurrences.{OccLists, remaining, clean, clean_each, clean_all, smudge}

abbrev is_even : ℕ → Bool
is_even n = n % 2 == 0

abbrev lists : OccLists ℕ
lists = record { occs = λ i. 1 ∷ 2 ∷ 3 ∷ 4 ∷ []; dirty = λ i. false; dirties = []; size = 3 }

cleaned_test : (clean_all is_even (smudge 1 lists)).occs 1 ≡ 1 ∷ 3 ∷ []
unfolding clean_all clean_each clean remaining smudge
cleaned_test = refl
