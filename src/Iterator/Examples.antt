-- ===== src/Iterator/Examples.antt =====
-- Runs of the package iterator, and its theorems at concrete iterators.
use blue.Prelude.{ℕ, ◌≡◌, refl, Option, none, some, List, [], ◌∷◌}
use blue.Iterator.{slice_iter, aggregate, to_slice, next_of_slice, next_of_all}
use blue.Iterator.Streams.{Yields, ends, aggregate-Yields, slice-Yields}

abbrev numbers : List ℕ
numbers = 3 ∷ 5 ∷ []

-- Errors are lists of numbers.
abbrev keep : Option (List ℕ) → List ℕ → List ℕ
keep all e = e

-- Two iterators in turn, the first of them empty.
aggregate-run :
    to_slice (aggregate keep (slice_iter ℕ (List ℕ))) 5 [] ([] ∷ numbers ∷ numbers ∷ [], none)
    ≡ some (3 ∷ 5 ∷ 3 ∷ 5 ∷ [], none)
unfolding to_slice next_of_all next_of_slice
aggregate-run = refl

nothing_left :
    Yields ℕ (List ℕ) (aggregate keep (slice_iter ℕ (List ℕ))) ([], none) [] none ([], none)
unfolding next_of_all
nothing_left = ends refl

aggregate-Yields_example :
    Yields ℕ
      (List ℕ)
      (aggregate keep (slice_iter ℕ (List ℕ)))
      (numbers ∷ [], none)
      (3 ∷ 5 ∷ [])
      none
      ([], none)
aggregate-Yields_example =
    aggregate-Yields keep (slice_iter ℕ (List ℕ)) [] (slice-Yields ℕ (List ℕ) numbers) refl refl
      nothing_left
