-- ===== src/Ranges/Tests.antt =====
-- Runs of the range code on small inputs.
use gostream.Prelude.{ℕ, ◌≡◌, refl, true, List, [], ◌∷◌, arith}
use gostream.Ranges.{File, Range, in_ranges, merge_range, covered}
use gostream.Ranges.Search
use gostream.Ranges.Lookup.{in_ranges-merge_range}

abbrev film : File
film = record { offset = 0; size = 4000 }

abbrev span : ℕ → ℕ → Range
span s e = record { start = s; end = e; file = film }

abbrev three : List Range
three = span 8 12 ∷ span 0 5 ∷ span 3 7 ∷ []

merge_three : merge_range three ≡ span 0 7 ∷ span 8 12 ∷ []
unfolding merge_range
merge_three = refl

find_three : in_ranges (merge_range three) 8 ≡ true
unfolding merge_range in_ranges Search.search
find_three = refl

in_ranges-merge_range_example : in_ranges (merge_range three) 7 ≡ covered three 7
in_ranges-merge_range_example = in_ranges-merge_range three 7 (omega arith)
