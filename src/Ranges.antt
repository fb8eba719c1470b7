-- ===== src/Ranges.antt =====
-- internal/gostorm/torr/storage/torrstor/ranges.go: the ranges of pieces that readers protect.
-- Piece numbers are never negative, so they are natural numbers. `Search` is Go's `sort.Search`,
-- `Merge` and `Lookup` hold the proofs.
pub mod Search
pub mod Merge
pub mod Lookup
mod Tests
use gostream.Prelude.{
  ℕ, ◌==◌, ltb, leb, if◌then◌else◌, Bool, true, false, ◌&&◌, ◌||◌, List, [], ◌∷◌, length, get_elem?,
  Option, none, some, sort_slice, any_of,
}
use Search.{search}

-- What the code reads of a library file: `Offset()` and `Length()`.
pub record File : Type 0 where
  pub offset : ℕ
  pub size : ℕ

pub record Range : Type 0 where
  pub start : ℕ
  pub end : ℕ
  pub file : File

-- The bounds are inclusive.
abbrev pub in_range : Range → ℕ → Bool
in_range r ind = leb r.start ind && leb ind r.end

-- `f(i)` of the search. Its index is always in range.
ends_from : List Range → ℕ → ℕ → Bool
ends_from ranges ind i = elim (get_elem? ranges i) [ none ↦ true | some r ↦ leb ind r.end ]

starts_by : List Range → ℕ → ℕ → Bool
starts_by ranges ind i = elim (get_elem? ranges i) [ none ↦ false | some r ↦ leb r.start ind ]

unfoldable pub in_ranges : List Range → ℕ → Bool
unfolding ends_from starts_by
in_ranges ranges ind =
    let i = search (length ranges) (ends_from ranges ind) in
    ltb i (length ranges) && starts_by ranges ind i

abbrev pub range_less : Range → Range → Bool
range_less a b = ltb a.start b.start || (a.start == b.start && ltb a.end b.end)

abbrev pub extend_to : Range → ℕ → Range
extend_to cur e = record cur { end = if ltb cur.end e then e else cur.end }

-- The loop over the sorted copy. `cur` is `merged[j]`: it is written to its place when the next range
-- starts behind it.
unfoldable pub merge_from : Range → List Range → List Range
merge_from cur [] = cur ∷ []
merge_from cur (r ∷ rs) =
    let joined = merge_from (extend_to cur r.end) rs in
    let apart = cur ∷ merge_from r rs in if leb r.start cur.end then joined else apart

merge_sorted : List Range → List Range
unfolding merge_from
merge_sorted [] = []
merge_sorted (r ∷ rs) = merge_from r rs

unfoldable pub merge_range : List Range → List Range
unfolding merge_sorted sort_slice
merge_range ranges =
    if leb (length ranges) 1 then ranges else merge_sorted (sort_slice range_less ranges)

-- The specification: is the piece in one of the ranges?
abbrev pub covered : List Range → ℕ → Bool
covered ranges ind = any_of (λ r. in_range r ind) ranges
