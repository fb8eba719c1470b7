-- ===== src/Ranges/Lookup.antt =====
-- `inRanges` decides membership by binary search over the merged ranges.
use gostream.Prelude.{
  ℕ, zero, suc, ◌≤◌, ◌<◌, ◌≡◌, refl, Bool, true, false, ◌&&◌, ◌||◌, leb, ltb, arith, List, [], ◌∷◌,
  length, ◌∙◌,
}
use gostream.Ranges.{Range, in_range, in_ranges, ends_from, starts_by, merge_range, covered}
use gostream.Ranges.Search.{search-IsFirst}
use gostream.Ranges.Merge.{AllProper, Separated, After, merge_range-Separated, covered-merge_range}

-- Whether the range at index `i` holds the piece, as the code tests it.
abbrev probe : List Range → ℕ → ℕ → Bool
probe rs ind i = ltb i (length rs) && starts_by rs ind i

ends_from-head :
    (r : Range) (rs : List Range) (ind k : ℕ)
    → Separated (r ∷ rs)
    → k < length (r ∷ rs)
    → leb ind r.end ≡ true
    → ends_from (r ∷ rs) ind k ≡ true
unfolding ends_from
ends_from-head r rs ind zero s l h = h
ends_from-head r [] ind (suc k) s l h = absurd (omega arith)
ends_from-head r (x ∷ rs) ind (suc k) s l h =
    ends_from-head x rs ind k s.2 (omega arith) (ground arith)

ends_from_mono :
    (rs : List Range) (ind k m : ℕ)
    → Separated rs
    → k ≤ m
    → m < length rs
    → ends_from rs ind k ≡ true
    → ends_from rs ind m ≡ true
unfolding ends_from
ends_from_mono [] ind k m s le l h = absurd (omega arith)
ends_from_mono (r ∷ rs) ind zero m s le l h = ends_from-head r rs ind m s l h
ends_from_mono (r ∷ rs) ind (suc k) zero s le l h = absurd (omega arith)
ends_from_mono (r ∷ rs) ind (suc k) (suc m) s le l h =
    ends_from_mono rs ind k m s.2 (omega arith) (omega arith) h

in_range_before : (r : Range) (ind : ℕ) → ind < r.start → in_range r ind ≡ false
in_range_before r ind h = ground arith

in_range_behind : (r : Range) (ind : ℕ) → leb ind r.end ≡ false → in_range r ind ≡ false
in_range_behind r ind h = ground arith

not-covered-before :
    (e : ℕ) (rs : List Range) (ind : ℕ)
    → After e rs
    → Separated rs
    → ind ≤ e
    → covered rs ind ≡ false
not-covered-before e [] ind a s h = refl
not-covered-before e (x ∷ rs) ind a s h =
    rw (in_range_before x ind (omega arith)) (not-covered-before x.end rs ind s.1 s.2 (omega arith))

probe-head :
    (r : Range) (rs : List Range) (ind : ℕ)
    → leb ind r.end ≡ true
    → probe (r ∷ rs) ind 0 ≡ (in_range r ind || false)
unfolding starts_by
probe-head r rs ind h = ground arith

probe-suc : (r : Range) (rs : List Range) (ind i : ℕ) → probe (r ∷ rs) ind (suc i) ≡ probe rs ind i
unfolding starts_by
probe-suc r rs ind i = ground arith

-- The first range that does not end before the piece decides.
probe-first :
    (rs : List Range) (ind i : ℕ)
    → Separated rs
    → i ≤ length rs
    → ((k : ℕ) → k < i → ends_from rs ind k ≡ false)
    → (i < length rs → ends_from rs ind i ≡ true)
    → probe rs ind i ≡ covered rs ind
unfolding ends_from
probe-first [] ind i s b before here = ground arith
probe-first (r ∷ rs) ind zero s b before here =
    let h : leb ind r.end ≡ true = here (omega arith) in
    rw (not-covered-before r.end rs ind s.1 s.2 (ground arith)) (probe-head r rs ind h)
probe-first (r ∷ rs) ind (suc i) s b before here =
    rw (in_range_behind r ind (before 0 (omega arith))) (
      probe-suc r rs ind i
      ∙ probe-first rs ind i s.2 (omega arith) (λ k l. before (suc k) (omega arith))
          (λ l. here (omega arith)))

in_ranges-covered : (rs : List Range) (ind : ℕ) → Separated rs → in_ranges rs ind ≡ covered rs ind
unfolding in_ranges
in_ranges-covered rs ind s =
    let f =
      search-IsFirst (length rs) (ends_from rs ind)
        (λ k m le l h. ends_from_mono rs ind k m s le l h) in
    probe-first rs ind _ s f.bound f.before f.here

-- The test that decides which prioritised pieces are kept is exact: on the merged ranges the binary
-- search finds a piece exactly when one of the original ranges holds it, if none of them is empty.
pub in_ranges-merge_range :
    (ranges : List Range) (ind : ℕ)
    → AllProper ranges
    → in_ranges (merge_range ranges) ind ≡ covered ranges ind
in_ranges-merge_range ranges ind h =
    in_ranges-covered (merge_range ranges) ind (merge_range-Separated ranges h)
    ∙ covered-merge_range ranges ind
