-- ===== src/Ranges/Merge.antt =====
-- `mergeRange` covers the same pieces, by ranges that are in order and apart.
use gostream.Prelude.{
  ℕ, ◌≤◌, ◌<◌, ◌≡◌, refl, true, false, Bool-cases, ◌||◌, leb, inl, inr, arith, List, [], ◌∷◌,
  length, All, IsOrdered, IsWeakOrder, sort_slice-IsOrdered, ◌∙◌, any_of-sort_slice, All-sort_slice,
}
use gostream.Ranges.{
  Range, in_range, range_less, extend_to, merge_from, merge_sorted, merge_range, covered,
}

range_less-IsWeakOrder : IsWeakOrder range_less
range_less-IsWeakOrder = record {
  asym = λ x y h. ground arith;
  neg_trans = λ x y z h k. ground arith;
}

abbrev StartsAbove : ℕ → List Range → Type 0
StartsAbove s = All (λ r. s ≤ r.start)

abbrev ByStart : List Range → Type 0
ByStart [] = Unit
ByStart (r ∷ rs) = StartsAbove r.start rs × ByStart rs

-- No range is empty.
abbrev pub AllProper : List Range → Type 0
AllProper = All (λ r. r.start ≤ r.end)

abbrev pub After : ℕ → List Range → Type 0
After e [] = Unit
After e (r ∷ rs) = e < r.start

-- Each range ends before the next one starts.
abbrev pub Separated : List Range → Type 0
Separated [] = Unit
Separated (r ∷ rs) = (r.start ≤ r.end) × After r.end rs × Separated rs

IsOrdered-StartsAbove :
    (r : Range) (rs : List Range) → All (λ y. range_less y r ≡ false) rs → StartsAbove r.start rs
IsOrdered-StartsAbove r [] h = tt
IsOrdered-StartsAbove r (x ∷ rs) h = (ground arith, IsOrdered-StartsAbove r rs h.1)

IsOrdered-ByStart : (rs : List Range) → IsOrdered range_less rs → ByStart rs
IsOrdered-ByStart [] h = tt
IsOrdered-ByStart (r ∷ rs) h = (IsOrdered-StartsAbove r rs h.0, IsOrdered-ByStart rs h.1)

covered-merge_from :
    (cur : Range) (rs : List Range) (ind : ℕ)
    → StartsAbove cur.start rs
    → ByStart rs
    → covered (merge_from cur rs) ind ≡ (in_range cur ind || covered rs ind)
unfolding merge_from
covered-merge_from cur [] ind h s = refl
covered-merge_from cur (r ∷ rs) ind h s = elim (Bool-cases (leb r.start cur.end)) [
  | inl e ↦ rw e (ground (arith, covered-merge_from (extend_to cur r.end) rs ind h.1 s.1))
  | inr e ↦ rw e (ground (arith, covered-merge_from r rs ind s.0 s.1))
]

After-merge_from :
    (e : ℕ) (cur : Range) (rs : List Range) → e < cur.start → After e (merge_from cur rs)
unfolding merge_from
After-merge_from e cur [] h = h
After-merge_from e cur (r ∷ rs) h = elim (Bool-cases (leb r.start cur.end)) [
  | inl t ↦ rw t (After-merge_from e (extend_to cur r.end) rs h)
  | inr t ↦ rw t h
]

Separated-merge_from :
    (cur : Range) (rs : List Range)
    → cur.start ≤ cur.end
    → AllProper rs
    → Separated (merge_from cur rs)
unfolding merge_from
Separated-merge_from cur [] h hs = (h, tt, tt)
Separated-merge_from cur (r ∷ rs) h hs = elim (Bool-cases (leb r.start cur.end)) [
  | inl t ↦ rw t (Separated-merge_from (extend_to cur r.end) rs (ground arith) hs.1)
  | inr t ↦
      rw t (h, After-merge_from cur.end r rs (ground arith), Separated-merge_from r rs hs.0 hs.1)
]

covered-merge_sorted :
    (rs : List Range) (ind : ℕ) → ByStart rs → covered (merge_sorted rs) ind ≡ covered rs ind
unfolding merge_sorted
covered-merge_sorted [] ind h = refl
covered-merge_sorted (r ∷ rs) ind h = covered-merge_from r rs ind h.0 h.1

Separated-merge_sorted : (rs : List Range) → AllProper rs → Separated (merge_sorted rs)
unfolding merge_sorted
Separated-merge_sorted [] h = tt
Separated-merge_sorted (r ∷ rs) h = Separated-merge_from r rs h.0 h.1

-- Merging neither loses a piece nor adds one.
pub covered-merge_range :
    (ranges : List Range) (ind : ℕ) → covered (merge_range ranges) ind ≡ covered ranges ind
unfolding merge_range
covered-merge_range ranges ind = elim (Bool-cases (leb (length ranges) 1)) [
  | inl e ↦ rw e
  | inr e ↦ rw e (
      covered-merge_sorted _ ind
        (IsOrdered-ByStart _ (sort_slice-IsOrdered range_less range_less-IsWeakOrder ranges))
      ∙ any_of-sort_slice range_less (λ r. in_range r ind) ranges)
]

Separated-short :
    (ranges : List Range) → leb (length ranges) 1 ≡ true → AllProper ranges → Separated ranges
Separated-short [] e h = tt
Separated-short (r ∷ []) e h = (h.0, tt, tt)
Separated-short (r ∷ s ∷ rs) e h = absurd (ground arith)

-- If no given range is empty, each merged range ends before the next one starts.
pub merge_range-Separated :
    (ranges : List Range) → AllProper ranges → Separated (merge_range ranges)
unfolding merge_range
merge_range-Separated ranges h = elim (Bool-cases (leb (length ranges) 1)) [
  | inl e ↦ rw e (Separated-short ranges e h)
  | inr e ↦ rw e (Separated-merge_sorted _ (All-sort_slice range_less _ ranges h))
]
