-- ===== src/Torrstor/Protect/Bitmap.antt =====
-- The bitmap that eviction consults, against the files of the ranges.
use gostream.Prelude.{
  ℕ, zero, suc, ◌+◌, ◌-◌, ◌<◌, ◌≡◌, refl, ap, ltb, leb, ◌==◌, Bool, true, false, ◌&&◌, ◌||◌, List,
  [], ◌∷◌, length, replicate, set, any_of, length-replicate, arith, ◌∙◌,
}
use gostream.Ranges.{Range}
use gostream.Torrstor.Protect.{
  first_piece, last_piece, stop_piece, mark, mark_ranges, piece_in_range, is_marked,
}

is_marked-set :
    (bits : List Bool) (i id : ℕ)
    → is_marked (set bits i true) id ≡ ((i == id && ltb id (length bits)) || is_marked bits id)
unfolding is_marked
is_marked-set [] i id = ground arith
is_marked-set (b ∷ bits) zero zero = ground arith
is_marked-set (b ∷ bits) zero (suc id) = ground arith
is_marked-set (b ∷ bits) (suc i) zero = ground arith
is_marked-set (b ∷ bits) (suc i) (suc id) = ground (arith, is_marked-set bits i id)

length-set-true : (bits : List Bool) (i : ℕ) → length (set bits i true) ≡ length bits
length-set-true [] i = refl
length-set-true (b ∷ bits) zero = refl
length-set-true (b ∷ bits) (suc i) = ap suc (length-set-true bits i)

length-mark : (n i : ℕ) (bits : List Bool) → length (mark n i bits) ≡ length bits
unfolding mark
length-mark zero i bits = refl
length-mark (suc n) i bits = length-mark n (i + 1) (set bits i true) ∙ length-set-true bits i

is_marked-mark :
    (n i : ℕ) (bits : List Bool) (id : ℕ)
    → is_marked (mark n i bits) id
      ≡ (((leb i id && ltb id (i + n)) && ltb id (length bits)) || is_marked bits id)
unfolding mark
is_marked-mark zero i bits id = ground arith
is_marked-mark (suc n) i bits id = ground (
  arith,
  is_marked-mark n (i + 1) (set bits i true) id,
  is_marked-set bits i id,
  length-set-true bits i,
)

is_marked-replicate : (n id : ℕ) → is_marked (replicate n false) id ≡ false
unfolding is_marked
is_marked-replicate zero id = refl
is_marked-replicate (suc n) zero = refl
is_marked-replicate (suc n) (suc id) = is_marked-replicate n id

-- Whether the piece belongs to the file of the range.
abbrev pub in_file : ℕ → ℕ → Range → Bool
in_file piece_length id rng =
    leb (first_piece piece_length rng) id && leb id (last_piece piece_length rng)

stop_piece_lem :
    (piece_length count id : ℕ) (r : Range)
    → id < count
    → (leb (first_piece piece_length r) id
        && ltb id (
            first_piece piece_length r
            + (stop_piece piece_length count r - first_piece piece_length r)))
      ≡ in_file piece_length id r
stop_piece_lem piece_length count id r h = ground arith

is_marked-mark_ranges :
    (piece_length count : ℕ) (ranges : List Range) (bits : List Bool) (id : ℕ)
    → length bits ≡ count
    → id < count
    → is_marked (mark_ranges piece_length count ranges bits) id
      ≡ (any_of (in_file piece_length id) ranges || is_marked bits id)
unfolding mark_ranges
is_marked-mark_ranges piece_length count [] bits id l h = refl
is_marked-mark_ranges piece_length count (r ∷ rs) bits id l h =
    let start = first_piece piece_length r in
    let n = stop_piece piece_length count r - start in
    let rest =
      is_marked-mark_ranges piece_length count rs (mark n start bits) id
        (length-mark n start bits ∙ l) h in
    let inside : ltb id (length bits) ≡ true = ground arith in
    rest
    ∙ reorder rs n start bits r inside (is_marked-mark n start bits id)
        (stop_piece_lem piece_length count id r h)
  where
    reorder :
        (rs : List Range) (n start : ℕ) (bits : List Bool) (r : Range)
        → ltb id (length bits) ≡ true
        → is_marked (mark n start bits) id
          ≡ (((leb start id && ltb id (start + n)) && ltb id (length bits)) || is_marked bits id)
        → (leb start id && ltb id (start + n)) ≡ in_file piece_length id r
        → (any_of (in_file piece_length id) rs || is_marked (mark n start bits) id)
          ≡ (any_of (in_file piece_length id) (r ∷ rs) || is_marked bits id)
    reorder rs n start bits r inside e f = rw (e, f, inside) (ground arith)

-- The bitmap marks a piece exactly when it belongs to the FILE of one of the ranges: how far the ranges
-- themselves reach is not looked at.
pub is_marked-in_file :
    (piece_length piece_count : ℕ) (ranges : List Range) (id : ℕ)
    → id < piece_count
    → is_marked (piece_in_range piece_length piece_count ranges) id
      ≡ any_of (in_file piece_length id) ranges
unfolding piece_in_range
is_marked-in_file piece_length piece_count ranges id h =
    is_marked-mark_ranges piece_length piece_count ranges (replicate piece_count false) id
      (length-replicate piece_count false) h
    ∙ or_false (any_of (in_file piece_length id) ranges) _ (is_marked-replicate piece_count id)
  where
    or_false : (a b : Bool) → b ≡ false → (a || b) ≡ a
    or_false a b e = ground arith
