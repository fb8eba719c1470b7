-- ===== src/Torrstor/Protect.antt =====
-- internal/gostorm/torr/storage/torrstor/cache.go: the pieces that eviction must not touch, which are
-- marked in `pieceInRange` or found by `isIdInFileBE`.
pub mod Bitmap
use gostream.Prelude.{
  ℕ, zero, suc, ◌+◌, ◌-◌, ◌*◌, ◌/◌, ltb, leb, if◌then◌else◌, Bool, true, false, ◌&&◌, ◌||◌, List,
  [], ◌∷◌, replicate, get_elem?, set, Option, none, some, any_of,
}
use gostream.Ranges.{Range}

abbrev pub first_piece : ℕ → Range → ℕ
first_piece piece_length rng = rng.file.offset / piece_length

abbrev pub last_piece : ℕ → Range → ℕ
last_piece piece_length rng = (rng.file.offset + rng.file.size) / piece_length

-- `for i := start; i <= end; i++ { pieceInRange[i] = true }`, with the rounds that are left.
unfoldable pub mark : ℕ → ℕ → List Bool → List Bool
mark zero i bits = bits
mark (suc n) i bits = mark n (i + 1) (set bits i true)

-- `end` is cut to the last piece, so the loop stops before `piece_count`.
abbrev pub stop_piece : ℕ → ℕ → Range → ℕ
stop_piece piece_length piece_count rng =
    if leb piece_count (last_piece piece_length rng)
    then piece_count
    else last_piece piece_length rng + 1

unfoldable pub mark_ranges : ℕ → ℕ → List Range → List Bool → List Bool
unfolding mark
mark_ranges piece_length piece_count [] bits = bits
mark_ranges piece_length piece_count (r ∷ rs) bits = mark_ranges piece_length piece_count rs (
    mark (stop_piece piece_length piece_count r - first_piece piece_length r)
      (first_piece piece_length r) bits)

unfoldable pub piece_in_range : ℕ → ℕ → List Range → List Bool
unfolding mark_ranges
piece_in_range piece_length piece_count ranges =
    mark_ranges piece_length piece_count ranges (replicate piece_count false)

unfoldable pub is_marked : List Bool → ℕ → Bool
is_marked bits id = elim (get_elem? bits id) [ none ↦ false | some b ↦ b ]

abbrev eight_mb : ℕ
eight_mb = 8 * 1024 * 1024

abbrev pub file_range_not_delete : ℕ → ℕ
file_range_not_delete piece_length = if ltb piece_length eight_mb then eight_mb else piece_length

-- `id > es`. Go's division goes towards zero, so `es` is 0 where the dividend is above
-- `-pieceLength`, and negative below.
abbrev above_es : ℕ → Range → ℕ → Bool
above_es piece_length rng id =
    let keep = file_range_not_delete piece_length in
    let file_end = rng.file.offset + rng.file.size in
    if ltb file_end keep
    then (if ltb (keep - file_end) piece_length then ltb 0 id else true)
    else ltb ((file_end - keep) / piece_length) id

abbrev in_file_be : ℕ → Range → ℕ → Bool
in_file_be piece_length rng id =
    let keep = file_range_not_delete piece_length in
    (leb (first_piece piece_length rng) id && ltb id ((rng.file.offset + keep) / piece_length))
    || (above_es piece_length rng id && leb id (last_piece piece_length rng))

unfoldable pub is_id_in_file_be : ℕ → List Range → ℕ → Bool
is_id_in_file_be piece_length ranges id = any_of (λ rng. in_file_be piece_length rng id) ranges
