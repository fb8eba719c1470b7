-- ===== src/Torrstor/Reader.antt =====
-- internal/gostorm/torr/storage/torrstor/reader.go: which pieces a reader protects.
--
-- What `readerOn` and `readerOff` ask of the reader of the torrent library, its place and its readahead,
-- is left out: it changes nothing in the reader itself. What the library answers to `Seek` and `Read` is
-- an argument. Go computes the shares of the cache in floating point, so the two results are parameters.
use gostream.Prelude.{
  ℕ, ◌+◌, ◌-◌, ◌/◌, ◌≤◌, ◌==◌, ltb, if◌then◌else◌, Bool, true, false, ◌&&◌, ◌≡◌, refl, Bool-cases,
  inl, inr, arith,
}
use gostream.Ranges.{File, Range}

pub record Reader : Type 0 where
  pub offset : ℕ
  pub readahead : ℕ
  pub file : File
  pub last_access : ℕ
  pub is_use : Bool

-- `share q percent` is `int64(float64(q) * 0.85 * float64(percent) / 100.0)`, and `four_fifths n` is
-- `int(float64(n) * 0.8)`.
pub record Floats : Type 0 where
  pub share : ℕ → ℕ → ℕ
  pub four_fifths : ℕ → ℕ

div_mono : (n : ℕ) {a b : ℕ} → a ≤ b → a / n ≤ b / n
div_mono n h = grind arith

-- A reader, and the count of active readers.
unfoldable pub reader_on : Reader → ℕ → Reader × ℕ
reader_on r active = if r.is_use then (r, active) else (record r { is_use = true }, active + 1)

unfoldable pub reader_off : Reader → ℕ → Reader × ℕ
reader_off r active =
    if r.is_use then (record r { readahead = 0; is_use = false }, active - 1) else (r, active)

-- `Seek` of a reader that is not closed. `n` is the offset that the library answers, which replaces the
-- one asked for, and `unix` the clock.
unfoldable pub seek : ℕ → ℕ → Reader → ℕ → Reader × ℕ
unfolding reader_on
seek n unix r active =
    let (r', active') = reader_on r active in
    (record r' { offset = n; last_access = unix }, active')

-- `Read` of a reader that is not closed. `has_info` is whether the file still has a torrent with its
-- info, and `n` how many bytes the library has read.
unfoldable pub read : Bool → ℕ → ℕ → Reader → ℕ → Reader × ℕ
unfolding reader_on
read has_info n unix r active =
    let (r', active') = reader_on r active in
    if has_info
    then (record r' { offset = r'.offset + n; last_access = unix }, active')
    else (r, active)

-- `readers` is how many readers the cache has.
unfoldable pub check_reader : ℕ → ℕ → Reader → ℕ → Reader × ℕ
unfolding reader_on reader_off
check_reader now readers r active =
    if ltb (r.last_access + 60) now && ltb 1 readers
    then reader_off r active
    else reader_on r active

abbrev pub piece_num : ℕ → Reader → ℕ → ℕ
piece_num piece_length r offset = (offset + r.file.offset) / piece_length

unfoldable pub reader_piece : ℕ → Reader → ℕ
reader_piece piece_length r = piece_num piece_length r r.offset

unfoldable pub reader_rah_piece : ℕ → Reader → ℕ
reader_rah_piece piece_length r = piece_num piece_length r (r.offset + r.readahead)

module _ (floats : Floats) (percent : ℕ) where
  -- The window around the reader's offset, within the file.
  unfoldable pub offset_range : ℕ → Reader → ℕ → ℕ × ℕ
  offset_range capacity r active =
      let readers = if active == 0 then 1 else active in
      let begin_offset = r.offset - floats.share (capacity / readers) (100 - percent) in
      let end_offset = r.offset + floats.share (capacity / readers) percent in
      (begin_offset, if ltb r.file.size end_offset then r.file.size else end_offset)

  unfoldable pub pieces_range : ℕ → ℕ → Reader → ℕ → Range
  unfolding offset_range
  pieces_range capacity piece_length r active =
      let (start_off, end_off) = offset_range capacity r active in
      record {
        start = piece_num piece_length r start_off;
        end = piece_num piece_length r end_off;
        file = r.file;
      }

  end_offset-le :
      (capacity : ℕ) (r : Reader) (active : ℕ) → (offset_range capacity r active).1 ≤ r.file.size
  unfolding offset_range
  end_offset-le capacity r active = elim (Bool-cases (ltb r.file.size (wanted capacity))) [
    | inl t ↦ rw t (omega arith)
    | inr t ↦ rw t (ground arith)
  ]
    where
      wanted : ℕ → ℕ
      wanted capacity =
          r.offset + floats.share (capacity / (if active == 0 then 1 else active)) percent

  -- The window never leaves the pieces of the reader's file.
  pub pieces_range-file :
      (capacity piece_length : ℕ) (r : Reader) (active : ℕ)
      → (r.file.offset / piece_length ≤ (pieces_range capacity piece_length r active).start)
        × ((pieces_range capacity piece_length r active).end
            ≤ (r.file.offset + r.file.size) / piece_length)
        × ((pieces_range capacity piece_length r active).file ≡ r.file)
  unfolding pieces_range
  pieces_range-file capacity piece_length r active = (
    div_mono piece_length (omega arith),
    div_mono piece_length (omega (arith, end_offset-le capacity r active)),
    refl,
  )
