-- ===== src/Torrstor/Clean/Stuck.antt =====
-- What the bitmap of whole files does to eviction.
use gostream.Prelude.{
  ℕ, ◌+◌, ◌/◌, ◌<◌, ◌≤◌, ◌≡◌, refl, sym, ap, subst, ap₂, ◌∙◌, leb, if◌then◌else◌, Bool, true, false,
  ◌&&◌, ◌||◌, List, [], ◌∷◌, length, All, inl, inr, arith, any_of,
}
use gostream.Ranges.{Range, File, merge_range}
use gostream.Torrstor.Piece.{Piece}
use gostream.Torrstor.Reader.{Reader, check_reader, pieces_range, pieces_range-file}
use gostream.Torrstor.Protect.{piece_in_range, is_marked}
use gostream.Torrstor.Protect.Bitmap.{in_file, is_marked-in_file}
use gostream.Torrstor.Cache.{Cache, Settings, check_readers}
use gostream.Torrstor.Clean.{clean_pieces}
use gostream.Torrstor.Clean.Candidates.{IsFree, eviction_ranges}
use gostream.Torrstor.Clean.Evicted.{Released, clean_pieces-Released}

-- The pieces of a file, by the file alone.
abbrev pub of_file : ℕ → File → ℕ → Bool
of_file piece_length f id =
    leb (f.offset / piece_length) id && leb id ((f.offset + f.size) / piece_length)

abbrev ranges_of : Settings → Cache → ℕ → List Reader → List Range
ranges_of st c unix rs = merge_range (check_readers st c unix (length rs) rs c.active_readers).2

-- A single reader is never switched off.
check_reader_single :
    (unix : ℕ) (r : Reader) (active : ℕ)
    → ((check_reader unix 1 r active).0.is_use ≡ true)
      × ((check_reader unix 1 r active).0.file ≡ r.file)
unfolding check_reader
check_reader_single unix r active = (ground arith, ground arith)

single_range :
    (st : Settings) (c : Cache) (unix : ℕ) (r : Reader)
    → (rng : Range) × (ranges_of st c unix (r ∷ []) ≡ rng ∷ []) × (rng.file ≡ r.file)
unfolding check_readers merge_range
single_range st c unix r =
    let (on, same) = check_reader_single unix r c.active_readers in
    let next = check_reader unix 1 r c.active_readers in
    let rng = pieces_range st.floats st.reader_read_ahead c.capacity c.piece_length next.0 next.1 in
    let e : merge_range (if next.0.is_use then rng ∷ [] else []) ≡ rng ∷ [] =
      subst (λ b. merge_range (if b then rng ∷ [] else []) ≡ rng ∷ []) (sym on) refl in
    (
      rng,
      e,
      (pieces_range-file st.floats st.reader_read_ahead c.capacity c.piece_length next.0 next.1).2
          ∙ same,
    )

-- The pieces that are there belong to the file.
abbrev pub Within : Cache → File → List Piece → Type 0
Within c f = All (λ (p : Piece). (p.id < c.piece_count) × (of_file c.piece_length f p.id ≡ true))

unreleased :
    (P : ℕ → Type 0) (ps qs : List Piece)
    → Released P ps qs
    → All (λ (p : Piece). ¬ P p.id) ps
    → qs ≡ ps
unreleased P [] [] r h = refl
unreleased P [] (q ∷ qs) r h = absurd r
unreleased P (p ∷ ps) [] r h = absurd r
unreleased P (p ∷ ps) (q ∷ qs) (inl e, r) h = ap₂ ◌∷◌ e (unreleased P ps qs r h.1)
unreleased P (p ∷ ps) (q ∷ qs) (inr (e, free), r) h = absurd (h.0 free)

module _ (st : Settings) (c : Cache) (unix : ℕ) (r : Reader) (single : c.readers ≡ r ∷ []) where
  not-IsFree :
      (id : ℕ)
      → id < c.piece_count
      → of_file c.piece_length r.file id ≡ true
      → ¬ IsFree st c unix id
  not-IsFree id small inside (unmarked, _) =
      let (rng, e, same) = single_range st c unix r in
      let ranges : eviction_ranges st c unix ≡ rng ∷ [] = ap (ranges_of st c unix) single ∙ e in
      let marked =
        is_marked-in_file c.piece_length c.piece_count (eviction_ranges st c unix) id small in
      let here : any_of (in_file c.piece_length id) (rng ∷ []) ≡ true =
        subst (λ f. (of_file c.piece_length f id || false) ≡ true) (sym same) (ground arith) in
      let yes_marked : is_marked
            (piece_in_range c.piece_length c.piece_count (eviction_ranges st c unix)) id
          ≡ true =
        marked ∙ ap (any_of (in_file c.piece_length id)) ranges ∙ here in
      cc (unmarked, yes_marked)

  not-IsFree_all :
      (ps : List Piece) → Within c r.file ps → All (λ (p : Piece). ¬ IsFree st c unix p.id) ps
  not-IsFree_all [] h = tt
  not-IsFree_all (p ∷ ps) h = (not-IsFree p.id h.0.0 h.0.1, not-IsFree_all ps h.1)

  -- While one reader is open, no cleanup releases anything of the file that it reads, however far behind
  -- the reader a piece lies and however much the cache exceeds its capacity: if all pieces belong to
  -- that file, a cleanup leaves them all as they are.
  pub clean_pieces-stuck :
      (now : ℕ) → Within c r.file c.pieces → (clean_pieces st c now unix).pieces ≡ c.pieces
  clean_pieces-stuck now inside =
      unreleased (IsFree st c unix) c.pieces _ (clean_pieces-Released st c now unix)
        (not-IsFree_all c.pieces inside)

-- Two ranges that meet are merged under the file of the first, so the bitmap marks no piece behind that
-- file, though the second range covers it: the reader of the second file has lost its protection.
pub merge_range-unmarked :
    (piece_length piece_count id : ℕ) (a b : Range)
    → a.start < b.start
    → b.start ≤ a.end
    → id < piece_count
    → (a.file.offset + a.file.size) / piece_length < id
    → (b.start ≤ id) × (id ≤ b.end)
    → is_marked (piece_in_range piece_length piece_count (merge_range (a ∷ b ∷ []))) id ≡ false
unfolding merge_range
merge_range-unmarked piece_length piece_count id a b before meet small behind inside =
    is_marked-in_file piece_length piece_count (merge_range (a ∷ b ∷ [])) id small ∙ ground arith
