-- ===== src/Torrstor/Clean/Candidates.antt =====
-- The pieces that eviction may release.
use mathlib.Core.List.{Perm, perm_middle}
use mathlib.Core.List.Perm
use gostream.Prelude.{
  ℕ, ◌<◌, ◌≡◌, ◌++◌, if◌then◌else◌, refl, ◌∙◌, true, false, Bool-cases, ◌||◌, not, List, [], ◌∷◌,
  length, All, All-sort_slice, IsOrdered, IsWeakOrder, sort_slice, sort_slice-perm,
  sort_slice-IsOrdered, inl, inr, arith, if_of_false, subst, sym, ap,
}
use gostream.Ranges.{Range, merge_range}
use gostream.Torrstor.Piece.{Piece}
use gostream.Torrstor.Protect.{piece_in_range, is_marked, is_id_in_file_be}
use gostream.Torrstor.Cache.{Cache, Settings, check_readers, clear_priority, set_load_priority}
use gostream.Torrstor.Clean.{is_removable, removable, older, get_rem_pieces, total_fill}

-- The merged ranges of the readers that are in use after the check.
abbrev pub eviction_ranges : Settings → Cache → ℕ → List Range
eviction_ranges st c unix =
    merge_range (check_readers st c unix (length c.readers) c.readers c.active_readers).2

-- The state in which the candidates are chosen.
abbrev pub marked : Settings → Cache → ℕ → Cache
marked st c unix = record c {
  readers = (check_readers st c unix (length c.readers) c.readers c.active_readers).0;
  active_readers = (check_readers st c unix (length c.readers) c.readers c.active_readers).1;
  in_range_bits = piece_in_range c.piece_length c.piece_count (eviction_ranges st c unix);
}

-- Neither marked nor in the head or the tail of a file that is read.
abbrev pub IsFree : Settings → Cache → ℕ → ℕ → Type 0
IsFree st c unix id =
    (is_marked (piece_in_range c.piece_length c.piece_count (eviction_ranges st c unix)) id ≡ false)
    × (is_id_in_file_be c.piece_length (eviction_ranges st c unix) id ≡ false)

-- A piece that may go: it holds data, and it is free.
pub record IsCandidate (st : Settings) (c : Cache) (unix : ℕ) (p : Piece) : Type 0 where
  pub filled : 0 < p.size
  pub unmarked :
      is_marked (piece_in_range c.piece_length c.piece_count (eviction_ranges st c unix)) p.id
      ≡ false
  pub outside : is_id_in_file_be c.piece_length (eviction_ranges st c unix) p.id ≡ false

-- The pieces are parted into those that may go, which are `gone` in the order of their last use,
-- and the others.
pub record Parted (st : Settings) (c : Cache) (unix : ℕ) (gone kept : List Piece) : Type 0 where
  pub same : Perm c.pieces (gone ++ kept)
  pub may_go : All (IsCandidate st c unix) gone
  pub must_stay : All (λ (p : Piece). ¬ IsCandidate st c unix p) kept
  pub ordered : IsOrdered older gone

older-IsWeakOrder : IsWeakOrder older
older-IsWeakOrder = record { asym = λ x y h. ground arith; neg_trans = λ x y z h k. ground arith }

is_removable-IsCandidate :
    (st : Settings) (c : Cache) (unix : ℕ) (p : Piece)
    → is_removable (marked st c unix) (eviction_ranges st c unix) p ≡ true
    → IsCandidate st c unix p
is_removable-IsCandidate st c unix p t = record {
  filled = ground arith;
  unmarked = ground arith;
  outside = ground arith;
}

is_removable_complete :
    (st : Settings) (c : Cache) (unix : ℕ) (p : Piece)
    → is_removable (marked st c unix) (eviction_ranges st c unix) p ≡ false
    → ¬ IsCandidate st c unix p
is_removable_complete st c unix p t h = ground (arith, h.filled, h.unmarked, h.outside)

-- The pieces that `removable` leaves out.
abbrev pub staying : Cache → List Range → List Piece → List Piece
staying c ranges [] = []
staying c ranges (p ∷ ps) =
    if is_removable c ranges p then staying c ranges ps else p ∷ staying c ranges ps

module _ (st : Settings) (c : Cache) (unix : ℕ) where
  abbrev cands : List Piece → List Piece
  cands = removable (marked st c unix) (eviction_ranges st c unix)

  abbrev others : List Piece → List Piece
  others = staying (marked st c unix) (eviction_ranges st c unix)

  removable-perm : (ps : List Piece) → Perm ps (cands ps ++ others ps)
  unfolding removable
  removable-perm [] = Perm.refl []
  removable-perm (p ∷ ps) =
      elim (Bool-cases (is_removable (marked st c unix) (eviction_ranges st c unix) p)) [
        | inl t ↦ rw t (Perm.cons p (removable-perm ps))
        | inr t ↦ rw t (
            Perm.trans (Perm.cons p (removable-perm ps))
              (Perm.symm (perm_middle (cands ps) (others ps))))
      ]

  removable-IsCandidate : (ps : List Piece) → All (IsCandidate st c unix) (cands ps)
  unfolding removable
  removable-IsCandidate [] = tt
  removable-IsCandidate (p ∷ ps) =
      elim (Bool-cases (is_removable (marked st c unix) (eviction_ranges st c unix) p)) [
        | inl t ↦ rw t (is_removable-IsCandidate st c unix p t, removable-IsCandidate ps)
        | inr t ↦ rw t (removable-IsCandidate ps)
      ]

  staying-refused : (ps : List Piece) → All (λ (p : Piece). ¬ IsCandidate st c unix p) (others ps)
  staying-refused [] = tt
  staying-refused (p ∷ ps) =
      elim (Bool-cases (is_removable (marked st c unix) (eviction_ranges st c unix) p)) [
        | inl t ↦ rw t (staying-refused ps)
        | inr t ↦ rw t (is_removable_complete st c unix p t, staying-refused ps)
      ]

All-IsFree :
    (st : Settings) (c : Cache) (unix : ℕ) (ps : List Piece)
    → All (IsCandidate st c unix) ps
    → All (λ (p : Piece). IsFree st c unix p.id) ps
All-IsFree st c unix [] h = tt
All-IsFree st c unix (p ∷ ps) (h, hs) = ((h.unmarked, h.outside), All-IsFree st c unix ps hs)

pub set_load_priority_keeps :
    (st : Settings) (c : Cache) (ranges : List Range)
    → ((set_load_priority st c ranges).pieces ≡ c.pieces)
      × ((set_load_priority st c ranges).is_closed ≡ c.is_closed)
unfolding set_load_priority
set_load_priority_keeps st c ranges = elim (Bool-cases c.has_torrent) [
  | inl t ↦ rw t (refl, refl)
  | inr t ↦ rw t (refl, refl)
]

pub clear_priority_keeps :
    (st : Settings) (c : Cache) (unix : ℕ)
    → ((clear_priority st c unix).pieces ≡ c.pieces)
      × ((clear_priority st c unix).is_closed ≡ c.is_closed)
unfolding clear_priority
clear_priority_keeps st c unix = elim (Bool-cases (not c.has_torrent || c.is_closed)) [
  | inl t ↦ rw t (refl, refl)
  | inr t ↦ rw t (refl, refl)
]

-- What an open cache gets: the state, and the candidates.
abbrev pub chosen : Settings → Cache → ℕ → Cache × List Piece
chosen st c unix = (
  record (set_load_priority st (clear_priority st (marked st c unix) unix)
      (eviction_ranges st c unix)) { filled = total_fill c.pieces },
  sort_slice older (removable (marked st c unix) (eviction_ranges st c unix) c.pieces),
)

pub get_rem_pieces-chosen :
    (st : Settings) (c : Cache) (unix : ℕ)
    → c.is_closed ≡ false
    → get_rem_pieces st c unix ≡ chosen st c unix
unfolding get_rem_pieces
get_rem_pieces-chosen st c unix opened = if_of_false _ _ opened

pub chosen-IsFree :
    (st : Settings) (c : Cache) (unix : ℕ)
    → All (λ (p : Piece). IsFree st c unix p.id) (chosen st c unix).1
chosen-IsFree st c unix =
    All-sort_slice older _ _ (All-IsFree st c unix _ (removable-IsCandidate st c unix c.pieces))

pub chosen_keeps :
    (st : Settings) (c : Cache) (unix : ℕ)
    → ((chosen st c unix).0.pieces ≡ c.pieces) × ((chosen st c unix).0.is_closed ≡ c.is_closed)
chosen_keeps st c unix =
    let cleared = clear_priority_keeps st (marked st c unix) unix in
    let loaded =
      set_load_priority_keeps st (clear_priority st (marked st c unix) unix)
        (eviction_ranges st c unix) in
    (loaded.0 ∙ cleared.0, loaded.1 ∙ cleared.1)

-- In a cache that is open, the candidates for eviction are exactly the pieces that hold data and are
-- neither marked in the bitmap nor in the kept head or tail of a file that is read: with the pieces that
-- are not such they make up the pieces of the cache, each as often as it is there. The one used longest
-- ago comes first. The pieces themselves do not change, and the fill is recorded anew.
pub get_rem_pieces-oldest :
    (st : Settings) (c : Cache) (unix : ℕ)
    → c.is_closed ≡ false
    → Parted st c unix
        (get_rem_pieces st c unix).1
        (staying (marked st c unix) (eviction_ranges st c unix) c.pieces)
      × ((get_rem_pieces st c unix).0.pieces ≡ c.pieces)
      × ((get_rem_pieces st c unix).0.filled ≡ total_fill c.pieces)
get_rem_pieces-oldest st c unix opened =
    let kept = staying (marked st c unix) (eviction_ranges st c unix) c.pieces in
    let candidates = removable (marked st c unix) (eviction_ranges st c unix) c.pieces in
    let e = get_rem_pieces-chosen st c unix opened in
    let parted : Parted st c unix (sort_slice older candidates) kept = record {
      same =
          Perm.trans (removable-perm st c unix c.pieces)
            (Perm.append_right kept (Perm.symm (sort_slice-perm older candidates)));
      may_go = All-sort_slice older _ candidates (removable-IsCandidate st c unix c.pieces);
      must_stay = staying-refused st c unix c.pieces;
      ordered = sort_slice-IsOrdered older older-IsWeakOrder candidates;
    } in
    (
      subst (λ r. Parted st c unix r.1 kept) (sym e) parted,
      ap (λ r. r.0.pieces) e ∙ (chosen_keeps st c unix).0,
      ap (λ r. r.0.filled) e,
    )
