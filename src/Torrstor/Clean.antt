-- ===== src/Torrstor/Clean.antt =====
-- internal/gostorm/torr/storage/torrstor/cache.go: eviction.
--
-- Only one goroutine cleans up, so `muRemove` is free whenever `isRemove` is false.
pub mod Candidates
pub mod Evicted
pub mod Stuck
mod Tests
use gostream.Prelude.{
  ℕ, zero, suc, ◌+◌, ◌-◌, ◌*◌, ◌/◌, ◌==◌, ltb, leb, if◌then◌else◌, Bool, true, false, ◌&&◌, ◌||◌,
  not, List, [], ◌∷◌, ◌++◌, length, Option, none, some, sort_slice,
}
use gostream.Ranges.{Range, merge_range}
use gostream.Torrstor.Piece.{Piece, release}
use gostream.Torrstor.Protect.{piece_in_range, is_marked, is_id_in_file_be}
use gostream.Torrstor.Cache.{
  Cache, Settings, check_readers, clear_priority, set_load_priority, refresh_priorities,
}

abbrev pub second : ℕ
second = 1_000_000_000

unfoldable pub total_fill : List Piece → ℕ
total_fill [] = 0
total_fill (p ∷ ps) = p.size + total_fill ps

abbrev pub is_removable : Cache → List Range → Piece → Bool
is_removable c ranges p =
    not (is_marked c.in_range_bits p.id)
    && (ltb 0 p.size && not (is_id_in_file_be c.piece_length ranges p.id))

unfoldable pub removable : Cache → List Range → List Piece → List Piece
removable c ranges [] = []
removable c ranges (p ∷ ps) =
    if is_removable c ranges p then p ∷ removable c ranges ps else removable c ranges ps

abbrev pub older : Piece → Piece → Bool
older p q = ltb p.accessed q.accessed

-- The pieces that may go, the one that was used longest ago first.
unfoldable pub get_rem_pieces : Settings → Cache → ℕ → Cache × List Piece
unfolding check_readers removable
get_rem_pieces st c unix =
    if c.is_closed
    then (c, [])
    else let (readers', active', used) =
        check_readers st c unix (length c.readers) c.readers c.active_readers in
      let ranges = merge_range used in
      let c1 = record c {
        readers = readers';
        active_readers = active';
        in_range_bits = piece_in_range c.piece_length c.piece_count ranges;
      } in
      let c2 = set_load_priority st (clear_priority st c1 unix) ranges in
      (record c2 { filled = total_fill c.pieces }, sort_slice older (removable c1 ranges c.pieces))

unfoldable pub release_id : ℕ → List Piece → List Piece
unfolding release
release_id id [] = []
release_id id (p ∷ ps) = if p.id == id then (release p).0 ∷ ps else p ∷ release_id id ps

unfoldable pub remove_piece : Cache → Piece → Cache
unfolding release_id
remove_piece c p = if c.is_closed then c else record c {
  pieces = release_id p.id c.pieces;
  requests = record c.requests { sent = c.requests.sent ++ ((p.id, none) ∷ []) };
}

-- The loop stops after `rems` pieces.
unfoldable pub remove_pieces : List Piece → ℕ → Cache → Cache
unfolding remove_piece
remove_pieces [] rems c = c
remove_pieces (p ∷ ps) rems c =
    let rest = remove_pieces ps (rems - 1) (remove_piece c p) in
    if leb (rems - 1) 0 then remove_piece c p else rest

-- One piece more than the excess amounts to, whole pieces taken.
unfoldable pub evict_from : Cache → List Piece → Cache
unfolding remove_pieces
evict_from c rem_pieces =
    if ltb c.capacity c.filled
    then remove_pieces rem_pieces ((c.filled - c.capacity) / c.piece_length + 1) c
    else c

-- The part under the lock.
unfoldable pub evict : Settings → Cache → ℕ → Cache
unfolding get_rem_pieces evict_from
evict st c unix = let (c', rem_pieces) = get_rem_pieces st c unix in evict_from c' rem_pieces

-- At most one eviction per second, unless the cache is nearly full.
unfoldable pub clean_throttled : Settings → Cache → ℕ → ℕ → Cache
unfolding evict
clean_throttled st c now unix =
    if ltb (now - c.last_clean) second && ltb c.filled (c.capacity * 9 / 10)
    then c
    else record (evict st (record c { is_remove = true; last_clean = now }) unix) {
      is_remove = false;
    }

unfoldable pub clean_pieces : Settings → Cache → ℕ → ℕ → Cache
unfolding clean_throttled refresh_priorities
clean_pieces st c now unix =
    if c.is_remove || c.is_closed then c else clean_throttled st (refresh_priorities st c) now unix
