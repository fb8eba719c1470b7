-- ===== src/Torrstor/Cache.antt =====
-- internal/gostorm/torr/storage/torrstor/cache.go: the cache of one torrent.
--
-- The maps of pieces and of readers are lists; Go visits a map in any order. `now` is the clock in
-- nanoseconds, `unix` the clock in seconds that the loops over the readers see. A closed cache has no
-- pieces and no readers left.
use gostream.Prelude.{
  ℕ, zero, suc, ◌+◌, ◌-◌, ◌*◌, ◌/◌, ◌==◌, ltb, if◌then◌else◌, Bool, true, false, ◌||◌, not, List,
  [], ◌∷◌, length, replicate,
}
use gostream.Ranges.{Range, merge_range}
use gostream.Torrstor.Piece.{Piece, new_piece}
use gostream.Torrstor.Reader.{
  Reader, Floats, check_reader, pieces_range, reader_piece, reader_rah_piece,
}
use gostream.Torrstor.Protect.{is_id_in_file_be}
use gostream.Torrstor.Priority.{Requests, load_loop, clear_local}

-- What the code reads of the global settings.
pub record Settings : Type 0 where
  pub floats : Floats
  pub reader_read_ahead : ℕ
  pub connections_limit : ℕ

pub record Cache : Type 0 where
  pub capacity : ℕ
  pub filled : ℕ
  pub piece_length : ℕ
  pub piece_count : ℕ
  pub pieces : List Piece
  pub readers : List Reader
  pub active_readers : ℕ
  pub is_remove : Bool
  pub is_closed : Bool
  pub is_aggressive : Bool
  pub master_limit : ℕ
  pub last_clean : ℕ
  pub has_torrent : Bool
  pub requests : Requests
  pub in_range_bits : List Bool
  -- how many readers of the torrent library were opened by `file.NewReader()`
  pub torrent_readers : ℕ

unfoldable pub new_pieces : ℕ → ℕ → List Piece
unfolding new_piece
new_pieces zero id = []
new_pieces (suc n) id = new_piece id ∷ new_pieces n (id + 1)

-- `Init`, with the piece length and the number of pieces of the torrent.
unfoldable pub init : Cache → ℕ → ℕ → Cache
unfolding new_pieces
init c piece_length piece_count = record c {
  capacity = if c.capacity == 0 then piece_length * 4 else c.capacity;
  piece_length = piece_length;
  piece_count = piece_count;
  pieces = new_pieces piece_count 0;
  in_range_bits = replicate piece_count false;
}

module _ (st : Settings) where
  abbrev pub reader_range : Cache → Reader → ℕ → Range
  reader_range c r active =
      pieces_range st.floats st.reader_read_ahead c.capacity c.piece_length r active

  -- The loop over the readers: each is checked, and the ranges of those in use are collected.
  unfoldable pub check_readers : Cache → ℕ → ℕ → List Reader → ℕ → List Reader × ℕ × List Range
  check_readers c unix count [] active = ([], active, [])
  check_readers c unix count (r ∷ rs) active =
      let (r', active') = check_reader unix count r active in
      let (rs', active'', ranges) = check_readers c unix count rs active' in
      (r' ∷ rs', active'', if r'.is_use then reader_range c r' active' ∷ ranges else ranges)

  -- The same with no check.
  unfoldable pub used_ranges : Cache → List Reader → List Range
  used_ranges c [] = []
  used_ranges c (r ∷ rs) =
      let rest = used_ranges c rs in
      if r.is_use then reader_range c r c.active_readers ∷ rest else rest

  abbrev high_priority_window : Cache → ℕ
  high_priority_window c = let w = c.capacity / c.piece_length / 10 in if ltb w 5 then 5 else w

  -- How many pieces one reader may ask for.
  unfoldable pub piece_limit : Cache → ℕ
  piece_limit c =
      let effective = if ltb 0 c.master_limit then c.master_limit else st.connections_limit in
      let readers = if length c.readers == 0 then 1 else length c.readers in
      let count =
        if c.is_aggressive
        then (if ltb c.capacity c.filled then 1 else st.floats.four_fifths effective)
        else effective / readers in
      if ltb count 1 then 1 else count

  abbrev reader_stop : Cache → Reader → ℕ
  reader_stop c r =
      let end = (reader_range c r c.active_readers).end in
      if ltb end c.piece_count then end else c.piece_count

  unfoldable pub load_readers : Cache → List Range → List Reader → Requests → Requests
  unfolding load_loop piece_limit
  load_readers c ranges [] q = q
  load_readers c ranges (r ∷ rs) q =
      let pos = reader_piece c.piece_length r in
      let q' =
        load_loop c.pieces pos (reader_rah_piece c.piece_length r) (high_priority_window c)
          (piece_limit c) (reader_stop c r - pos) pos 0 q in
      load_readers c ranges rs
        (if not r.is_use || is_id_in_file_be c.piece_length ranges pos then q else q')

  unfoldable pub set_load_priority : Cache → List Range → Cache
  unfolding load_readers
  set_load_priority c ranges =
      if c.has_torrent
      then record c { requests = load_readers c ranges c.readers c.requests }
      else c

  unfoldable pub refresh_priorities : Cache → Cache
  unfolding set_load_priority
  refresh_priorities c =
      if c.is_closed || not c.has_torrent
      then c
      else set_load_priority c (merge_range (used_ranges c c.readers))

  unfoldable pub clear_priority : Cache → ℕ → Cache
  unfolding clear_local
  clear_priority c unix =
      if not c.has_torrent || c.is_closed
      then c
      else let (readers', active', ranges) =
          check_readers c unix (length c.readers) c.readers c.active_readers in
        record c {
          readers = readers';
          active_readers = active';
          requests =
              clear_local (merge_range ranges) c.requests.local_priority
                (record c.requests { local_priority = [] });
        }

  -- A closed cache has no map to put the reader into, but the reader of the torrent is opened.
  unfoldable pub new_reader : Cache → Reader → Cache
  new_reader c r =
      if c.is_closed
      then record c {
        is_aggressive = true;
        active_readers = c.active_readers + 1;
        torrent_readers = c.torrent_readers + 1;
      }
      else record c {
        is_aggressive = true;
        active_readers = c.active_readers + 1;
        torrent_readers = c.torrent_readers + 1;
        readers = r ∷ c.readers;
      }
