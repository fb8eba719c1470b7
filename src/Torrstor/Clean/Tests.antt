-- ===== src/Torrstor/Clean/Tests.antt =====
-- Runs of eviction: a file of ten pieces in a cache that should hold four of them.

use gostream.Prelude.{ℕ, ◌/◌, ◌*◌, ◌≡◌, refl, true, false, [], ◌∷◌, none, arith, ◌-◌}
use gostream.Ranges.{File, Range, merge_range}
use gostream.Torrstor.Piece.{Piece}
use gostream.Torrstor.Reader.{Reader, Floats}
use gostream.Torrstor.Protect.{piece_in_range, is_marked}
use gostream.Torrstor.Priority.{Requests}
use gostream.Torrstor.Cache.{Cache, Settings}
use gostream.Torrstor.Clean.{get_rem_pieces, clean_pieces, total_fill}
use gostream.Torrstor.Clean.Candidates.{
  IsFree, Parted, staying, marked, eviction_ranges, get_rem_pieces-oldest,
}
use gostream.Torrstor.Clean.Evicted.{Released, clean_pieces-Released}
use gostream.Torrstor.Clean.Stuck.{Within, clean_pieces-stuck, merge_range-unmarked}

abbrev mb : ℕ
mb = 1024 * 1024

abbrev film : File
film = record { offset = 0; size = 160 * mb - 1 }

abbrev other : File
other = record { offset = 160 * mb - 1; size = 160 * mb }

-- 85 percent of the share, in whole numbers.
abbrev floats : Floats
floats = record { share = λ q percent. q * 85 * percent / 10000; four_fifths = λ n. n * 4 / 5 }

abbrev settings : Settings
settings = record { floats = floats; reader_read_ahead = 95; connections_limit = 25 }

abbrev full_piece : ℕ → ℕ → Piece
full_piece id accessed = record {
  id = id;
  size = 16 * mb;
  complete = true;
  accessed = accessed;
  buffer = none;
}

abbrev reader_at : ℕ → File → Reader
reader_at offset f = record {
  offset = offset;
  readahead = 16 * mb;
  file = f;
  last_access = 100;
  is_use = true;
}

abbrev cache : Cache
cache = record {
  capacity = 64 * mb;
  filled = 96 * mb;
  piece_length = 16 * mb;
  piece_count = 10;
  pieces =
      full_piece 0 11
      ∷ full_piece 1 12
      ∷ full_piece 2 13
      ∷ full_piece 3 14
      ∷ full_piece 7 15
      ∷ full_piece 8 16
      ∷ [];
  readers = reader_at (128 * mb) film ∷ [];
  active_readers = 1;
  is_remove = false;
  is_closed = false;
  is_aggressive = true;
  master_limit = 0;
  last_clean = 0;
  has_torrent = true;
  requests = record { local_priority = []; sent = [] };
  in_range_bits = [];
  torrent_readers = 0;
}

clean_pieces-stuck_example : (clean_pieces settings cache 5_000_000_000 110).pieces ≡ cache.pieces
clean_pieces-stuck_example =
    clean_pieces-stuck settings cache 110 (reader_at (128 * mb) film) refl 5_000_000_000 inside
  where
    inside : Within cache film cache.pieces
    inside = (
      (omega arith, refl),
      (
        (omega arith, refl),
        (
          (omega arith, refl),
          ((omega arith, refl), ((omega arith, refl), ((omega arith, refl), tt))),
        ),
      ),
    )

clean_pieces-Released_example :
    Released
      (IsFree settings cache 110)
      cache.pieces
      (clean_pieces settings cache 5_000_000_000 110).pieces
clean_pieces-Released_example = clean_pieces-Released settings cache 5_000_000_000 110

get_rem_pieces-oldest_example :
    Parted settings cache 110
      (get_rem_pieces settings cache 110).1
      (staying (marked settings cache 110) (eviction_ranges settings cache 110) cache.pieces)
    × ((get_rem_pieces settings cache 110).0.pieces ≡ cache.pieces)
    × ((get_rem_pieces settings cache 110).0.filled ≡ total_fill cache.pieces)
get_rem_pieces-oldest_example = get_rem_pieces-oldest settings cache 110 refl

abbrev near_end : Range
near_end = record { start = 7; end = 9; file = film }

abbrev near_start : Range
near_start = record { start = 9; end = 12; file = other }

merge_range-unmarked_example :
    is_marked (piece_in_range (16 * mb) 20 (merge_range (near_end ∷ near_start ∷ []))) 11 ≡ false
merge_range-unmarked_example =
    merge_range-unmarked (16 * mb) 20 11 near_end near_start (omega arith) (omega arith)
      (omega arith) (omega arith) (omega arith, omega arith)

abbrev missing : Piece
missing = record { id = 0; size = 0; complete = false; accessed = 0; buffer = none }

abbrev nothing_asked : Requests
nothing_asked = record { local_priority = []; sent = [] }
