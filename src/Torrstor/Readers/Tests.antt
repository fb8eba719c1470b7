-- ===== src/Torrstor/Readers/Tests.antt =====
-- The calls on a cache with two readers.
use gostream.Prelude.{◌*◌, ◌/◌, ◌≡◌, refl, true, false, List, [], ◌∷◌}
use gostream.Ranges.{File}
use gostream.Torrstor.Cache.{Settings, Cache, init}
use gostream.Torrstor.Readers.{
  Call, opens, closes_reader, seeks, reads, adjusts, cleans, collects, closes, close,
  get_use_readers, run,
}
use gostream.Torrstor.Readers.Counted.{in_use, run-active_readers}
use gostream.Torrstor.Readers.Closed.{IsInert, run-close}

program : Unit {0}
unfolding run init close gostream.Torrstor.Clean.total_fill gostream.Torrstor.Reader.check_reader
program = tt

abbrev settings : Settings
settings = record {
  floats = record { share = λ size percent. size * percent / 100; four_fifths = λ n. n * 4 / 5 };
  reader_read_ahead = 95;
  connections_limit = 25;
}

abbrev blank : Cache
blank = record {
  capacity = 0;
  filled = 0;
  piece_length = 0;
  piece_count = 0;
  pieces = [];
  readers = [];
  active_readers = 0;
  is_remove = false;
  is_closed = false;
  is_aggressive = false;
  master_limit = 0;
  last_clean = 0;
  has_torrent = true;
  requests = record { local_priority = []; sent = [] };
  in_range_bits = [];
  torrent_readers = 0;
}

abbrev film : File
film = record { offset = 0; size = 80 }

abbrev calls : List Call
calls =
    opens film
    ∷ opens film
    ∷ collects 100
    ∷ adjusts 5 30
    ∷ cleans 2_000_000_000 100
    ∷ opens film
    ∷ seeks 1 40 170
    ∷ reads 0 true 8 171
    ∷ closes_reader 1
    ∷ []

counts_one : get_use_readers (run settings (init blank 10 8) calls) ≡ 1
unfolding program
counts_one = refl

run-active_readers_example :
    (run settings (init blank 10 8) calls).active_readers
    ≡ in_use (run settings (init blank 10 8) calls).readers
unfolding program
run-active_readers_example = run-active_readers settings (init blank 10 8) calls refl refl

abbrev closed : Cache
closed = record (init blank 10 8) { is_closed = true; pieces = [] }

run-close_example :
    IsInert
      (init blank 10 8).requests
      1
      (run settings closed (cleans 5_000_000_000 100 ∷ opens film ∷ closes ∷ []))
unfolding program
run-close_example =
    run-close settings (init blank 10 8) closed
      (cleans 5_000_000_000 100 ∷ opens film ∷ closes ∷ []) refl
