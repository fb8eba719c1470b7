-- ===== src/Torrstor/Readers.antt =====
-- internal/gostorm/torr/storage/torrstor/cache.go and reader.go: readers come and go, and the cache closes.
--
-- A reader is named by its place in the list. A closed reader has left the list, so that a second
-- `Close` of it, a `Seek` and a `Read` change nothing; the readers that a cache had when it was closed
-- are not followed further. What `Close` and `CloseReader` start in goroutines is a call of its own.
-- Each call is one step. In the code a `Read` or `Seek` that has passed its test of `isClosed` may go on
-- after the reader was closed; such interleavings are left out.
pub mod Counted
pub mod Closed
mod Tests
use gostream.Prelude.{
  ℕ, zero, suc, ◌+◌, ◌*◌, ◌==◌, ltb, if◌then◌else◌, Bool, true, false, List, [], ◌∷◌, map, Option,
  none, some,
}
use gostream.Ranges.{File}
use gostream.Torrstor.Reader.{Reader, reader_off, seek, read}
use gostream.Torrstor.Cache.{Settings, Cache, new_reader, clear_priority}
use gostream.Torrstor.Clean.{get_rem_pieces, clean_pieces}

unfoldable pub set_aggressive : Cache → Bool → ℕ → Cache
set_aggressive c enabled master_limit = record c {
  is_aggressive = enabled;
  master_limit = if ltb 0 master_limit then master_limit else c.master_limit;
}

abbrev pub set_readahead : ℕ → Reader → Reader
set_readahead size r = record r { readahead = size }

-- `cache_size` is the setting of that name.
unfoldable pub adjust_ra : ℕ → Cache → ℕ → Cache
adjust_ra cache_size c size = record c {
  capacity = if cache_size == 0 then size * 3 else c.capacity;
  readers = map (set_readahead size) c.readers;
}

-- `none` is the panic of closing the channel `cleanStop` a second time.
unfoldable pub close : Cache → Option Cache
close c =
    if c.is_closed then none else some (record c { is_closed = true; readers = []; pieces = [] })

-- `Close` of one reader, and its removal from the map.
unfoldable pub close_at : ℕ → List Reader → ℕ → List Reader × ℕ
unfolding reader_off
close_at i [] active = ([], active)
close_at zero (r ∷ rs) active = (rs, (reader_off r active).1)
close_at (suc i) (r ∷ rs) active = let (rs', active') = close_at i rs active in (r ∷ rs', active')

unfoldable pub close_reader : Cache → ℕ → Cache
unfolding close_at
close_reader c i =
    if c.is_closed
    then c
    else let (readers', active') = close_at i c.readers c.active_readers in
      record c { readers = readers'; active_readers = active' }

-- A call on the reader at a place, which may raise the count of active readers.
unfoldable pub use_at : ℕ → (Reader → ℕ → Reader × ℕ) → List Reader → ℕ → List Reader × ℕ
use_at i use_reader [] active = ([], active)
use_at zero use_reader (r ∷ rs) active =
    let (r', active') = use_reader r active in (r' ∷ rs, active')
use_at (suc i) use_reader (r ∷ rs) active =
    let (rs', active') = use_at i use_reader rs active in (r ∷ rs', active')

unfoldable pub use_reader_at : Cache → ℕ → (Reader → ℕ → Reader × ℕ) → Cache
unfolding use_at
use_reader_at c i use_reader =
    let (readers', active') = use_at i use_reader c.readers c.active_readers in
    record c { readers = readers'; active_readers = active' }

-- What `newReader` fills in.
abbrev pub fresh_reader : File → Reader
fresh_reader file = record {
  offset = 0;
  readahead = 0;
  file = file;
  last_access = 0;
  is_use = true;
}

abbrev pub get_use_readers : Cache → ℕ
get_use_readers c = c.active_readers

pub data Call : Type 0 where
  opens : File → Call
  closes_reader : ℕ → Call
  seeks : ℕ → ℕ → ℕ → Call
  reads : ℕ → Bool → ℕ → ℕ → Call
  sets_aggressive : Bool → ℕ → Call
  adjusts : ℕ → ℕ → Call
  cleans : ℕ → ℕ → Call
  collects : ℕ → Call
  clears : ℕ → Call
  closes : Call

-- A call that panics leaves the cache as it is.
abbrev pub after_close : Cache → Option Cache → Cache
after_close c none = c
after_close c (some d) = d

module _ (st : Settings) where
  unfoldable pub step : Cache → Call → Cache
  unfolding new_reader close_reader use_reader_at seek read set_aggressive adjust_ra clean_pieces
      get_rem_pieces clear_priority close
  step c (opens file) = new_reader st c (fresh_reader file)
  step c (closes_reader i) = close_reader c i
  step c (seeks i n unix) = use_reader_at c i (seek n unix)
  step c (reads i has_info n unix) = use_reader_at c i (read has_info n unix)
  step c (sets_aggressive enabled limit) = set_aggressive c enabled limit
  step c (adjusts cache_size size) = adjust_ra cache_size c size
  step c (cleans now unix) = clean_pieces st c now unix
  step c (collects unix) = (get_rem_pieces st c unix).0
  step c (clears unix) = clear_priority st c unix
  step c closes = after_close c (close c)

  unfoldable pub run : Cache → List Call → Cache
  unfolding step
  run c [] = c
  run c (x ∷ xs) = run (step c x) xs
