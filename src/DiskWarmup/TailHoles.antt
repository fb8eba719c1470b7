-- ===== src/DiskWarmup/TailHoles.antt =====
-- A tail that starts with a chunk behind its start is taken to be written from the start on.
use Prim.Native.String.{String}
use Prim.Native.Nat.{min}
use gostream.Prelude.{
  ℕ, ◌+◌, ◌-◌, ◌≤◌, ◌<◌, ◌==◌, ltb, true, false, ◌≡◌, refl, ap, ◌∙◌, List, [], Option, length, take,
  drop, replicate, arith, some, none,
}
use gostream.Torrstor.Piece.Bytes.{take_all}
use gostream.DiskWarmup.Disk.{
  WarmupPath, tail_path, file_of, write_file, write_bytes, set_at, is_set,
}
use gostream.DiskWarmup.{DiskWarmupCache, Io}
use gostream.DiskWarmup.HeadFile.{create_file}
use gostream.DiskWarmup.Tail.{
  tail_warmup_size, tail_start, write_tail, read_tail, check_tail, start_tail, put_tail,
  covers_tail, read_handle,
}
use gostream.DiskWarmup.Calls.{or_same}
use gostream.DiskWarmup.Paths.{path_eq_refl, written, file_of-write_self}
use gostream.DiskWarmup.Moves.{has_file, is_open}
use gostream.DiskWarmup.Sound.{IsSound}
use gostream.DiskWarmup.Written.{get_handle_opens}
use gostream.DiskWarmup.Holes.{zeros, write_bytes-zeros}

record Marked (d : DiskWarmupCache) (p : WarmupPath) (bytes : List ℕ) (mark : ℕ) : Type 0 where
  file : file_of d.files p ≡ some bytes
  marked : d.tail_coverage p ≡ some mark
  opened : is_set (d.handles p) ≡ true

put_tail-Marked :
    (io : Io) (now : ℕ) (d : DiskWarmupCache) (p : WarmupPath) (part : List ℕ) (rel : ℕ)
    (old : List ℕ)
    → is_open d p ≡ true
    → file_of d.files p ≡ some old
    → d.tail_coverage p ≡ none
    → length part ≤ io.room
    → Marked (put_tail io now d p part rel) p (write_bytes old rel part) (rel + length part)
unfolding put_tail
put_tail-Marked io now d p part rel old o f m room =
    let handle = get_handle_opens now d p o in
    let all : min io.room (length part) ≡ length part = omega arith in
    let self = path_eq_refl p in
    let bytes : file_of (write_file d.files p rel part now) p ≡ some (write_bytes old rel part) =
      file_of-write_self d.files p rel part now ∙ ap (λ x. written x rel part) f in
    rw (handle, put_tail, all, take_all part, m)
      (record { file = bytes; marked = rw self refl; opened = rw self refl })

-- What a read from the start of such a tail gives.
read_tail-Marked :
    (later : ℕ) (d : DiskWarmupCache) (hash : String) (id : ℕ) (bytes : List ℕ)
    (mark n file_size : ℕ)
    → Marked d (tail_path hash id) bytes mark
    → n ≤ mark
    → (read_tail later d hash id n (tail_start file_size) file_size).0 ≡ take n bytes
unfolding read_tail covers_tail read_handle
read_tail-Marked later d hash id bytes mark n file_size h less =
    let p = tail_path hash id in
    let rel = tail_start file_size - tail_start file_size in
    let handle = get_handle_opens later d p (ground (arith, h.opened)) in
    let start : rel ≡ 0 = omega arith in
    let inside : ltb (tail_start file_size) (tail_start file_size) ≡ false = ground arith in
    let reached : ltb mark (rel + n) ≡ false = ground (arith, less) in
    let covered : covers_tail d p (rel + n) ≡ (true, d) =
      rw (h.marked, covers_tail, reached) refl in
    let answer : (read_handle later d p rel n).0 ≡ take n (drop rel bytes) =
      rw (handle, read_handle, h.file) refl in
    rw (inside, read_tail, covered) (answer ∙ ap (λ m. take n (drop m bytes)) start)

module _ (io : Io) (now : ℕ) (d : DiskWarmupCache) (hash : String) (id : ℕ) (part : List ℕ)
    (absolute file_size : ℕ) where
  write_tail-Marked :
      0 < length part
      → tail_start file_size ≤ absolute
      → absolute - tail_start file_size + length part ≤ tail_warmup_size
      → file_of d.files (tail_path hash id) ≡ none
      → IsSound d
      → io.can_create ≡ true
      → length part ≤ io.room
      → Marked
          (or_same d (write_tail io now d hash id part absolute file_size))
          (tail_path hash id)
          (write_bytes [] (absolute - tail_start file_size) part)
          (absolute - tail_start file_size + length part)
  unfolding write_tail check_tail start_tail file_of
  write_tail-Marked some_bytes behind fits missing sound creates room =
      let p = tail_path hash id in
      let rel = absolute - tail_start file_size in
      let told = sound p in
      let none_there : has_file d p ≡ false = rw missing refl in
      let unset : is_set (d.tail_coverage p) ≡ false = ground (arith, told, none_there) in
      let no_mark : d.tail_coverage p ≡ none = is_set-none (d.tail_coverage p) unset in
      let late : ltb absolute (tail_start file_size) ≡ false = ground (arith, behind) in
      let within : ltb tail_warmup_size rel ≡ false = ground (arith, fits) in
      let whole : ltb tail_warmup_size (rel + length part) ≡ false = ground (arith, fits) in
      let filled : (length part == 0) ≡ false = ground (arith, some_bytes) in
      let d1 : DiskWarmupCache = record d { missing = set_at d.missing p none } in
      let self = path_eq_refl p in
      let checked : check_tail d p ≡ (false, d) = rw (no_mark, check_tail, missing) refl in
      let started : start_tail io now d p ≡ (true, create_file now d1 p) =
        rw (missing, start_tail, creates) refl in
      rw (late, write_tail, within, whole, filled, checked, started)
        (put_tail-Marked io now (create_file now d1 p) p part rel [] (rw self refl)
          (rw (file_of, self) refl) no_mark room)
    where
      is_set-none : (o : Option ℕ) → is_set o ≡ false → o ≡ none
      is_set-none none h = refl
      is_set-none (some n) h = absurd cc

  -- The first chunk of a tail, not empty and behind the start of the tail, is noted as if all from
  -- the start up to its end were written, and what is read before it are zeros. The tables were
  -- right, and the disk had room.
  pub read_tail-first_dropped :
      (later n : ℕ)
      → 0 < length part
      → tail_start file_size ≤ absolute
      → absolute - tail_start file_size + length part ≤ tail_warmup_size
      → n ≤ absolute - tail_start file_size
      → file_of d.files (tail_path hash id) ≡ none
      → IsSound d
      → io.can_create ≡ true
      → length part ≤ io.room
      → ((or_same d (write_tail io now d hash id part absolute file_size)).tail_coverage
            (tail_path hash id)
          ≡ some (absolute - tail_start file_size + length part))
        × ((read_tail later
              (or_same d (write_tail io now d hash id part absolute file_size))
              hash
              id
              n
              (tail_start file_size)
              file_size).0
            ≡ replicate n 0)
  unfolding zeros
  read_tail-first_dropped later n some_bytes behind fits before missing sound creates room =
      let p = tail_path hash id in
      let rel = absolute - tail_start file_size in
      let e = or_same d (write_tail io now d hash id part absolute file_size) in
      let h = write_tail-Marked some_bytes behind fits missing sound creates room in
      (
        h.marked,
        read_tail-Marked later e hash id _ _ n file_size h (omega arith)
            ∙ write_bytes-zeros rel part n some_bytes before,
      )
