-- ===== src/DiskWarmup/Tail.antt =====
-- disk_warmup.go: the tails of the files, with how far each is written, and the removal of a hash.
use Prim.Native.String.{String}
use Prim.Native.Nat.{min}
use gostream.Prelude.{
  ℕ, ◌+◌, ◌-◌, ◌*◌, ◌==◌, ltb, leb, if◌then◌else◌, Bool, true, false, not, List, [], ◌∷◌, length,
  take, Option, none, some,
}
use gostream.DiskWarmup.Disk.{
  WarmupPath, tail_path, WarmupFile, file_of, write_file, read_bytes, set_at, is_set, less_by,
}
use gostream.DiskWarmup.{DiskWarmupCache, Io, get_handle, drop_warmup}
use gostream.DiskWarmup.HeadFile.{create_file, is_fresh, matches_hash}

abbrev pub tail_warmup_size : ℕ
tail_warmup_size = 16 * 1024 * 1024

abbrev pub tail_start : ℕ → ℕ
tail_start file_size = file_size - tail_warmup_size

-- Whether the tail is full, by its range or else by the file.
unfoldable pub check_tail : DiskWarmupCache → WarmupPath → Bool × DiskWarmupCache
unfolding file_of
check_tail d p = elim (d.tail_coverage p) [
  | some mark ↦ (leb tail_warmup_size mark, d)
  | none ↦ elim (file_of d.files p) [
    | some bytes ↦
        if leb tail_warmup_size (length bytes)
        then (true, record d { tail_coverage = set_at d.tail_coverage p (some (length bytes)) })
        else (false, d)
    | none ↦ (false, d)
  ]
]

-- A file that is not there is created, with no check of the quota.
unfoldable pub start_tail : Io → ℕ → DiskWarmupCache → WarmupPath → Bool × DiskWarmupCache
unfolding file_of
start_tail io now d p = elim (file_of d.files p) [
  | some bytes ↦ (true, d)
  | none ↦
      let d1 = record d { missing = set_at d.missing p none } in
      if io.can_create then (true, create_file now d1 p) else (false, d1)
]

abbrev pub raise_mark : Option ℕ → ℕ → ℕ
raise_mark none end_off = end_off
raise_mark (some mark) end_off = if ltb mark end_off then end_off else mark

-- The error of the write is not looked at: what was written counts.
unfoldable pub put_tail : Io → ℕ → DiskWarmupCache → WarmupPath → List ℕ → ℕ → DiskWarmupCache
unfolding get_handle write_file
put_tail io now d p part rel = elim (get_handle now d p) [
  | none ↦ d
  | some d1 ↦
      let n = min io.room (length part) in
      record d1 {
        files = write_file d1.files p rel (take n part) now;
        size_cache = set_at d1.size_cache p (some (record { size = rel + n; updated_at = now }));
        tail_coverage =
            set_at d1.tail_coverage p (some (raise_mark (d1.tail_coverage p) (rel + n)));
      }
]

abbrev pub trim_tail : List ℕ → ℕ → List ℕ
trim_tail part rel =
    if ltb tail_warmup_size (rel + length part) then take (tail_warmup_size - rel) part else part

-- `none` is the panic of a slice that would end before it starts.
unfoldable pub write_tail :
    Io → ℕ → DiskWarmupCache → String → ℕ → List ℕ → ℕ → ℕ → Option DiskWarmupCache
unfolding check_tail start_tail put_tail
write_tail io now d hash file_id part absolute file_size =
    let p = tail_path hash file_id in
    let rel = absolute - tail_start file_size in
    let cut = trim_tail part rel in
    let (full, d1) = check_tail d p in
    let (goes_on, d2) = start_tail io now d1 p in
    if ltb absolute (tail_start file_size)
    then some d
    else if ltb tail_warmup_size rel
    then none
    else if length cut == 0
    then some d
    else if full
    then some d1
    else if goes_on
    then some (put_tail io now d2 p cut rel)
    else some d2

abbrev pub reaches : Option (List ℕ) → ℕ → Bool
reaches none end_off = false
reaches (some bytes) end_off = leb end_off (length bytes)

-- Whether the tail up to `end_off` is there, by the range or else by the size of the file.
unfoldable pub covers_tail : DiskWarmupCache → WarmupPath → ℕ → Bool × DiskWarmupCache
unfolding file_of
covers_tail d p end_off = elim (d.tail_coverage p) [
  | some mark ↦ (if ltb mark end_off then reaches (file_of d.files p) end_off else true, d)
  | none ↦ elim (file_of d.files p) [
    | some bytes ↦
        if leb end_off (length bytes)
        then (true, record d { tail_coverage = set_at d.tail_coverage p (some (length bytes)) })
        else (false, d)
    | none ↦ (false, d)
  ]
]

unfoldable pub read_handle : ℕ → DiskWarmupCache → WarmupPath → ℕ → ℕ → List ℕ × DiskWarmupCache
unfolding get_handle file_of
read_handle now d p rel size = elim (get_handle now d p) [
  | none ↦ ([], d)
  | some d1 ↦ (read_bytes (file_of d1.files p) rel size, d1)
]

unfoldable pub read_tail : ℕ → DiskWarmupCache → String → ℕ → ℕ → ℕ → ℕ → List ℕ × DiskWarmupCache
unfolding covers_tail read_handle
read_tail now d hash file_id size absolute file_size =
    let p = tail_path hash file_id in
    let rel = absolute - tail_start file_size in
    let (there, d1) = covers_tail d p (rel + size) in
    if ltb absolute (tail_start file_size)
    then ([], d)
    else if not there
    then ([], d1)
    else read_handle now d1 p rel size

unfoldable pub stat_tail : ℕ → DiskWarmupCache → WarmupPath → ℕ × DiskWarmupCache
unfolding file_of
stat_tail now d p = elim (file_of d.files p) [
  | none ↦ (0, record d { missing = set_at d.missing p (some now) })
  | some bytes ↦ (
    length bytes,
    record d {
      size_cache = set_at d.size_cache p (some (record { size = length bytes; updated_at = now }));
    },
  )
]

unfoldable pub get_tail_range : ℕ → DiskWarmupCache → String → ℕ → ℕ × DiskWarmupCache
unfolding stat_tail
get_tail_range now d hash file_id =
    let p = tail_path hash file_id in
    if is_set (d.missing p) then (0, d) else elim (d.size_cache p) [
      | some e ↦ if is_fresh now e then (e.size, d) else stat_tail now d p
      | none ↦ stat_tail now d p
    ]

unfoldable pub remove_files : List WarmupFile → DiskWarmupCache → DiskWarmupCache
unfolding drop_warmup
remove_files [] d = d
remove_files (f ∷ fs) d =
    remove_files fs
      (drop_warmup (record d { total_size = less_by d.total_size (length f.bytes) }) f.path)

unfoldable pub remove_hash : DiskWarmupCache → String → DiskWarmupCache
unfolding remove_files matches_hash
remove_hash d hash = remove_files (matches_hash hash d.files) d
