-- ===== src/DiskWarmup/HeadFile.antt =====
-- disk_warmup.go: the writes and reads of the head of a file.
use Prim.Native.String.{String}
use text.Mathlib.Text.{◌==◌ as str_eq}
use Prim.Native.Nat.{min}
use gostream.Prelude.{
  ℕ, ◌+◌, ◌-◌, ◌*◌, ◌/◌, ltb, leb, if◌then◌else◌, Bool, true, false, List, [], ◌∷◌, length, take,
  none, some,
}
use gostream.DiskWarmup.Disk.{
  WarmupPath, file_path, WarmupFile, file_of, remove_file, write_file, read_bytes, set_at, is_set,
  add_int,
}
use gostream.DiskWarmup.{
  SizeEntry, DiskWarmupCache, WarmupConfig, Io, get_handle, drop_warmup, enforce_quota,
}

-- Whether the head is full, by the table or else by the file.
unfoldable pub check_complete :
    WarmupConfig → ℕ → DiskWarmupCache → WarmupPath → Bool × DiskWarmupCache
unfolding file_of
check_complete c now d p = elim (d.size_cache p) [
  | some e ↦ (ltb c.warmup_file_size e.size, d)
  | none ↦ elim (file_of d.files p) [
    | some bytes ↦
        if ltb c.warmup_file_size (length bytes)
        then (
          true,
          record d {
            size_cache =
                set_at d.size_cache p (some (record { size = length bytes; updated_at = now }));
          },
        )
        else (false, d)
    | none ↦ (false, d)
  ]
]

-- The new file with its handle.
abbrev pub create_file : ℕ → DiskWarmupCache → WarmupPath → DiskWarmupCache
create_file now d p = record d {
  files = record { path = p; bytes = []; mod_time = now / 1_000_000_000 } ∷ d.files;
  missing = set_at d.missing p none;
  handles = set_at d.handles p (some now);
}

-- A file that is not there is created behind the check of the quota. The first part of the result is
-- whether the write goes on.
unfoldable pub start_head :
    WarmupConfig → Io → ℕ → DiskWarmupCache → WarmupPath → Bool × DiskWarmupCache
unfolding enforce_quota file_of
start_head c io now d p = elim (file_of d.files p) [
  | some bytes ↦ (true, d)
  | none ↦
      let d1 = enforce_quota c c.warmup_file_size d in
      let d2 = record d1 { missing = set_at d1.missing p none } in
      if io.can_create then (true, create_file now d2 p) else (false, d2)
]

abbrev pub size_of : DiskWarmupCache → WarmupPath → ℕ
size_of d p = elim (d.size_cache p) [
  | some e ↦ e.size
  | none ↦ elim (file_of d.files p) [ some bytes ↦ length bytes | none ↦ 0 ]
]

-- The bytes that there is room for are written; the tables follow if these are all.
unfoldable pub write_head : Io → ℕ → DiskWarmupCache → WarmupPath → List ℕ → ℕ → DiskWarmupCache
unfolding get_handle write_file file_of
write_head io now d p part off = elim (get_handle now d p) [
  | none ↦ d
  | some d1 ↦
      let n = min io.room (length part) in
      let prev = size_of d1 p in
      let d2 = record d1 { files = write_file d1.files p off (take n part) now } in
      if ltb n (length part) then d2 else record d2 {
        total_size =
            if ltb prev (off + n) then add_int d2.total_size (off + n - prev) else d2.total_size;
        size_cache = set_at d2.size_cache p (some (record { size = off + n; updated_at = now }));
      }
]

-- What straddles the end of the head is cut; a chunk that starts there is kept.
abbrev pub trim_head : WarmupConfig → List ℕ → ℕ → List ℕ
trim_head c part off =
    if ltb off c.warmup_file_size
    then if ltb c.warmup_file_size (off + length part)
      then take (c.warmup_file_size - off) part
      else part
    else part

unfoldable pub process_write :
    WarmupConfig → Io → ℕ → DiskWarmupCache → String → ℕ → List ℕ → ℕ → DiskWarmupCache
unfolding check_complete start_head write_head
process_write c io now d hash file_id part off =
    let p = file_path hash file_id in
    let (full, d1) = check_complete c now d p in
    let (goes_on, d2) = start_head c io now d1 p in
    if ltb c.warmup_file_size off
    then d
    else if full
    then d1
    else if goes_on
    then write_head io now d2 p (trim_head c part off) off
    else d2

abbrev pub is_fresh : ℕ → SizeEntry → Bool
is_fresh now e = ltb (now - e.updated_at) 10_000_000_000

-- The size by the file, where the table has none that is fresh.
unfoldable pub stat_range : WarmupConfig → ℕ → DiskWarmupCache → WarmupPath → ℕ × DiskWarmupCache
unfolding file_of drop_warmup
stat_range c now d p = elim (file_of d.files p) [
  | none ↦ (0, record d { missing = set_at d.missing p (some now) })
  | some bytes ↦
      if ltb (c.warmup_file_size + 16 * 1024 * 1024) (length bytes)
      then (
        0,
        record d {
          handles = set_at d.handles p none;
          size_cache = set_at d.size_cache p none;
          files = remove_file d.files p;
          missing = set_at d.missing p (some now);
        },
      )
      else (
        length bytes,
        record d {
          size_cache =
              set_at d.size_cache p (some (record { size = length bytes; updated_at = now }));
        },
      )
]

unfoldable pub get_available_range :
    WarmupConfig → ℕ → DiskWarmupCache → String → ℕ → ℕ × DiskWarmupCache
unfolding stat_range
get_available_range c now d hash file_id =
    let p = file_path hash file_id in
    if is_set (d.missing p) then (0, d) else elim (d.size_cache p) [
      | some e ↦ if is_fresh now e then (e.size, d) else stat_range c now d p
      | none ↦ stat_range c now d p
    ]

-- The bytes that are read, and the cache. Where fewer are read than there were asked for behind the cut,
-- the error is `io.EOF`; the other ways give no error.
unfoldable pub read_at :
    WarmupConfig → ℕ → DiskWarmupCache → String → ℕ → ℕ → ℕ → List ℕ × DiskWarmupCache
unfolding get_handle get_available_range file_of
read_at c now d hash file_id size off =
    let p = file_path hash file_id in
    if ltb c.warmup_file_size off then ([], d) else elim (get_handle now d p) [
      | none ↦ ([], d)
      | some d1 ↦
          let (available, d2) = get_available_range c now d1 hash file_id in
          if leb available off
          then ([], d2)
          else (read_bytes (file_of d2.files p) off (min size (available - off)), d2)
    ]

-- `RemoveHash`: the files of a hash, each with its size taken from the total.
unfoldable pub matches_hash : String → List WarmupFile → List WarmupFile
matches_hash hash [] = []
matches_hash hash (f ∷ fs) =
    let rest = matches_hash hash fs in if str_eq f.path.hash hash then f ∷ rest else rest
