-- ===== src/DiskWarmup.antt =====
-- disk_warmup.go: the heads and the tails of the streamed files, kept on the disk.
--
-- One operation is one step. What the disk takes is an argument of a write: whether a file can be
-- created, and how many bytes there is room for. Times are in nanoseconds. A handle is the time of its
-- last use; it is open on the file that had the path when it was made.
pub mod Disk
pub mod HeadFile
pub mod Tail
pub mod Calls
pub mod Queue
pub mod Paths
pub mod Moves
pub mod Stored
pub mod Made
pub mod MadeReads
pub mod MadeTails
pub mod Admitted
pub mod FromFile
pub mod Sound
pub mod Heads
pub mod Served
pub mod Quota
pub mod Written
pub mod Holes
pub mod TailHoles
mod Tests
use Prim.Native.String.{String}
use text.Mathlib.Text.{◌==◌ as str_eq}
use Prim.Native.Nat.{min}
use gostream.Prelude.{
  ℕ, ◌+◌, ◌-◌, ◌*◌, ◌/◌, ltb, leb, if◌then◌else◌, Bool, true, false, List, [], ◌∷◌, length, take,
  Option, none, some, ℤ, pos, sort_slice,
}
use gostream.DiskWarmup.Disk.{
  WarmupPath, file_path, WarmupFile, file_of, remove_file, write_file, read_bytes, total_bytes,
  set_at, is_set, add_int, is_within,
}

pub record SizeEntry : Type 0 where
  pub size : ℕ
  pub updated_at : ℕ

pub record DiskWarmupCache : Type 0 where
  pub files : List WarmupFile
  pub total_size : ℤ
  pub missing : WarmupPath → Option ℕ
  pub handles : WarmupPath → Option ℕ
  pub size_cache : WarmupPath → Option SizeEntry
  pub tail_coverage : WarmupPath → Option ℕ

pub record WarmupConfig : Type 0 where
  pub warmup_file_size : ℕ
  pub quota_gb : ℕ

pub record Io : Type 0 where
  pub can_create : Bool
  pub room : ℕ

unfoldable pub init_disk_warmup : List WarmupFile → DiskWarmupCache
init_disk_warmup files = record {
  files = files;
  total_size = pos (total_bytes files);
  missing = λ p. none;
  handles = λ p. none;
  size_cache = λ p. none;
  tail_coverage = λ p. none;
}

unfoldable pub reap_handles : ℕ → DiskWarmupCache → DiskWarmupCache
reap_handles now d = record d {
  handles = λ p. elim (d.handles p) [
    | none ↦ none
    | some used ↦ if ltb 30_000_000_000 (now - used) then none else some used
  ];
}

-- `none` where the file cannot be opened.
unfoldable pub get_handle : ℕ → DiskWarmupCache → WarmupPath → Option DiskWarmupCache
unfolding file_of
get_handle now d p =
    let opened = some (record d { handles = set_at d.handles p (some now) }) in
    elim (d.handles p) [
      | some used ↦ opened
      | none ↦ elim (file_of d.files p) [ some bytes ↦ opened | none ↦ none ]
    ]

-- The file goes, with what the tables say of it.
unfoldable pub drop_warmup : DiskWarmupCache → WarmupPath → DiskWarmupCache
unfolding remove_file
drop_warmup d p = record d {
  handles = set_at d.handles p none;
  size_cache = set_at d.size_cache p none;
  tail_coverage = set_at d.tail_coverage p none;
  files = remove_file d.files p;
}

abbrev pub quota : WarmupConfig → ℕ
quota c = if ltb 0 c.quota_gb then c.quota_gb * 1024 * 1024 * 1024 else 32 * 1024 * 1024 * 1024

abbrev pub is_older : WarmupFile → WarmupFile → Bool
is_older f g = ltb f.mod_time g.mod_time

-- What is left of the total, and the cache.
unfoldable pub evict_files : ℕ → ℕ → List WarmupFile → ℕ → DiskWarmupCache → ℕ × DiskWarmupCache
unfolding drop_warmup
evict_files limit needed [] total d = (total, d)
evict_files limit needed (f ∷ fs) total d =
    let rest = evict_files limit needed fs (total - length f.bytes) (drop_warmup d f.path) in
    if leb (total + needed) limit then (total, d) else rest

-- `enforceQuotaLocked`. Files of one second are taken in the order of the directory.
unfoldable pub enforce_quota : WarmupConfig → ℕ → DiskWarmupCache → DiskWarmupCache
unfolding evict_files sort_slice
enforce_quota c needed d =
    let on_disk = total_bytes d.files in
    let counted = record d { total_size = pos on_disk } in
    let (left, evicted) =
      evict_files (quota c) needed (sort_slice is_older d.files) on_disk counted in
    if is_within (add_int d.total_size needed) (quota c)
    then d
    else if leb (on_disk + needed) (quota c)
    then counted
    else record evicted { total_size = pos left }
