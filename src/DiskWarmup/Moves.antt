-- ===== src/DiskWarmup/Moves.antt =====
-- The moves that the operations of the cache are made of, each with the condition under which the code
-- makes it.
use gostream.Prelude.{ℕ, Bool, true, false, ◌||◌, ◌≡◌, List, none, some, ℤ}
use gostream.DiskWarmup.Disk.{WarmupPath, file_of, remove_file, write_file, set_at, is_set}
use gostream.DiskWarmup.{DiskWarmupCache, SizeEntry, drop_warmup, reap_handles}
use gostream.DiskWarmup.HeadFile.{create_file}

abbrev pub has_file : DiskWarmupCache → WarmupPath → Bool
has_file d p = is_set (file_of d.files p)

-- A handle that is kept is as good as the file: handles are on files.
abbrev pub is_open : DiskWarmupCache → WarmupPath → Bool
is_open d p = is_set (d.handles p) || has_file d p

-- Which writes are admitted is a parameter.
abbrev pub Admission : Type 1
Admission = DiskWarmupCache → WarmupPath → ℕ → List ℕ → Type 0

pub data Move (w : Admission) (d : DiskWarmupCache) : DiskWarmupCache → Type 0 where
  drops : (p : WarmupPath) → Move w d (drop_warmup d p)
  -- a head that is too large, whose tail range there is none of
  discards :
      (p : WarmupPath) (now : ℕ)
      → p.is_tail ≡ false
      → Move w d (record d {
        handles = set_at d.handles p none;
        size_cache = set_at d.size_cache p none;
        files = remove_file d.files p;
        missing = set_at d.missing p (some now);
      })
  creates : (p : WarmupPath) (now : ℕ) → Move w d (create_file now d p)
  opens :
      (p : WarmupPath) (now : ℕ)
      → is_open d p ≡ true
      → Move w d (record d { handles = set_at d.handles p (some now) })
  writes :
      (p : WarmupPath) (off : ℕ) (part : List ℕ) (now : ℕ)
      → w d p off part
      → Move w d (record d { files = write_file d.files p off part now })
  sizes :
      (p : WarmupPath) (e : SizeEntry)
      → is_open d p ≡ true
      → Move w d (record d { size_cache = set_at d.size_cache p (some e) })
  marks :
      (p : WarmupPath) (mark : ℕ)
      → is_open d p ≡ true
      → p.is_tail ≡ true
      → Move w d (record d { tail_coverage = set_at d.tail_coverage p (some mark) })
  misses :
      (p : WarmupPath) (now : ℕ)
      → has_file d p ≡ false
      → Move w d (record d { missing = set_at d.missing p (some now) })
  finds : (p : WarmupPath) → Move w d (record d { missing = set_at d.missing p none })
  counts : (n : ℤ) → Move w d (record d { total_size = n })
  reaps : (now : ℕ) → Move w d (reap_handles now d)

pub data Moves (w : Admission) (d : DiskWarmupCache) : DiskWarmupCache → Type 0 where
  stays : Moves w d d
  moves : {e k : DiskWarmupCache} → Moves w d e → Move w e k → Moves w d k

pub one : (w : Admission) (d e : DiskWarmupCache) → Move w d e → Moves w d e
one w d e m = moves stays m

pub joins : (w : Admission) (d e k : DiskWarmupCache) → Moves w d e → Moves w e k → Moves w d k
joins w d e k q stays = q
joins w d e k q (moves {e = f} r m) = moves (joins w d e f q r) m
