-- ===== src/DiskWarmup/Tests.antt =====
-- A cache of heads of ten bytes: a file of seven bytes that is written in two chunks.

use gostream.Prelude.{
  ℕ, ◌≡◌, refl, true, false, List, [], ◌∷◌, none, some, pos, arith, AllPairs, sort_slice,
}
use gostream.ReadAhead.Bytes.{file_bytes}
use gostream.DiskWarmup.Disk.{
  WarmupFile, file_path, tail_path, total_bytes, add_int, is_within, path_eq, file_of,
}
use gostream.DiskWarmup.{
  WarmupConfig, Io, DiskWarmupCache, init_disk_warmup, enforce_quota, quota, is_older,
}
use gostream.DiskWarmup.HeadFile.{check_complete, process_write, read_at}
use gostream.DiskWarmup.Tail.{write_tail, read_tail, tail_start}
use gostream.DiskWarmup.Calls.{
  call_warmup, WarmupCall, writes_head, writes_tail, reads_head, asks_head, reaps, or_same,
  run_warmup,
}
use gostream.DiskWarmup.Sound.{IsSound}
use gostream.DiskWarmup.Admitted.{run_warmup-IsSound}
use gostream.DiskWarmup.Stored.{bytes_of}
use gostream.DiskWarmup.Heads.{IsKept, AllFollow}
use gostream.DiskWarmup.FromFile.{IsFrom}
use gostream.DiskWarmup.Served.{reads-run_warmup}
use gostream.DiskWarmup.Quota.{Differ, Evicts, enforce_quota-Evicts}
use gostream.DiskWarmup.Holes.{read_at-process_write, read_at-first_dropped}
use gostream.DiskWarmup.TailHoles.{read_tail-first_dropped}

abbrev cfg : WarmupConfig
cfg = record { warmup_file_size = 10; quota_gb = 0 }

abbrev io : Io
io = record { can_create = true; room = 100 }

-- The byte at a place is the place itself.
abbrev film : ℕ → ℕ
film n = n

abbrev calls : List WarmupCall
calls =
    writes_head io 5 "ab" 0 (0 ∷ 1 ∷ 2 ∷ 3 ∷ []) 0
    ∷ reads_head 6 "ab" 0 3 1
    ∷ writes_head io 7 "ab" 0 (4 ∷ 5 ∷ 6 ∷ []) 4
    ∷ writes_tail io 8 "ab" 0 (0 ∷ 1 ∷ []) 0 7
    ∷ reaps 9
    ∷ asks_head 9 "cd" 1
    ∷ []

abbrev warm : DiskWarmupCache
warm = run_warmup cfg (init_disk_warmup []) calls

middle : (read_at cfg 9 warm "ab" 0 4 2).0 ≡ 2 ∷ 3 ∷ 4 ∷ 5 ∷ []
unfolding read_at run_warmup init_disk_warmup path_eq
middle = refl

run_warmup-IsSound_example : IsSound warm
run_warmup-IsSound_example = run_warmup-IsSound cfg [] calls

nothing_kept : IsKept film 7 "ab" 0 (init_disk_warmup [])
unfolding init_disk_warmup bytes_of file_bytes
nothing_kept = λ p a b. refl

all_follow : AllFollow film 7 "ab" 0 cfg (init_disk_warmup []) calls
unfolding init_disk_warmup bytes_of file_bytes call_warmup path_eq
all_follow = (
  λ a b. (refl, omega arith),
  (tt, (λ a b. (refl, omega arith), (λ a b. (refl, (refl, omega arith)), (tt, (tt, tt))))),
)

reads-run_warmup_example :
    IsFrom film 2 (read_at cfg 9 warm "ab" 0 4 2).0
    × IsFrom film 2 (read_tail 9 warm "ab" 0 4 2 7).0
reads-run_warmup_example = reads-run_warmup film 7 "ab" 0 cfg [] calls 9 4 2 nothing_kept all_follow

-- Three files of two bytes, and a quota of 32 GB that has room for two of them.
abbrev needed : ℕ
needed = 34_359_738_364

abbrev directory : List WarmupFile
directory =
    record { path = file_path "ab" 0; bytes = 1 ∷ 2 ∷ []; mod_time = 30 }
    ∷ record { path = tail_path "ab" 0; bytes = 3 ∷ 4 ∷ []; mod_time = 10 }
    ∷ record { path = file_path "cd" 1; bytes = 5 ∷ 6 ∷ []; mod_time = 20 }
    ∷ []

abbrev crowded : DiskWarmupCache
crowded = init_disk_warmup directory

over : is_within (add_int crowded.total_size needed) (quota cfg) ≡ false
unfolding init_disk_warmup
over = refl

directory-Differ : AllPairs Differ crowded.files
unfolding init_disk_warmup path_eq
directory-Differ = ((refl, (refl, tt)), ((refl, tt), (tt, tt)))

-- The file that was written first goes.
first_goes : (enforce_quota cfg needed crowded).total_size ≡ pos 4
unfolding enforce_quota init_disk_warmup path_eq
first_goes = refl

enforce_quota-Evicts_example :
    Evicts
      (quota cfg)
      needed
      (sort_slice is_older crowded.files)
      (enforce_quota cfg needed crowded).files
      (total_bytes (enforce_quota cfg needed crowded).files)
    × ((enforce_quota cfg needed crowded).total_size
        ≡ pos (total_bytes (enforce_quota cfg needed crowded).files))
enforce_quota-Evicts_example = enforce_quota-Evicts cfg needed crowded directory-Differ over

cold : IsSound (init_disk_warmup [])
unfolding init_disk_warmup
cold = λ p. refl

room_left : (check_complete cfg 5 (init_disk_warmup []) (file_path "ab" 0)).0 ≡ false
unfolding check_complete init_disk_warmup
room_left = refl

no_head : file_of (init_disk_warmup []).files (file_path "ab" 0) ≡ none
unfolding file_of init_disk_warmup
no_head = refl

no_tail : file_of (init_disk_warmup []).files (tail_path "ab" 0) ≡ none
unfolding file_of init_disk_warmup
no_tail = refl

read_at-process_write_example :
    (read_at cfg 9
      (process_write cfg io 5 (init_disk_warmup []) "ab" 0 (8 ∷ 9 ∷ []) 3)
      "ab"
      0
      2
      3).0
    ≡ 8 ∷ 9 ∷ []
read_at-process_write_example =
    read_at-process_write cfg io 5 9 (init_disk_warmup []) "ab" 0 (8 ∷ 9 ∷ []) 3 2 (omega arith)
      (omega arith) (omega arith) room_left cold refl (omega arith) (omega arith)

read_at-first_dropped_example :
    (read_at cfg 9
      (process_write cfg io 5 (init_disk_warmup []) "ab" 0 (8 ∷ 9 ∷ []) 3)
      "ab"
      0
      2
      0).0
    ≡ 0 ∷ 0 ∷ []
read_at-first_dropped_example =
    read_at-first_dropped cfg io 5 9 (init_disk_warmup []) "ab" 0 (8 ∷ 9 ∷ []) 3 2 (omega arith)
      (omega arith) (omega arith) no_head room_left cold refl (omega arith) (omega arith)

read_tail-first_dropped_example :
    ((or_same
          (init_disk_warmup [])
          (write_tail io 5 (init_disk_warmup []) "ab" 0 (8 ∷ []) 3 7)).tail_coverage
        (tail_path "ab" 0)
      ≡ some 4)
    × ((read_tail 9
          (or_same
            (init_disk_warmup [])
            (write_tail io 5 (init_disk_warmup []) "ab" 0 (8 ∷ []) 3 7))
          "ab"
          0
          2
          (tail_start 7)
          7).0
        ≡ 0 ∷ 0 ∷ [])
read_tail-first_dropped_example =
    read_tail-first_dropped io 5 (init_disk_warmup []) "ab" 0 (8 ∷ []) 3 7 9 2 (omega arith)
      (omega arith) (omega arith) (omega arith) no_tail cold refl (omega arith)
