-- ===== src/DiskWarmup/Admitted.antt =====
-- A call whose write is admitted is made of the moves, and so the tables are right after any calls.

use gostream.Prelude.{ℕ, ◌-◌, ltb, ◌≡◌, refl, false, List, [], ◌∷◌, take}
use gostream.DiskWarmup.Disk.{WarmupFile, file_path, tail_path}
use gostream.DiskWarmup.{DiskWarmupCache, WarmupConfig, init_disk_warmup}
use gostream.DiskWarmup.HeadFile.{trim_head}
use gostream.DiskWarmup.Tail.{tail_start, trim_tail}
use gostream.DiskWarmup.Calls.{
  WarmupCall, writes_head, writes_tail, reads_head, reads_tail, asks_head, asks_tail, removes,
  reaps, call_warmup, run_warmup,
}
use gostream.DiskWarmup.Moves.{Admission, Move, Moves, one}
use gostream.DiskWarmup.Made.{process_write-Moves}
use gostream.DiskWarmup.Stored.{bytes_of}
use gostream.DiskWarmup.MadeReads.{get_available_range-Moves, read_at-Moves}
use gostream.DiskWarmup.MadeTails.{
  write_tail-Moves, read_tail-Moves, get_tail_range-Moves, remove_hash-Moves,
}
use gostream.DiskWarmup.Sound.{IsSound, Moves-IsSound}

-- What a call writes is admitted in any state with the same bytes at its path.
abbrev pub Admitted : Admission → WarmupConfig → DiskWarmupCache → WarmupCall → Type 0
Admitted w c d (writes_head io now hash id part off) =
    (e : DiskWarmupCache) (n : ℕ)
    → bytes_of e (file_path hash id) ≡ bytes_of d (file_path hash id)
    → w e (file_path hash id) off (take n (trim_head c part off))
Admitted w c d (writes_tail io now hash id part absolute file_size) =
    (e : DiskWarmupCache) (n : ℕ)
    → bytes_of e (tail_path hash id) ≡ bytes_of d (tail_path hash id)
    → ltb absolute (tail_start file_size) ≡ false
    → w e (tail_path hash id) (absolute - tail_start file_size)
        (take n (trim_tail part (absolute - tail_start file_size)))
Admitted w c d x = Unit

pub call_warmup-Moves :
    (w : Admission) (c : WarmupConfig) (d : DiskWarmupCache) (x : WarmupCall)
    → Admitted w c d x
    → Moves w d (call_warmup c d x)
unfolding call_warmup
call_warmup-Moves w c d (writes_head io now hash id part off) h =
    process_write-Moves w c io now d hash id part off h
call_warmup-Moves w c d (writes_tail io now hash id part absolute file_size) h =
    write_tail-Moves w io now d hash id part absolute file_size h
call_warmup-Moves w c d (reads_head now hash id size off) h =
    (read_at-Moves w c now d hash id size off).0
call_warmup-Moves w c d (reads_tail now hash id size absolute file_size) h =
    (read_tail-Moves w now d hash id size absolute file_size).0
call_warmup-Moves w c d (asks_head now hash id) h = get_available_range-Moves w c now d hash id
call_warmup-Moves w c d (asks_tail now hash id) h = get_tail_range-Moves w now d hash id
call_warmup-Moves w c d (removes hash) h = remove_hash-Moves w d hash
call_warmup-Moves w c d (reaps now) h = one w d _ (Move.reaps now)

anything : Admission
anything d p off part = Unit

call_warmup-IsSound :
    (c : WarmupConfig) (d : DiskWarmupCache) (x : WarmupCall)
    → IsSound d
    → IsSound (call_warmup c d x)
unfolding anything
call_warmup-IsSound c d x s =
    Moves-IsSound anything d (call_warmup c d x) (call_warmup-Moves anything c d x (free x)) s
  where
    free : (y : WarmupCall) → Admitted anything c d y
    free (writes_head io now hash id part off) = λ e n h. tt
    free (writes_tail io now hash id part absolute file_size) = λ e n h k. tt
    free (reads_head now hash id size off) = tt
    free (reads_tail now hash id size absolute file_size) = tt
    free (asks_head now hash id) = tt
    free (asks_tail now hash id) = tt
    free (removes hash) = tt
    free (reaps now) = tt

calls-IsSound :
    (c : WarmupConfig) (d : DiskWarmupCache) (xs : List WarmupCall)
    → IsSound d
    → IsSound (run_warmup c d xs)
unfolding run_warmup
calls-IsSound c d [] s = s
calls-IsSound c d (x ∷ xs) s = calls-IsSound c (call_warmup c d x) xs (call_warmup-IsSound c d x s)

-- After any calls from the start on, every handle, size and tail range is that of a file on the disk, a
-- path that is noted as missing has no file, and only tails have a range.
pub run_warmup-IsSound :
    (c : WarmupConfig) (files : List WarmupFile) (xs : List WarmupCall)
    → IsSound (run_warmup c (init_disk_warmup files) xs)
unfolding init_disk_warmup
run_warmup-IsSound c files xs = calls-IsSound c (init_disk_warmup files) xs (λ p. refl)
