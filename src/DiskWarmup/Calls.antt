-- ===== src/DiskWarmup/Calls.antt =====
-- disk_warmup.go: the calls of the cache one after the other. A read is its change of the cache here.
use Prim.Native.String.{String}
use gostream.Prelude.{ℕ, List, [], ◌∷◌, Option, none, some}
use gostream.DiskWarmup.{DiskWarmupCache, WarmupConfig, Io, reap_handles}
use gostream.DiskWarmup.HeadFile.{process_write, get_available_range, read_at}
use gostream.DiskWarmup.Tail.{write_tail, read_tail, get_tail_range, remove_hash}

pub data WarmupCall : Type 0 where
  writes_head : Io → ℕ → String → ℕ → List ℕ → ℕ → WarmupCall
  writes_tail : Io → ℕ → String → ℕ → List ℕ → ℕ → ℕ → WarmupCall
  reads_head : ℕ → String → ℕ → ℕ → ℕ → WarmupCall
  reads_tail : ℕ → String → ℕ → ℕ → ℕ → ℕ → WarmupCall
  asks_head : ℕ → String → ℕ → WarmupCall
  asks_tail : ℕ → String → ℕ → WarmupCall
  removes : String → WarmupCall
  reaps : ℕ → WarmupCall

-- A call that panics leaves the cache as it was.
abbrev pub or_same : DiskWarmupCache → Option DiskWarmupCache → DiskWarmupCache
or_same d none = d
or_same d (some e) = e

unfoldable pub call_warmup : WarmupConfig → DiskWarmupCache → WarmupCall → DiskWarmupCache
unfolding process_write write_tail read_at read_tail get_available_range get_tail_range remove_hash
    reap_handles
call_warmup c d (writes_head io now hash id part off) = process_write c io now d hash id part off
call_warmup c d (writes_tail io now hash id part absolute file_size) =
    or_same d (write_tail io now d hash id part absolute file_size)
call_warmup c d (reads_head now hash id size off) = (read_at c now d hash id size off).1
call_warmup c d (reads_tail now hash id size absolute file_size) =
    (read_tail now d hash id size absolute file_size).1
call_warmup c d (asks_head now hash id) = (get_available_range c now d hash id).1
call_warmup c d (asks_tail now hash id) = (get_tail_range now d hash id).1
call_warmup c d (removes hash) = remove_hash d hash
call_warmup c d (reaps now) = reap_handles now d

unfoldable pub run_warmup : WarmupConfig → DiskWarmupCache → List WarmupCall → DiskWarmupCache
unfolding call_warmup
run_warmup c d [] = d
run_warmup c d (x ∷ xs) = run_warmup c (call_warmup c d x) xs
