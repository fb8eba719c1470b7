-- ===== src/DiskWarmup/Queue.antt =====
-- disk_warmup.go: the chunks that wait for the one goroutine that writes.
use Prim.Native.String.{String}
use gostream.Prelude.{ℕ, ltb, if◌then◌else◌, List, [], ◌∷◌, ◌++◌, length}
use gostream.DiskWarmup.{DiskWarmupCache, WarmupConfig, Io}
use gostream.DiskWarmup.HeadFile.{process_write}

pub record WarmupWrite : Type 0 where
  pub hash : String
  pub file_id : ℕ
  pub part : List ℕ
  pub off : ℕ

-- The channel holds 32 chunks. One that finds it full is dropped.
unfoldable pub write_chunk :
    WarmupConfig → List WarmupWrite → String → ℕ → List ℕ → ℕ → List WarmupWrite
write_chunk c queue hash file_id part off =
    if ltb c.warmup_file_size off
    then queue
    else if ltb (length queue) 32
    then queue ++ (record { hash = hash; file_id = file_id; part = part; off = off } ∷ [])
    else queue

-- One round of `writeWorker`.
unfoldable pub write_worker :
    WarmupConfig → Io → ℕ → List WarmupWrite → DiskWarmupCache → List WarmupWrite × DiskWarmupCache
unfolding process_write
write_worker c io now [] d = ([], d)
write_worker c io now (w ∷ ws) d = (ws, process_write c io now d w.hash w.file_id w.part w.off)
