-- ===== src/ScanDetector/Tests.antt =====
-- Four opens after the end of a window, and a gate before a file of which the end alone is cached.

use gostream.Prelude.{◌≡◌, refl, [], ◌∷◌, arith, true, false, some, replicate}
use gostream.ReadAhead.{Config, Shard, exists, max_cached_offset}
use gostream.ScanDetector.{ScanDetector, new_scan_detector, record_opens, is_scan_mode}
use gostream.ScanDetector.Gate.{PreBufferGate, wait_until_ready, wait_until_ready-cached}
use gostream.ScanDetector.Opens.{}

abbrev detector : ScanDetector
detector = new_scan_detector 4 10 0

-- Four opens do not reach the threshold of four, a fifth does.
not_yet : (is_scan_mode (record_opens detector (20 ∷ replicate 3 20)) 20).1 ≡ false
unfolding is_scan_mode record_opens
not_yet = refl

by_now : (is_scan_mode (record_opens detector (20 ∷ replicate 4 20)) 20).1 ≡ true
unfolding is_scan_mode record_opens
by_now = refl

abbrev cfg : Config
cfg = record { read_ahead_base = 4; read_ahead_budget = 10 }

abbrev gate : PreBufferGate
gate = record { has_cache = true; min_bytes = 8; read_counts = λ p. 1 }

abbrev shard : Shard
shard = record {
  buffers =
      (
        record { path = "/a.mkv"; index = 25 },
        record {
          start = 100;
          end = 103;
          bytes = 1 ∷ 2 ∷ 3 ∷ 4 ∷ [];
          last_access = 0;
          session_id = 0;
          responsive_only = false;
        },
      )
      ∷ [];
  order = record { path = "/a.mkv"; index = 25 } ∷ [];
  total = 4;
}

nothing_there : exists cfg shard "/a.mkv" 0 ≡ false
unfolding exists
nothing_there = refl

wait_until_ready-cached_example :
    wait_until_ready cfg gate "/a.mkv" 0 50 shard 7 ((8, shard) ∷ []) ≡ some true
unfolding max_cached_offset
wait_until_ready-cached_example =
    wait_until_ready-cached cfg gate "/a.mkv" 0 50 shard shard 7 8 [] (omega arith) (omega arith)
      (omega arith)

-- A file of which nothing is cached is waited for.
waits : wait_until_ready cfg gate "/b.mkv" 0 50 shard 7 ((8, shard) ∷ (58, shard) ∷ []) ≡ some false
unfolding wait_until_ready
waits = refl
