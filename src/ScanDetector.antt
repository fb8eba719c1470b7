-- ===== src/ScanDetector.antt =====
-- scandetector.go: what tells a library scan from playback, and the gate before the first reads.
--
-- The average of a window is compared as a product: below 2^53 bytes and 2^32 opens the division in
-- float64 gives the same answer.
pub mod Gate
pub mod Opens
mod Tests
use gostream.Prelude.{
  ℕ, ◌+◌, ◌-◌, ◌*◌, ◌^◌, ltb, leb, if◌then◌else◌, Bool, true, false, ◌&&◌, List, [], ◌∷◌,
}

pub record ScanDetector : Type 0 where
  pub open_count : ℕ
  pub total_read_bytes : ℕ
  pub window_start : ℕ
  pub window_size : ℕ
  pub open_threshold : ℕ
  pub scan_mode : Bool

abbrev pub new_scan_detector : ℕ → ℕ → ℕ → ScanDetector
new_scan_detector open_threshold window_size now = record {
  open_count = 0;
  total_read_bytes = 0;
  window_start = now;
  window_size = window_size;
  open_threshold = open_threshold;
  scan_mode = false;
}

unfoldable pub check_window : ScanDetector → ℕ → ScanDetector
check_window sd now =
    if ltb sd.window_size (now - sd.window_start)
    then record sd { open_count = 0; total_read_bytes = 0; window_start = now; scan_mode = false }
    else if leb sd.open_threshold sd.open_count && ltb sd.total_read_bytes (sd.open_count * 2 ^ 20)
    then record sd { scan_mode = true }
    else sd

unfoldable pub record_open : ScanDetector → ℕ → ScanDetector
unfolding check_window
record_open sd now = check_window (record sd { open_count = sd.open_count + 1 }) now

abbrev pub record_read : ScanDetector → ℕ → ScanDetector
record_read sd bytes = record sd { total_read_bytes = sd.total_read_bytes + bytes }

unfoldable pub is_scan_mode : ScanDetector → ℕ → ScanDetector × Bool
unfolding check_window
is_scan_mode sd now = let sd' = check_window sd now in (sd', sd'.scan_mode)

-- Files that are opened at the times of the list.
unfoldable pub record_opens : ScanDetector → List ℕ → ScanDetector
unfolding record_open
record_opens sd [] = sd
record_opens sd (t ∷ ts) = record_opens (record_open sd t) ts
