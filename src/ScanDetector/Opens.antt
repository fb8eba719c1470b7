-- ===== src/ScanDetector/Opens.antt =====
-- scandetector.go: which opens are counted.
use gostream.Prelude.{
  ℕ, zero, suc, ◌+◌, ◌-◌, ◌*◌, ◌^◌, ◌<◌, ◌≡◌, refl, ltb, leb, if_holds, true, false, ◌&&◌, ◌∷◌,
  arith, ◌∙◌, replicate,
}
use gostream.ScanDetector.{ScanDetector, check_window, record_open, record_opens}

record_open-late :
    (sd : ScanDetector) (now : ℕ)
    → sd.window_start + sd.window_size < now
    → ((record_open sd now).window_start ≡ now) × ((record_open sd now).open_count ≡ 0)
unfolding record_open check_window
record_open-late sd now h =
    let late : ltb sd.window_size (now - sd.window_start) ≡ true = ground (arith, h) in
    rw late (refl, refl)

record_open-same :
    (sd : ScanDetector) (now : ℕ)
    → sd.window_start ≡ now
    → ((record_open sd now).window_start ≡ now)
      × ((record_open sd now).open_count ≡ sd.open_count + 1)
unfolding record_open check_window
record_open-same sd now e =
    let soon : ltb sd.window_size (now - sd.window_start) ≡ false = ground (arith, e) in
    rw soon (
      if_holds (λ (x : ScanDetector). (x.window_start ≡ now) × (x.open_count ≡ sd.open_count + 1))
        (leb sd.open_threshold (sd.open_count + 1)
          && ltb sd.total_read_bytes ((sd.open_count + 1) * 2 ^ 20))
        (record sd { open_count = sd.open_count + 1; scan_mode = true })
        (record sd { open_count = sd.open_count + 1 }) (e, refl) (e, refl))

-- Opens at the start of a window are counted one by one.
counted :
    (n : ℕ) (sd : ScanDetector) (now : ℕ)
    → sd.window_start ≡ now
    → (record_opens sd (replicate n now)).open_count ≡ sd.open_count + n
unfolding record_opens
counted zero sd now e = omega arith
counted (suc n) sd now e =
    let (start, count) = record_open-same sd now e in
    counted n (record_open sd now) now start ∙ omega (arith, count)

-- The open that finds the window at its end is not counted, since the count is reset after it was
-- raised: of n + 1 files opened at one time after the end of a window, n are counted.
record_opens-first_lost :
    (n : ℕ) (sd : ScanDetector) (now : ℕ)
    → sd.window_start + sd.window_size < now
    → (record_opens sd (now ∷ replicate n now)).open_count ≡ n
unfolding record_opens
record_opens-first_lost n sd now h =
    let (start, count) = record_open-late sd now h in
    counted n (record_open sd now) now start ∙ omega (arith, count)
