-- ===== src/DiskWarmup/MadeReads.antt =====
-- The reads of a head are made of the moves, and give bytes of its file.
use Prim.Native.String.{String}
use Prim.Native.Nat.{min}
use gostream.Prelude.{
  ℕ, ◌+◌, ◌-◌, ◌*◌, ltb, leb, if_holds, Option-cases, false, ◌≡◌, ◌⊎◌, refl, List, [], length, take,
  drop, some, inl, inr, arith,
}
use gostream.DiskWarmup.Disk.{WarmupPath, file_path, file_of, set_at, is_set}
use gostream.DiskWarmup.{DiskWarmupCache, WarmupConfig}
use gostream.DiskWarmup.HeadFile.{is_fresh, stat_range, get_available_range, read_at}
use gostream.DiskWarmup.Moves.{
  Admission, discards, opens, sizes, misses, Moves, stays, moves, one, joins,
}
use gostream.DiskWarmup.Made.{get_handle-cases}
use gostream.DiskWarmup.Stored.{bytes_of, read_bytes_of}

module _ (w : Admission) where
  stat_range-Moves :
      (c : WarmupConfig) (now : ℕ) (d : DiskWarmupCache) (p : WarmupPath)
      → p.is_tail ≡ false
      → Moves w d (stat_range c now d p).1
  unfolding stat_range
  stat_range-Moves c now d p head = elim (Option-cases (file_of d.files p)) [
    | inl e ↦ rw (e, stat_range) (moves stays (misses p now (ground (arith, e))))
    | inr (bytes, e) ↦
        rw (e, stat_range)
          (if_holds (λ (r : ℕ × DiskWarmupCache). Moves w d r.1)
            (ltb (c.warmup_file_size + 16 * 1024 * 1024) (length bytes)) (0, _) (length bytes, _)
            (moves stays (discards p now head))
            (moves stays
              (sizes p (record { size = length bytes; updated_at = now }) (ground (arith, e)))))
  ]

  pub get_available_range-Moves :
      (c : WarmupConfig) (now : ℕ) (d : DiskWarmupCache) (hash : String) (id : ℕ)
      → Moves w d (get_available_range c now d hash id).1
  unfolding get_available_range
  get_available_range-Moves c now d hash id =
      let p = file_path hash id in
      let stat = stat_range-Moves c now d p refl in
      if_holds (λ (r : ℕ × DiskWarmupCache). Moves w d r.1) (is_set (d.missing p)) (0, d) _ stays
        (elim (Option-cases (d.size_cache p)) [
          | inl e ↦ rw e stat
          | inr (x, e) ↦ rw e (
              if_holds (λ (r : ℕ × DiskWarmupCache). Moves w d r.1) (is_fresh now x) (x.size, d)
                (stat_range c now d p) stays stat)
        ])

  -- The cache is made of the moves, and there is nothing or what the file has at the offset.
  pub read_at-Moves :
      (c : WarmupConfig) (now : ℕ) (d : DiskWarmupCache) (hash : String) (id size off : ℕ)
      → Moves w d (read_at c now d hash id size off).1
        × (((read_at c now d hash id size off).0 ≡ [])
            ⊎ ((n : ℕ) × ((read_at c now d hash id size off).0
                  ≡ take n (
                      drop off
                        (bytes_of (read_at c now d hash id size off).1 (file_path hash id))))))
  unfolding read_at
  read_at-Moves c now d hash id size off =
      let p = file_path hash id in
      let Good = λ (r : List ℕ × DiskWarmupCache).
        Moves w d r.1 × ((r.0 ≡ []) ⊎ ((n : ℕ) × (r.0 ≡ take n (drop off (bytes_of r.1 p))))) in
      if_holds Good (ltb c.warmup_file_size off) ([], d) _ (stays, inl refl)
        (elim (get_handle-cases w now d p) [
          | inl e ↦ rw e (stays, inl refl)
          | inr (e, o) ↦
              let d1 : DiskWarmupCache = record d { handles = set_at d.handles p (some now) } in
              let r = get_available_range c now d1 hash id in
              let all =
                joins w d d1 r.1 (one w d d1 (opens p now o))
                  (get_available_range-Moves c now d1 hash id) in
              rw e (
                if_holds Good (leb r.0 off) ([], r.1) (_, r.1) (all, inl refl)
                  (all, inr (min size (r.0 - off), read_bytes_of r.1 p off (min size (r.0 - off)))))
        ])
