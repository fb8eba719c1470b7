-- ===== src/DiskWarmup/Made.antt =====
-- Every operation of the cache is made of the moves.
use Prim.Native.String.{String}
use Prim.Native.Nat.{min}
use gostream.Prelude.{
  ℕ, ◌+◌, ◌-◌, ltb, leb, if_holds, Bool-cases, Option-cases, Bool, true, false, ◌≡◌, ◌⊎◌, refl, sym,
  ◌∙◌, List, [], ◌∷◌, length, take, none, some, inl, inr, arith, pos, sort_slice,
}
use gostream.DiskWarmup.Disk.{
  WarmupPath, file_path, WarmupFile, file_of, write_file, set_at, total_bytes, add_int, is_within,
}
use gostream.DiskWarmup.{
  DiskWarmupCache, WarmupConfig, Io, get_handle, drop_warmup, evict_files, enforce_quota, quota,
  is_older,
}
use gostream.DiskWarmup.HeadFile.{
  check_complete, create_file, start_head, write_head, trim_head, process_write,
}
use gostream.DiskWarmup.Paths.{path_eq_refl}
use gostream.DiskWarmup.Moves.{
  is_open, Admission, drops, creates, opens, writes, sizes, finds, counts, Moves, stays, moves, one,
  joins,
}
use gostream.DiskWarmup.Stored.{bytes_of, bytes_of_files, bytes_of-none, bytes_of-create_file}

module _ (w : Admission) where
  check_complete-Moves :
      (c : WarmupConfig) (now : ℕ) (d : DiskWarmupCache) (p : WarmupPath)
      → Moves w d (check_complete c now d p).1 × ((check_complete c now d p).1.files ≡ d.files)
  unfolding check_complete
  check_complete-Moves c now d p = elim (Option-cases (d.size_cache p)) [
    | inr (x, e) ↦ rw (e, check_complete) (stays, refl)
    | inl e ↦ elim (Option-cases (file_of d.files p)) [
      | inl g ↦ rw (e, check_complete, g) (stays, refl)
      | inr (bytes, g) ↦
          rw (e, check_complete, g)
            (if_holds (λ (r : Bool × DiskWarmupCache). Moves w d r.1 × (r.1.files ≡ d.files))
              (ltb c.warmup_file_size (length bytes)) _ (false, d)
              (
                moves stays (
                    sizes p (record { size = length bytes; updated_at = now }) (ground (arith, g))),
                refl,
              )
              (stays, refl))
    ]
  ]

  evict_files-Moves :
      (limit needed : ℕ) (fs : List WarmupFile) (total : ℕ) (d : DiskWarmupCache)
      → Moves w d (evict_files limit needed fs total d).1
  unfolding evict_files
  evict_files-Moves limit needed [] total d = stays
  evict_files-Moves limit needed (f ∷ fs) total d =
      if_holds (λ (r : ℕ × DiskWarmupCache). Moves w d r.1) (leb (total + needed) limit) (total, d)
        (evict_files limit needed fs (total - length f.bytes) (drop_warmup d f.path)) stays
        (joins w d (drop_warmup d f.path) _ (one w d _ (drops f.path))
          (evict_files-Moves limit needed fs (total - length f.bytes) (drop_warmup d f.path)))

  enforce_quota-Moves :
      (c : WarmupConfig) (needed : ℕ) (d : DiskWarmupCache) → Moves w d (enforce_quota c needed d)
  unfolding enforce_quota
  enforce_quota-Moves c needed d =
      let on_disk = total_bytes d.files in
      let counted : DiskWarmupCache = record d { total_size = pos on_disk } in
      let evicted = evict_files (quota c) needed (sort_slice is_older d.files) on_disk counted in
      let first = one w d counted (counts (pos on_disk)) in
      if_holds (Moves w d) (is_within (add_int d.total_size needed) (quota c)) d _ stays (
        if_holds (Moves w d) (leb (on_disk + needed) (quota c)) counted _ first (
          moves
            (joins w d counted evicted.1 first
              (evict_files-Moves (quota c) needed (sort_slice is_older d.files) on_disk counted))
            (counts (pos evicted.0))))

  start_head-Moves :
      (c : WarmupConfig) (io : Io) (now : ℕ) (d : DiskWarmupCache) (p : WarmupPath)
      → Moves w d (start_head c io now d p).1
        × ((start_head c io now d p).0 ≡ true
            → bytes_of (start_head c io now d p).1 p ≡ bytes_of d p)
  unfolding start_head
  start_head-Moves c io now d p = elim (Option-cases (file_of d.files p)) [
    | inr (bytes, e) ↦ rw (e, start_head) (stays, λ h. refl)
    | inl e ↦
        let d1 = enforce_quota c c.warmup_file_size d in
        let d2 : DiskWarmupCache = record d1 { missing = set_at d1.missing p none } in
        let found = moves (enforce_quota-Moves c c.warmup_file_size d) (finds p) in
        rw (e, start_head)
          (if_holds
            (λ (r : Bool × DiskWarmupCache).
              Moves w d r.1 × (r.0 ≡ true → bytes_of r.1 p ≡ bytes_of d p))
            io.can_create (true, create_file now d2 p) (false, d2)
            (
              moves found (creates p now),
              λ h. bytes_of-create_file now d2 p ∙ sym (bytes_of-none d p e),
            )
            (found, λ h. absurd cc))
  ]

  pub get_handle-cases :
      (now : ℕ) (d : DiskWarmupCache) (p : WarmupPath)
      → (get_handle now d p ≡ none)
        ⊎ ((get_handle now d p ≡ some (record d { handles = set_at d.handles p (some now) }))
            × (is_open d p ≡ true))
  unfolding get_handle
  get_handle-cases now d p = elim (Option-cases (d.handles p)) [
    | inr (used, e) ↦ inr (rw (e, get_handle) refl, ground (arith, e))
    | inl e ↦ elim (Option-cases (file_of d.files p)) [
      | inl g ↦ inl (rw (e, get_handle, g) refl)
      | inr (bytes, g) ↦ inr (rw (e, get_handle, g) refl, ground (arith, g))
    ]
  ]

  write_head-Moves :
      (io : Io) (now : ℕ) (d : DiskWarmupCache) (p : WarmupPath) (part : List ℕ) (off : ℕ)
      → ((e : DiskWarmupCache) (n : ℕ) → bytes_of e p ≡ bytes_of d p → w e p off (take n part))
      → Moves w d (write_head io now d p part off)
  unfolding write_head
  write_head-Moves io now d p part off h = elim (get_handle-cases now d p) [
    | inl e ↦ rw (e, write_head) stays
    | inr (e, o) ↦
        let n = min io.room (length part) in
        let d1 : DiskWarmupCache = record d { handles = set_at d.handles p (some now) } in
        let d2 : DiskWarmupCache = record d1 {
          files = write_file d1.files p off (take n part) now;
        } in
        let fine =
          moves (one w d d1 (opens p now o))
            (writes p off (take n part) now (h d1 n (bytes_of_files d1 d p refl))) in
        let handle : is_open d2 p ≡ true = rw (path_eq_refl p) refl in
        rw (e, write_head)
          (if_holds (Moves w d) (ltb n (length part)) d2 _ fine (
            moves (moves fine (sizes p (record { size = off + n; updated_at = now }) handle))
              (counts _)))
  ]

  pub process_write-Moves :
      (c : WarmupConfig) (io : Io) (now : ℕ) (d : DiskWarmupCache) (hash : String) (id : ℕ)
      (part : List ℕ) (off : ℕ)
      → ((e : DiskWarmupCache) (n : ℕ)
          → bytes_of e (file_path hash id) ≡ bytes_of d (file_path hash id)
          → w e (file_path hash id) off (take n (trim_head c part off)))
      → Moves w d (process_write c io now d hash id part off)
  unfolding process_write
  process_write-Moves c io now d hash id part off h =
      let p = file_path hash id in
      let (checked, same) = check_complete-Moves c now d p in
      let full = check_complete c now d p in
      let (begun, kept) = start_head-Moves c io now full.1 p in
      let started = start_head c io now full.1 p in
      let both = joins w d full.1 started.1 checked begun in
      let old : bytes_of full.1 p ≡ bytes_of d p = bytes_of_files full.1 d p same in
      if_holds (Moves w d) (ltb c.warmup_file_size off) d _ stays (
        if_holds (Moves w d) full.0 full.1 _ checked (elim (Bool-cases started.0) [
          | inl t ↦ rw t (
              joins w d started.1 _ both (
                write_head-Moves io now started.1 p (trim_head c part off) off
                  (λ e n same_bytes. h e n (same_bytes ∙ kept t ∙ old))))
          | inr t ↦ rw t both
        ]))
