-- ===== src/DiskWarmup/MadeTails.antt =====
-- The operations on tails and the removal of a hash are made of the moves.
use Prim.Native.String.{String}
use Prim.Native.Nat.{min}
use gostream.Prelude.{
  ℕ, ◌+◌, ◌-◌, ◌==◌, ltb, leb, if_holds, Bool-cases, Option-cases, Bool, true, false, not, ◌≡◌, ◌⊎◌,
  refl, sym, ◌∙◌, List, [], ◌∷◌, length, take, drop, Option, none, some, inl, inr, arith,
}
use gostream.DiskWarmup.Disk.{
  WarmupPath, WarmupFile, tail_path, file_of, write_file, set_at, is_set, less_by,
}
use gostream.DiskWarmup.{DiskWarmupCache, Io, SizeEntry, drop_warmup}
use gostream.DiskWarmup.HeadFile.{create_file, is_fresh, matches_hash}
use gostream.DiskWarmup.Tail.{
  tail_warmup_size, tail_start, check_tail, start_tail, raise_mark, put_tail, trim_tail, write_tail,
  covers_tail, read_handle, read_tail, stat_tail, get_tail_range, remove_files, remove_hash,
}
use gostream.DiskWarmup.Calls.{or_same}
use gostream.DiskWarmup.Paths.{path_eq_refl}
use gostream.DiskWarmup.Moves.{
  is_open, Admission, drops, creates, opens, writes, sizes, marks, misses, finds, counts, Moves,
  stays, moves, one, joins,
}
use gostream.DiskWarmup.Made.{get_handle-cases}
use gostream.DiskWarmup.Stored.{
  bytes_of, read_bytes_of, bytes_of_files, bytes_of-none, bytes_of-create_file,
}

module _ (w : Admission) where
  check_tail-Moves :
      (d : DiskWarmupCache) (p : WarmupPath)
      → p.is_tail ≡ true
      → Moves w d (check_tail d p).1 × ((check_tail d p).1.files ≡ d.files)
  unfolding check_tail
  check_tail-Moves d p tail = elim (Option-cases (d.tail_coverage p)) [
    | inr (x, e) ↦ rw (e, check_tail) (stays, refl)
    | inl e ↦ elim (Option-cases (file_of d.files p)) [
      | inl g ↦ rw (e, check_tail, g) (stays, refl)
      | inr (bytes, g) ↦
          rw (e, check_tail, g)
            (if_holds (λ (r : Bool × DiskWarmupCache). Moves w d r.1 × (r.1.files ≡ d.files))
              (leb tail_warmup_size (length bytes)) (true, _) (false, d)
              (moves stays (marks p (length bytes) (ground (arith, g)) tail), refl) (stays, refl))
    ]
  ]

  start_tail-Moves :
      (io : Io) (now : ℕ) (d : DiskWarmupCache) (p : WarmupPath)
      → Moves w d (start_tail io now d p).1 × (bytes_of (start_tail io now d p).1 p ≡ bytes_of d p)
  unfolding start_tail
  start_tail-Moves io now d p = elim (Option-cases (file_of d.files p)) [
    | inr (bytes, e) ↦ rw (e, start_tail) (stays, refl)
    | inl e ↦
        let d1 : DiskWarmupCache = record d { missing = set_at d.missing p none } in
        let found = moves stays (finds p) in
        rw (e, start_tail)
          (if_holds
            (λ (r : Bool × DiskWarmupCache). Moves w d r.1 × (bytes_of r.1 p ≡ bytes_of d p))
            io.can_create (true, create_file now d1 p) (false, d1)
            (moves found (creates p now), bytes_of-create_file now d1 p ∙ sym (bytes_of-none d p e))
            (found, bytes_of_files d1 d p refl))
  ]

  put_tail-Moves :
      (io : Io) (now : ℕ) (d : DiskWarmupCache) (p : WarmupPath) (part : List ℕ) (rel : ℕ)
      → p.is_tail ≡ true
      → ((e : DiskWarmupCache) (n : ℕ) → bytes_of e p ≡ bytes_of d p → w e p rel (take n part))
      → Moves w d (put_tail io now d p part rel)
  unfolding put_tail
  put_tail-Moves io now d p part rel tail h = elim (get_handle-cases w now d p) [
    | inl e ↦ rw (e, put_tail) stays
    | inr (e, o) ↦
        let n = min io.room (length part) in
        let d1 : DiskWarmupCache = record d { handles = set_at d.handles p (some now) } in
        let d2 : DiskWarmupCache = record d1 {
          files = write_file d1.files p rel (take n part) now;
        } in
        let x : SizeEntry = record { size = rel + n; updated_at = now } in
        let d3 : DiskWarmupCache = record d2 { size_cache = set_at d2.size_cache p (some x) } in
        let fine =
          moves (one w d d1 (opens p now o))
            (writes p rel (take n part) now (h d1 n (bytes_of_files d1 d p refl))) in
        let handle : is_open d2 p ≡ true = rw (path_eq_refl p) refl in
        let later : is_open d3 p ≡ true = rw (path_eq_refl p) refl in
        rw (e, put_tail)
          (moves (moves fine (sizes p x handle))
            (marks p (raise_mark (d.tail_coverage p) (rel + n)) later tail))
  ]

  pub write_tail-Moves :
      (io : Io) (now : ℕ) (d : DiskWarmupCache) (hash : String) (id : ℕ) (part : List ℕ)
      (absolute file_size : ℕ)
      → ((e : DiskWarmupCache) (n : ℕ)
          → bytes_of e (tail_path hash id) ≡ bytes_of d (tail_path hash id)
          → ltb absolute (tail_start file_size) ≡ false
          → w e
              (tail_path hash id)
              (absolute - tail_start file_size)
              (take n (trim_tail part (absolute - tail_start file_size))))
      → Moves w d (or_same d (write_tail io now d hash id part absolute file_size))
  unfolding write_tail
  write_tail-Moves io now d hash id part absolute file_size h =
      let p = tail_path hash id in
      let rel = absolute - tail_start file_size in
      let cut = trim_tail part rel in
      let (checked, same) = check_tail-Moves d p refl in
      let full = check_tail d p in
      let (begun, kept) = start_tail-Moves io now full.1 p in
      let started = start_tail io now full.1 p in
      let both = joins w d full.1 started.1 checked begun in
      let old : bytes_of full.1 p ≡ bytes_of d p = bytes_of_files full.1 d p same in
      let P = λ (r : Option DiskWarmupCache). Moves w d (or_same d r) in
      elim (Bool-cases (ltb absolute (tail_start file_size))) [
        | inl t ↦ rw t stays
        | inr t ↦ rw t (
            if_holds P (ltb tail_warmup_size rel) none _ stays (
              if_holds P (length cut == 0) (some d) _ stays (
                if_holds P full.0 (some full.1) _ checked (
                  if_holds P started.0 (some (put_tail io now started.1 p cut rel)) (some started.1)
                    (joins w d started.1 _ both (
                      put_tail-Moves io now started.1 p cut rel refl
                        (λ e n same_bytes. h e n (same_bytes ∙ kept ∙ old) t)))
                    both))))
      ]

  covers_tail-Moves :
      (d : DiskWarmupCache) (p : WarmupPath) (end_off : ℕ)
      → p.is_tail ≡ true
      → Moves w d (covers_tail d p end_off).1
  unfolding covers_tail
  covers_tail-Moves d p end_off tail = elim (Option-cases (d.tail_coverage p)) [
    | inr (x, e) ↦ rw (e, covers_tail) stays
    | inl e ↦ elim (Option-cases (file_of d.files p)) [
      | inl g ↦ rw (e, covers_tail, g) stays
      | inr (bytes, g) ↦
          rw (e, covers_tail, g)
            (if_holds (λ (r : Bool × DiskWarmupCache). Moves w d r.1) (leb end_off (length bytes))
              (true, _) (false, d) (moves stays (marks p (length bytes) (ground (arith, g)) tail))
              stays)
    ]
  ]

  pub read_tail-Moves :
      (now : ℕ) (d : DiskWarmupCache) (hash : String) (id size absolute file_size : ℕ)
      → Moves w d (read_tail now d hash id size absolute file_size).1
        × (((read_tail now d hash id size absolute file_size).0 ≡ [])
            ⊎ ((read_tail now d hash id size absolute file_size).0
                ≡ take size (
                    drop (absolute - tail_start file_size) (
                      bytes_of
                        (read_tail now d hash id size absolute file_size).1
                        (tail_path hash id)))))
  unfolding read_tail read_handle
  read_tail-Moves now d hash id size absolute file_size =
      let p = tail_path hash id in
      let rel = absolute - tail_start file_size in
      let covered = covers_tail d p (rel + size) in
      let first = covers_tail-Moves d p (rel + size) refl in
      let Good = λ (r : List ℕ × DiskWarmupCache).
        Moves w d r.1 × ((r.0 ≡ []) ⊎ (r.0 ≡ take size (drop rel (bytes_of r.1 p)))) in
      if_holds Good (ltb absolute (tail_start file_size)) ([], d) _ (stays, inl refl)
        (if_holds Good (not covered.0) ([], covered.1) _ (first, inl refl)
          (elim (get_handle-cases w now covered.1 p) [
            | inl e ↦ rw (e, read_handle) (first, inl refl)
            | inr (e, o) ↦
                let d2 : DiskWarmupCache = record covered.1 {
                  handles = set_at covered.1.handles p (some now);
                } in
                rw (e, read_handle) (moves first (opens p now o), inr (read_bytes_of d2 p rel size))
          ]))

  stat_tail-Moves :
      (now : ℕ) (d : DiskWarmupCache) (p : WarmupPath) → Moves w d (stat_tail now d p).1
  unfolding stat_tail
  stat_tail-Moves now d p = elim (Option-cases (file_of d.files p)) [
    | inl e ↦ rw (e, stat_tail) (moves stays (misses p now (ground (arith, e))))
    | inr (bytes, e) ↦
        rw (e, stat_tail)
          (moves stays
            (sizes p (record { size = length bytes; updated_at = now }) (ground (arith, e))))
  ]

  pub get_tail_range-Moves :
      (now : ℕ) (d : DiskWarmupCache) (hash : String) (id : ℕ)
      → Moves w d (get_tail_range now d hash id).1
  unfolding get_tail_range
  get_tail_range-Moves now d hash id =
      let p = tail_path hash id in
      let stat = stat_tail-Moves now d p in
      if_holds (λ (r : ℕ × DiskWarmupCache). Moves w d r.1) (is_set (d.missing p)) (0, d) _ stays
        (elim (Option-cases (d.size_cache p)) [
          | inl e ↦ rw e stat
          | inr (x, e) ↦ rw e (
              if_holds (λ (r : ℕ × DiskWarmupCache). Moves w d r.1) (is_fresh now x) (x.size, d)
                (stat_tail now d p) stays stat)
        ])

  remove_files-Moves : (fs : List WarmupFile) (d : DiskWarmupCache) → Moves w d (remove_files fs d)
  unfolding remove_files
  remove_files-Moves [] d = stays
  remove_files-Moves (f ∷ fs) d =
      let d1 : DiskWarmupCache = record d { total_size = less_by d.total_size (length f.bytes) } in
      joins w d (drop_warmup d1 f.path) _
        (moves (moves stays (counts d1.total_size)) (drops f.path))
        (remove_files-Moves fs (drop_warmup d1 f.path))

  pub remove_hash-Moves : (d : DiskWarmupCache) (hash : String) → Moves w d (remove_hash d hash)
  unfolding remove_hash
  remove_hash-Moves d hash = remove_files-Moves (matches_hash hash d.files) d
