-- ===== src/DiskWarmup/Served.antt =====
-- What is read of a file whose writes came without a gap.
use Prim.Native.String.{String}
use gostream.Prelude.{
  ℕ, ◌+◌, ◌-◌, ltb, Bool-cases, ◌≡◌, refl, sym, subst, List, drop, inl, inr, arith,
}
use gostream.DiskWarmup.Disk.{WarmupFile, file_path, tail_path}
use gostream.DiskWarmup.{DiskWarmupCache, WarmupConfig, init_disk_warmup}
use gostream.DiskWarmup.HeadFile.{read_at}
use gostream.DiskWarmup.Tail.{tail_start, read_tail}
use gostream.DiskWarmup.Calls.{WarmupCall, run_warmup}
use gostream.DiskWarmup.Stored.{bytes_of}
use gostream.DiskWarmup.MadeReads.{read_at-Moves}
use gostream.DiskWarmup.MadeTails.{read_tail-Moves}
use gostream.DiskWarmup.FromFile.{IsFrom, nothing-IsFrom, take-IsFrom, drop-IsFrom}
use gostream.DiskWarmup.Heads.{IsKept, IsNext, AllFollow, Moves-IsKept, run_warmup-IsKept}

module _ (f : ℕ → ℕ) (file_size : ℕ) (hash : String) (id : ℕ) where
  read_at-IsFrom :
      (c : WarmupConfig) (d : DiskWarmupCache) (now size off : ℕ)
      → IsKept f file_size hash id d
      → IsFrom f off (read_at c now d hash id size off).0
  read_at-IsFrom c d now size off k =
      let r = read_at c now d hash id size off in
      let (made, answer) = read_at-Moves (IsNext f file_size hash id) c now d hash id size off in
      elim answer [
        | inl e ↦ subst (IsFrom f off) (sym e) (nothing-IsFrom f off)
        | inr (n, e) ↦
            let kept =
              Moves-IsKept f file_size hash id d r.1 made k (file_path hash id) refl refl in
            let rest = drop-IsFrom f 0 off (bytes_of r.1 (file_path hash id)) kept in
            let start : 0 + off ≡ off = omega arith in
            subst (IsFrom f off) (sym e) (
              take-IsFrom f off n _
                (subst (λ s. IsFrom f s (drop off (bytes_of r.1 (file_path hash id)))) start rest))
      ]

  read_tail-IsFrom :
      (d : DiskWarmupCache) (now size absolute : ℕ)
      → IsKept f file_size hash id d
      → IsFrom f absolute (read_tail now d hash id size absolute file_size).0
  unfolding read_tail
  read_tail-IsFrom d now size absolute k = elim (Bool-cases (ltb absolute (tail_start file_size))) [
    | inl t ↦ rw t (nothing-IsFrom f absolute)
    | inr t ↦
        let r = read_tail now d hash id size absolute file_size in
        let (made, answer) =
          read_tail-Moves (IsNext f file_size hash id) now d hash id size absolute file_size in
        elim answer [
          | inl e ↦ subst (IsFrom f absolute) (sym e) (nothing-IsFrom f absolute)
          | inr e ↦
              let rel = absolute - tail_start file_size in
              let bytes = bytes_of r.1 (tail_path hash id) in
              let kept =
                Moves-IsKept f file_size hash id d r.1 made k (tail_path hash id) refl refl in
              let rest = drop-IsFrom f (tail_start file_size) rel bytes kept in
              let start : tail_start file_size + rel ≡ absolute = ground (arith, t) in
              subst (IsFrom f absolute) (sym e) (
                take-IsFrom f absolute size _ (subst (λ s. IsFrom f s (drop rel bytes)) start rest))
        ]
  ]

-- From a start over files that hold bytes of their file only, and after any calls whose writes of one file
-- hold its bytes and start within what there is of it, head and tail: each read of the head, and each of
-- the tail, gives bytes that the file has at the offset.
pub reads-run_warmup :
    (f : ℕ → ℕ) (file_size : ℕ) (hash : String) (id : ℕ) (c : WarmupConfig)
    (files : List WarmupFile) (xs : List WarmupCall) (now size off : ℕ)
    → IsKept f file_size hash id (init_disk_warmup files)
    → AllFollow f file_size hash id c (init_disk_warmup files) xs
    → IsFrom f off (read_at c now (run_warmup c (init_disk_warmup files) xs) hash id size off).0
      × IsFrom f off
          (read_tail now (run_warmup c (init_disk_warmup files) xs) hash id size off file_size).0
reads-run_warmup f file_size hash id c files xs now size off k h =
    let d = run_warmup c (init_disk_warmup files) xs in
    let kept = run_warmup-IsKept f file_size hash id c (init_disk_warmup files) xs h k in
    (
      read_at-IsFrom f file_size hash id c d now size off kept,
      read_tail-IsFrom f file_size hash id d now size off kept,
    )
