-- ===== src/DiskWarmup/Heads.antt =====
-- What is kept of a file that is written from its start on, without a gap, are its own bytes.
use Prim.Native.String.{String}
use gostream.Prelude.{
  ℕ, ◌+◌, ◌-◌, ◌≤◌, ltb, if◌then◌else◌, if_holds, Bool-cases, false, ◌≡◌, refl, sym, subst, List,
  [], ◌∷◌, length, take, inl, inr, arith,
}
use gostream.DiskWarmup.Disk.{WarmupPath, path_eq, file_path, tail_path}
use gostream.DiskWarmup.{DiskWarmupCache, WarmupConfig, drop_warmup, reap_handles}
use gostream.DiskWarmup.HeadFile.{create_file, trim_head}
use gostream.DiskWarmup.Tail.{tail_start, trim_tail, tail_warmup_size}
use gostream.DiskWarmup.Calls.{
  WarmupCall, writes_head, writes_tail, reads_head, reads_tail, asks_head, asks_tail, removes,
  reaps, call_warmup, run_warmup,
}
use gostream.DiskWarmup.Paths.{
  path_eq_sound, file_of-remove_self, file_of-remove_other, file_of-write_other,
}
use gostream.DiskWarmup.Moves.{
  Admission, Move, drops, discards, creates, opens, writes, sizes, marks, misses, finds, counts,
  Moves, stays, moves,
}
use gostream.DiskWarmup.Stored.{
  bytes_of, bytes_of_files, bytes_of_file, bytes_of-none, bytes_of-create_file,
  bytes_of-create_other, bytes_of-write,
}
use gostream.DiskWarmup.Admitted.{Admitted, call_warmup-Moves}
use gostream.DiskWarmup.FromFile.{IsFrom, nothing-IsFrom, take-IsFrom, write_bytes-IsFrom}

trim_head-IsFrom :
    (f : ℕ → ℕ) (s : ℕ) (c : WarmupConfig) (part : List ℕ) (off : ℕ)
    → IsFrom f s part
    → IsFrom f s (trim_head c part off)
trim_head-IsFrom f s c part off h =
    if_holds (IsFrom f s) (ltb off c.warmup_file_size) _ part
      (if_holds (IsFrom f s) (ltb c.warmup_file_size (off + length part))
        (take (c.warmup_file_size - off) part) part
        (take-IsFrom f s (c.warmup_file_size - off) part h) h)
      h

trim_tail-IsFrom :
    (f : ℕ → ℕ) (s : ℕ) (part : List ℕ) (rel : ℕ)
    → IsFrom f s part
    → IsFrom f s (trim_tail part rel)
trim_tail-IsFrom f s part rel h =
    if_holds (IsFrom f s) (ltb tail_warmup_size (rel + length part))
      (take (tail_warmup_size - rel) part) part (take-IsFrom f s (tail_warmup_size - rel) part h) h

module _ (f : ℕ → ℕ) (file_size : ℕ) where
  -- Where the bytes of a path start in the file.
  abbrev pub base : WarmupPath → ℕ
  base p = if p.is_tail then tail_start file_size else 0

  module _ (hash : String) (id : ℕ) where
    -- What is on the disk of the file.
    abbrev pub IsKept : DiskWarmupCache → Type 0
    IsKept d = (p : WarmupPath) → p.hash ≡ hash → p.file_id ≡ id → IsFrom f (base p) (bytes_of d p)

    abbrev pub IsNext : Admission
    IsNext d p off part =
        p.hash ≡ hash
        → p.file_id ≡ id
        → IsFrom f (base p + off) part × (off ≤ length (bytes_of d p))

    bytes_change :
        (d e : DiskWarmupCache) (p : WarmupPath)
        → ((q : WarmupPath) → path_eq q p ≡ false → bytes_of e q ≡ bytes_of d q)
        → (p.hash ≡ hash → p.file_id ≡ id → IsFrom f (base p) (bytes_of e p))
        → IsKept d
        → IsKept e
    bytes_change d e p same here k q = elim (Bool-cases (path_eq q p)) [
      | inl t ↦
          subst (λ r. r.hash ≡ hash → r.file_id ≡ id → IsFrom f (base r) (bytes_of e r))
            (sym (path_eq_sound q p t)) here
      | inr t ↦ λ a b. subst (IsFrom f (base q)) (sym (same q t)) (k q a b)
    ]

    bytes_gone :
        (d e : DiskWarmupCache) (p : WarmupPath)
        → ((q : WarmupPath) → path_eq q p ≡ false → bytes_of e q ≡ bytes_of d q)
        → bytes_of e p ≡ []
        → IsKept d
        → IsKept e
    bytes_gone d e p same gone =
        bytes_change d e p same
          (λ a b. subst (IsFrom f (base p)) (sym gone) (nothing-IsFrom f (base p)))

    bytes_stay :
        (d e : DiskWarmupCache)
        → ((q : WarmupPath) → bytes_of e q ≡ bytes_of d q)
        → IsKept d
        → IsKept e
    bytes_stay d e same k q a b = subst (IsFrom f (base q)) (sym (same q)) (k q a b)

    Move-IsKept : (d e : DiskWarmupCache) → Move IsNext d e → IsKept d → IsKept e
    unfolding drop_warmup reap_handles
    Move-IsKept d e (drops p) =
        bytes_gone d (drop_warmup d p) p
          (λ q t. bytes_of_file (drop_warmup d p) d q (file_of-remove_other d.files p q t))
          (bytes_of-none (drop_warmup d p) p (file_of-remove_self d.files p))
    Move-IsKept d e (discards p now head) =
        bytes_gone d e p (λ q t. bytes_of_file e d q (file_of-remove_other d.files p q t))
          (bytes_of-none e p (file_of-remove_self d.files p))
    Move-IsKept d e (creates p now) =
        bytes_gone d (create_file now d p) p (bytes_of-create_other now d p)
          (bytes_of-create_file now d p)
    Move-IsKept d e (writes p off part now h) = λ k.
        bytes_change d e p
          (λ q t. bytes_of_file e d q (file_of-write_other d.files p q off part now t))
          (λ a b. elim (bytes_of-write d p off part now) [
            | inl gone ↦ subst (IsFrom f (base p)) (sym gone) (nothing-IsFrom f (base p))
            | inr eq ↦ subst (IsFrom f (base p)) (sym eq) (
                write_bytes-IsFrom f (base p) off (bytes_of d p) part (h a b).1 (k p a b) (h a b).0)
          ])
          k
    Move-IsKept d e (opens p now h) = bytes_stay d e (λ q. bytes_of_files e d q refl)
    Move-IsKept d e (sizes p x h) = bytes_stay d e (λ q. bytes_of_files e d q refl)
    Move-IsKept d e (marks p mark h tail) = bytes_stay d e (λ q. bytes_of_files e d q refl)
    Move-IsKept d e (misses p now h) = bytes_stay d e (λ q. bytes_of_files e d q refl)
    Move-IsKept d e (finds p) = bytes_stay d e (λ q. bytes_of_files e d q refl)
    Move-IsKept d e (counts n) = bytes_stay d e (λ q. bytes_of_files e d q refl)
    Move-IsKept d e (Move.reaps now) =
        bytes_stay d (reap_handles now d) (λ q. bytes_of_files (reap_handles now d) d q refl)

    pub Moves-IsKept : (d e : DiskWarmupCache) → Moves IsNext d e → IsKept d → IsKept e
    Moves-IsKept d e stays k = k
    Moves-IsKept d e (moves {e = g} q m) k = Move-IsKept g e m (Moves-IsKept d g q k)

    -- The writes of this file come without a gap: they hold its bytes, and start within what there is.
    abbrev pub Follows : DiskWarmupCache → WarmupCall → Type 0
    Follows d (writes_head io now h i part off) =
        h ≡ hash → i ≡ id → IsFrom f off part × (off ≤ length (bytes_of d (file_path h i)))
    Follows d (writes_tail io now h i part absolute size) =
        h ≡ hash
        → i ≡ id
        → (size ≡ file_size)
          × (IsFrom f absolute part
              × (absolute - tail_start size ≤ length (bytes_of d (tail_path h i))))
    Follows d x = Unit

    Follows-Admitted :
        (c : WarmupConfig) (d : DiskWarmupCache) (x : WarmupCall)
        → Follows d x
        → Admitted IsNext c d x
    Follows-Admitted c d (writes_head io now h i part off) k = λ e n same a b.
        let (from, near) = k a b in
        let start : off ≡ 0 + off = omega arith in
        let whole = subst (λ s. IsFrom f s part) start from in
        (
          take-IsFrom f (0 + off) n (trim_head c part off)
              (trim_head-IsFrom f (0 + off) c part off whole),
          subst (λ (bs : List ℕ). off ≤ length bs) (sym same) near,
        )
    Follows-Admitted c d (writes_tail io now h i part absolute size) k = λ e n same t a b.
        let (s, (from, near)) = k a b in
        let rel = absolute - tail_start size in
        let start : absolute ≡ tail_start file_size + rel = ground (arith, t, s) in
        let whole = subst (λ s. IsFrom f s part) start from in
        (
          take-IsFrom f (tail_start file_size + rel) n (trim_tail part rel)
              (trim_tail-IsFrom f (tail_start file_size + rel) part rel whole),
          subst (λ (bs : List ℕ). rel ≤ length bs) (sym same) near,
        )
    Follows-Admitted c d (reads_head now h i size off) k = tt
    Follows-Admitted c d (reads_tail now h i size absolute file_size) k = tt
    Follows-Admitted c d (asks_head now h i) k = tt
    Follows-Admitted c d (asks_tail now h i) k = tt
    Follows-Admitted c d (removes h) k = tt
    Follows-Admitted c d (reaps now) k = tt

    -- Each call follows in the state that those before it leave.
    abbrev pub AllFollow : WarmupConfig → DiskWarmupCache → List WarmupCall → Type 0
    AllFollow c d [] = Unit
    AllFollow c d (x ∷ xs) = Follows d x × AllFollow c (call_warmup c d x) xs

    pub run_warmup-IsKept :
        (c : WarmupConfig) (d : DiskWarmupCache) (xs : List WarmupCall)
        → AllFollow c d xs
        → IsKept d
        → IsKept (run_warmup c d xs)
    unfolding run_warmup
    run_warmup-IsKept c d [] h k = k
    run_warmup-IsKept c d (x ∷ xs) h k =
        let e = call_warmup c d x in
        run_warmup-IsKept c e xs h.1
          (Moves-IsKept d e (call_warmup-Moves IsNext c d x (Follows-Admitted c d x h.0)) k)
