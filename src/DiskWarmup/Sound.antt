-- ===== src/DiskWarmup/Sound.antt =====
-- What the tables say of a path is true of its file.
use gostream.Prelude.{
  ℕ, Bool-cases, Option-cases, Bool, true, false, ◌||◌, ◌&&◌, not, ◌≡◌, refl, sym, subst, ◌∙◌, inl,
  inr, arith,
}
use gostream.DiskWarmup.Disk.{WarmupPath, path_eq, file_of, is_set}
use gostream.DiskWarmup.{DiskWarmupCache, drop_warmup, reap_handles}
use gostream.DiskWarmup.Paths.{
  path_eq_sound, path_eq_refl, path_eq_other, file_of-remove_self, file_of-remove_other,
  file_of-write_self, file_of-write_other, is_set-written,
}
use gostream.DiskWarmup.Moves.{
  has_file, Admission, Move, drops, discards, creates, opens, writes, sizes, marks, misses, finds,
  counts, reaps, Moves, stays, moves,
}

-- A handle, a size and a tail range are those of a file that is there, a path that is noted as missing has
-- none, and only tails have a range.
abbrev pub tells : (file handle size mark miss tail : Bool) → Bool
tells file handle size mark miss tail =
    (not handle || file)
    && ((not size || file) && ((not mark || (file && tail)) && not (miss && file)))

abbrev pub tells_at : DiskWarmupCache → WarmupPath → Bool
tells_at d p =
    tells (has_file d p) (is_set (d.handles p)) (is_set (d.size_cache p))
      (is_set (d.tail_coverage p)) (is_set (d.missing p)) p.is_tail

abbrev pub IsSound : DiskWarmupCache → Type 0
IsSound d = (p : WarmupPath) → tells_at d p ≡ true

-- A move that changes what is told of one path.
at_one :
    (d e : DiskWarmupCache) (p : WarmupPath)
    → ((q : WarmupPath) → path_eq q p ≡ false → tells_at e q ≡ tells_at d q)
    → tells_at e p ≡ true
    → IsSound d
    → IsSound e
at_one d e p same here s q = elim (Bool-cases (path_eq q p)) [
  | inl t ↦ subst (λ r. tells_at e r ≡ true) (sym (path_eq_sound q p t)) here
  | inr t ↦ same q t ∙ s q
]

reap_handles-IsSound : (d : DiskWarmupCache) (now : ℕ) → IsSound d → IsSound (reap_handles now d)
unfolding reap_handles
reap_handles-IsSound d now s q =
    let h = s q in
    elim (Option-cases (d.handles q)) [
      | inl e ↦ rw e (ground (arith, h))
      | inr (used, e) ↦
          let there : has_file d q ≡ true = ground (arith, h, e) in rw e (ground (arith, h, there))
    ]

Move-IsSound : (w : Admission) (d e : DiskWarmupCache) → Move w d e → IsSound d → IsSound e
unfolding drop_warmup file_of
Move-IsSound w d e (drops p) s =
    at_one d (drop_warmup d p) p (λ q t. rw (t, file_of-remove_other d.files p q t) refl)
      (let same = path_eq_refl p in
        let gone = file_of-remove_self d.files p in rw (same, gone) (ground arith))
      s
Move-IsSound w d e (discards p now head) s =
    at_one d e p (λ q t. rw (t, file_of-remove_other d.files p q t) refl)
      (let same = path_eq_refl p in
        let gone = file_of-remove_self d.files p in
        let h = s p in rw (same, gone) (ground (arith, h)))
      s
Move-IsSound w d e (creates p now) s =
    at_one d e p (λ q t. let other = path_eq_other p q p t (path_eq_refl p) in rw (t, other) refl)
      (let same = path_eq_refl p in let g = s p in rw same (ground (arith, g))) s
Move-IsSound w d e (opens p now h) s =
    at_one d e p (λ q t. rw t refl)
      (let same = path_eq_refl p in let g = s p in rw same (ground (arith, g, h))) s
Move-IsSound w d e (writes p off part now h) s =
    at_one d e p (λ q t. rw (file_of-write_other d.files p q off part now t) refl)
      (let g = s p in
        rw (file_of-write_self d.files p off part now, is_set-written (file_of d.files p) off part)
          g)
      s
Move-IsSound w d e (sizes p x h) s =
    at_one d e p (λ q t. rw t refl)
      (let same = path_eq_refl p in let g = s p in rw same (ground (arith, g, h))) s
Move-IsSound w d e (marks p mark h tail) s =
    at_one d e p (λ q t. rw t refl)
      (let same = path_eq_refl p in let g = s p in rw same (ground (arith, g, h, tail))) s
Move-IsSound w d e (misses p now h) s =
    at_one d e p (λ q t. rw t refl)
      (let same = path_eq_refl p in let g = s p in rw same (ground (arith, g, h))) s
Move-IsSound w d e (finds p) s =
    at_one d e p (λ q t. rw t refl)
      (let same = path_eq_refl p in let g = s p in rw same (ground (arith, g))) s
Move-IsSound w d e (counts n) s = s
Move-IsSound w d e (reaps now) s = reap_handles-IsSound d now s

pub Moves-IsSound : (w : Admission) (d e : DiskWarmupCache) → Moves w d e → IsSound d → IsSound e
Moves-IsSound w d e stays s = s
Moves-IsSound w d e (moves {e = f} q m) s = Move-IsSound w f e m (Moves-IsSound w d f q s)
