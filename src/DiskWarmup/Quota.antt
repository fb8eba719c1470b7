-- ===== src/DiskWarmup/Quota.antt =====
-- The quota: which files go, and what is counted then.
use native.Mathlib.Nat.{ℕ_set}
use mathlib.Core.List.{foldr, filter_map}
use mathlib.Core.List.Perm
use gostream.Prelude.{
  ℕ, ◌+◌, ◌-◌, ◌≤◌, ◌<◌, leb, if◌then◌else◌, Bool-cases, false, ◌≡◌, ◌⊎◌, ◌≢◌, refl, sym, ap, subst,
  ◌∙◌, List, [], ◌∷◌, ◌++◌, length, Option, none, some, inl, inr, arith, pos, All, AllPairs,
  AllPairs-sort_slice, Perm, sort_slice, sort_slice-perm,
}
use gostream.DiskWarmup.Disk.{
  WarmupPath, path_eq, WarmupFile, remove_file, total_bytes, add_int, is_within,
}
use gostream.DiskWarmup.{
  DiskWarmupCache, WarmupConfig, drop_warmup, evict_files, enforce_quota, quota, is_older,
}
use gostream.DiskWarmup.Paths.{path_eq_refl, path_eq_other}

-- Two files that have not one name.
abbrev pub Differ : WarmupFile → WarmupFile → Type 0
Differ f g = path_eq g.path f.path ≡ false

Differ-sym : (f g : WarmupFile) → Differ f g → Differ g f
Differ-sym f g h = path_eq_other f.path g.path f.path h (path_eq_refl f.path)

abbrev unless_at : WarmupPath → WarmupFile → Option WarmupFile
unless_at p f = if path_eq f.path p then none else some f

remove-filter_map :
    (fs : List WarmupFile) (p : WarmupPath) → remove_file fs p ≡ filter_map (unless_at p) fs
unfolding remove_file filter_map
remove-filter_map [] p = refl
remove-filter_map (f ∷ fs) p = elim (Bool-cases (path_eq f.path p)) [
  | inl e ↦ rw e (remove-filter_map fs p)
  | inr e ↦ rw e (ap (λ gs. f ∷ gs) (remove-filter_map fs p))
]

remove_file-perm :
    (fs gs : List WarmupFile) (p : WarmupPath)
    → Perm fs gs
    → Perm (remove_file fs p) (remove_file gs p)
remove_file-perm fs gs p h =
    rw (remove-filter_map fs p, remove-filter_map gs p) (Perm.filter_map (unless_at p) h)

remove_others :
    (fs : List WarmupFile) (p : WarmupPath)
    → All (λ g. path_eq g.path p ≡ false) fs
    → remove_file fs p ≡ fs
unfolding remove_file
remove_others [] p h = refl
remove_others (f ∷ fs) p h = rw h.0 (ap (λ gs. f ∷ gs) (remove_others fs p h.1))

remove_first :
    (f : WarmupFile) (fs : List WarmupFile) → All (Differ f) fs → remove_file (f ∷ fs) f.path ≡ fs
unfolding remove_file
remove_first f fs h = rw (path_eq_refl f.path) (remove_others fs f.path h)

-- Of the files in the order in which they are taken, the first ones are gone and the others are left, as
-- many as the limit allows.
pub record Evicts (limit needed : ℕ) (taken after : List WarmupFile) (total : ℕ) : Type 0 where
  pub gone : List WarmupFile
  pub kept : List WarmupFile
  pub parts : gone ++ kept ≡ taken
  pub left : Perm kept after
  pub counted : total ≡ total_bytes kept
  pub enough : (total_bytes kept + needed ≤ limit) ⊎ (kept ≡ [])
  pub not_before :
      (fs : List WarmupFile) (f : WarmupFile)
      → gone ≡ fs ++ f ∷ []
      → limit < total_bytes (f ∷ kept) + needed

no_last : (fs : List WarmupFile) (f : WarmupFile) → [] ≢ fs ++ f ∷ []
no_last [] f e = absurd cc
no_last (g ∷ fs) f e = absurd cc

-- One more file goes first.
takes_first :
    (limit needed total : ℕ) (f : WarmupFile) (fs after : List WarmupFile)
    → leb (total_bytes (f ∷ fs) + needed) limit ≡ false
    → Evicts limit needed fs after total
    → Evicts limit needed (f ∷ fs) after total
takes_first limit needed total f fs after full r = record {
  gone = f ∷ r.gone;
  kept = r.kept;
  parts = ap (λ gs. f ∷ gs) r.parts;
  left = r.left;
  counted = r.counted;
  enough = r.enough;
  not_before = last;
}
  where
    last :
        (gs : List WarmupFile) (g : WarmupFile)
        → f ∷ r.gone ≡ gs ++ g ∷ []
        → limit < total_bytes (g ∷ r.kept) + needed
    last [] g e =
        let same : f ≡ g = cc in
        let alone : r.gone ≡ [] = cc in
        let all : r.kept ≡ fs = ap (λ hs. hs ++ r.kept) (sym alone) ∙ r.parts in
        subst (λ x. limit < total_bytes (x ∷ r.kept) + needed) same
          (subst (λ xs. limit < total_bytes (f ∷ xs) + needed) (sym all) (ground (arith, full)))
    last (x ∷ gs) g e = let rest : r.gone ≡ gs ++ g ∷ [] = cc in r.not_before gs g rest

evict_files-Evicts :
    (limit needed : ℕ) (fs : List WarmupFile) (total : ℕ) (d : DiskWarmupCache)
    → Perm fs d.files
    → AllPairs Differ fs
    → total ≡ total_bytes fs
    → Evicts limit needed fs
        (evict_files limit needed fs total d).1.files
        (evict_files limit needed fs total d).0
unfolding evict_files drop_warmup
evict_files-Evicts limit needed [] total d h k t = record {
  gone = [];
  kept = [];
  parts = refl;
  left = h;
  counted = t;
  enough = inr refl;
  not_before = λ fs f e. absurd (no_last fs f e);
}
evict_files-Evicts limit needed (f ∷ fs) total d h k t =
    elim (Bool-cases (leb (total + needed) limit)) [
      | inl e ↦ rw e (record {
        gone = [];
        kept = f ∷ fs;
        parts = refl;
        left = h;
        counted = t;
        enough = inl (ground (arith, e, t));
        not_before = λ gs g q. absurd (no_last gs g q);
      })
      | inr e ↦
          let gone = remove_file-perm (f ∷ fs) d.files f.path h in
          let rest =
            subst (λ gs. Perm gs (remove_file d.files f.path)) (remove_first f fs k.0) gone in
          let full : leb (total_bytes (f ∷ fs) + needed) limit ≡ false = ground (arith, e, t) in
          rw e (
            takes_first limit needed _ f fs _ full (
              evict_files-Evicts limit needed fs (total - length f.bytes) (drop_warmup d f.path)
                rest k.1 (omega (arith, t))))
    ]

add_bytes : WarmupFile → ℕ → ℕ
add_bytes f n = length f.bytes + n

total_bytes-foldr : (fs : List WarmupFile) → total_bytes fs ≡ foldr add_bytes 0 fs
unfolding add_bytes
total_bytes-foldr [] = refl
total_bytes-foldr (f ∷ fs) = ap (λ n. length f.bytes + n) (total_bytes-foldr fs)

add_bytes_comm :
    (f g : WarmupFile) (n : ℕ) → add_bytes f (add_bytes g n) ≡ add_bytes g (add_bytes f n)
unfolding add_bytes
add_bytes_comm f g n = omega arith

total_bytes-perm : (fs gs : List WarmupFile) → Perm fs gs → total_bytes fs ≡ total_bytes gs
total_bytes-perm fs gs h =
    total_bytes-foldr fs
    ∙ Perm.foldr-eq ℕ_set add_bytes add_bytes_comm h 0
    ∙ sym (total_bytes-foldr gs)

-- In a directory in which no two files have one name, when the counted total and the new file are
-- above the quota, the files on the disk are counted anew. If these fit, nothing goes. Otherwise
-- the files go from the oldest on, none of them while the rest fits, until the rest fits or none is
-- left; the total is that of the files that are left.
pub enforce_quota-Evicts :
    (c : WarmupConfig) (needed : ℕ) (d : DiskWarmupCache)
    → AllPairs Differ d.files
    → is_within (add_int d.total_size needed) (quota c) ≡ false
    → Evicts
        (quota c)
        needed
        (sort_slice is_older d.files)
        (enforce_quota c needed d).files
        (total_bytes (enforce_quota c needed d).files)
      × ((enforce_quota c needed d).total_size ≡ pos (total_bytes (enforce_quota c needed d).files))
unfolding enforce_quota
enforce_quota-Evicts c needed d h over =
    let on_disk = total_bytes d.files in
    let sorted = sort_slice is_older d.files in
    let same = sort_slice-perm is_older d.files in
    let size : on_disk ≡ total_bytes sorted = sym (total_bytes-perm sorted d.files same) in
    elim (Bool-cases (leb (on_disk + needed) (quota c))) [
      | inl e ↦
          let all : Evicts (quota c) needed sorted d.files on_disk = record {
            gone = [];
            kept = sorted;
            parts = refl;
            left = same;
            counted = size;
            enough = inl (ground (arith, e, size));
            not_before = λ gs g q. absurd (no_last gs g q);
          } in
          rw (over, enforce_quota, e) (all, refl)
      | inr e ↦
          let counted : DiskWarmupCache = record d { total_size = pos on_disk } in
          let out = evict_files (quota c) needed sorted on_disk counted in
          let r =
            evict_files-Evicts (quota c) needed sorted on_disk counted same
              (AllPairs-sort_slice is_older Differ Differ-sym d.files h) size in
          let total : out.0 ≡ total_bytes out.1.files =
            r.counted ∙ total_bytes-perm r.kept out.1.files r.left in
          rw (over, enforce_quota, e)
            (subst (Evicts (quota c) needed sorted out.1.files) total r, ap pos total)
    ]
