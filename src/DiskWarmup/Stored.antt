-- ===== src/DiskWarmup/Stored.antt =====
-- The bytes that the disk has of a path, none where there is no file.

use gostream.Prelude.{
  ℕ, Option-cases, false, ◌≡◌, ◌⊎◌, refl, ap, ◌∙◌, List, [], take, drop, zero, suc, none, some, inl,
  inr,
}
use gostream.DiskWarmup.Disk.{WarmupPath, file_of, write_file, write_bytes, path_eq, read_bytes}
use gostream.DiskWarmup.{DiskWarmupCache}
use gostream.DiskWarmup.HeadFile.{create_file}
use gostream.DiskWarmup.Paths.{path_eq_refl, path_eq_other, file_of-write_self, written}

unfoldable pub bytes_of : DiskWarmupCache → WarmupPath → List ℕ
unfolding file_of
bytes_of d p = elim (file_of d.files p) [ some bytes ↦ bytes | none ↦ [] ]

pub bytes_of_files :
    (d e : DiskWarmupCache) (p : WarmupPath) → d.files ≡ e.files → bytes_of d p ≡ bytes_of e p
unfolding bytes_of
bytes_of_files d e p h = rw (bytes_of, h) refl

pub bytes_of_file :
    (d e : DiskWarmupCache) (p : WarmupPath)
    → file_of d.files p ≡ file_of e.files p
    → bytes_of d p ≡ bytes_of e p
unfolding bytes_of
bytes_of_file d e p h = rw (bytes_of, h) refl

pub bytes_of-some :
    (d : DiskWarmupCache) (p : WarmupPath) (bytes : List ℕ)
    → file_of d.files p ≡ some bytes
    → bytes_of d p ≡ bytes
unfolding bytes_of
bytes_of-some d p bytes h = rw (bytes_of, h) refl

pub bytes_of-none :
    (d : DiskWarmupCache) (p : WarmupPath) → file_of d.files p ≡ none → bytes_of d p ≡ []
unfolding bytes_of
bytes_of-none d p h = rw (bytes_of, h) refl

pub read_bytes_of :
    (d : DiskWarmupCache) (p : WarmupPath) (off n : ℕ)
    → read_bytes (file_of d.files p) off n ≡ take n (drop off (bytes_of d p))
unfolding bytes_of
read_bytes_of d p off n = elim (Option-cases (file_of d.files p)) [
  | inl e ↦ rw (e, bytes_of) (nothing off n)
  | inr (bytes, e) ↦ rw (e, bytes_of) refl
]
  where
    nil : List ℕ
    nil = []

    nothing : (off n : ℕ) → [] ≡ take n (drop off nil)
    nothing zero zero = refl
    nothing zero (suc n) = refl
    nothing (suc off) zero = refl
    nothing (suc off) (suc n) = refl

pub bytes_of-create_file :
    (now : ℕ) (d : DiskWarmupCache) (p : WarmupPath) → bytes_of (create_file now d p) p ≡ []
unfolding bytes_of file_of
bytes_of-create_file now d p = rw (bytes_of, file_of, path_eq_refl p) refl

pub bytes_of-create_other :
    (now : ℕ) (d : DiskWarmupCache) (p q : WarmupPath)
    → path_eq q p ≡ false
    → bytes_of (create_file now d p) q ≡ bytes_of d q
unfolding bytes_of file_of
bytes_of-create_other now d p q h =
    let other = path_eq_other p q p h (path_eq_refl p) in rw (bytes_of, file_of, other) refl

-- What a write makes of the bytes.
pub bytes_of-write :
    (d : DiskWarmupCache) (p : WarmupPath) (off : ℕ) (part : List ℕ) (now : ℕ)
    → let e : DiskWarmupCache = record d { files = write_file d.files p off part now } in
      (bytes_of e p ≡ []) ⊎ (bytes_of e p ≡ write_bytes (bytes_of d p) off part)
unfolding bytes_of
bytes_of-write d p off part now =
    let self = file_of-write_self d.files p off part now in
    elim (Option-cases (file_of d.files p)) [
      | inl e ↦
          let gone : file_of (write_file d.files p off part now) p ≡ none =
            self ∙ ap (λ o. written o off part) e in
          inl (rw (bytes_of, gone) refl)
      | inr (bytes, e) ↦
          let now_there : file_of (write_file d.files p off part now) p
              ≡ some (write_bytes bytes off part) =
            self ∙ ap (λ o. written o off part) e in
          inr (rw (bytes_of, now_there, e) refl)
    ]
