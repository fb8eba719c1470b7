-- ===== src/DiskWarmup/Paths.antt =====
-- Paths, and what the file operations do to the file of one.
use text.Mathlib.TextEquality.{eq_iff}
use gostream.Prelude.{
  ℕ, Bool-cases, true, false, ◌≡◌, refl, subst, List, [], ◌∷◌, Option, none, some, inl, inr, arith,
}
use gostream.DiskWarmup.Disk.{
  WarmupPath, path_eq, WarmupFile, file_of, remove_file, write_file, write_bytes, is_set,
}

pub path_eq_sound : (p q : WarmupPath) → path_eq p q ≡ true → p ≡ q
unfolding path_eq
path_eq_sound p q h =
    let a : p.hash ≡ q.hash = ground (arith, eq_iff p.hash q.hash) in
    let b : p.file_id ≡ q.file_id = ground arith in
    let c : p.is_tail ≡ q.is_tail = ground arith in
    λ i. record { hash = a i; file_id = b i; is_tail = c i }

pub path_eq_refl : (p : WarmupPath) → path_eq p p ≡ true
unfolding path_eq
path_eq_refl p = ground (arith, eq_iff p.hash p.hash)

-- A path is not two others.
pub path_eq_other :
    (p q r : WarmupPath) → path_eq q p ≡ false → path_eq r p ≡ true → path_eq r q ≡ false
path_eq_other p q r h e = elim (Bool-cases (path_eq r q)) [
  | inl same ↦
      let a : r ≡ p = path_eq_sound r p e in
      let b : r ≡ q = path_eq_sound r q same in
      let c : path_eq q p ≡ true = subst (λ s. path_eq s p ≡ true) b e in absurd cc
  | inr other ↦ other
]

pub file_of-remove_self :
    (fs : List WarmupFile) (p : WarmupPath) → file_of (remove_file fs p) p ≡ none
unfolding file_of remove_file
file_of-remove_self [] p = refl
file_of-remove_self (f ∷ fs) p = elim (Bool-cases (path_eq f.path p)) [
  | inl e ↦ rw e (file_of-remove_self fs p)
  | inr e ↦ rw (e, e) (file_of-remove_self fs p)
]

pub file_of-remove_other :
    (fs : List WarmupFile) (p q : WarmupPath)
    → path_eq q p ≡ false
    → file_of (remove_file fs p) q ≡ file_of fs q
unfolding file_of remove_file
file_of-remove_other [] p q h = refl
file_of-remove_other (f ∷ fs) p q h = elim (Bool-cases (path_eq f.path p)) [
  | inl e ↦
      let other = path_eq_other p q f.path h e in rw (e, other) (file_of-remove_other fs p q h)
  | inr e ↦ elim (Bool-cases (path_eq f.path q)) [
    | inl same ↦ rw (e, same) refl
    | inr other ↦ rw (e, other) (file_of-remove_other fs p q h)
  ]
]

abbrev pub written : Option (List ℕ) → ℕ → List ℕ → Option (List ℕ)
written none off part = none
written (some bytes) off part = some (write_bytes bytes off part)

pub file_of-write_self :
    (fs : List WarmupFile) (p : WarmupPath) (off : ℕ) (part : List ℕ) (now : ℕ)
    → file_of (write_file fs p off part now) p ≡ written (file_of fs p) off part
unfolding file_of write_file
file_of-write_self [] p off part now = refl
file_of-write_self (f ∷ fs) p off part now = elim (Bool-cases (path_eq f.path p)) [
  | inl e ↦ rw (e, e) refl
  | inr e ↦ rw (e, e) (file_of-write_self fs p off part now)
]

pub file_of-write_other :
    (fs : List WarmupFile) (p q : WarmupPath) (off : ℕ) (part : List ℕ) (now : ℕ)
    → path_eq q p ≡ false
    → file_of (write_file fs p off part now) q ≡ file_of fs q
unfolding file_of write_file
file_of-write_other [] p q off part now h = refl
file_of-write_other (f ∷ fs) p q off part now h = elim (Bool-cases (path_eq f.path p)) [
  | inl e ↦ let other = path_eq_other p q f.path h e in rw (e, other) refl
  | inr e ↦ elim (Bool-cases (path_eq f.path q)) [
    | inl same ↦ rw (e, same) refl
    | inr other ↦ rw (e, other) (file_of-write_other fs p q off part now h)
  ]
]

pub is_set-written :
    (o : Option (List ℕ)) (off : ℕ) (part : List ℕ) → is_set (written o off part) ≡ is_set o
is_set-written none off part = refl
is_set-written (some bytes) off part = refl
