-- ===== src/InodeMap/Entries.antt =====
-- Entries of the maps, after one is set or gone.
use Prim.Native.String.{String}
use text.Mathlib.Text.{◌==◌ as str_eq}
use text.Mathlib.TextEquality.{eq_iff}
use mathlib.Core.Option.{some-injective}
use gostream.Prelude.{
  ℕ, ◌==◌, ◌≡◌, sym, subst, Bool-cases, Option-cases, true, Option, some, inl, inr, arith,
}
use gostream.InodeMap.{FileKey, same_key, set_text, drop_fast}

pub same_key_sound : (k j : FileKey) → same_key k j ≡ true → k ≡ j
same_key_sound k j h =
    let a : k.infohash ≡ j.infohash = ground (arith, eq_iff k.infohash j.infohash) in
    let b : k.index ≡ j.index = ground arith in λ i. record { infohash = a i; index = b i }

-- A property of each entry, after one is set or gone.
module _ (P : String → ℕ → Type 0) (m : String → Option ℕ)
    (all : (p : String) (n : ℕ) → m p ≡ some n → P p n) where
  pub set_text-All :
      (k : String) (v : ℕ) → P k v → (p : String) (n : ℕ) → set_text m k (some v) p ≡ some n → P p n
  set_text-All k v h p n = elim (Bool-cases (str_eq p k)) [
    | inl t ↦
        let same : p ≡ k = ground (arith, t, eq_iff p k) in
        rw t (λ e. subst (λ q. P q n) (sym same) (subst (P k) (some-injective v n e) h))
    | inr t ↦ rw t (all p n)
  ]

  pub drop_fast-All :
      (name : String) (target : ℕ) (p : String) (n : ℕ) → drop_fast m name target p ≡ some n → P p n
  drop_fast-All name target p n = elim (Option-cases (m name)) [
    | inl e ↦ rw (e, drop_fast) (all p n)
    | inr (i, e) ↦ elim (Bool-cases (i == target)) [
      | inr t ↦ rw (e, drop_fast, t) (all p n)
      | inl t ↦ elim (Bool-cases (str_eq p name)) [
        | inl q ↦ rw (e, drop_fast, t, q) (λ none_some. absurd cc)
        | inr q ↦ rw (e, drop_fast, t, q) (all p n)
      ]
    ]
  ]
