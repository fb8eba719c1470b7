-- ===== src/LruCache/Order.antt =====
-- The list of a shard, read by key: elements with different ids and different keys.
use Prim.Native.String.{String}
use text.Mathlib.Text.{◌==◌ as str_eq}
use text.Mathlib.TextEquality.{eq_iff}
use gostream.Prelude.{
  ℕ, ◌+◌, ◌≡◌, refl, ap, ◌==◌, if◌then◌else◌, true, false, Bool-cases, List, [], ◌∷◌, ◌++◌, Option,
  none, some, All, inl, inr, subst, arith,
}
use gostream.LruCache.{Element, find_id, remove_id, back}

module _ {ℓ} {V : Type ℓ} where
  unfoldable pub find_key : String → List (Element V) → Option (Element V)
  find_key k [] = none
  find_key k (x ∷ xs) = if str_eq x.key k then some x else find_key k xs

  unfoldable pub total_size : List (Element V) → ℕ
  total_size [] = 0
  total_size (x ∷ xs) = x.size + total_size xs

  abbrev pub Differs : Element V → Element V → Type 0
  Differs x y = ((y.id == x.id) ≡ false) × (str_eq y.key x.key ≡ false)

  abbrev pub Distinct : List (Element V) → Type 0
  Distinct [] = Unit
  Distinct (x ∷ xs) = All (Differs x) xs × Distinct xs

  pub All-find_key {κ} :
      (P : Element V → Type κ) (k : String) (l : List (Element V)) {e : Element V}
      → All P l
      → find_key k l ≡ some e
      → P e
  unfolding find_key
  All-find_key P k [] h f = absurd (cc)
  All-find_key P k (x ∷ xs) {e} h f = elim (Bool-cases (str_eq x.key k)) [
    | inl t ↦ let q : x ≡ e = ground arith in rw (← q) h.0
    | inr t ↦ All-find_key P k xs h.1 (rw t at f)
  ]

  pub All-remove_id {κ} :
      (P : Element V → Type κ) (i : ℕ) (l : List (Element V)) → All P l → All P (remove_id i l)
  unfolding remove_id
  All-remove_id P i [] h = tt
  All-remove_id P i (x ∷ xs) h = elim (Bool-cases (x.id == i)) [
    | inl t ↦ rw t h.1
    | inr t ↦ rw t (h.0, All-remove_id P i xs h.1)
  ]

  pub Distinct-remove_id : (i : ℕ) (l : List (Element V)) → Distinct l → Distinct (remove_id i l)
  unfolding remove_id
  Distinct-remove_id i [] h = tt
  Distinct-remove_id i (x ∷ xs) h = elim (Bool-cases (x.id == i)) [
    | inl t ↦ rw t h.1
    | inr t ↦ rw t (All-remove_id (Differs x) i xs h.0, Distinct-remove_id i xs h.1)
  ]

  pub find_key_key :
      (k : String) (l : List (Element V)) {e : Element V} → find_key k l ≡ some e → e.key ≡ k
  unfolding find_key
  find_key_key k [] f = absurd (cc)
  find_key_key k (x ∷ xs) {e} f = elim (Bool-cases (str_eq x.key k)) [
    | inl t ↦ ground (arith, eq_iff x.key k)
    | inr t ↦ find_key_key k xs (rw t at f)
  ]

  pub find_key_absent :
      (x : Element V) (l : List (Element V)) → All (Differs x) l → find_key x.key l ≡ none
  unfolding find_key
  find_key_absent x [] h = refl
  find_key_absent x (y ∷ ys) h = rw h.0.1 (find_key_absent x ys h.1)

  pub find_id-find_key :
      (k : String) (l : List (Element V)) {e : Element V}
      → Distinct l
      → find_key k l ≡ some e
      → find_id e.id l ≡ some e
  unfolding find_key find_id
  find_id-find_key k [] d f = absurd (cc)
  find_id-find_key k (x ∷ xs) {e} d f = elim (Bool-cases (str_eq x.key k)) [
    | inl t ↦ ground arith
    | inr t ↦
        let g : find_key k xs ≡ some e = rw t at f in
        let differs = All-find_key (Differs x) k xs d.0 g in
        ground (arith, differs.0, find_id-find_key k xs d.1 g)
  ]

  pub find_key-remove_id :
      (k j : String) (l : List (Element V)) {e : Element V}
      → Distinct l
      → find_key k l ≡ some e
      → find_key j (remove_id e.id l) ≡ (if str_eq j k then none else find_key j l)
  unfolding find_key remove_id
  find_key-remove_id k j [] d f = absurd (cc)
  find_key-remove_id k j (x ∷ xs) {e} d f = elim (Bool-cases (str_eq x.key k)) [
    | inl t ↦
        let q : x ≡ e = ground arith in
        ground (arith, q, eq_iff x.key k, eq_iff j k, eq_iff x.key j, find_key_absent x xs d.0)
    | inr t ↦
        let g : find_key k xs ≡ some e = rw t at f in
        let differs = All-find_key (Differs x) k xs d.0 g in
        ground (
          arith,
          differs.0,
          eq_iff x.key k,
          eq_iff j k,
          eq_iff x.key j,
          find_key-remove_id k j xs d.1 g,
        )
  ]

  pub total_size-remove_id :
      (i : ℕ) (l : List (Element V)) {e : Element V}
      → find_id i l ≡ some e
      → total_size (remove_id i l) + e.size ≡ total_size l
  unfolding find_id remove_id total_size
  total_size-remove_id i [] f = absurd (cc)
  total_size-remove_id i (x ∷ xs) {e} f = elim (Bool-cases (x.id == i)) [
    | inl t ↦ let q : x ≡ e = ground arith in rw (t, ← q) (omega arith)
    | inr t ↦ rw t (omega (arith, total_size-remove_id i xs {e = e} (rw t at f)))
  ]

  -- What stays after the removal differs from what was removed.
  pub Differs-remove_id :
      (k : String) (l : List (Element V)) {e : Element V}
      → Distinct l
      → find_key k l ≡ some e
      → All (Differs e) (remove_id e.id l)
  unfolding find_key remove_id
  Differs-remove_id k [] d f = absurd (cc)
  Differs-remove_id k (x ∷ xs) {e} d f = elim (Bool-cases (str_eq x.key k)) [
    | inl t ↦
        let q : x ≡ e = ground arith in
        let same : (x.id == e.id) ≡ true = ground arith in
        rw same (subst (λ y. All (Differs y) xs) q d.0)
    | inr t ↦
        let g : find_key k xs ≡ some e = rw t at f in
        let differs = All-find_key (Differs x) k xs d.0 g in
        let apart : (x.id == e.id) ≡ false = ground (arith, differs.0) in
        rw apart (
          (apart, ground (arith, differs.1, eq_iff x.key e.key, eq_iff e.key x.key)),
          Differs-remove_id k xs d.1 g,
        )
  ]

  -- The back of a list with distinct elements is found under its key, and taking it out leaves the
  -- rest in order.
  pub back_lem :
      (l : List (Element V)) {e : Element V}
      → Distinct l
      → back l ≡ some e
      → (find_key e.key l ≡ some e) × (remove_id e.id l ++ e ∷ [] ≡ l)
  unfolding back find_key remove_id
  back_lem [] d f = absurd (cc)
  back_lem (x ∷ []) {e} d f =
      let q : x ≡ e = ground arith in rw (← q) (ground (arith, eq_iff x.key x.key), ground arith)
  back_lem (x ∷ y ∷ ys) {e} d f =
      let (found, rest) = back_lem (y ∷ ys) {e = e} d.1 f in
      let differs = All-find_key (Differs x) e.key (y ∷ ys) d.0 found in
      let apart : (x.id == e.id) ≡ false = ground (arith, differs.0) in
      let other : str_eq x.key e.key ≡ false =
        ground (arith, differs.1, eq_iff x.key e.key, eq_iff e.key x.key) in
      (rw other found, rw apart (ap (◌∷◌ x) rest))
