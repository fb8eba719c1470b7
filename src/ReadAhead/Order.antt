-- ===== src/ReadAhead/Order.antt =====
-- The order of a shard: its keys differ, and each has a chunk.
use Prim.Native.String.{String}
use text.Mathlib.TextEquality.{eq_iff}
use gostream.Prelude.{
  ℕ, ◌≡◌, refl, ap, ap₂, subst, sym, ◌∙◌, if◌then◌else◌, if_holds, if_of_true, if_of_false,
  Bool-cases, true, false, List, [], ◌∷◌, Option, none, some, All, arith, inl, inr,
}
use gostream.ReadAhead.{ChunkKey, RaBuffer, Shard, key_eq, find_buffer}
use gostream.ReadAhead.Store.{Held, remove_buffer, remove_key, drop_first, is_stored}

pub key_eq_same : (a b : ChunkKey) → key_eq a b ≡ true → a ≡ b
key_eq_same a b e =
    let p : a.path ≡ b.path = ground (arith, eq_iff a.path b.path) in
    let i : a.index ≡ b.index = ground (arith, eq_iff a.path b.path) in
    ap₂ (λ (p : String) (i : ℕ). record { path = p; index = i }) p i

pub key_eq_refl : (a : ChunkKey) → key_eq a a ≡ true
key_eq_refl a = ground (arith, eq_iff a.path a.path)

pub key_eq_sym : (a b : ChunkKey) → key_eq a b ≡ false → key_eq b a ≡ false
key_eq_sym a b e = elim (Bool-cases (key_eq b a)) [
  | inr t ↦ t
  | inl t ↦
      let same : b ≡ a = key_eq_same b a t in
      let yes : key_eq a b ≡ true = subst (λ k. key_eq a k ≡ true) (sym same) (key_eq_refl a) in
      absurd cc
]

-- None of the keys is `k`.
abbrev pub Without : ChunkKey → List ChunkKey → Type 0
Without k ks = All (λ j. key_eq j k ≡ false) ks

abbrev pub Differ : List ChunkKey → Type 0
Differ [] = Unit
Differ (k ∷ ks) = Without k ks × Differ ks

abbrev pub Stored : List (ChunkKey × RaBuffer) → List ChunkKey → Type 0
Stored bs ks = All (λ k. is_stored (find_buffer k bs) ≡ true) ks

abbrev pub IsOrderedShard : Shard → Type 0
IsOrderedShard s = Differ s.order × Stored s.buffers s.order

pub find_buffer-remove_buffer :
    (j k : ChunkKey) (bs : List (ChunkKey × RaBuffer))
    → key_eq j k ≡ false
    → find_buffer j (remove_buffer k bs) ≡ find_buffer j bs
unfolding find_buffer remove_buffer
find_buffer-remove_buffer j k [] n = refl
find_buffer-remove_buffer j k ((i, b) ∷ bs) n = elim (Bool-cases (key_eq i k)) [
  | inl t ↦
      let same : i ≡ k = key_eq_same i k t in
      let no : key_eq i j ≡ false = subst (λ x. key_eq x j ≡ false) (sym same) (key_eq_sym j k n) in
      rw (t, no) refl
  | inr t ↦ rw t (ap (λ o. if key_eq i j then some b else o) (find_buffer-remove_buffer j k bs n))
]

-- Removing a key that is not among them leaves the keys stored.
pub Stored-remove_buffer :
    (k : ChunkKey) (bs : List (ChunkKey × RaBuffer)) (ks : List ChunkKey)
    → Without k ks
    → Stored bs ks
    → Stored (remove_buffer k bs) ks
Stored-remove_buffer k bs [] n h = tt
Stored-remove_buffer k bs (j ∷ ks) n h = (
  ap is_stored (find_buffer-remove_buffer j k bs n.0) ∙ h.0,
  Stored-remove_buffer k bs ks n.1 h.1,
)

pub Stored-drop_first :
    (h : Held) (k : ChunkKey) (o : Option RaBuffer) (ks : List ChunkKey)
    → Without k ks
    → Stored h.shard.buffers ks
    → Stored (drop_first h k o).shard.buffers ks
unfolding drop_first
Stored-drop_first h k none ks n s = s
Stored-drop_first h k (some b) ks n s = Stored-remove_buffer k h.shard.buffers ks n s

pub Without-remove_key :
    (k j : ChunkKey) (ks : List ChunkKey) → Without k ks → Without k (remove_key j ks)
unfolding remove_key
Without-remove_key k j [] n = tt
Without-remove_key k j (i ∷ ks) n =
    if_holds (Without k) (key_eq i j) ks (i ∷ remove_key j ks) n.1
      (n.0, Without-remove_key k j ks n.1)

-- Of keys that differ, the one that is removed is gone.
pub remove_key-Without :
    (k : ChunkKey) (ks : List ChunkKey) → Differ ks → Without k (remove_key k ks)
unfolding remove_key
remove_key-Without k [] d = tt
remove_key-Without k (i ∷ ks) d = elim (Bool-cases (key_eq i k)) [
  | inl t ↦
      subst (Without k) (sym (if_of_true _ _ t)) (subst (λ x. Without x ks) (key_eq_same i k t) d.0)
  | inr t ↦ subst (Without k) (sym (if_of_false _ _ t)) (t, remove_key-Without k ks d.1)
]

pub Differ-remove_key : (k : ChunkKey) (ks : List ChunkKey) → Differ ks → Differ (remove_key k ks)
unfolding remove_key
Differ-remove_key k [] d = tt
Differ-remove_key k (i ∷ ks) d =
    if_holds Differ (key_eq i k) ks (i ∷ remove_key k ks) d.1
      (Without-remove_key i k ks d.0, Differ-remove_key k ks d.1)

pub Stored-remove_key :
    (k : ChunkKey) (bs : List (ChunkKey × RaBuffer)) (ks : List ChunkKey)
    → Stored bs ks
    → Stored bs (remove_key k ks)
unfolding remove_key
Stored-remove_key k bs [] s = tt
Stored-remove_key k bs (i ∷ ks) s =
    if_holds (Stored bs) (key_eq i k) ks (i ∷ remove_key k ks) s.1
      (s.0, Stored-remove_key k bs ks s.1)

-- A key that has no chunk is not in the order.
pub Without-Stored :
    (k : ChunkKey) (bs : List (ChunkKey × RaBuffer)) (ks : List ChunkKey)
    → find_buffer k bs ≡ none
    → Stored bs ks
    → Without k ks
Without-Stored k bs [] e s = tt
Without-Stored k bs (j ∷ ks) e s = (
  elim (Bool-cases (key_eq j k)) [
    | inr t ↦ t
    | inl t ↦
        let same : j ≡ k = key_eq_same j k t in
        absurd (false_true (ap is_stored (sym (ap (λ x. find_buffer x bs) same ∙ e)) ∙ s.0))
  ],
  Without-Stored k bs ks e s.1,
)
  where
    false_true : false ≡ true → ⊥
    false_true p = cc
