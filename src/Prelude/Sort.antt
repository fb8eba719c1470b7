-- ===== src/Prelude/Sort.antt =====
-- Sorting by a Boolean comparison, as Go's `sort.SliceStable` does, and predicates on lists.
use Prim.Native.Nat.{ℕ, zero, suc}
use mathlib.Core.Path.{◌≡◌, refl, subst}
use mathlib.Core.Option.{some, some-injective}
use gostream.Prelude.Lists.{get_elem?, set, replicate}
use mathlib.Core.Bool.{Bool, true, false, ◌||◌}
use mathlib.Core.List.{List, [], ◌∷◌, ◌++◌, Perm, perm_middle, append-nil}
use mathlib.Core.List.Perm
use mathlib.Core.Logic.{inl, inr}
use native.Mathlib.Omega.{arith}
use gostream.Prelude.Tests.{if◌then◌else◌, Bool-cases}

abbrev pub All {ℓ κ} : {A : Type ℓ} → (A → Type κ) → List A → Type κ
All P [] = Unit
All P (x ∷ xs) = P x × All P xs

module _ {ℓ κ} {A : Type ℓ} (P : A → Type κ) where
  pub All-get_elem? : (xs : List A) (i : ℕ) (x : A) → All P xs → get_elem? xs i ≡ some x → P x
  All-get_elem? [] i x h e = absurd cc
  All-get_elem? (y ∷ ys) zero x h e = subst P (some-injective y x e) h.0
  All-get_elem? (y ∷ ys) (suc i) x h e = All-get_elem? ys i x h.1 e

  pub All-set : (xs : List A) (i : ℕ) (x : A) → All P xs → P x → All P (set xs i x)
  All-set [] i x h p = tt
  All-set (y ∷ ys) zero x h p = (p, h.1)
  All-set (y ∷ ys) (suc i) x h p = (h.0, All-set ys i x h.1 p)

  pub All-replicate : (n : ℕ) (x : A) → P x → All P (replicate n x)
  All-replicate zero x p = tt
  All-replicate (suc n) x p = (p, All-replicate n x p)

abbrev pub any_of {ℓ} : {A : Type ℓ} → (A → Bool) → List A → Bool
any_of p [] = false
any_of p (x ∷ xs) = p x || any_of p xs

module _ {ℓ} {A : Type ℓ} (less : A → A → Bool) where
  -- A new element goes before the first one that it is less than, so equal ones keep their order.
  unfoldable pub insert_sorted : A → List A → List A
  insert_sorted a [] = a ∷ []
  insert_sorted a (x ∷ xs) = if less a x then a ∷ x ∷ xs else x ∷ insert_sorted a xs

  -- Elements are inserted from the left: an element that comes later and is equal stays behind.
  unfoldable pub sort_onto : List A → List A → List A
  sort_onto out [] = out
  sort_onto out (x ∷ xs) = sort_onto (insert_sorted x out) xs

  unfoldable pub sort_slice : List A → List A
  unfolding sort_onto insert_sorted
  sort_slice xs = sort_onto [] xs

  -- No element is less than one that stands before it.
  abbrev pub IsOrdered : List A → Type ℓ
  IsOrdered [] = Unit
  IsOrdered (x ∷ xs) = All (λ y. less y x ≡ false) xs × IsOrdered xs

  insert_sorted-perm : (a : A) (xs : List A) → Perm (insert_sorted a xs) (a ∷ xs)
  unfolding insert_sorted
  insert_sorted-perm a [] = Perm.refl (a ∷ [])
  insert_sorted-perm a (x ∷ xs) = elim (Bool-cases (less a x)) [
    | inl e ↦ rw e (Perm.refl _)
    | inr e ↦ rw e (Perm.trans (Perm.cons x (insert_sorted-perm a xs)) (Perm.swap a x xs))
  ]

  sort_onto-perm : (out xs : List A) → Perm (sort_onto out xs) (xs ++ out)
  unfolding sort_onto
  sort_onto-perm out [] = Perm.refl out
  sort_onto-perm out (x ∷ xs) =
      Perm.trans (sort_onto-perm (insert_sorted x out) xs)
        (Perm.trans (Perm.append_left xs (insert_sorted-perm x out)) (perm_middle xs out))

  pub sort_slice-perm : (xs : List A) → Perm (sort_slice xs) xs
  unfolding sort_slice
  sort_slice-perm xs = rw append-nil at (sort_onto-perm [] xs)

  All-insert_sorted {κ} :
      (P : A → Type κ) (a : A) (xs : List A) → P a → All P xs → All P (insert_sorted a xs)
  unfolding insert_sorted
  All-insert_sorted P a [] h hs = (h, hs)
  All-insert_sorted P a (x ∷ xs) h hs = elim (Bool-cases (less a x)) [
    | inl e ↦ rw e (h, hs)
    | inr e ↦ rw e (hs.0, All-insert_sorted P a xs h hs.1)
  ]

  All-sort_onto {κ} :
      (P : A → Type κ) (out xs : List A) → All P out → All P xs → All P (sort_onto out xs)
  unfolding sort_onto
  All-sort_onto P out [] h hs = h
  All-sort_onto P out (x ∷ xs) h hs =
      All-sort_onto P (insert_sorted x out) xs (All-insert_sorted P x out hs.0 h) hs.1

  pub All-sort_slice {κ} : (P : A → Type κ) (xs : List A) → All P xs → All P (sort_slice xs)
  unfolding sort_slice
  All-sort_slice P xs h = All-sort_onto P [] xs tt h

  any_of-insert_sorted :
      (p : A → Bool) (a : A) (xs : List A) → any_of p (insert_sorted a xs) ≡ (p a || any_of p xs)
  unfolding insert_sorted
  any_of-insert_sorted p a [] = refl
  any_of-insert_sorted p a (x ∷ xs) = ground (arith, any_of-insert_sorted p a xs)

  any_of-sort_onto :
      (p : A → Bool) (out xs : List A) → any_of p (sort_onto out xs) ≡ (any_of p out || any_of p xs)
  unfolding sort_onto
  any_of-sort_onto p out [] = ground arith
  any_of-sort_onto p out (x ∷ xs) =
      ground (arith, any_of-sort_onto p (insert_sorted x out) xs, any_of-insert_sorted p x out)

  pub any_of-sort_slice : (p : A → Bool) (xs : List A) → any_of p (sort_slice xs) ≡ any_of p xs
  unfolding sort_slice
  any_of-sort_slice p xs = any_of-sort_onto p [] xs

-- A relation of each two, whichever comes first.
abbrev pub AllPairs {ℓ κ} : {A : Type ℓ} → (A → A → Type κ) → List A → Type κ
AllPairs R [] = Unit
AllPairs R (x ∷ xs) = All (R x) xs × AllPairs R xs

module _ {ℓ κ} {A : Type ℓ} (less : A → A → Bool) (R : A → A → Type κ)
    (flip : (x y : A) → R x y → R y x) where
  AllPairs-insert_sorted :
      (a : A) (xs : List A) → All (R a) xs → AllPairs R xs → AllPairs R (insert_sorted less a xs)
  unfolding insert_sorted
  AllPairs-insert_sorted a [] h hs = (tt, tt)
  AllPairs-insert_sorted a (x ∷ xs) h hs = elim (Bool-cases (less a x)) [
    | inl e ↦ rw e (h, hs)
    | inr e ↦ rw e (
      All-insert_sorted less (R x) a xs (flip a x h.0) hs.0,
      AllPairs-insert_sorted a xs h.1 hs.1,
    )
  ]

  All-both :
      (x : A) (out xs : List A)
      → All (R x) xs
      → All (λ y. All (R y) out) xs
      → All (λ y. All (R y) (insert_sorted less x out)) xs
  All-both x out [] h k = tt
  All-both x out (y ∷ ys) h k =
      (All-insert_sorted less (R y) x out (flip x y h.0) k.0, All-both x out ys h.1 k.1)

  AllPairs-sort_onto :
      (out xs : List A)
      → AllPairs R out
      → AllPairs R xs
      → All (λ y. All (R y) out) xs
      → AllPairs R (sort_onto less out xs)
  unfolding sort_onto
  AllPairs-sort_onto out [] h k l = h
  AllPairs-sort_onto out (x ∷ xs) h k l =
      AllPairs-sort_onto (insert_sorted less x out) xs (AllPairs-insert_sorted x out l.0 h) k.1
        (All-both x out xs k.0 l.1)

  pub AllPairs-sort_slice : (xs : List A) → AllPairs R xs → AllPairs R (sort_slice less xs)
  unfolding sort_slice
  AllPairs-sort_slice xs h = AllPairs-sort_onto [] xs tt h (alone xs)
    where
      alone : (ys : List A) → All (λ y. All (R y) []) ys
      alone [] = tt
      alone (y ∷ ys) = (tt, alone ys)

-- What makes the order that sorting leaves unambiguous up to equal elements.
pub record IsWeakOrder {ℓ} {A : Type ℓ} (less : A → A → Bool) : Type ℓ where
  pub asym : (x y : A) → less x y ≡ true → less y x ≡ false
  pub neg_trans : (x y z : A) → less x y ≡ false → less y z ≡ false → less x z ≡ false

module _ {ℓ} {A : Type ℓ} (less : A → A → Bool) (order : IsWeakOrder less) where
  not_less-All :
      (a x : A) (xs : List A)
      → less x a ≡ false
      → All (λ y. less y x ≡ false) xs
      → All (λ y. less y a ≡ false) xs
  not_less-All a x [] h hs = tt
  not_less-All a x (y ∷ xs) h hs = (order.neg_trans y x a hs.0 h, not_less-All a x xs h hs.1)

  insert_sorted-IsOrdered :
      (a : A) (xs : List A) → IsOrdered less xs → IsOrdered less (insert_sorted less a xs)
  unfolding insert_sorted
  insert_sorted-IsOrdered a [] h = (tt, tt)
  insert_sorted-IsOrdered a (x ∷ xs) h = elim (Bool-cases (less a x)) [
    | inl e ↦ rw e ((order.asym a x e, not_less-All a x xs (order.asym a x e) h.0), h)
    | inr e ↦ rw e (
      All-insert_sorted less (λ y. less y x ≡ false) a xs e h.0,
      insert_sorted-IsOrdered a xs h.1,
    )
  ]

  sort_onto-IsOrdered :
      (out xs : List A) → IsOrdered less out → IsOrdered less (sort_onto less out xs)
  unfolding sort_onto
  sort_onto-IsOrdered out [] h = h
  sort_onto-IsOrdered out (x ∷ xs) h =
      sort_onto-IsOrdered (insert_sorted less x out) xs (insert_sorted-IsOrdered x out h)

  pub sort_slice-IsOrdered : (xs : List A) → IsOrdered less (sort_slice less xs)
  unfolding sort_slice
  sort_slice-IsOrdered xs = sort_onto-IsOrdered [] xs tt
