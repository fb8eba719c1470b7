-- ===== src/Prelude/Texts.antt =====
-- The order of Go's strings, and comparisons key by key.
use Prim.Native.String.{String, [], ◌∷◌}
use Prim.Native.Char.{code}
use mathlib.Core.Path.{◌≡◌, refl}
use mathlib.Core.Bool.{Bool, true, false, not, ◌||◌}
use native.Mathlib.Omega.{arith}
use Prim.Native.Nat.{ℕ}
use gostream.Prelude.Tests.{if◌then◌else◌, ltb, ◌==◌}
use gostream.Prelude.Sort.{IsWeakOrder}

-- `<` on strings.
unfoldable pub text_less : String → String → Bool
text_less [] [] = false
text_less [] (d ∷ t) = true
text_less (c ∷ s) [] = false
text_less (c ∷ s) (d ∷ t) =
    let rest = text_less s t in if code c == code d then rest else ltb (code c) (code d)

-- Keys are equal where neither is less, as the numbers of float64 but NaN are.
pub record IsKeyOrder {K : Type 0} (equal less : K → K → Bool) : Type 0 where
  pub order : IsWeakOrder less
  pub ties : (x y : K) → equal x y ≡ not (less x y || less y x)

module _ {ℓ} {A : Type ℓ} {K : Type 0} (key : A → K) (equal less : K → K → Bool)
    (rest : A → A → Bool) where
  -- Elements are compared by a key, and by something else where the keys are equal.
  abbrev pub by_key : A → A → Bool
  by_key x y = if not (equal (key x) (key y)) then less (key x) (key y) else rest x y

  pub by_key-IsWeakOrder : IsKeyOrder equal less → IsWeakOrder rest → IsWeakOrder by_key
  by_key-IsWeakOrder k r = record { asym = asym; neg_trans = neg_trans }
    where
      asym : (x y : A) → by_key x y ≡ true → by_key y x ≡ false
      asym x y h = ground (
        arith,
        k.ties (key x) (key y),
        k.ties (key y) (key x),
        k.order.asym (key x) (key y),
        r.asym x y,
      )

      neg_trans : (x y z : A) → by_key x y ≡ false → by_key y z ≡ false → by_key x z ≡ false
      neg_trans x y z a b = ground (
        arith,
        k.ties (key x) (key y),
        k.ties (key y) (key z),
        k.ties (key x) (key z),
        k.order.asym (key x) (key y),
        k.order.asym (key y) (key z),
        k.order.asym (key x) (key z),
        k.order.asym (key y) (key x),
        k.order.asym (key z) (key y),
        k.order.asym (key z) (key x),
        k.order.neg_trans (key x) (key y) (key z),
        k.order.neg_trans (key z) (key x) (key y),
        k.order.neg_trans (key y) (key z) (key x),
        r.neg_trans x y z,
      )

pub ltb-IsKeyOrder : IsKeyOrder ◌==◌ ltb
ltb-IsKeyOrder = record {
  order = record { asym = λ x y h. ground arith; neg_trans = λ x y z a b. ground arith };
  ties = λ x y. ground arith;
}

abbrev pub gtb : ℕ → ℕ → Bool
gtb m n = ltb n m

pub gtb-IsKeyOrder : IsKeyOrder ◌==◌ gtb
gtb-IsKeyOrder = record {
  order = record { asym = λ x y h. ground arith; neg_trans = λ x y z a b. ground arith };
  ties = λ x y. ground arith;
}

text_less-asym : (s t : String) → text_less s t ≡ true → text_less t s ≡ false
unfolding text_less
text_less-asym [] [] h = refl
text_less-asym [] (d ∷ t) h = refl
text_less-asym (c ∷ s) [] h = ground arith
text_less-asym (c ∷ s) (d ∷ t) h = ground (arith, text_less-asym s t)

text_less-neg_trans :
    (s t u : String) → text_less s t ≡ false → text_less t u ≡ false → text_less s u ≡ false
unfolding text_less
text_less-neg_trans [] [] u h k = k
text_less-neg_trans [] (d ∷ t) u h k = ground arith
text_less-neg_trans (c ∷ s) [] [] h k = refl
text_less-neg_trans (c ∷ s) [] (e ∷ u) h k = ground arith
text_less-neg_trans (c ∷ s) (d ∷ t) [] h k = refl
text_less-neg_trans (c ∷ s) (d ∷ t) (e ∷ u) h k = ground (arith, text_less-neg_trans s t u)

pub text_less-IsWeakOrder : IsWeakOrder text_less
text_less-IsWeakOrder = record { asym = text_less-asym; neg_trans = text_less-neg_trans }
